-- ===== src/Lib.antt =====
-- banip: a daemon that takes addresses from a message queue and bans them with a firewall.
--
-- A client (banip-cli.c, or a web server) sends the text of an address, with a prefix length or
-- without, through a message queue. The daemon (banipd.c) opens the queue as its owner, and in
-- its loop receives a text, parses it (parse.c) and hands the address to a firewall engine, which
-- engine.c chose from those that were built in. Every fallible call takes `char **error`, in
-- which queues/error.c leaves a message.
--
-- The files, by the parts of the program:
--   Error      queues/error.c: `_error_set` and `error_free` on the state of the caller's variable,
--              null, empty or full, and in Error/Text with the text and the memory for it. A run
--              that would pass a wrong pointer to `free`, or leave an array, ends in the fault
--              that Base/Run lists; what follows it is not modelled.
--   Process    what calls share: `errno`, the error, the mode mask and the world behind the system
--              calls.
--   Parse      parse.c: `parse_ulong` in Parse/Ulong over `strtoul` in Parse/Strtoul, the mask at
--              the end of `parse_addr` in Parse/Mask, and all of `parse_addr` in Parse/Addr. The
--              four words of an address are what the host reads from memory; the byte order of the
--              host is a parameter, `Endian`.
--   Queue      queues/queue.h as a record of operations, with what it promises in Queue/Contract;
--              queues/posix.c in Queue/Posix and queues/systemv.c in Queue/Systemv fill both.
--              Queue/Channel is what a queue promises to a sender and a receiver.
--   Engine     engine.c and engine.h: the interface of an engine as a record, the table and its
--              searches; command.c, ipset.c and dummy.c in Engine/Command, iptables.c in
--              Engine/Iptables, pf.c in Engine/Pf, npf.c in Engine/Npf and nftables.c in
--              Engine/Nftables.
--   Daemon     banipd.c: the options in Daemon/Options, the rest of `main` before its loop as a list
--              of steps in Daemon/Start, the loop in Daemon/Serve, `cleanup` and `on_signal` in
--              Daemon/Cleanup; Daemon/Block joins the start, the loop and the end, and
--              Daemon/Main puts the options before them. The static variables are a record,
--              `Statics`. Daemon/Life has the rounds with the signals between them as steps,
--              Daemon/Life/Block the start, the loop, the end and the cleanup at the exit,
--              Daemon/Log `_verr` and `usage`.
--   Delivery   the clients and the daemon on one queue: an interleaving is a list of events, each a
--              text that one of the clients sends or a round of the daemon. Delivery/Bans and
--              Delivery/Enforced follow the addresses to the firewall, and Delivery/Engines has
--              what the engines dummy and ipset do with them.
--   Cli        banip-cli.c: `main`.
--   Pftest     pftest.c: `main`, which bans one address.
--   Varnish    clients/varnish4/vmod_msgsend.c, over the queue's interface.
--   Apache     clients/apache24/mod_banip.c: the rules and the directives, and in Apache/Hooks the
--              hooks, over the queue's interface; Apache/Rules tells a rule by what it
--              names, Apache/Tries is about one rule, Apache/Stale about the GET arguments.
--   Base       Booleans, lists over the native numbers, bits, and the outcome of a run.
--   Tests      a resolver, a kernel and a shell with which the definitions run.
--
-- Numbers are natural numbers; `unsigned long` has 64 bits, and `netmask`, a `uint8_t`, is cut to
-- 8 where it is stored. A text is the list of its bytes before the terminating zero.
--
-- The first loop of the mask runs on fuel, one more than the prefix, of which each round takes
-- away 32; the other loops are structural. The daemon's loop has no end, and `serve n` is its
-- first n rounds. The loop of nftables.c runs on fuel, for which a bound on the messages to come
-- is enough.
--
-- The calls of the C library and of the system, those of libnftnl, libmnl, Varnish and httpd, and
-- the logs are parameters; what is relied on stands in `IsLibc`, `HasNames`, `HasLimits`,
-- `HasUsers`, `KeepsNames`, `HasLines`, `HasCommands` and `IsFinite`. The start and the loop of
-- the daemon take the queue and the engine with the laws `StartParts` and `Parts`, which the
-- POSIX queue and the dummy engine fulfil; the clients and the daemon's `main` take the queue
-- with the contract `IsQueue`, which both queues fulfil. Delivery takes a queue with the laws
-- `IsChannel` and `IsPrompt`, which both queues fulfil over the calls that `HasMessages`
-- describes, and with the laws `Keeps` and `IsEnforcer` for the engine, of which the engines
-- dummy and ipset fulfil the second over a shell with `HasLines` or `HasCommands`.
--
-- Not modelled: a signal inside a round; the arguments that are printed into a message, of which
-- the rest of the model keeps the format alone; `getopt_long` and the registration of signal
-- handlers, hooks and directives; a failing `strdup` in `parse_addr`; Capsicum, which
-- queues/capsicum.h disables; the table `iptables_engine`, whose function has not the type of its
-- field; the table `nftables_engine`, which lacks a field; missing/strlcpy.c, which is a copy of
-- the library function. npf.c and nftables.c do not compile as they are; what their texts lack is
-- said in the files that model them.
pub mod Base
pub mod Error
pub mod Parse
pub mod Process
pub mod Queue
pub mod Engine
pub mod Daemon
pub mod Cli
pub mod Pftest
pub mod Varnish
pub mod Apache
pub mod Delivery
mod Tests
