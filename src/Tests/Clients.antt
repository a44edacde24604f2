-- ===== src/Tests/Clients.antt =====
-- The modules for Varnish and Apache, over a POSIX queue.
use banip.Base.{
  ℕ, ◌≡◌, arith, refl, true, false, [], ◌∷◌, Option, some, none, Bytes, codes, str_eq, ◌==◌,
  undefined, use_after_free, if◌then◌else◌, Returns,
}
use banip.Error.{null, empty, full, system, error_set}
use banip.Process.{Proc, set_slot}
use banip.Queue.Posix.{
  PosixQueue, initial, posix_queue, queue_init, queue_open, queue_send, queue_close,
}
use banip.Queue.Posix.Contract.{posix_terms, posix_queue-IsQueue}
use banip.Varnish.{Server, Mqueue, mqueue_init, mqueue_sendmsg}
use banip.Varnish.Laws.{IsUsable, KeptOrDead, Sends, mqueue_sendmsg-Sends, mqueue_init-IsKept}
use banip.Apache.{Httpd, Request, find_variable, lookup, plain, Rule, ServerConf}
use banip.Apache.Rules.{argument, header, equal, no_value, value, first_matches, first_passes}
use banip.Apache.Hooks.{
  Status, State, declined, internal_server_error, banip_fixup, banip_post_config,
}
use banip.Apache.Laws.{Decided, banip_fixup-Decided, banip_post_config-inverted}
use banip.Apache.Stale.{banip_fixup-second}
use banip.Tests.Queue.{name, process}
use banip.Tests.Start.{calm_kernel}

abbrev varnish : Server ℕ
varnish = record { log = λ slot w. w; alloc = λ w. (true, w) }

abbrev object : Mqueue (posix_queue calm_kernel) varnish
object = record { queue = some initial; queue_name = name }

usable :
    IsUsable
      (posix_queue calm_kernel)
      (posix_terms calm_kernel)
      (posix_queue-IsQueue calm_kernel)
      varnish
      object
usable = record { the_queue = initial; queue_is = refl; is_open = tt }

-- The kernel refuses the message, and the log is there.
mqueue_sendmsg-Sends_example :
    Sends
      (posix_queue calm_kernel)
      (posix_terms calm_kernel)
      (posix_queue-IsQueue calm_kernel)
      varnish
      true
      name
      empty
      false
      (mqueue_sendmsg (posix_queue calm_kernel) varnish true object (codes "10.1.2.3") (process 0))
unfolding queue_send error_set usable
mqueue_sendmsg-Sends_example =
    mqueue_sendmsg-Sends (posix_queue calm_kernel) (posix_terms calm_kernel)
      (posix_queue-IsQueue calm_kernel) varnish true object usable (codes "10.1.2.3") (process 0)
      (record {
        env = record { errno = 11; slot = full (system "mq_send failed to send \"%.*s\"" 11) };
        umask = 18;
        world = 0;
      })
      false initial tt refl

closes :
    (q : PosixQueue) (p : Proc ℕ)
    → p.env.slot ≡ null
    → Returns (λ r. r.0 ≡ true) (queue_close calm_kernel (some q) p)
unfolding queue_close
closes q p quiet = ground arith

-- An object whose queue is opened. The kernel opens every name.
mqueue_init-IsKept_example :
    KeptOrDead
      (posix_queue calm_kernel)
      (posix_terms calm_kernel)
      (posix_queue-IsQueue calm_kernel)
      varnish
      name
      empty
      (mqueue_init (posix_queue calm_kernel) varnish true name (process 0))
unfolding queue_init
mqueue_init-IsKept_example =
    mqueue_init-IsKept (posix_queue calm_kernel) (posix_terms calm_kernel)
      (posix_queue-IsQueue calm_kernel) varnish (λ w. refl) closes true name initial (process 0)
      (process 0) refl tt

-- Nothing is in a table but one header; a pattern is compared as it is.
abbrev httpd : Httpd Bytes (Bytes → Option Bytes)
httpd = record {
  regcomp = λ pattern. some pattern;
  regexec = λ r s. str_eq r s;
  table_get = λ t name. t name;
  table_unset = λ t unset name. if str_eq name unset then none else t name;
  getenv = λ name. none;
}

abbrev headers : Bytes → Option Bytes
headers name = if str_eq name (codes "User-Agent") then some (codes "bot") else none

abbrev request : Request (Bytes → Option Bytes)
request = record {
  pool = 2;
  alive = λ n. n == 2;
  uri = codes "/index.html";
  subprocess_env = λ name. none;
  notes = λ name. none;
  headers_in = headers;
  headers_out = λ name. none;
  err_headers_out = λ name. none;
  args = λ name. none;
  useragent_ip = codes "10.1.2.3";
}

abbrev rule : Rule Bytes
rule = record {
  what = some (codes "HTTP:User-Agent");
  pattern = codes "bot";
  regexp = none;
  compiler = plain;
}

abbrev conf : ServerConf Bytes
conf = record { queue_name = some name; enabled = true; rules = rule ∷ [] }

-- A rule for an argument, and the one for the header.
abbrev page_rule : Rule Bytes
page_rule = record rule { what = some (codes "GET:page"); pattern = codes "login" }

abbrev two_rules : ServerConf Bytes
two_rules = record conf { rules = page_rule ∷ rule ∷ [] }

abbrev write_nothing : Bytes → ℕ → ℕ
write_nothing text w = w

-- The process with `NULL` for the error.
abbrev silent : Proc ℕ
silent = set_slot (process 0) null

abbrev at_start : State (posix_queue calm_kernel) httpd write_nothing
at_start = record { queue = some initial; get = none; proc = process 0 }

banip_fixup-Decided_example :
    Returns
      (Decided
        (posix_queue calm_kernel)
        (posix_terms calm_kernel)
        (posix_queue-IsQueue calm_kernel)
        httpd
        write_nothing
        at_start
        true)
      (banip_fixup (posix_queue calm_kernel) httpd write_nothing two_rules request at_start)
banip_fixup-Decided_example =
    banip_fixup-Decided (posix_queue calm_kernel) (posix_terms calm_kernel)
      (posix_queue-IsQueue calm_kernel) httpd write_nothing two_rules request at_start initial true
      refl tt tt refl tt
      (first_passes page_rule (rule ∷ []) true (no_value (argument (codes "page"))) (
        first_matches rule []
          (value (codes "bot") true (header (codes "User-Agent")) (equal refl refl))))

abbrev opened : PosixQueue
opened = record initial { mq = some 3 }

banip_post_config-inverted_example :
    Returns
      (λ (t : Status × State (posix_queue calm_kernel) httpd write_nothing).
        (t.0 ≡ internal_server_error) × (true ≡ false → t.1.queue ≡ some opened))
      (banip_post_config (posix_queue calm_kernel) httpd write_nothing false conf at_start)
unfolding queue_init queue_open
banip_post_config-inverted_example =
    banip_post_config-inverted (posix_queue calm_kernel) (posix_terms calm_kernel)
      (posix_queue-IsQueue calm_kernel) httpd write_nothing conf name at_start initial silent refl
      refl true opened silent refl refl

-- A request before that one, with a pool of its own, and what it leaves behind.
abbrev earlier : Request (Bytes → Option Bytes)
earlier = record request { pool = 1; alive = λ n. n == 1 }

abbrev page_only : ServerConf Bytes
page_only = record conf { rules = page_rule ∷ [] }

abbrev after_request : State (posix_queue calm_kernel) httpd write_nothing
after_request = record at_start { get = some (record { pool = 1; table = earlier.args }) }

banip_fixup-second_example :
    banip_fixup (posix_queue calm_kernel) httpd write_nothing page_only request after_request
    ≡ undefined use_after_free
unfolding find_variable lookup banip_fixup
banip_fixup-second_example =
    banip_fixup-second (posix_queue calm_kernel) httpd write_nothing page_only earlier request
      page_rule [] (codes "page") at_start (declined, after_request) refl refl refl refl refl refl
