-- ===== src/Delivery/Enforced.antt =====
-- What clients have sent is what the firewall has banned.
use banip.Base.{
  ℕ, zero, suc, ◌≡◌, refl, sym, ap, ◌∙◌, Bool, true, false, none, Option, List, [], ◌∷◌, ◌++◌, map,
  Bytes, All, All-append, All-append-inv, Returns, Returns->>=, Returns-mono, Returns-both,
  replicate, length,
}
use mathlib.Core.List.{append_assoc, map-append}
use banip.Parse.Word.{Endian}
use banip.Parse.Addr.{Libc, IsLibc, Addr}
use banip.Queue.{QueueApi}
use banip.Queue.Channel.{IsChannel, IsPrompt, sent_if}
use banip.Engine.{Engine, Pointer}
use banip.Daemon.Serve.{Log}
use banip.Daemon.Serve.Round.{Keeps}
use banip.Delivery.{Event, sends, round, System, client_proc, client_sends, next_text, step, run}
use banip.Delivery.Laws.{IsInOrder, IsPolite, client_sends-IsInOrder, one_round-Takes}
use banip.Delivery.Drain.{IsDrained, run-IsDrained}
use banip.Delivery.Bans.{IsEnforcer, IsRead, HasSetting, one_round-adds}

module _ {W : Type 0} (endian : Endian) (lib : Libc) (L : IsLibc lib) (log : Log W)
    (sender receiver : QueueApi W) (engine : Engine W) (C : IsChannel sender receiver)
    {Ban : Type 0} (mark : Addr → Ban) (banned : W → List Ban) (ctxt : Option (Pointer engine.Ctxt))
    (table : Bytes)
    (E : IsEnforcer endian lib L log sender receiver engine C mark banned ctxt table)
    (keeps : (c : List Bytes)
      → Keeps endian lib log receiver engine (λ w. (C.contents w ≡ c) × C.IsIntact w))
    (start : List Bytes) (first : List Ban) (read : Bytes → Addr) where
  abbrev TheSystem : Type 0
  TheSystem = System endian lib log sender receiver engine

  abbrev IsOf : Bytes → Type 0
  IsOf text = IsRead endian lib L log sender receiver engine C text (read text)

  abbrev marks_of : List Bytes → List Ban
  marks_of texts = map mark (map read texts)

  abbrev IsGiven : TheSystem → Type 0
  IsGiven s = HasSetting endian lib L log sender receiver engine C mark banned ctxt table s.server

  -- The server has the context and the table, the texts have arrived in order, each sent text is that of an
  -- address, and what is banned is what was banned at the start, and then the marks of the addresses of the
  -- texts that were received.
  pub record IsEnforced (s : TheSystem) : Type 0 where
    pub given : IsGiven s
    pub order : IsInOrder endian lib L log sender receiver engine C keeps start s
    pub all_read : All IsOf (start ++ s.accepted)
    pub enforced : banned s.server.proc.world ≡ first ++ marks_of s.received

  abbrev pub SendsAddress : Event → Type 0
  SendsAddress (sends who errno text) = IsOf text
  SendsAddress round = Unit

  All-sent_if : (ok : Bool) (text : Bytes) → IsOf text → All IsOf (sent_if ok text)
  All-sent_if true text h = (h, tt)
  All-sent_if false text h = tt

  client_sends-kept :
      (who errno : ℕ) (text : Bytes) (s : TheSystem)
      → C.IsText text
      → IsOf text
      → IsEnforced s
      → Returns
          (λ s'.
            (banned s'.server.proc.world ≡ first ++ marks_of s'.received)
            × All IsOf (start ++ s'.accepted)
            × IsGiven s')
          (client_sends endian lib log sender receiver engine who errno text s)
  unfolding client_sends
  client_sends-kept who errno text s can reads inv =
      let p = client_proc endian lib log sender receiver engine errno s in
      Returns->>= (λ r. banned r.2.world ≡ banned s.server.proc.world) _
        (sender.queue_send (s.clients who) text none p) _
        (E.apart.sending (s.clients who) text p (inv.order.open_senders who) can inv.order.intact
          refl)
        λ (ok, q, p') same. (
          same ∙ inv.enforced,
          rw (sym (append_assoc start s.accepted (sent_if ok text)))
              (All-append IsOf (start ++ s.accepted) _ inv.all_read (All-sent_if ok text reads)),
          inv.given,
        )

  marks-append : (xs ys : List Bytes) → marks_of (xs ++ ys) ≡ marks_of xs ++ marks_of ys
  marks-append xs ys = ap (map mark) (map-append read xs ys) ∙ map-append mark (map read xs) _

  step-IsEnforced :
      (event : Event) (s : TheSystem)
      → IsPolite endian lib L log sender receiver engine C keeps event
      → SendsAddress event
      → IsEnforced s
      → Returns IsEnforced (step endian lib log sender receiver engine event s)
  unfolding step
  step-IsEnforced (sends who errno text) s (can, sound) reads inv =
      Returns-mono _ IsEnforced _
        (Returns-both _ _ _
          (client_sends-IsInOrder endian lib L log sender receiver engine C keeps start who errno
            text s can sound inv.order)
          (client_sends-kept who errno text s can reads inv))
        λ s' (order, (enforced, all_read, given)). record {
          given = given;
          order = order;
          all_read = all_read;
          enforced = enforced;
        }
  step-IsEnforced round s polite reads inv =
      let (was_received, waits) =
        All-append-inv IsOf s.received _ (rw (sym inv.order.in_order) at inv.all_read) in
      Returns-mono _ IsEnforced _
        (Returns-both _ _ _
          (one_round-Takes endian lib L log sender receiver engine C keeps start s inv.order)
          (one_round-adds endian lib L log sender receiver engine C mark banned ctxt table E keeps
            start read s inv.order inv.given waits))
        λ s' ((order, taken, same), (grown, more, given)). record {
          given = given;
          order = order;
          all_read = rw same inv.all_read;
          enforced = rw more (
              grown
              ∙ ap
                  (λ (t : List Ban).
                    t ++ marks_of (next_text endian lib log sender receiver engine s.server))
                  inv.enforced
              ∙ append_assoc first (marks_of s.received) _
              ∙ ap (λ (t : List Ban). first ++ t) (sym (marks-append s.received _)));
        }

  -- Over a channel, and with an engine that, with the context and the table of the server, bans every
  -- address that it is given, by a mark of it on a list that the queue and the log leave alone: for
  -- every interleaving of clients that send sound texts, each that of an address, with rounds of the
  -- daemon, the run returns, and what is banned is what was banned at the start, and then the marks of
  -- the addresses of the texts that the daemon has received, once for each and in order; these texts,
  -- and then those that wait, are those that waited at the start, and then those that were accepted.
  pub run-IsEnforced :
      (events : List Event) (s : TheSystem)
      → All (IsPolite endian lib L log sender receiver engine C keeps) events
      → All SendsAddress events
      → IsEnforced s
      → Returns IsEnforced (run endian lib log sender receiver engine events s)
  unfolding run
  run-IsEnforced [] s polite reads inv = inv
  run-IsEnforced (event ∷ rest) s polite reads inv =
      Returns->>= IsEnforced IsEnforced (step endian lib log sender receiver engine event s) _
        (step-IsEnforced event s polite.0 reads.0 inv)
        λ s' inv'. run-IsEnforced rest s' polite.1 reads.1 inv'

  replicate-IsPolite :
      (n : ℕ) → All (IsPolite endian lib L log sender receiver engine C keeps) (replicate n round)
  replicate-IsPolite zero = tt
  replicate-IsPolite (suc n) = (tt, replicate-IsPolite n)

  replicate-SendsAddress : (n : ℕ) → All SendsAddress (replicate n round)
  replicate-SendsAddress zero = tt
  replicate-SendsAddress (suc n) = (tt, replicate-SendsAddress n)

  -- Over a channel that gives a text that waits, with an engine that, with the context and the table
  -- of the server, bans every address that it is given, by a mark of it on a list, and when all texts
  -- that wait or have arrived are those of addresses: after as many rounds as there are texts that
  -- wait, if no client sends meanwhile, nothing waits any more, and what is banned is what was banned
  -- at the start, and then the marks of the addresses of all texts that waited then or were accepted
  -- since, once for each and in order.
  pub run-bans_all :
      (n : ℕ) (s : TheSystem)
      → IsPrompt sender receiver C
      → IsEnforced s
      → length (C.contents s.server.proc.world) ≡ n
      → Returns
          (λ s'.
            (C.contents s'.server.proc.world ≡ [])
            × (banned s'.server.proc.world ≡ first ++ marks_of (start ++ s.accepted)))
          (run endian lib log sender receiver engine (replicate n round) s)
  run-bans_all n s prompt inv many =
      Returns-mono
        (λ s'.
          IsDrained endian lib L log sender receiver engine C prompt keeps start s s'
          × IsEnforced s')
        _ _
        (Returns-both (IsDrained endian lib L log sender receiver engine C prompt keeps start s)
          IsEnforced _
          (run-IsDrained endian lib L log sender receiver engine C prompt keeps start n s inv.order
            many)
          (run-IsEnforced (replicate n round) s (replicate-IsPolite n) (replicate-SendsAddress n)
            inv))
        λ s' ((same, nothing, all), inv'). (nothing, rw (sym all) inv'.enforced)
