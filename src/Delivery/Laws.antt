-- ===== src/Delivery/Laws.antt =====
-- Every text that a client sends arrives once and in order, whatever the interleaving.
use banip.Base.{
  Bool-cases, inl, inr, ◌==◌, ℕ, ◌≡◌, refl, sym, ap, ◌∙◌, Bool, true, false, none, List, [], ◌∷◌,
  ◌++◌, Bytes, All, All-append, All-append-inv, Returns, Returns->>=, Returns-inv, Returns-mono,
  subst,
}
use mathlib.Core.List.{append_assoc}
use banip.Error.{empty, Reports}
use banip.Process.{Proc}
use banip.Parse.Word.{Endian}
use banip.Parse.Addr.{Libc, IsLibc}
use banip.Parse.Addr.Errors.{HasGoodPrefix}
use banip.Queue.{QueueApi, Received, message, no_message, got}
use banip.Queue.Channel.{IsChannel, heard, sent_if}
use banip.Engine.{Engine}
use banip.Daemon.Serve.{Log, Server, serve_one}
use banip.Daemon.Serve.Round.{Keeps, Ends, handle_received-Ends}
use banip.Delivery.{
  set_client, Event, sends, round, System, client_proc, client_sends, next_text, one_round, step,
  run,
}

-- A text that `parse_addr` treats without undefined behaviour.
abbrev pub IsSound : Bytes → Type 0
IsSound text = (errno : ℕ) → HasGoodPrefix text errno

module _ {W : Type 0} (endian : Endian) (lib : Libc) (L : IsLibc lib) (log : Log W)
    (sender receiver : QueueApi W) (engine : Engine W) (C : IsChannel sender receiver)
    (keeps : (c : List Bytes)
      → Keeps endian lib log receiver engine (λ w. (C.contents w ≡ c) × C.IsIntact w)) where
  abbrev TheSystem : Type 0
  TheSystem = System endian lib log sender receiver engine

  abbrev pub contents_of : TheSystem → List Bytes
  contents_of s = C.contents s.server.proc.world

  -- No error is pending, all sides have the queue open, and what waits is intact and sound. What has been received,
  -- and then what waits, is what waited at the start, and then what was accepted.
  pub record IsInOrder (start : List Bytes) (s : TheSystem) : Type 0 where
    pub no_error : s.server.proc.env.slot ≡ empty
    pub open_receiver : C.IsReceiver s.server.queue s.server.size
    pub open_senders : (i : ℕ) → C.IsSender (s.clients i)
    pub intact : C.IsIntact s.server.proc.world
    pub sound : All IsSound (contents_of s)
    pub in_order : s.received ++ contents_of s ≡ start ++ s.accepted

  -- The events of clients send texts that can be sent, and that are sound.
  abbrev pub IsPolite : Event → Type 0
  IsPolite (sends who errno text) = C.IsText text × IsSound text
  IsPolite round = Unit

  All-sent_if : (ok : Bool) (text : Bytes) → IsSound text → All IsSound (sent_if ok text)
  All-sent_if true text h = (h, tt)
  All-sent_if false text h = tt

  set_client-IsSender :
      (who : ℕ) (q : sender.Queue) (clients : ℕ → sender.Queue) (i : ℕ)
      → C.IsSender q
      → ((j : ℕ) → C.IsSender (clients j))
      → C.IsSender (set_client endian lib log sender receiver engine who q clients i)
  set_client-IsSender who q clients i open_q others = elim (Bool-cases (i == who)) [
    | inl same ↦ rw same open_q
    | inr other ↦ rw other (others i)
  ]

  pub client_sends-IsInOrder :
      (start : List Bytes) (who errno : ℕ) (text : Bytes) (s : TheSystem)
      → C.IsText text
      → IsSound text
      → IsInOrder start s
      → Returns
          (IsInOrder start)
          (client_sends endian lib log sender receiver engine who errno text s)
  unfolding client_sends
  client_sends-IsInOrder start who errno text s can sound inv =
      let p = client_proc endian lib log sender receiver engine errno s in
      Returns->>=
        (λ r.
          Reports r.0 r.2.env.slot
          × C.IsSender r.1
          × (C.contents r.2.world ≡ C.contents p.world ++ sent_if r.0 text)
          × C.IsIntact r.2.world)
        (IsInOrder start) (sender.queue_send (s.clients who) text none p) _
        (C.sends (s.clients who) text p (inv.open_senders who) can inv.intact refl)
        λ (ok, q, p') (reports, still, grown, intact). record {
          no_error = inv.no_error;
          open_receiver = inv.open_receiver;
          open_senders = λ i. set_client-IsSender who q s.clients i still inv.open_senders;
          intact = intact;
          sound = rw grown (All-append IsSound _ _ inv.sound (All-sent_if ok text sound));
          in_order = rw grown (
              sym (append_assoc s.received (contents_of s) (sent_if ok text))
              ∙ ap (λ (t : List Bytes). t ++ sent_if ok text) inv.in_order
              ∙ append_assoc start s.accepted (sent_if ok text));
        }

  heard-IsSound :
      (r : Received) (rest : List Bytes)
      → All IsSound (heard r ++ rest)
      → (n : ℕ) (text : Bytes) → r ≡ message n text
      → IsSound text
  heard-IsSound (message m t) rest sound n text same =
      let same_text : t ≡ text = cc same in subst IsSound same_text sound.0
  heard-IsSound no_message rest sound n text same = absurd (cc same)

  -- What a round leaves: the text that it received no longer waits.
  abbrev pub Takes : List Bytes → TheSystem → TheSystem → Type 0
  Takes start s s' =
      IsInOrder start s'
      × (contents_of s ≡ next_text endian lib log sender receiver engine s.server ++ contents_of s')
      × (s'.accepted ≡ s.accepted)

  pub one_round-Takes :
      (start : List Bytes) (s : TheSystem)
      → IsInOrder start s
      → Returns (Takes start s) (one_round endian lib log sender receiver engine s)
  unfolding one_round serve_one
  one_round-Takes start s inv =
      let server = s.server in
      let (r, run, (reports, still, taken, intact)) =
        Returns-inv
          (λ (r : Received × receiver.Queue × Proc W).
            Reports (got r.0) r.2.env.slot
            × C.IsReceiver r.1 server.size
            × (C.contents server.proc.world ≡ heard r.0 ++ C.contents r.2.world)
            × C.IsIntact r.2.world)
          _
          (C.receives server.queue server.size server.proc inv.open_receiver inv.intact
            inv.no_error) in
      let after : Server endian lib log receiver engine = record server {
        queue = r.1;
        proc = r.2;
      } in
      rw (run, serve_one)
        (Returns->>= (Ends endian lib log receiver engine L _ (keeps (C.contents r.2.world)) after)
          (Takes start s) _ _
          (handle_received-Ends endian lib log receiver engine L _ (keeps (C.contents r.2.world))
            after r.0 reports (refl, intact) (heard-IsSound r.0 _ (rw taken at inv.sound)))
          λ server' (clean, (same_contents, intact'), same_queue, same_size, same_ctxt). (
            record {
              no_error = clean;
              open_receiver = rw (same_queue, same_size) still;
              open_senders = inv.open_senders;
              intact = intact';
              sound =
                  rw same_contents (All-append-inv IsSound (heard r.0) _ (rw taken at inv.sound)).1;
              in_order =
                  rw (run, next_text, same_contents)
                    (append_assoc s.received (heard r.0) (C.contents r.2.world)
                      ∙ ap (λ (t : List Bytes). s.received ++ t) (sym taken)
                      ∙ inv.in_order);
            },
            rw (run, next_text, same_contents) taken,
            refl,
          ))

  step-IsInOrder :
      (start : List Bytes) (event : Event) (s : TheSystem)
      → IsPolite event
      → IsInOrder start s
      → Returns (IsInOrder start) (step endian lib log sender receiver engine event s)
  unfolding step
  step-IsInOrder start (sends who errno text) s (can, sound) inv =
      client_sends-IsInOrder start who errno text s can sound inv
  step-IsInOrder start round s polite inv =
      Returns-mono (Takes start s) (IsInOrder start) _ (one_round-Takes start s inv) λ s' h. h.0

  -- Over a channel, and with an engine and a log that leave the waiting texts alone: for every
  -- interleaving of clients that send sound texts with rounds of the daemon, the run returns, with no
  -- error pending, and the texts that the daemon has received, followed by those that wait, are those
  -- that waited at the start, followed by those that `queue_send` accepted, each once and in order.
  pub run-IsInOrder :
      (start : List Bytes) (events : List Event) (s : TheSystem)
      → All IsPolite events
      → IsInOrder start s
      → Returns (IsInOrder start) (run endian lib log sender receiver engine events s)
  unfolding run
  run-IsInOrder start [] s polite inv = inv
  run-IsInOrder start (event ∷ rest) s (polite, others) inv =
      Returns->>= (IsInOrder start) (IsInOrder start)
        (step endian lib log sender receiver engine event s) _
        (step-IsInOrder start event s polite inv) λ s' inv'. run-IsInOrder start rest s' others inv'
