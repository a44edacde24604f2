-- ===== src/Delivery/Drain.antt =====
-- The rounds that it takes the daemon to receive all that waits.
use banip.Base.{
  ℕ, zero, suc, ◌≡◌, refl, sym, ap, ◌∙◌, true, List, [], ◌∷◌, ◌++◌, Bytes, length, length-append,
  replicate, Returns, Returns->>=, Returns-inv, Returns-mono, arith,
}
use mathlib.Core.List.{append-nil}
use banip.Process.{Proc}
use banip.Parse.Word.{Endian}
use banip.Parse.Addr.{Libc, IsLibc}
use banip.Queue.{QueueApi, Received, message, no_message, got}
use banip.Queue.Channel.{IsChannel, IsPrompt, heard}
use banip.Engine.{Engine}
use banip.Daemon.Serve.{Log}
use banip.Daemon.Serve.Round.{Keeps}
use banip.Delivery.{round, System, next_text, one_round, step, run}
use banip.Delivery.Laws.{IsInOrder, Takes, one_round-Takes}

module _ {W : Type 0} (endian : Endian) (lib : Libc) (L : IsLibc lib) (log : Log W)
    (sender receiver : QueueApi W) (engine : Engine W) (C : IsChannel sender receiver)
    (prompt : IsPrompt sender receiver C)
    (keeps : (c : List Bytes)
      → Keeps endian lib log receiver engine (λ w. (C.contents w ≡ c) × C.IsIntact w)) where
  abbrev TheSystem : Type 0
  TheSystem = System endian lib log sender receiver engine

  abbrev waiting_in : TheSystem → List Bytes
  waiting_in s = C.contents s.server.proc.world

  heard_one : (r : Received) → got r ≡ true → length (heard r) ≡ 1
  heard_one (message n text) h = refl
  heard_one no_message h = absurd (cc h)

  next_text-one :
      (start : List Bytes) (s : TheSystem) (n : ℕ)
      → IsInOrder endian lib L log sender receiver engine C keeps start s
      → length (waiting_in s) ≡ suc n
      → length (next_text endian lib log sender receiver engine s.server) ≡ 1
  next_text-one start s n inv many = one (waiting_in s) refl many
    where
      one :
          (c : List Bytes)
          → waiting_in s ≡ c
          → length c ≡ suc n
          → length (next_text endian lib log sender receiver engine s.server) ≡ 1
      one [] same none_left = absurd (omega arith)
      one (text ∷ rest) same some_left =
          let (r, run, there) =
            Returns-inv (λ (r : Received × receiver.Queue × Proc W). got r.0 ≡ true) _
              (prompt.waiting s.server.queue s.server.size s.server.proc text rest inv.open_receiver
                inv.intact same inv.no_error) in
          rw (run, next_text) (heard_one r.0 there)

  -- Nothing waits any more, and all that was accepted has been received.
  abbrev pub IsDrained : List Bytes → TheSystem → TheSystem → Type 0
  IsDrained start s s' =
      (s'.accepted ≡ s.accepted) × (waiting_in s' ≡ []) × (s'.received ≡ start ++ s.accepted)

  nil_of : (c : List Bytes) → length c ≡ 0 → c ≡ []
  nil_of [] h = refl
  nil_of (x ∷ c) h = absurd (omega arith)

  -- Over a channel in which a text that waits is received: after as many rounds as there are texts that
  -- wait, if no client sends meanwhile, the daemon has received every text that was accepted.
  pub run-IsDrained :
      (start : List Bytes) (n : ℕ) (s : TheSystem)
      → IsInOrder endian lib L log sender receiver engine C keeps start s
      → length (C.contents s.server.proc.world) ≡ n
      → Returns
          (IsDrained start s)
          (run endian lib log sender receiver engine (replicate n round) s)
  unfolding run step
  run-IsDrained start zero s inv many =
      let nothing = nil_of (waiting_in s) many in
      (refl, nothing, sym (append-nil s.received) ∙ (rw nothing at inv.in_order))
  run-IsDrained start (suc n) s inv many =
      Returns->>= (Takes endian lib L log sender receiver engine C keeps start s)
        (IsDrained start s) (one_round endian lib log sender receiver engine s) _
        (one_round-Takes endian lib L log sender receiver engine C keeps start s inv)
        λ s' (inv', taken, same).
          let fewer : length (waiting_in s') ≡ n = omega (
            arith,
            next_text-one start s n inv many,
            length-append (next_text endian lib log sender receiver engine s.server)
                (waiting_in s'),
            ap length taken,
          ) in
          Returns-mono (IsDrained start s') (IsDrained start s) _
            (run-IsDrained start n s' inv' fewer)
            λ t (kept, nothing, all). (kept ∙ same, nothing, rw (sym same) all)
