-- ===== src/Daemon/Serve/Round.antt =====
-- What follows a call of `queue_receive` in a round of the daemon, for any property of the world that the
-- engine and the log keep.
use banip.Base.{
  ℕ, ◌≡◌, refl, ◌≢◌, inl, inr, Bool, true, false, Option, Bytes, Returns, Returns->>=, Returns-inv,
  Bool-cases,
}
use banip.Error.{Slot, null, empty, full, error_free-empty, IsFull, Reports}
use banip.Process.{Proc}
use banip.Parse.Word.{Endian}
use banip.Parse.Addr.{Libc, IsLibc, Addr, AddrParse}
use banip.Parse.Addr.WellFormed.{IsWellFormed, parse_addr-IsWellFormed}
use banip.Parse.Addr.Errors.{HasGoodPrefix, env-clean, parse_addr-Reports}
use banip.Queue.{got, QueueApi, Received, message, no_message}
use banip.Engine.{Engine, Pointer}
use banip.Daemon.Serve.{Log, Server, log_error, set_env, handle_text, finish_round, handle_received}

-- After a success no message is left; after a failure there may be one, in the caller's variable.
abbrev pub Settles : Bool → Slot → Type 0
Settles true slot = slot ≡ empty
Settles false slot = slot ≢ null

pub ne_null : (slot : Slot) → IsFull slot → slot ≢ null
ne_null null h e = h
ne_null empty h e = h
ne_null (full err) h e = cc e

module _ {W : Type 0} (endian : Endian) (lib : Libc) (log : Log W) (api : QueueApi W)
    (engine : Engine W) where
  -- The engine settles what it comes to for a well-formed address, and it and the log keep `Q`.
  pub record Keeps (Q : W → Type 0) : Type 0 where
    pub handles :
        (ctxt : Option (Pointer engine.Ctxt)) (table : Bytes) (addr : Addr) (p : Proc W)
        → IsWellFormed endian addr
        → p.env.slot ≡ empty
        → Q p.world
        → Returns (λ r. Settles r.0 r.1.env.slot × Q r.1.world) (engine.on_handle ctxt table addr p)
    pub logs : (slot : Slot) (w : W) → Q w → Q (log.write_log slot w)

  module _ (L : IsLibc lib) (Q : W → Type 0) (keeps : Keeps Q) where
    abbrev TheServer : Type 0
    TheServer = Server endian lib log api engine

    -- What `handle_text` hands to the end of the round.
    abbrev Handled : Bool × Proc W → Type 0
    Handled r = Settles r.0 r.1.env.slot × Q r.1.world

    handle_text-Handled :
        (s : TheServer) (text : Bytes)
        → s.proc.env.slot ≡ empty
        → Q s.proc.world
        → ((errno : ℕ) → HasGoodPrefix text errno)
        → Returns Handled (handle_text endian lib log api engine s text)
    unfolding handle_text
    handle_text-Handled s text clean kept good =
        let same = env-clean s.proc.env clean in
        let (parsed, run, reports) =
          Returns-inv (λ (r : AddrParse). Reports r.ok r.env.slot) _
            (parse_addr-Reports endian lib L text s.proc.env.errno (good s.proc.env.errno)) in
        let p = set_env endian lib log api engine s.proc parsed.env in
        rw (same, run)
          (elim (Bool-cases parsed.ok) [
            | inl ok ↦ rw ok (
                keeps.handles s.ctxt s.table parsed.addr p
                  (parse_addr-IsWellFormed endian lib L text _ run ok) (rw ok at reports) kept)
            | inr refused ↦ rw refused (ne_null parsed.env.slot (rw refused at reports), kept)
          ])

    -- The end of a round: no error is pending, `Q` holds, and the rest is as it was.
    abbrev pub Ends : TheServer → TheServer → Type 0
    Ends s s' =
        (s'.proc.env.slot ≡ empty)
        × Q s'.proc.world
        × (s'.queue ≡ s.queue)
        × (s'.size ≡ s.size)
        × (s'.ctxt ≡ s.ctxt)

    finish_round-Ends :
        (s : TheServer) (r : Bool × Proc W)
        → Handled r
        → Returns (Ends s) (finish_round endian lib log api engine s r)
    unfolding finish_round log_error
    finish_round-Ends s (true, p) h = (h.0, h.1, refl, refl, refl)
    finish_round-Ends s (false, p) h =
        rw (error_free-empty p.env.slot h.0)
          (refl, keeps.logs p.env.slot p.world h.1, refl, refl, refl)

    pub handle_received-Ends :
        (s : TheServer) (r : Received)
        → Reports (got r) s.proc.env.slot
        → Q s.proc.world
        → ((n : ℕ) (text : Bytes) → r ≡ message n text → (errno : ℕ) → HasGoodPrefix text errno)
        → Returns (Ends s) (handle_received endian lib log api engine s r)
    unfolding handle_received
    handle_received-Ends s no_message full_slot kept good =
        finish_round-Ends s (false, s.proc) (ne_null _ full_slot, kept)
    handle_received-Ends s (message n text) no_error kept good =
        Returns->>= Handled (Ends s) (handle_text endian lib log api engine s text) _
          (handle_text-Handled s text no_error kept (good n text refl))
          λ r h. finish_round-Ends s r h
