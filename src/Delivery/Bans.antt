-- ===== src/Delivery/Bans.antt =====
-- What reaches the firewall: the addresses of the texts that were received.
use banip.Base.{
  ℕ, ◌≡◌, refl, sym, ◌∙◌, Bool, true, false, none, List, [], ◌∷◌, ◌++◌, map, Option, Bytes, All,
  All-append-inv, returns, Returns, Returns->>=, Returns-inv, Returns-at,
}
use mathlib.Core.List.{append-nil}
use banip.Error.{Env, Slot, empty, Reports, error_free-empty}
use banip.Process.{Proc}
use banip.Parse.Word.{Endian}
use banip.Parse.Addr.{Libc, IsLibc, Addr, AddrParse, parse_addr}
use banip.Parse.Addr.WellFormed.{IsWellFormed, parse_addr-IsWellFormed}
use banip.Queue.{QueueApi, Received, message, no_message, got}
use banip.Queue.Channel.{IsChannel, heard}
use banip.Engine.{Engine, Pointer}
use banip.Daemon.Serve.{
  Log, Server, log_error, handle_text, finish_round, handle_received, serve_one,
}
use banip.Daemon.Serve.Round.{Keeps, ne_null}
use banip.Delivery.{System, next_text, one_round, run}
use banip.Delivery.Laws.{IsInOrder, contents_of}

module _ {W : Type 0} (endian : Endian) (lib : Libc) (L : IsLibc lib) (log : Log W)
    (sender receiver : QueueApi W) (engine : Engine W) (C : IsChannel sender receiver) where
  -- What is banned in a world, the oldest first, is left alone by the queue and the log.
  pub record IsApart {Ban : Type 0} (banned : W → List Ban) : Type 0 where
    pub sending :
        (q : sender.Queue) (text : Bytes) (p : Proc W)
        → C.IsSender q
        → C.IsText text
        → C.IsIntact p.world
        → p.env.slot ≡ empty
        → Returns (λ r. banned r.2.world ≡ banned p.world) (sender.queue_send q text none p)
    pub receiving :
        (q : receiver.Queue) (size : ℕ) (p : Proc W)
        → C.IsReceiver q size
        → C.IsIntact p.world
        → p.env.slot ≡ empty
        → Returns (λ r. banned r.2.world ≡ banned p.world) (receiver.queue_receive q size size p)
    pub logging : (slot : Slot) (w : W) → banned (log.write_log slot w) ≡ banned w

  -- `parse_addr` accepts the text, with this address and no error, whatever `errno` holds.
  abbrev pub IsRead : Bytes → Addr → Type 0
  IsRead text addr =
      (env : Env)
      → env.slot ≡ empty
      → Returns (λ r. (r.ok ≡ true) × (r.addr ≡ addr) × (r.env.slot ≡ empty))
          (parse_addr endian lib text env)

  module _ {Ban : Type 0} (mark : Addr → Ban) (banned : W → List Ban)
      (ctxt : Option (Pointer engine.Ctxt)) (table : Bytes) where
    -- With this context and this table, the engine bans every address that it is given: the mark of the
    -- address is then the last of what is banned, the oldest first.
    pub record IsEnforcer : Type 0 where
      pub bans :
          (addr : Addr) (p : Proc W)
          → IsWellFormed endian addr
          → p.env.slot ≡ empty
          → Returns
              (λ r. (r.0 ≡ true) × (banned r.1.world ≡ banned p.world ++ mark addr ∷ []))
              (engine.on_handle ctxt table addr p)
      pub apart : IsApart banned

    -- The context and the table of the server are those.
    abbrev pub HasSetting : Server endian lib log receiver engine → Type 0
    HasSetting s = (s.ctxt ≡ ctxt) × (s.table ≡ table)

    module _ (E : IsEnforcer) where
      abbrev TheServer : Type 0
      TheServer = Server endian lib log receiver engine

      finish_round-well :
          (s : TheServer) (t : Bool × Proc W)
          → t.0 ≡ true
          → finish_round endian lib log receiver engine s t ≡ returns (record s { proc = t.1 })
      unfolding finish_round
      finish_round-well s (true, p) well = refl
      finish_round-well s (false, p) well = absurd (cc well)

      handle_received-bans :
          (s : TheServer) (n : ℕ) (text : Bytes) (addr : Addr)
          → HasSetting s
          → s.proc.env.slot ≡ empty
          → IsRead text addr
          → Returns
              (λ t. (banned t.proc.world ≡ banned s.proc.world ++ mark addr ∷ []) × HasSetting t)
              (handle_received endian lib log receiver engine s (message n text))
      unfolding handle_received handle_text finish_round
      handle_received-bans s n text addr given clean read =
          let (r, run, (ok, same, none_left)) =
            Returns-inv (λ (r : AddrParse). (r.ok ≡ true) × (r.addr ≡ addr) × (r.env.slot ≡ empty))
              _ (read s.proc.env clean) in
          let p = record s.proc { env = r.env } in
          rw (run, handle_text, ok)
            (Returns->>=
              (λ (t : Bool × Proc W).
                (t.0 ≡ true) × (banned t.1.world ≡ banned s.proc.world ++ mark r.addr ∷ []))
              (λ (t : TheServer).
                (banned t.proc.world ≡ banned s.proc.world ++ mark addr ∷ []) × HasSetting t)
              (engine.on_handle s.ctxt s.table r.addr p) _
              (rw (given.0, given.1)
                (E.bans r.addr p (parse_addr-IsWellFormed endian lib L text _ run ok) none_left))
              λ t (well, grown). rw (finish_round-well s t well) (rw same at grown, given))

      -- What a call of `queue_receive` leads to, if the text that it gives is that of an address.
      handle_received-adds :
          (s : TheServer) (r : Received) (read : Bytes → Addr)
          → HasSetting s
          → Reports (got r) s.proc.env.slot
          → All (λ t. IsRead t (read t)) (heard r)
          → Returns
              (λ t.
                (banned t.proc.world ≡ banned s.proc.world ++ map mark (map read (heard r)))
                × HasSetting t)
              (handle_received endian lib log receiver engine s r)
      unfolding handle_received finish_round log_error
      handle_received-adds s (message n text) read given clean reads =
          handle_received-bans s n text (read text) given clean reads.0
      handle_received-adds s no_message read given full_slot reads =
          rw (error_free-empty s.proc.env.slot (ne_null _ full_slot)) (
            E.apart.logging s.proc.env.slot s.proc.world ∙ sym (append-nil (banned s.proc.world)),
            given,
          )

      module _
          (keeps : (c : List Bytes)
            → Keeps endian lib log receiver engine (λ w. (C.contents w ≡ c) × C.IsIntact w))
          (start : List Bytes) (read : Bytes → Addr) where
        abbrev TheSystem : Type 0
        TheSystem = System endian lib log sender receiver engine

        abbrev pub banned_in : TheSystem → List Ban
        banned_in s = banned s.server.proc.world

        abbrev InOrder : TheSystem → Type 0
        InOrder s = IsInOrder endian lib L log sender receiver engine C keeps start s

        abbrev pub AllRead : List Bytes → Type 0
        AllRead texts = All (λ t. IsRead t (read t)) texts

        -- What the texts are marked as once they are banned.
        abbrev pub marks : List Bytes → List Ban
        marks texts = map mark (map read texts)

        -- A round bans the address of the text that it receives.
        pub one_round-adds :
            (s : TheSystem)
            → InOrder s
            → HasSetting s.server
            → AllRead (contents_of endian lib L log sender receiver engine C keeps s)
            → Returns
                (λ s'.
                  (banned_in s'
                    ≡ banned_in s
                      ++ marks (next_text endian lib log sender receiver engine s.server))
                  × (s'.received
                      ≡ s.received ++ next_text endian lib log sender receiver engine s.server)
                  × HasSetting s'.server)
                (one_round endian lib log sender receiver engine s)
        unfolding one_round serve_one
        one_round-adds s inv given reads =
            let server = s.server in
            let (r, run, (reports, still, taken, intact)) =
              Returns-inv
                (λ (r : Received × receiver.Queue × Proc W).
                  Reports (got r.0) r.2.env.slot
                  × C.IsReceiver r.1 server.size
                  × (C.contents server.proc.world ≡ heard r.0 ++ C.contents r.2.world)
                  × C.IsIntact r.2.world)
                _
                (C.receives server.queue server.size server.proc inv.open_receiver inv.intact
                  inv.no_error) in
            let same =
              Returns-at
                (λ (r : Received × receiver.Queue × Proc W).
                  banned r.2.world ≡ banned server.proc.world)
                _
                (E.apart.receiving server.queue server.size server.proc inv.open_receiver inv.intact
                  inv.no_error)
                run in
            let after : TheServer = record server { queue = r.1; proc = r.2 } in
            rw (run, serve_one, next_text)
              (Returns->>=
                (λ (t : TheServer).
                  (banned t.proc.world ≡ banned r.2.world ++ marks (heard r.0)) × HasSetting t)
                (λ (s' : TheSystem).
                  (banned_in s' ≡ banned_in s ++ marks (heard r.0))
                  × (s'.received ≡ s.received ++ heard r.0)
                  × HasSetting s'.server)
                _ _
                (handle_received-adds after r.0 read given reports
                  (All-append-inv (λ t. IsRead t (read t)) (heard r.0) _ (rw taken at reads)).0)
                λ t (grown, still). (rw (sym same) grown, refl, still))
