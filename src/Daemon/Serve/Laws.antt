-- ===== src/Daemon/Serve/Laws.antt =====
-- How long the loop of the daemon goes on without undefined behaviour.
use banip.Base.{
  ℕ, zero, suc, ◌≡◌, refl, ◌∙◌, ap, Option, Bytes, ◌++◌, ◌∷◌, returns, undefined, invalid_free,
  Returns, Returns->>=, Returns-mono, Returns-inv,
}
use banip.Error.{Slot, empty, IsFull, Reports}
use banip.Process.{Proc}
use banip.Parse.Ulong.{UlongParse, parse_ulong}
use banip.Parse.Word.{Endian}
use banip.Parse.Addr.{Libc, IsLibc, Addr, failed}
use banip.Parse.Addr.WellFormed.{IsWellFormed}
use banip.Parse.Addr.Accepts.{NoSlash}
use banip.Parse.Addr.Errors.{HasGoodPrefix, parse_addr-bad_both}
use banip.Queue.{got, QueueApi, Received, message}
use banip.Engine.{Engine, Pointer}
use banip.Daemon.Serve.Round.{Settles, Keeps, handle_received-Ends}
use banip.Daemon.Serve.{Log, Server, serve_one, serve}

module _ {W : Type 0} (endian : Endian) (lib : Libc) (log : Log W) (api : QueueApi W)
    (engine : Engine W) where
  -- What the loop relies on: with no error pending, and in a state in which the queue can be read,
  -- `queue_receive` reports what it comes to, the engine settles what it comes to for a well-formed
  -- address, and neither they nor the log make the queue unreadable.
  pub record Parts : Type 1 where
    pub Readable : api.Queue → ℕ → W → Type 0
    pub receives :
        (q : api.Queue) (size : ℕ) (p : Proc W)
        → Readable q size p.world
        → p.env.slot ≡ empty
        → Returns
            (λ r. Reports (got r.0) r.2.env.slot × Readable r.1 size r.2.world)
            (api.queue_receive q size size p)
    pub handles :
        (ctxt : Option (Pointer engine.Ctxt)) (table : Bytes) (addr : Addr) (p : Proc W)
        → IsWellFormed endian addr
        → p.env.slot ≡ empty
        → Returns
            (λ r.
              Settles r.0 r.1.env.slot
              × ((q : api.Queue) (size : ℕ) → Readable q size p.world → Readable q size r.1.world))
            (engine.on_handle ctxt table addr p)
    pub logs :
        (q : api.Queue) (size : ℕ) (slot : Slot) (w : W)
        → Readable q size w
        → Readable q size (log.write_log slot w)

  -- Every text that is received has no `/`, or a prefix that `parse_ulong` accepts.
  abbrev pub Benign : Type 0
  Benign =
      (q q' : api.Queue) (size n : ℕ) (text : Bytes) (p p' : Proc W)
      → api.queue_receive q size size p ≡ returns (message n text, q', p')
      → (errno : ℕ) → HasGoodPrefix text errno

  module _ (L : IsLibc lib) (parts : Parts) where
    abbrev TheServer : Type 0
    TheServer = Server endian lib log api engine

    -- The state at the head of the loop.
    pub record IsReady (s : TheServer) : Type 0 where
      pub no_error : s.proc.env.slot ≡ empty
      pub readable : parts.Readable s.queue s.size s.proc.world

    -- The engine and the log leave a queue readable.
    abbrev keeps_readable :
        (q : api.Queue) (size : ℕ) → Keeps endian lib log api engine (parts.Readable q size)
    keeps_readable q size = record {
      handles = λ ctxt table addr p wf clean readable.
          Returns-mono
            (λ r.
              Settles r.0 r.1.env.slot
              × ((q : api.Queue) (size : ℕ)
                  → parts.Readable q size p.world
                  → parts.Readable q size r.1.world))
            (λ r. Settles r.0 r.1.env.slot × parts.Readable q size r.1.world)
            (engine.on_handle ctxt table addr p) (parts.handles ctxt table addr p wf clean)
            λ r h. (h.0, h.1 q size readable);
      logs = λ slot w readable. parts.logs q size slot w readable;
    }

    -- A round leaves the loop ready, with the context as it was.
    pub serve_one-Next :
        (s : TheServer)
        → Benign
        → IsReady s
        → Returns (λ s'. IsReady s' × (s'.ctxt ≡ s.ctxt)) (serve_one endian lib log api engine s)
    unfolding serve_one
    serve_one-Next s benign ready =
        let (r, run, h) =
          Returns-inv
            (λ (r : Received × api.Queue × Proc W).
              Reports (got r.0) r.2.env.slot × parts.Readable r.1 s.size r.2.world)
            _ (parts.receives s.queue s.size s.proc ready.readable ready.no_error) in
        let s' : TheServer = record s { queue = r.1; proc = r.2 } in
        rw run (
          Returns-mono _ (λ t. IsReady t × (t.ctxt ≡ s.ctxt)) _
            (handle_received-Ends endian lib log api engine L (parts.Readable r.1 s.size)
              (keeps_readable r.1 s.size) s' r.0 h.0 h.1
              λ n text e.
                benign s.queue r.1 s.size n text s.proc r.2
                  (run ∙ ap (λ (t : Received). returns (t, r.1, r.2)) e))
            λ t (clean, readable, same, same_size, same_ctxt).
              (record { no_error = clean; readable = rw (same, same_size) readable }, same_ctxt))

    serve_one-IsReady :
        (s : TheServer)
        → Benign
        → IsReady s
        → Returns IsReady (serve_one endian lib log api engine s)
    serve_one-IsReady s benign ready =
        Returns-mono (λ t. IsReady t × (t.ctxt ≡ s.ctxt)) IsReady _ (serve_one-Next s benign ready)
          λ t h. h.0

    -- From a state with no error pending and a queue that can be read, over parts that report what
    -- they come to, and while every text that arrives is benign, the loop goes on for ever: any
    -- number of rounds returns, again with no error pending and with a queue that can be read,
    -- whether the rounds succeed or fail.
    pub serve-IsReady :
        (n : ℕ) (s : TheServer)
        → Benign
        → IsReady s
        → Returns IsReady (serve endian lib log api engine n s)
    unfolding serve
    serve-IsReady zero s benign ready = ready
    serve-IsReady (suc n) s benign ready =
        Returns->>= IsReady IsReady (serve_one endian lib log api engine s) _
          (serve_one-IsReady s benign ready) λ s' ready'. serve-IsReady n s' benign ready'

  -- One message is enough to end the daemon in undefined behaviour: an address that the resolver does
  -- not know, a `/`, and a prefix that `parse_ulong` refuses with a message.
  pub serve_one-bad_both :
      (L : IsLibc lib) (s : Server endian lib log api engine) (q' : api.Queue) (host suffix : Bytes)
      (n code : ℕ) (p : Proc W) {r : UlongParse}
      → api.queue_receive s.queue s.size s.size s.proc
        ≡ returns (message n (host ++ b'/' ∷ suffix), q', p)
      → NoSlash host
      → parse_ulong suffix p.env ≡ returns r
      → IsFull r.env.slot
      → (lib.getaddrinfo r.env.errno host).0 ≡ failed code
      → serve_one endian lib log api engine s ≡ undefined invalid_free
  unfolding serve_one
  serve_one-bad_both L s q' host suffix n code p received plain refused message_left unknown =
      rw (received, serve_one)
        (rw
          (parse_addr-bad_both endian lib L host suffix code p.env plain refused message_left
            unknown)
          refl)
