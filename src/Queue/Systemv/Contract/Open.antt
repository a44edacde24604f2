-- ===== src/Queue/Systemv/Contract/Open.antt =====
-- `queue_open` of queues/systemv.c: it returns, and reports exactly its failures.
use banip.Base.{
  ℕ, ◌≡◌, refl, is_some, Bool, true, false, none, some, Bytes, strchr, Returns, arith, Option-cases,
  Bool-cases, if◌then◌else◌, leb, inl, inr,
}
use banip.Error.{empty, Reports, error_set}
use banip.Process.{report_with, Proc, Reply, done, failed, Reply-cases}
use banip.Queue.{fl_owner, has_flag}
use banip.Queue.Systemv.{
  Kernel, SystemvQueue, queue_open, overflow, attach, attach_to, get_queue, with_key, create_named,
  open_named, open_plain, open_owned,
}

module _ {W : Type 0} (k : Kernel W) where
  abbrev pub IsBuffered : SystemvQueue → Type 0
  IsBuffered q = is_some q.mtext ≡ true

  abbrev pub OpenReports : Bool × SystemvQueue × Proc W → Type 0
  OpenReports r = Reports r.0 r.2.env.slot × (r.0 ≡ true → IsBuffered r.1)

  attach-Reports :
      (q : SystemvQueue) (p : Proc W) → p.env.slot ≡ empty → Returns OpenReports (attach k q p)
  unfolding attach report_with error_set
  attach-Reports q p clean = ground arith

  attach_to-Reports :
      (q : SystemvQueue) (reply : Reply ℕ) (p : Proc W)
      → p.env.slot ≡ empty
      → Returns OpenReports (attach_to k q reply p)
  unfolding attach_to report_with error_set
  attach_to-Reports q (done d) p clean = attach-Reports (record q { qid = some d }) p clean
  attach_to-Reports q (failed n) p clean = ground arith

  get_queue-Reports :
      (q : SystemvQueue) (filename : Bytes) (owner : Bool) (key : ℕ) (p : Proc W)
      → p.env.slot ≡ empty
      → Returns OpenReports (get_queue k q filename owner key p)
  unfolding get_queue report_with error_set
  get_queue-Reports q filename false key p clean = attach_to-Reports q _ _ clean
  get_queue-Reports q filename true key p clean = elim (Bool-cases (k.strdup p.world).0) [
    | inl copied ↦
        rw (copied, get_queue) (attach_to-Reports (record q { filename = some filename }) _ _ clean)
    | inr refused ↦ rw (refused, get_queue) (ground arith)
  ]

  with_key-Reports :
      (q : SystemvQueue) (filename : Bytes) (owner : Bool) (id : ℕ) (p : Proc W)
      → p.env.slot ≡ empty
      → Returns OpenReports (with_key k q filename owner id p)
  unfolding with_key report_with error_set
  with_key-Reports q filename owner id p clean =
      elim (Option-cases (k.ftok filename id (k.close_file p.world))) [
        | inl absent ↦ rw (absent, with_key) (ground arith)
        | inr (key, given) ↦ rw (given, with_key) (get_queue-Reports q filename owner key _ clean)
      ]

  create_named-Reports :
      (q : SystemvQueue) (filename : Bytes) (id : ℕ) (p : Proc W)
      → p.env.slot ≡ empty
      → Returns OpenReports (create_named k q filename id p)
  unfolding create_named report_with error_set
  create_named-Reports q filename id p clean =
      elim (Reply-cases (k.create_file filename p.world).0) [
        | inl (n, refused) ↦ rw (refused, create_named) (ground arith)
        | inr (u, made) ↦ elim (Reply-cases (k.write_id id (k.create_file filename p.world).1).0) [
          | inl (n, refused) ↦ rw (made, refused, create_named) (ground arith)
          | inr (v, written) ↦
              rw (made, written, create_named) (with_key-Reports q filename true id _ clean)
        ]
      ]

  -- There is a number in the file.
  abbrev pub HasId : Bytes → W → Type 0
  HasId filename w = is_some (k.read_id (k.open_file filename w).1).0 ≡ true

  open_named-Reports :
      (q : SystemvQueue) (filename : Bytes) (p : Proc W)
      → p.env.slot ≡ empty
      → HasId filename p.world
      → Returns OpenReports (open_named k q filename p)
  unfolding open_named report_with error_set
  open_named-Reports q filename p clean has_id =
      elim (Reply-cases (k.open_file filename p.world).0) [
        | inl (n, refused) ↦ rw (refused, open_named) (ground arith)
        | inr (u, opened) ↦ elim (Option-cases (k.read_id (k.open_file filename p.world).1).0) [
          | inl absent ↦ absurd (ground arith)
          | inr (id, given) ↦
              rw (opened, given, open_named) (with_key-Reports q filename false id _ clean)
        ]
      ]

  overflow-Reports :
      (q : SystemvQueue) (p : Proc W) → p.env.slot ≡ empty → Returns OpenReports (overflow k q p)
  unfolding report_with error_set
  overflow-Reports q p clean = ground arith

  open_plain-Reports :
      (q : SystemvQueue) (name : Bytes) (owner : Bool) (p : Proc W)
      → p.env.slot ≡ empty
      → (owner ≡ false → HasId (k.strlcpy k.max_path name).0 p.world)
      → Returns OpenReports (open_plain k q name owner p)
  unfolding open_plain
  open_plain-Reports q name owner p clean has_id =
      elim (Bool-cases (leb k.max_path (k.strlcpy k.max_path name).1)) [
        | inl long ↦ rw (long, open_plain) (overflow-Reports q p clean)
        | inr short ↦ rw (short, open_plain) (opened owner has_id)
      ]
    where
      opened :
          (owner : Bool)
          → (owner ≡ false → HasId (k.strlcpy k.max_path name).0 p.world)
          → Returns OpenReports (
              if owner
              then create_named k q (k.strlcpy k.max_path name).0 b'b' p
              else open_named k q (k.strlcpy k.max_path name).0 p)
      opened true has = create_named-Reports q _ b'b' p clean
      opened false has = open_named-Reports q _ p clean (has refl)

  -- For the owner a name with no `:`, for others a file that holds a number.
  abbrev pub IsName : Bytes → ℕ → W → Type 0
  IsName name flags w =
      (has_flag flags fl_owner ≡ true → strchr b':' name ≡ none)
      × (has_flag flags fl_owner ≡ false → HasId (k.strlcpy k.max_path name).0 w)

  pub open-Reports :
      (q : SystemvQueue) (name : Bytes) (flags : ℕ) (p : Proc W)
      → p.env.slot ≡ empty
      → IsName name flags p.world
      → Returns OpenReports (queue_open k q name flags p)
  unfolding queue_open open_owned
  open-Reports q name flags p clean named = elim (Bool-cases (has_flag flags fl_owner)) [
    | inl owner ↦
        rw (owner, named.0 owner, queue_open, open_owned)
          (open_plain-Reports q name true p clean λ e. absurd (cc e))
    | inr user ↦ rw (user, queue_open) (open_plain-Reports q name false p clean λ e. named.1 user)
  ]
