-- ===== src/Queue/Systemv/Open.antt =====
-- queues/systemv.c: `queue_open`.
use banip.Base.{
  ℕ, ◌*◌, ◌/◌, Bool, true, false, none, some, Bytes, length, strchr, leb, if◌then◌else◌, Outcome,
  returns, undefined, uninitialised,
}
use banip.Error.{generic, system}
use banip.Process.{Proc, Reply, done, failed, set_world, set_errno, report_with}
use banip.Queue.{fl_owner, has_flag}
use banip.Queue.Systemv.State.{Kernel, SystemvQueue}

module _ {W : Type 0} (k : Kernel W) where
  abbrev pub Opened : Type 0
  Opened = Outcome (Bool × SystemvQueue × Proc W)

  -- `msgctl` and what follows it.
  unfoldable pub attach : SystemvQueue → Proc W → Opened
  attach q p =
      let (stat, w) = k.msgctl_stat q.qid p.world in
      let p' = set_world p w in
      elim stat [
        | failed n ↦
            report_with (set_errno p' n) (system "msgctl(%d, IPC_STAT, %p) failed" n) false q
        | done qbytes ↦
            let size : ℕ = qbytes / 8 in
            let q' = record q { buffer_size = size } in
            let (memory, w') = k.malloc_bytes (8 * size) w in
            elim memory [
              | none ↦
                  report_with (set_world p w') (generic "malloc(3) failed to allocate %zu bytes")
                    false (record q' { mtext = none })
              | some bytes ↦ returns (true, record q' { mtext = some bytes }, set_world p w')
            ]
      ]

  -- The answer of `msgget`.
  unfoldable pub attach_to : SystemvQueue → Reply ℕ → Proc W → Opened
  unfolding attach
  attach_to q (done d) p = attach (record q { qid = some d }) p
  attach_to q (failed n) p =
      report_with (set_errno p n) (system "msgget failed" n) false (record q { qid = none })

  -- `umask(0)` and `umask(oldmask)` stand around the owner's call of `msgget` alone.
  unfoldable pub get_queue : SystemvQueue → Bytes → Bool → ℕ → Proc W → Opened
  unfolding attach_to
  get_queue q filename owner key p =
      let (copied, w) = k.strdup p.world in
      let (made, w') = k.msgget key true w in
      let (found, w'') = k.msgget key false p.world in
      let created =
        if copied
        then attach_to (record q { filename = some filename }) made (set_world p w')
        else report_with (set_world p w) (generic "strdup failed to copy \"%s\"") false
            (record q { filename = none }) in
      if owner then created else attach_to q found (set_world p w'')

  -- `fclose`, `ftok` and what follows them.
  unfoldable pub with_key : SystemvQueue → Bytes → Bool → ℕ → Proc W → Opened
  unfolding get_queue
  with_key q filename owner id p =
      let w = k.close_file p.world in
      elim (k.ftok filename id w) [
        | none ↦ report_with (set_world p w) (generic "ftok(\"%s\", %d) failed") false q
        | some key ↦ get_queue q filename owner key (set_world p w)
      ]

  -- The owner's file is made, and `id` written to it.
  unfoldable pub create_named : SystemvQueue → Bytes → ℕ → Proc W → Opened
  unfolding with_key
  create_named q filename id p =
      let (made, w) = k.create_file filename p.world in
      elim made [
        | failed n ↦
            report_with (set_errno (set_world p w) n) (system "fopen(\"%s\", \"wx\") failed" n)
              false q
        | done _ ↦
            let (written, w') = k.write_id id w in
            elim written [
              | failed n ↦
                  report_with (set_errno (set_world p w') n) (system "fwrite to '%s' failed" n)
                    false q
              | done _ ↦ with_key q filename true id (set_world p w')
            ]
      ]

  -- The test of `fread` compares 1 with the truth of `fread(...) < sizeof(id)`, and never fails; `id` is
  -- then read although nothing set it.
  unfoldable pub open_named : SystemvQueue → Bytes → Proc W → Opened
  unfolding with_key
  open_named q filename p =
      let (opened, w) = k.open_file filename p.world in
      elim opened [
        | failed n ↦
            report_with (set_errno (set_world p w) n) (system "fopen(\"%s\", \"r\") failed" n) false
              q
        | done _ ↦
            let (read, w') = k.read_id w in
            elim read [
              | none ↦ undefined uninitialised
              | some id ↦ with_key q filename false id (set_world p w')
            ]
      ]

  abbrev pub overflow : SystemvQueue → Proc W → Opened
  overflow q p =
      report_with p (generic "buffer overflow: %s (\"%s\") doesn't fit into %s (%zu > %zu)") false q

  -- `strlcpy` into `filename`, and the length that it returns.
  unfoldable pub open_plain : SystemvQueue → Bytes → Bool → Proc W → Opened
  unfolding create_named open_named
  open_plain q name owner p =
      let (filename, size) = k.strlcpy k.max_path name in
      let opened = if owner then create_named q filename b'b' p else open_named q filename p in
      if leb k.max_path size then overflow q p else opened

  -- Behind a `:`, `strncpy` copies the name without a terminating zero, and `fopen` reads on.
  unfoldable pub open_owned : SystemvQueue → Bytes → Proc W → Opened
  unfolding open_plain
  open_owned q name p = elim (strchr b':' name) [
    | none ↦ open_plain q name true p
    | some (filename, rest) ↦
        if leb k.max_path (length filename) then overflow q p else undefined uninitialised
  ]

  unfoldable pub queue_open :
      SystemvQueue → Bytes → ℕ → Proc W → Outcome (Bool × SystemvQueue × Proc W)
  unfolding open_owned report_with
  queue_open q name flags p =
      if has_flag flags fl_owner then open_owned q name p else open_plain q name false p
