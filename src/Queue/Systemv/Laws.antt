-- ===== src/Queue/Systemv/Laws.antt =====
-- Texts through a System V queue, and who owns its file.
use banip.Base.{
  zero, suc, ◌==◌, Option-cases, ℕ, ◌+◌, ◌≡◌, ◌≤◌, ◌<◌, refl, true, false, [], ◌∷◌, ◌++◌, none,
  some, Bytes, length, take, drop, strchr, strchr-more, ltb, leb, undefined, uninitialised, ◌>>=◌,
  Returns, arith, Bool-cases, inl, inr,
}
use banip.Error.{empty, error_set}
use banip.Process.{Proc, done, failed, report_with}
use banip.Queue.{fl_owner, has_flag, message}
use banip.Queue.Systemv.{
  Kernel, SystemvQueue, initial, queue_open, queue_send, queue_receive, queue_close, open_owned,
  open_plain, create_named, send_mtext, copy_out, unlink_file, remove_queue,
}

-- What `msgsnd` is given for a text over a buffer with these bytes.
abbrev pub sent_bytes : SystemvQueue → Bytes → Bytes → Bytes
sent_bytes q text bytes = take q.buffer_size (text ++ 0 ∷ drop (length text + 1) bytes)

-- A text shorter than what is taken keeps its zero.
pub strchr-take :
    (n : ℕ) (text more : Bytes)
    → length text < n
    → strchr 0 text ≡ none
    → (rest : Bytes) × (strchr 0 (take n (text ++ 0 ∷ more)) ≡ some (text, rest))
strchr-take zero text more fits plain = absurd (omega arith)
strchr-take (suc n) [] more fits plain = (take n more, refl)
strchr-take (suc n) (c ∷ text) more fits plain = elim (Bool-cases (c == 0)) [
  | inl same ↦ absurd (cc (rw (same, strchr) at plain))
  | inr other ↦ elim (Option-cases (strchr 0 text)) [
    | inl absent ↦
        let (rest, e) = strchr-take n text more (omega arith) absent in
        (rest, rw (other, e, strchr) refl)
    | inr (found, e) ↦ absurd (cc (rw (other, e, strchr) at plain))
  ]
]

module _ {W : Type 0} (k : Kernel W) where
  -- A text with no zero that fits the buffers of both sides, and is shorter than the
  -- `buffer_size` of the queue, goes through: if `msgsnd` succeeds and `msgrcv` gives what it was
  -- given, the receiver gets the text. The length that it is told is that of the message as it was
  -- sent, `buffer_size` bytes or all of the sender's buffer if that is shorter, and not that of the
  -- text.
  pub send_receive :
      (q r : SystemvQueue) (text bytes room : Bytes) (capacity size : ℕ) (p : Proc W)
      → q.mtext ≡ some bytes
      → length text < length bytes
      → length text < q.buffer_size
      → strchr 0 text ≡ none
      → r.mtext ≡ some room
      → length (sent_bytes q text bytes) ≤ length room
      → length text < capacity
      → (k.msgsnd q.qid (sent_bytes q text bytes) p.world).0 ≡ done tt
      → (k.msgrcv r.qid size (k.msgsnd q.qid (sent_bytes q text bytes) p.world).1).0
        ≡ done (sent_bytes q text bytes)
      → Returns
          (λ t. t.0 ≡ message (length (sent_bytes q text bytes)) text)
          (do (sent, q', p') ← queue_send k q text none p; queue_receive k r capacity size p')
  unfolding queue_send send_mtext queue_receive copy_out
  send_receive q r text bytes room capacity size p there fits short plain there' fits' short' sent
        got =
      let goes : ltb (length text) (length bytes) ≡ true = ground arith in
      let goes' : leb (length (sent_bytes q text bytes)) (length room) ≡ true = ground arith in
      let goes'' : ltb (length text) capacity ≡ true = ground arith in
      let (rest, zero_in) =
        strchr-take q.buffer_size text (drop (length text + 1) bytes) short plain in
      rw
        (
          there,
          goes,
          sent,
          there',
          got,
          goes',
          strchr-more 0 (sent_bytes q text bytes) _ zero_in,
          goes'',
          queue_send,
          send_mtext,
          queue_receive,
          copy_out,
        )
        refl

  -- A name that is in use, without a `:` and not too long, and no error pending: if the file
  -- cannot be created, `queue_open` leaves the owner a queue that `queue_close` then frees, and
  -- the file and the queue of the process that does own them are left alone.
  pub second_owner_keeps :
      (name : Bytes) (n : ℕ) (p : Proc W)
      → p.env.slot ≡ empty
      → strchr b':' name ≡ none
      → leb k.max_path (k.strlcpy k.max_path name).1 ≡ false
      → (k.create_file (k.strlcpy k.max_path name).0 p.world).0 ≡ failed n
      → Returns
          (λ r.
            (r.1 ≡ none) × (r.2.world ≡ (k.create_file (k.strlcpy k.max_path name).0 p.world).1))
          (do (opened, q, p') ← queue_open k initial name fl_owner p; queue_close k (some q) p')
  unfolding queue_open open_owned open_plain create_named queue_close report_with error_set
  second_owner_keeps name n p clean plain fits refused =
      rw
        (
          plain, fits, refused, clean, queue_open, open_owned, open_plain, create_named,
          report_with, error_set,
        )
        (refl, refl)

  -- A name with a `:` that is not too long has no defined result for the owner: the part before the `:` is copied
  -- without a terminating zero.
  pub queue_open-colon :
      (q : SystemvQueue) (name file rest : Bytes) (flags : ℕ) (p : Proc W)
      → has_flag flags fl_owner ≡ true
      → strchr b':' name ≡ some (file, rest)
      → length file < k.max_path
      → queue_open k q name flags p ≡ undefined uninitialised
  unfolding queue_open open_owned
  queue_open-colon q name file rest flags p owner colon fits =
      let short : leb k.max_path (length file) ≡ false = ground arith in
      rw (owner, colon, short, queue_open, open_owned) refl

  -- If the calls succeed, closing a queue that this process owns removes the queue of the system and
  -- then the file, and frees it.
  pub queue_close-removes :
      (q : SystemvQueue) (name : Bytes) (d : ℕ) (p : Proc W)
      → q.filename ≡ some name
      → q.qid ≡ some d
      → (k.msgctl_remove q.qid p.world).0 ≡ done tt
      → (k.unlink name (k.msgctl_remove q.qid p.world).1).0 ≡ done tt
      → Returns
          (λ r.
            (r.0 ≡ true)
            × (r.1 ≡ none)
            × (r.2.world ≡ (k.unlink name (k.msgctl_remove q.qid p.world).1).1))
          (queue_close k (some q) p)
  unfolding queue_close remove_queue unlink_file
  queue_close-removes q name d p owned there removed gone =
      rw (owned, there, removed, gone, queue_close, remove_queue, unlink_file)
        (refl, refl, rw there refl)
