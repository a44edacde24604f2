-- ===== src/Queue/Systemv/Channel.antt =====
-- Two processes that have the same System V queue open.
use banip.Base.{
  ℕ, ◌+◌, ◌≡◌, ◌≤◌, ◌<◌, refl, sym, ap, ◌∙◌, true, List, [], ◌∷◌, ◌++◌, Option, none, some, Bytes,
  length, length-append, length-take, length-drop, drop, map, strchr, strchr-more, All, All-append,
  ltb, leb, Returns, Returns-mono, arith, inl, inr,
}
use mathlib.Core.List.{append-nil, map-append}
use banip.Error.{empty, Reports, error_set}
use banip.Process.{Proc, Reply-cases, done, report_with}
use banip.Queue.{got, Received}
use banip.Queue.Channel.{IsChannel, IsPrompt, heard, sent_if}
use banip.Queue.Systemv.Messages.{HasMessages, text_in, IsWhole, IsWhole-reads}
use banip.Queue.Systemv.Laws.{sent_bytes, strchr-take}
use banip.Queue.Systemv.{
  Kernel, SystemvQueue, systemv_queue, queue_send, send_mtext, queue_receive, copy_out,
}

module _ {W : Type 0} (ks kr : Kernel W) (qs qr : Option ℕ) (H : HasMessages ks kr qs qr)
    (n : ℕ) where
  abbrev pub IsPlain : Bytes → Type 0
  IsPlain text = (strchr 0 text ≡ none) × (length text < n)

  -- The buffer of a queue of which a message has `n` bytes.
  pub record HasBuffer (q : SystemvQueue) : Type 0 where
    pub bytes : Bytes
    pub there : q.mtext ≡ some bytes
    pub long : n ≤ length bytes

  abbrev pub IsWriter : SystemvQueue → Type 0
  IsWriter q = (q.qid ≡ qs) × (q.buffer_size ≡ n) × HasBuffer q

  abbrev pub IsReader : SystemvQueue → ℕ → Type 0
  IsReader q size = (q.qid ≡ qr) × (n ≤ size) × HasBuffer q

  abbrev pub IsIntact : W → Type 0
  IsIntact w = All (IsWhole n) (H.messages w)

  abbrev pub texts_in : W → List Bytes
  texts_in w = map text_in (H.messages w)

  -- What a sender hands to `msgsnd` for a plain text is whole, and reads as the text.
  sent_bytes-IsWhole :
      (q : SystemvQueue) (text bytes : Bytes)
      → q.buffer_size ≡ n
      → IsPlain text
      → IsWhole n (sent_bytes q text bytes) × (text_in (sent_bytes q text bytes) ≡ text)
  sent_bytes-IsWhole q text bytes sized (plain, short) =
      let (rest, zero_in) =
        strchr-take q.buffer_size text (drop (length text + 1) bytes) (omega arith) plain in
      let at_most = length-take q.buffer_size (text ++ 0 ∷ drop (length text + 1) bytes) in
      (
        record { text = text; rest = rest; ends = zero_in; short = short; fits = omega arith },
        rw (zero_in, text_in) refl,
      )

  -- The bytes of the buffer after `strcpy` of a text.
  abbrev filled : Bytes → Bytes → Bytes
  filled text bytes = text ++ 0 ∷ drop (length text + 1) bytes

  length-filled :
      (text bytes : Bytes) → length text < length bytes → length (filled text bytes) ≡ length bytes
  length-filled text bytes fits = omega (
    arith,
    length-append text (0 ∷ drop (length text + 1) bytes),
    length-drop (length text + 1) bytes (omega arith),
  )

  pub sends-appends :
      (q : SystemvQueue) (text : Bytes) (p : Proc W)
      → IsWriter q
      → IsPlain text
      → IsIntact p.world
      → p.env.slot ≡ empty
      → Returns
          (λ r.
            Reports r.0 r.2.env.slot
            × IsWriter r.1
            × (texts_in r.2.world ≡ texts_in p.world ++ sent_if r.0 text)
            × IsIntact r.2.world)
          (queue_send ks q text none p)
  unfolding queue_send send_mtext report_with error_set
  sends-appends q text p (same, sized, buffer) plain intact clean =
      let goes : ltb (length text) (length buffer.bytes) ≡ true =
        ground (arith, plain.1, buffer.long) in
      let (whole, reads) = sent_bytes-IsWhole q text buffer.bytes sized plain in
      let kept : HasBuffer (record q { mtext = some (filled text buffer.bytes) }) = record {
        bytes = filled text buffer.bytes;
        there = refl;
        long =
            rw (length-filled text buffer.bytes (omega (arith, plain.1, buffer.long))) buffer.long;
      } in
      let b = sent_bytes q text buffer.bytes in
      elim (Reply-cases (ks.msgsnd q.qid b p.world).0) [
        | inl (m, e) ↦
            let left = H.refuses b p.world m (rw same at e) in
            rw (buffer.there, goes, e, clean, queue_send, send_mtext, report_with, error_set)
              (
                tt,
                (same, sized, kept),
                rw (same, left) (sym (append-nil (texts_in p.world))),
                rw (same, left) intact,
              )
        | inr (u, e) ↦
            let grown = H.accepts b p.world (rw same at e) in
            rw (buffer.there, goes, e, queue_send, send_mtext)
              (
                clean,
                (same, sized, kept),
                rw (same, grown)
                    (map-append text_in (H.messages p.world) (b ∷ [])
                      ∙ ap (λ (t : Bytes). texts_in p.world ++ t ∷ []) reads),
                rw (same, grown)
                    (All-append (IsWhole n) (H.messages p.world) (b ∷ []) intact (whole, tt)),
              )
      ]

  -- What a call of `queue_receive` comes to.
  abbrev pub Answers : SystemvQueue → ℕ → Proc W → Received × SystemvQueue × Proc W → Type 0
  Answers q size p r =
      Reports (got r.0) r.2.env.slot
      × IsReader r.1 size
      × (texts_in p.world ≡ heard r.0 ++ texts_in r.2.world)
      × IsIntact r.2.world
      × ((b : Bytes) → (kr.msgrcv q.qid size p.world).0 ≡ done b → got r.0 ≡ true)

  -- What a receiver gets is the text of the oldest message, if `msgrcv` gives one.
  pub receive_lem :
      (q : SystemvQueue) (size : ℕ) (p : Proc W)
      → IsReader q size
      → IsIntact p.world
      → p.env.slot ≡ empty
      → Returns (Answers q size p) (queue_receive kr q size size p)
  unfolding queue_receive copy_out report_with error_set
  receive_lem q size p (same, room, buffer) intact clean =
      elim (Reply-cases (kr.msgrcv q.qid size p.world).0) [
        | inl (m, e) ↦
            let left = H.withholds size p.world m (rw same at e) in
            rw (buffer.there, e, clean, queue_receive, report_with, error_set)
              (
                tt,
                (same, room, buffer),
                rw (same, left) refl,
                rw (same, left) intact,
                λ b given. absurd (cc given),
              )
        | inr (b, e) ↦
            let given = H.gives size p.world b (rw same at e) in
            let (whole, others) = rw given at intact in
            let goes : leb (length b) (length buffer.bytes) ≡ true =
              ground (arith, whole.fits, buffer.long) in
            let left_over : HasBuffer
                (record q { mtext = some (b ++ drop (length b) buffer.bytes) }) =
              record {
                bytes = b ++ drop (length b) buffer.bytes;
                there = refl;
                long = omega (
                  arith,
                  whole.fits,
                  buffer.long,
                  length-append b (drop (length b) buffer.bytes),
                  length-drop (length b) buffer.bytes (omega (arith, whole.fits, buffer.long)),
                );
              } in
            let fits : ltb (length whole.text) size ≡ true = ground (arith, whole.short, room) in
            rw
              (
                buffer.there,
                e,
                goes,
                strchr-more 0 b (drop (length b) buffer.bytes) whole.ends,
                fits,
                queue_receive,
                copy_out,
              )
              (
                clean,
                (same, room, left_over),
                rw (same, given)
                    (ap (λ (t : Bytes). t ∷ texts_in (kr.msgrcv qr size p.world).1)
                      (IsWhole-reads whole)),
                rw same others,
                λ _ _. refl,
              )
      ]

  -- For two processes that have a System V queue open, of which a message has `n` bytes: texts shorter
  -- than that arrive once and in order.
  abbrev pub systemv_channel : IsChannel (systemv_queue ks) (systemv_queue kr)
  systemv_channel = record {
    contents = texts_in;
    IsSender = IsWriter;
    IsReceiver = IsReader;
    IsText = IsPlain;
    IsIntact = IsIntact;
    sends = λ q text p. sends-appends q text p;
    receives = λ q size p reader intact clean.
        Returns-mono (Answers q size p) _ _ (receive_lem q size p reader intact clean)
          λ r (reports, reader', taken, intact', prompt). (reports, reader', taken, intact');
  }

  -- The oldest message, when a text waits.
  oldest :
      (messages : List Bytes) (text : Bytes) (rest : List Bytes)
      → map text_in messages ≡ text ∷ rest
      → (b : Bytes) × (bs : List Bytes) × (messages ≡ b ∷ bs)
  oldest [] text rest h = absurd (cc h)
  oldest (b ∷ bs) text rest h = (b, bs, refl)

  -- If `msgrcv` gives a message that waits, whenever the size is large enough, so does `queue_receive`.
  pub systemv_channel-IsPrompt :
      ((size : ℕ) (w : W) (b : Bytes) (rest : List Bytes)
        → H.messages w ≡ b ∷ rest
        → length b ≤ size
        → (kr.msgrcv qr size w).0 ≡ done b)
      → IsPrompt (systemv_queue ks) (systemv_queue kr) systemv_channel
  systemv_channel-IsPrompt ready = record {
    waiting = λ q size p text rest reader intact there clean.
        let (b, bs, first) = oldest (H.messages p.world) text rest there in
        let whole = (rw first at intact).0 in
        let given : (kr.msgrcv q.qid size p.world).0 ≡ done b =
          rw reader.0 (ready size p.world b bs first (omega (arith, whole.fits, reader.1))) in
        Returns-mono (Answers q size p) _ _ (receive_lem q size p reader intact clean)
          λ r (reports, reader', taken, intact', prompt). prompt b given;
  }
