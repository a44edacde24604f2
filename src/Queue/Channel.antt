-- ===== src/Queue/Channel.antt =====
-- What queues/queue.h promises to two processes that have the same queue open: messages arrive once, in
-- the order in which they were sent.
use banip.Base.{ℕ, ◌≡◌, Bool, true, false, none, List, [], ◌∷◌, ◌++◌, Bytes, Returns}
use banip.Error.{empty, Reports}
use banip.Process.{Proc}
use banip.Queue.{QueueApi, Received, message, no_message, got}

-- The text that was received, if there is one.
abbrev pub heard : Received → List Bytes
heard (message n text) = text ∷ []
heard no_message = []

-- The texts that wait after a call of `queue_send`.
abbrev pub sent_if : Bool → Bytes → List Bytes
sent_if true text = text ∷ []
sent_if false text = []

-- A sender and a receiver over one world. `contents` are the texts that wait, the oldest first.
pub record IsChannel {W : Type 0} (sender receiver : QueueApi W) : Type 1 where
  pub contents : W → List Bytes
  pub IsSender : sender.Queue → Type 0
  pub IsReceiver : receiver.Queue → ℕ → Type 0
  pub IsText : Bytes → Type 0
  -- what waits was sent by such senders
  pub IsIntact : W → Type 0
  pub sends :
      (q : sender.Queue) (text : Bytes) (p : Proc W)
      → IsSender q
      → IsText text
      → IsIntact p.world
      → p.env.slot ≡ empty
      → Returns
          (λ r.
            Reports r.0 r.2.env.slot
            × IsSender r.1
            × (contents r.2.world ≡ contents p.world ++ sent_if r.0 text)
            × IsIntact r.2.world)
          (sender.queue_send q text none p)
  pub receives :
      (q : receiver.Queue) (size : ℕ) (p : Proc W)
      → IsReceiver q size
      → IsIntact p.world
      → p.env.slot ≡ empty
      → Returns
          (λ r.
            Reports (got r.0) r.2.env.slot
            × IsReceiver r.1 size
            × (contents p.world ≡ heard r.0 ++ contents r.2.world)
            × IsIntact r.2.world)
          (receiver.queue_receive q size size p)

-- If a text waits, the receiver gets it.
pub record IsPrompt {W : Type 0} (sender receiver : QueueApi W) (C : IsChannel sender receiver)
    : Type 0 where
  pub waiting :
      (q : receiver.Queue) (size : ℕ) (p : Proc W) (text : Bytes) (rest : List Bytes)
      → C.IsReceiver q size
      → C.IsIntact p.world
      → C.contents p.world ≡ text ∷ rest
      → p.env.slot ≡ empty
      → Returns (λ r. got r.0 ≡ true) (receiver.queue_receive q size size p)
