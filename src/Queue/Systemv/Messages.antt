-- ===== src/Queue/Systemv/Messages.antt =====
-- The messages that wait in a System V queue.
use banip.Base.{
  ℕ, ◌≡◌, ◌≤◌, ◌<◌, refl, List, [], ◌∷◌, ◌++◌, Option, none, some, Bytes, length, strchr,
}
use banip.Process.{done, failed}
use banip.Queue.Systemv.{Kernel}

-- What `msgsnd` and `msgrcv` document, for identifiers of one queue and messages of one type: they are
-- kept in order, and a call that fails changes nothing.
pub record HasMessages {W : Type 0} (ks kr : Kernel W) (qs qr : Option ℕ) : Type 0 where
  pub messages : W → List Bytes
  pub accepts :
      (b : Bytes) (w : W)
      → (ks.msgsnd qs b w).0 ≡ done tt
      → messages (ks.msgsnd qs b w).1 ≡ messages w ++ b ∷ []
  pub refuses :
      (b : Bytes) (w : W) (n : ℕ)
      → (ks.msgsnd qs b w).0 ≡ failed n
      → messages (ks.msgsnd qs b w).1 ≡ messages w
  pub gives :
      (size : ℕ) (w : W) (b : Bytes)
      → (kr.msgrcv qr size w).0 ≡ done b
      → messages w ≡ b ∷ messages (kr.msgrcv qr size w).1
  pub withholds :
      (size : ℕ) (w : W) (n : ℕ)
      → (kr.msgrcv qr size w).0 ≡ failed n
      → messages (kr.msgrcv qr size w).1 ≡ messages w

-- The text that `strcpy` takes from a message.
abbrev pub text_in : Bytes → Bytes
text_in b = elim (strchr 0 b) [ none ↦ [] | some (text, rest) ↦ text ]

-- A message of at most `n` bytes with a zero, before which there are fewer.
pub record IsWhole (n : ℕ) (b : Bytes) : Type 0 where
  pub text : Bytes
  pub rest : Bytes
  pub ends : strchr 0 b ≡ some (text, rest)
  pub short : length text < n
  pub fits : length b ≤ n

pub IsWhole-reads : {n : ℕ} {b : Bytes} (w : IsWhole n b) → text_in b ≡ w.text
IsWhole-reads w = rw (w.ends, text_in) refl
