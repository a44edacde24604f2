-- ===== src/Error/Text/Laws.antt =====
-- The message as a value is what a caller sees of queues/error.c, while there is memory.
use banip.Base.{
  ℕ, ◌≡◌, refl, ◌<◌, true, false, List, [], ◌∷◌, none, some, Bytes, length, leb, Outcome, returns,
  undefined, ◌>>=◌, arith,
}
use banip.Error.{Error, Slot, null, empty, full, error_set, error_free}
use banip.Error.Text.{
  Memory, Place, no_place, variable, Call, sets, frees, keep_text, set_text, free_text, text_call,
  text_calls, slot_call, slot_calls,
}

-- There is memory for every message, and each has a text whose length and the zero behind it an `int` can count.
pub record HasMemory {W : Type 0} (m : Memory W) : Type 0 where
  pub allocates : (size : ℕ) (w : W) → (m.malloc size w).0 ≡ true
  pub formats :
      (e : Error) → (text : Bytes) × (m.vsnprintf e ≡ some text) × (length text < 2147483647)

module _ {W : Type 0} (m : Memory W) where
  -- The variable is null or holds the text of the message.
  abbrev pub Shows : Slot → Place → Type 0
  Shows null no_place = Unit
  Shows null (variable text) = ⊥
  Shows empty no_place = ⊥
  Shows empty (variable none) = Unit
  Shows empty (variable (some text)) = ⊥
  Shows (full e) no_place = ⊥
  Shows (full e) (variable none) = ⊥
  Shows (full e) (variable (some text)) = m.vsnprintf e ≡ some text

  -- Both runs return, with what shows the message, or both have the same fault.
  abbrev pub Agrees : Outcome Slot → Outcome (Place × W) → Type 0
  Agrees (returns slot) (returns r) = Shows slot r.0
  Agrees (returns slot) (undefined f) = ⊥
  Agrees (undefined e) (returns r) = ⊥
  Agrees (undefined e) (undefined f) = e ≡ f

  Agrees->>= :
      (x : Outcome Slot) (y : Outcome (Place × W)) (f : Slot → Outcome Slot)
      (g : Place × W → Outcome (Place × W))
      → Agrees x y
      → ((slot : Slot) (r : Place × W) → Shows slot r.0 → Agrees (f slot) (g r))
      → Agrees (x >>= f) (y >>= g)
  Agrees->>= (returns slot) (returns r) f g h k = k slot r h
  Agrees->>= (returns slot) (undefined e) f g h k = absurd h
  Agrees->>= (undefined e) (returns r) f g h k = absurd h
  Agrees->>= (undefined e) (undefined e') f g h k = h

  module _ (H : HasMemory m) where
    set_text-Agrees :
        (slot : Slot) (place : Place) (e : Error) (w : W)
        → Shows slot place
        → Agrees (error_set slot e) (set_text m place e w)
    unfolding error_set set_text keep_text
    set_text-Agrees null no_place e w h = tt
    set_text-Agrees null (variable text) e w h = absurd h
    set_text-Agrees empty no_place e w h = absurd h
    set_text-Agrees empty (variable none) e w h =
        let (text, formatted, short) = H.formats e in
        let counted : leb 2147483647 (length text) ≡ false = ground arith in
        rw (formatted, set_text, counted, H.allocates _ w) formatted
    set_text-Agrees empty (variable (some text)) e w h = absurd h
    set_text-Agrees (full old) no_place e w h = absurd h
    set_text-Agrees (full old) (variable none) e w h = absurd h
    set_text-Agrees (full old) (variable (some text)) e w h = refl

    free_text-Agrees :
        (slot : Slot) (place : Place) (w : W)
        → Shows slot place
        → Agrees (error_free slot) (free_text m place w)
    unfolding error_free free_text
    free_text-Agrees null no_place w h = refl
    free_text-Agrees null (variable text) w h = absurd h
    free_text-Agrees empty no_place w h = absurd h
    free_text-Agrees empty (variable text) w h = tt
    free_text-Agrees (full e) no_place w h = absurd h
    free_text-Agrees (full e) (variable text) w h = tt

    text_call-Agrees :
        (call : Call) (slot : Slot) (place : Place) (w : W)
        → Shows slot place
        → Agrees (slot_call call slot) (text_call m call place w)
    unfolding slot_call text_call
    text_call-Agrees (sets e) slot place w h = set_text-Agrees slot place e w h
    text_call-Agrees frees slot place w h = free_text-Agrees slot place w h

    -- While there is memory for every message, any sequence of calls of `_error_set` and `error_free`
    -- comes to the same in the model with texts and memory as in the one that keeps only which message
    -- waits: either both return, the variable then holding the text of that message or nothing, or
    -- both end in the same undefined act.
    pub text_calls-Agrees :
        (calls : List Call) (slot : Slot) (place : Place) (w : W)
        → Shows slot place
        → Agrees (slot_calls calls slot) (text_calls m calls place w)
    unfolding slot_calls text_calls
    text_calls-Agrees [] slot place w h = h
    text_calls-Agrees (call ∷ rest) slot place w h =
        Agrees->>= (slot_call call slot) (text_call m call place w) (slot_calls rest)
          (λ (r : Place × W). text_calls m rest r.0 r.1) (text_call-Agrees call slot place w h)
          λ slot' r h'. text_calls-Agrees rest slot' r.0 r.1 h'
