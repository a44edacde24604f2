-- ===== src/Error/Text.antt =====
-- queues/error.c with the text of the message and the memory for it.
pub mod Laws
use banip.Base.{
  ℕ, ◌+◌, ◌^◌, Bool, true, false, List, [], ◌∷◌, Option, none, some, Bytes, length, leb,
  if◌then◌else◌, Outcome, returns, undefined, invalid_free, assertion, null_pointer,
  signed_overflow, ◌>>=◌,
}
use banip.Error.{Error, Slot, error_set, error_free}

-- `malloc`, and the text that `vsnprintf` makes of a format and its arguments, if its result is not
-- negative.
pub record Memory (W : Type 0) : Type 0 where
  pub malloc : ℕ → W → Bool × W
  pub vsnprintf : Error → Option Bytes

-- The argument `char **error`: null, or the address of a variable, null or with a text.
pub data Place : Type 0 where
  no_place : Place
  variable : Option Bytes → Place

-- The two functions, with what they are called with.
pub data Call : Type 0 where
  sets : Error → Call
  frees : Call

module _ {W : Type 0} (m : Memory W) where
  -- The second half of `_error_set`. The length is an `int`, and one is added to it for the zero at the end;
  -- `vsnprintf` then writes where `malloc` said.
  unfoldable pub keep_text : Bytes → W → Outcome (Place × W)
  keep_text text w =
      let (got, w') = m.malloc (length text + 1) w in
      let written : Outcome (Place × W) =
        if got then returns (variable (some text), w') else undefined null_pointer in
      if leb 2147483647 (length text) then undefined signed_overflow else written

  -- When there is a text, the address of the variable is passed to `free`.
  unfoldable pub set_text : Place → Error → W → Outcome (Place × W)
  unfolding keep_text
  set_text no_place e w = returns (no_place, w)
  set_text (variable (some old)) e w = undefined invalid_free
  set_text (variable none) e w = elim (m.vsnprintf e) [
    | none ↦ returns (variable none, w)
    | some text ↦ keep_text text w
  ]

  unfoldable pub free_text : Place → W → Outcome (Place × W)
  free_text no_place w = undefined assertion
  free_text (variable text) w = returns (variable none, w)

  unfoldable pub text_call : Call → Place → W → Outcome (Place × W)
  unfolding set_text free_text
  text_call (sets e) place w = set_text place e w
  text_call frees place w = free_text place w

  unfoldable pub text_calls : List Call → Place → W → Outcome (Place × W)
  unfolding text_call
  text_calls [] place w = returns (place, w)
  text_calls (call ∷ rest) place w = do
    (place', w') ← text_call call place w
    text_calls rest place' w'

-- The same calls, on the state of the variable alone.
unfoldable pub slot_call : Call → Slot → Outcome Slot
unfolding error_set error_free
slot_call (sets e) slot = error_set slot e
slot_call frees slot = error_free slot

unfoldable pub slot_calls : List Call → Slot → Outcome Slot
unfolding slot_call
slot_calls [] slot = returns slot
slot_calls (call ∷ rest) slot = do slot' ← slot_call call slot; slot_calls rest slot'
