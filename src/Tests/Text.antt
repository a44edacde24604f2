-- ===== src/Tests/Text.antt =====
-- The caller's error with texts of at most two bytes, and a count of the calls of `malloc`.
use banip.Base.{ℕ, suc, ◌<◌, refl, true, List, [], ◌∷◌, none, some, Bytes, length, arith}
use banip.Error.{Error, generic, system, empty}
use banip.Error.Text.{Memory, variable, Call, sets, frees, text_calls, slot_calls}
use banip.Error.Text.Laws.{HasMemory, Agrees, text_calls-Agrees}

abbrev text_of : Error → Bytes
text_of (generic format) = b'e' ∷ []
text_of (system format n) = b'e' ∷ n ∷ []

abbrev memory : Memory ℕ
memory = record { malloc = λ size w. (true, suc w); vsnprintf = λ e. some (text_of e) }

short : (e : Error) → length (text_of e) < 2147483647
short (generic format) = omega arith
short (system format n) = omega arith

has_memory : HasMemory memory
has_memory = record { allocates = λ size w. refl; formats = λ e. (text_of e, refl, short e) }

-- The last call overwrites a message.
abbrev calls : List Call
calls = sets (system "mq_open failed" 2) ∷ frees ∷ sets (generic "a") ∷ sets (generic "b") ∷ []

text_calls-Agrees_example :
    Agrees memory (slot_calls calls empty) (text_calls memory calls (variable none) 0)
text_calls-Agrees_example = text_calls-Agrees memory has_memory calls empty (variable none) 0 tt
