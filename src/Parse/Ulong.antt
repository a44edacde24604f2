-- ===== src/Parse/Ulong.antt =====
-- parse.c: `parse_ulong`
pub mod Digits
pub mod Laws
pub mod Grammar
use banip.Base.{
  ℕ, Bool, true, false, ◌&&◌, ◌||◌, not, [], ◌∷◌, Bytes, length, leb, ◌==◌, if◌then◌else◌, Outcome,
  returns,
}
use banip.Error.{Env, generic, error_set, fail}
use banip.Parse.Strtoul.{ulong_max, erange, strtoul, Conversion}

pub record UlongParse : Type 0 where
  pub ok : Bool
  -- `*val`, which is written on every path
  pub val : ℕ
  pub env : Env

abbrev pub is_nil : Bytes → Bool
is_nil [] = true
is_nil (c ∷ s) = false

abbrev pub refused : ℕ → Env → UlongParse
refused val env = record { ok = false; val = val; env = env }

unfoldable pub check_ulong : Bytes → Env → Conversion → Outcome UlongParse
check_ulong str env c =
    if c.errno == erange && c.val == ulong_max || not (c.errno == 0) && c.val == 0
    then fail env (generic "overflow or underflow for '%s'") (refused c.val)
    else if length c.rest == length str
    then fail env (generic "number expected, no digit found") (refused c.val)
    else if not (is_nil c.rest)
    then fail env (generic "number expected, non digit found %c in %s") (refused c.val)
    else if leb c.val 0
    then fail env (generic "number should be greater than 0, got %ld") (refused c.val)
    else returns (record { ok = true; val = c.val; env = env })

-- `errno` is not reset before the call of `strtoul`.
unfoldable pub parse_ulong : Bytes → Env → Outcome UlongParse
unfolding check_ulong strtoul error_set
parse_ulong str env =
    let c = strtoul env.errno str in check_ulong str (record env { errno = c.errno }) c
