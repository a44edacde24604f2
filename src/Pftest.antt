-- ===== src/Pftest.antt =====
-- pftest.c: `main`, which bans one fixed address with an engine.
pub mod Laws
use banip.Base.{
  ℕ, Bool, true, false, List, [], ◌∷◌, Option, none, some, is_some, Bytes, codes, if◌then◌else◌,
  Outcome, returns, ◌>>=◌,
}
use banip.Error.{generic}
use banip.Process.{Proc, report}
use banip.Parse.Word.{Endian}
use banip.Parse.Addr.{Libc, parse_addr}
use banip.Engine.{
  Engine, Pointer, close_engine, free_pointer, get_default_engine, get_engine_by_name,
}
use banip.Cli.{Terminal, success, failure, show_error}

-- `TABLENAME`
abbrev pub table_name : Bytes
table_name = codes "blacklist"

abbrev pub test_address : Bytes
test_address = codes "1.2.3.4"

module _ {W : Type 0} (e : Endian) (lib : Libc) (term : Terminal W) where
  -- What follows the block.
  unfoldable pub finish_test :
      (engine : Engine W) → ℕ → Option (Pointer engine.Ctxt) → Proc W → Outcome (ℕ × Proc W)
  unfolding show_error
  finish_test engine status none p = do p' ← show_error term p; returns (status, p')
  finish_test engine status (some c) p = do
    p' ← show_error term p
    p'' ← close_engine engine c p'
    p''' ← free_pointer engine c p''
    returns (status, p''')

  -- `parse_addr`, `handle` and what follows the block.
  unfoldable pub ban_address :
      (engine : Engine W) → Option (Pointer engine.Ctxt) → Proc W → Outcome (ℕ × Proc W)
  unfolding finish_test parse_addr
  ban_address engine ctxt p = do
    parsed ← parse_addr e lib test_address p.env
    let p' : Proc W = record p { env = parsed.env }
    let banned : Outcome (ℕ × Proc W) = (do
      (done, q) ← engine.on_handle ctxt table_name parsed.addr p'
      finish_test engine (if done then success else failure) ctxt q)
    let refused = finish_test engine failure ctxt p'
    if parsed.ok then banned else refused

  unfoldable pub test_engine : Engine W → Proc W → Outcome (ℕ × Proc W)
  unfolding ban_address finish_test
  test_engine engine p = elim engine.on_open [
    | none ↦ ban_address engine none p
    | some on_open ↦ do
      (ctxt, p') ← on_open table_name p
      let opened = ban_address engine ctxt p'
      let unopened = finish_test engine failure ctxt p'
      if is_some ctxt then opened else unopened
  ]

  -- `argv` without the name of the program; an engine that is not found is reported.
  unfoldable pub main : List (Engine W) → List Bytes → Proc W → Outcome (ℕ × Proc W)
  unfolding test_engine show_error report
  main available args p =
      let unknown = (do
        (status, p') ← report p (generic "unknown engine '%s'") failure
        p'' ← show_error term p'
        returns (status, p'')) in
      let missing = (do
        (status, p') ← report p (generic "no engine available for your system") failure
        p'' ← show_error term p'
        returns (status, p'')) in
      elim args [
        | [] ↦ elim (get_default_engine available) [
          | none ↦ missing
          | some engine ↦ test_engine engine p
        ]
        | name ∷ rest ↦ elim (get_engine_by_name name available) [
          | none ↦ unknown
          | some engine ↦ test_engine engine p
        ]
      ]
