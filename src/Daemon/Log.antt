-- ===== src/Daemon/Log.antt =====
-- banipd.c: `_verr`, which writes a line to the log, and `usage`.
pub mod Laws
use banip.Base.{
  ℕ, Bool, true, false, List, [], ◌∷◌, ◌++◌, Option, none, some, Bytes, codes, if◌then◌else◌, ◌==◌,
  strchr,
}
use banip.Error.{Slot}
use banip.Daemon.Serve.{Log}
use banip.Daemon.Options.{exit_failure, exit_usage}

-- Where the lines go: `stderr`, or the file that was opened for them.
pub data File : Type 0 where
  stderr log_file : File

pub record LogHost (W : Type 0) : Type 0 where
  pub progname : Bytes
  -- the local time as `strftime` writes it, if it does
  pub strftime : W → Option Bytes
  pub strerror : ℕ → Bytes
  pub fprintf : File → Bytes → W → W
  -- the static variable `err_file`
  pub err_file : W → Option File
  pub set_err_file : File → W → W
  -- what `%s` makes of the caller's error
  pub text_of : Slot → Bytes

-- The bytes behind the last `c`.
unfoldable pub strrchr : ℕ → Bytes → Option Bytes
strrchr c [] = none
strrchr c (x ∷ s) =
    let later = strrchr c s in
    elim later [ some rest ↦ some rest | none ↦ if x == c then some s else none ]

abbrev pub optstr : Bytes
optstr = codes "b:e:g:l:p:q:s:t:dhv"

module _ {W : Type 0} (host : LogHost W) where
  unfoldable pub print_all : File → List Bytes → W → W
  print_all file [] w = w
  print_all file (piece ∷ rest) w = print_all file rest (host.fprintf file piece w)

  unfoldable pub stamp : W → Bytes
  stamp w = elim (host.strftime w) [ none ↦ [] | some text ↦ text ]

  -- What is printed behind the time and the name: the text of the format, if there is one, and that of
  -- the error code, if it is not 0.
  unfoldable pub verr_pieces : ℕ → Option Bytes → List Bytes
  verr_pieces errcode fmt =
      let code = if errcode == 0 then [] else host.strerror errcode ∷ [] in
      let colon = if errcode == 0 then [] else codes ": " ∷ [] in
      let text : List Bytes = elim fmt [ none ↦ [] | some t ↦ t ∷ colon ] in
      text ++ code ++ codes "\n" ∷ []

  -- The status with which the process then exits, if it does.
  unfoldable pub verr : Bool → ℕ → Option Bytes → W → Option ℕ × W
  unfolding print_all stamp verr_pieces
  verr fatal errcode fmt w =
      let file : File = elim (host.err_file w) [ none ↦ stderr | some f ↦ f ] in
      let head = codes "[" ++ stamp w ++ codes "] " ++ host.progname ++ codes ": " in
      let w' = print_all file (head ∷ verr_pieces errcode fmt) (host.set_err_file file w) in
      (if fatal then some exit_failure else none, w')

  unfoldable pub usage : W → ℕ × W
  unfolding strrchr
  usage w =
      let flags : Bytes = elim (strrchr b':' optstr) [ none ↦ optstr | some rest ↦ rest ] in
      let line =
        codes "usage: "
        ++ host.progname
        ++ codes " [-"
        ++ flags
        ++ codes "] [ -q queue_name ] [ -t table_name ]\n" in
      (exit_usage, host.fprintf stderr line w)

  -- `_verr(false, 0, "%s", error)`, as the loop and the end of `main` call it.
  abbrev pub verr_log : Log W
  verr_log = record { write_log = λ slot w. (verr false 0 (some (host.text_of slot)) w).1 }
