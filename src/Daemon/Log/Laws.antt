-- ===== src/Daemon/Log/Laws.antt =====
-- A call of `_verr` appends one line.
use banip.Base.{
  ℕ, ◌≡◌, refl, sym, ap, ◌∙◌, Bool, List, [], ◌∷◌, ◌++◌, Option, none, some, Bytes, codes,
  if◌then◌else◌,
}
use mathlib.Core.List.{append-nil, append_assoc}
use banip.Daemon.Options.{exit_failure}
use banip.Daemon.Log.{File, stderr, LogHost, print_all, stamp, verr_pieces, verr}

-- What has been written to a file; `fprintf` appends to it.
record HasFiles {W : Type 0} (host : LogHost W) : Type 0 where
  pub contents : File → W → Bytes
  pub appends :
      (file : File) (text : Bytes) (w : W)
      → contents file (host.fprintf file text w) ≡ contents file w ++ text
  pub set_keeps : (file f : File) (w : W) → contents f (host.set_err_file file w) ≡ contents f w

abbrev joined : List Bytes → Bytes
joined [] = []
joined (piece ∷ rest) = piece ++ joined rest

module _ {W : Type 0} (host : LogHost W) (H : HasFiles host) where
  print_all-appends :
      (file : File) (pieces : List Bytes) (w : W)
      → H.contents file (print_all host file pieces w) ≡ H.contents file w ++ joined pieces
  unfolding print_all
  print_all-appends file [] w = sym (append-nil (H.contents file w))
  print_all-appends file (piece ∷ rest) w =
      print_all-appends file rest (host.fprintf file piece w)
      ∙ ap (λ (t : Bytes). t ++ joined rest) (H.appends file piece w)
      ∙ append_assoc (H.contents file w) piece (joined rest)

  abbrev file_of : W → File
  file_of w = elim (host.err_file w) [ none ↦ stderr | some f ↦ f ]

  -- The line: the time and the name, the text of the format, and that of an error code that is not 0.
  abbrev line_pieces : ℕ → Option Bytes → W → List Bytes
  line_pieces errcode fmt w =
      (codes "[" ++ stamp host w ++ codes "] " ++ host.progname ++ codes ": ")
      ∷ verr_pieces host errcode fmt

  abbrev line_of : ℕ → Option Bytes → W → Bytes
  line_of errcode fmt w = joined (line_pieces errcode fmt w)

  -- The line is appended to the file of the log, or to `stderr` when there is none; the process then exits
  -- with the status of failure exactly if the error is fatal.
  verr-line :
      (fatal : Bool) (errcode : ℕ) (fmt : Option Bytes) (w : W)
      → ((verr host fatal errcode fmt w).0 ≡ (if fatal then some exit_failure else none))
        × (H.contents (file_of w) (verr host fatal errcode fmt w).1
            ≡ H.contents (file_of w) w ++ line_of errcode fmt w)
  unfolding verr
  verr-line fatal errcode fmt w = (
    refl,
    print_all-appends (file_of w) (line_pieces errcode fmt w) (host.set_err_file (file_of w) w)
        ∙ ap (λ (t : Bytes). t ++ line_of errcode fmt w) (H.set_keeps (file_of w) (file_of w) w),
  )
