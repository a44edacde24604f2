-- ===== src/Cli.antt =====
-- banip-cli.c: `main`, which sends one message.
pub mod Laws
use banip.Base.{
  ℕ, Bool, true, false, List, [], ◌∷◌, Option, none, some, Bytes, codes, if◌then◌else◌, Outcome,
  returns, ◌>>=◌,
}
use banip.Error.{Error, Slot, null, empty, full, error_free}
use banip.Process.{Proc, set_world, set_slot}
use banip.Queue.{QueueApi, fl_sender}

-- What is printed.
pub record Terminal (W : Type 0) : Type 0 where
  pub stdout : Bytes → W → W
  pub stderr : Bytes → W → W
  pub print_error : Error → W → W

-- `EXIT_SUCCESS` and `EXIT_FAILURE`
abbrev pub success : ℕ
success = 0

abbrev pub failure : ℕ
failure = 1

-- What is printed when the arguments are not two.
abbrev pub wanted : Bytes
wanted = codes "expected arguments are: 1) queue path/name ; 2) message to send\n"

module _ {W : Type 0} (term : Terminal W) where
  -- `if (NULL != error) { fprintf(...); error_free(&error); }`
  unfoldable pub show_error : Proc W → Outcome (Proc W)
  show_error p = elim p.env.slot [
    | full e ↦ do
      slot ← error_free (full e)
      returns (set_slot (set_world p (term.print_error e p.world)) slot)
    | other ↦ returns p
  ]

module _ {W : Type 0} (api : QueueApi W) (term : Terminal W) where
  -- What follows the block.
  unfoldable pub finish_main : Option api.Queue → Proc W → ℕ → Outcome (ℕ × Proc W)
  unfolding show_error
  finish_main none p status = do p' ← show_error term p; returns (status, p')
  finish_main (some q) p status = do
    (closed, q', p') ← api.queue_close (some q) p
    p'' ← show_error term p'
    returns (status, p'')

  -- The message goes to a queue that is open.
  unfoldable pub send_message : api.Queue → Bytes → Proc W → Outcome (ℕ × Proc W)
  unfolding finish_main
  send_message q msg p = do
    (sent, q', p') ← api.queue_send q msg none p
    let p'' = if sent then set_world p' (term.stdout (codes "OK\n") p'.world) else p'
    finish_main (some q') p'' success

  unfoldable pub send_to : Bytes → Bytes → Proc W → Outcome (ℕ × Proc W)
  unfolding send_message finish_main
  send_to name msg p = do
    (made, p1) ← api.queue_init p
    elim made [
      | none ↦ finish_main none p1 failure
      | some q ↦ do
        (opened, q', p2) ← api.queue_open q name fl_sender p1
        let sent = send_message q' msg p2
        let unsent = finish_main (some q') p2 failure
        if opened then sent else unsent
    ]

  -- `argv` without the name of the program.
  unfoldable pub main : List Bytes → Proc W → Outcome (ℕ × Proc W)
  unfolding send_to
  main (name ∷ msg ∷ []) p = send_to name msg p
  main args p = finish_main none (set_world p (term.stderr wanted p.world)) failure
