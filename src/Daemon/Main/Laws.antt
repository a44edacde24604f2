-- ===== src/Daemon/Main/Laws.antt =====
-- What `main` has when it comes to its block.
use banip.Base.{
  ℕ, ◌≡◌, refl, List, [], ◌∷◌, some, is_some, Bytes, ◌⊎◌, inl, inr, Outcome, returns, ◌>>=◌,
  Returns, Returns->>=, Bool-cases, Option-cases,
}
use banip.Error.{empty, Reports}
use banip.Process.{Proc, Reply, done, failed}
use banip.Parse.Ulong.{UlongParse, parse_ulong}
use banip.Parse.Ulong.Laws.{parse_ulong-Reports}
use banip.Queue.{QueueApi, QueueAttr, max_message_size, max_message_in_queue}
use banip.Queue.Contract.{Terms, IsQueue}
use banip.Engine.{Engine, get_default_engine, get_engine_by_name}
use banip.Parse.Addr.Errors.{env-clean}
use banip.Daemon.Start.{Settings}
use banip.Daemon.Options.{
  Opt, msgsize, engine, group, log, pid, queue, qsize, table, daemonize, verbose, help, Taken, goes,
  exits, OptionHost, Chosen, set_number, choose_engine, choose_group, choose_log, take_option,
  take_options, check_operands, exit_failure, exit_usage,
}
use banip.Daemon.Main.{defaults, read_arguments, prepare}

-- The process goes on with the property, or it exits with one of its two statuses.
abbrev pub Settled : {A : Type 1} → (A → Type 0) → Taken A → Type 0
Settled P (goes a) = P a
Settled P (exits status) = (status ≡ exit_failure) ⊎ (status ≡ exit_usage)

Settled-then :
    {A B : Type 1} (P : A → Type 0) (Q : B → Type 0) (t : Taken A) (f : A → Outcome (Taken B))
    → Settled P t
    → ((a : A) → P a → Returns (Settled Q) (f a))
    → Returns (Settled Q) (elim t [ exits status ↦ returns (exits status) | goes a ↦ f a ])
Settled-then P Q (exits status) f settled next = settled
Settled-then P Q (goes a) f settled next = next a settled

module _ {W : Type 0} (api : QueueApi W) (host : OptionHost W) where
  abbrev Choice : Type 1
  Choice = Chosen api host

  abbrev pub IsQuiet : Choice → Type 0
  IsQuiet c = c.proc.env.slot ≡ empty

  set_number-Settled :
      (c : Choice) (attr : QueueAttr) (r : UlongParse)
      → Reports r.ok r.env.slot
      → Settled IsQuiet (set_number api host c attr r)
  unfolding set_number
  set_number-Settled c attr r reports = elim (Bool-cases r.ok) [
    | inl accepted ↦ rw (accepted, set_number) (rw accepted at reports)
    | inr refused ↦ rw (refused, set_number) (inl refl)
  ]

  number-Settled :
      (c : Choice) (attr : QueueAttr) (arg : Bytes)
      → IsQuiet c
      → Returns
          (Settled IsQuiet)
          (do r ← parse_ulong arg c.proc.env; returns (set_number api host c attr r))
  number-Settled c attr arg quiet =
      Returns->>= (λ r. Reports r.ok r.env.slot) (Settled IsQuiet) (parse_ulong arg c.proc.env) _
        (rw (env-clean c.proc.env quiet) (parse_ulong-Reports arg c.proc.env.errno))
        λ r reports. set_number-Settled c attr r reports

  choose_engine-Settled :
      (available : List (Engine W)) (c : Choice) (name : Bytes)
      → IsQuiet c
      → Settled IsQuiet (choose_engine api host available c name)
  unfolding choose_engine
  choose_engine-Settled available c name quiet =
      elim (Option-cases (get_engine_by_name name available)) [
        | inl unknown ↦ rw (unknown, choose_engine) (inl refl)
        | inr (e, known) ↦ rw (known, choose_engine) quiet
      ]

  choose_group-Settled :
      (c : Choice) (reply : Reply ℕ × W)
      → IsQuiet c
      → Settled IsQuiet (choose_group api host c reply)
  unfolding choose_group
  choose_group-Settled c (done g, w) quiet = quiet
  choose_group-Settled c (failed n, w) quiet = inl refl

  take_option-Settled :
      (available : List (Engine W)) (c : Choice) (o : Opt)
      → IsQuiet c
      → Returns (Settled IsQuiet) (take_option api host available c o)
  unfolding take_option choose_log
  take_option-Settled available c (msgsize arg) quiet = number-Settled c max_message_size arg quiet
  take_option-Settled available c (qsize arg) quiet =
      number-Settled c max_message_in_queue arg quiet
  take_option-Settled available c (engine arg) quiet = choose_engine-Settled available c arg quiet
  take_option-Settled available c (group arg) quiet = choose_group-Settled c _ quiet
  take_option-Settled available c (log arg) quiet = quiet
  take_option-Settled available c (pid arg) quiet = quiet
  take_option-Settled available c (queue arg) quiet = quiet
  take_option-Settled available c (table arg) quiet = quiet
  take_option-Settled available c daemonize quiet = quiet
  take_option-Settled available c verbose quiet = quiet
  take_option-Settled available c help quiet = inr refl

  take_options-Settled :
      (available : List (Engine W)) (options : List Opt) (c : Choice)
      → IsQuiet c
      → Returns (Settled IsQuiet) (take_options api host available c options)
  unfolding take_options
  take_options-Settled available [] c quiet = quiet
  take_options-Settled available (o ∷ rest) c quiet =
      Returns->>= (Settled IsQuiet) (Settled IsQuiet) (take_option api host available c o) _
        (take_option-Settled available c o quiet)
        λ t settled.
          Settled-then IsQuiet IsQuiet t _ settled
            λ c' quiet'. take_options-Settled available rest c' quiet'

  check_operands-Settled :
      (c : Choice) (operands : List Bytes)
      → IsQuiet c
      → Settled (λ r. IsQuiet r.1) (check_operands api host c operands)
  unfolding check_operands
  check_operands-Settled c (operand ∷ rest) quiet = inr refl
  check_operands-Settled c [] quiet = elim (Option-cases c.queue_name) [
    | inl absent ↦ rw (absent, check_operands) (inr refl)
    | inr (q, given) ↦ elim (Option-cases c.table_name) [
      | inl absent ↦ rw (given, absent, check_operands) (inr refl)
      | inr (t, given') ↦ rw (given, given', check_operands) quiet
    ]
  ]

  read_arguments-Settled :
      (available : List (Engine W)) (options : List Opt) (operands : List Bytes) (c : Choice)
      → IsQuiet c
      → Returns (Settled (λ r. IsQuiet r.1)) (read_arguments api host available options operands c)
  unfolding read_arguments
  read_arguments-Settled available options operands c quiet =
      Returns->>= (Settled IsQuiet) (Settled (λ r. IsQuiet r.1))
        (take_options api host available c options) _
        (take_options-Settled available options c quiet)
        λ t settled.
          Settled-then IsQuiet (λ (r : Settings × Choice). IsQuiet r.1) t _ settled
            λ c' quiet'. check_operands-Settled c' operands quiet'

  -- Over a queue that keeps the contract, with no error pending: whatever the options and operands,
  -- what stands before the block of the daemon's `main` returns. The process exits with the status of
  -- failure or of usage, or it comes to the block with no error pending.
  pub prepare-Settled :
      (terms : Terms api) (keeps : IsQueue api terms) (available : List (Engine W))
      (options : List Opt) (operands : List Bytes) (p : Proc W)
      → p.env.slot ≡ empty
      → Returns
          (Settled (λ r. r.1.proc.env.slot ≡ empty))
          (prepare api host available options operands p)
  unfolding prepare
  prepare-Settled terms keeps available options operands p clean =
      Returns->>=
        (λ r.
          Reports (is_some r.0) r.1.env.slot × ((q : api.Queue) → r.0 ≡ some q → terms.IsFresh q))
        (Settled (λ r. IsQuiet r.1)) (api.queue_init p) _ (keeps.inits p clean)
        λ (made, p') (reports, fresh). elim (Option-cases made) [
          | inl absent ↦ rw absent (inl refl)
          | inr (q, given) ↦ elim (Option-cases (get_default_engine available)) [
            | inl no_engine ↦ rw (given, no_engine) (inl refl)
            | inr (e, first) ↦
                rw (given, first)
                  (read_arguments-Settled available options operands (defaults api host q e p')
                    (rw given at reports))
          ]
        ]
