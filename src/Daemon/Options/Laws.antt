-- ===== src/Daemon/Options/Laws.antt =====
-- What the options choose.
use banip.Base.{
  ℕ, ◌≡◌, refl, sym, subst, ◌∙◌, ap, ◌⊎◌, inl, inr, List, [], ◌∷◌, none, Bytes, returns, ◌>>=◌,
  >>=-eq-returns, Bool-cases, Option-cases,
}
use banip.Process.{Reply, done, failed}
use banip.Parse.Ulong.{UlongParse, parse_ulong}
use banip.Queue.{QueueAttr, max_message_size, max_message_in_queue}
use banip.Queue.Posix.{Kernel, PosixQueue, posix_queue}
use banip.Queue.Posix.Laws.{set_attribute-not_owner}
use banip.Engine.{Engine, get_engine_by_name}
use banip.Engine.Laws.{IsFirst, get_engine_by_name-IsFirst}
use banip.Daemon.Options.{
  Opt, msgsize, engine, group, log, pid, queue, qsize, table, daemonize, verbose, help, Taken, goes,
  exits, OptionHost, Chosen, set_number, choose_engine, choose_group, choose_log, take_option,
  take_options,
}

module _ {W : Type 0} (k : Kernel W) (host : OptionHost W) (available : List (Engine W)) where
  abbrev Choice : Type 1
  Choice = Chosen (posix_queue k) host

  -- Between two states of the options: the queue is the same, and the engine is the same or the first of
  -- its name in the table.
  record Keeps (c c' : Choice) : Type 1 where
    pub same_queue : c'.the_queue ≡ c.the_queue
    pub engine_from :
        (c'.the_engine ≡ c.the_engine) ⊎ IsFirst c'.the_engine.name c'.the_engine available

  Keeps-then : (c c' c'' : Choice) → Keeps c c' → Keeps c' c'' → Keeps c c''
  Keeps-then c c' c'' first second = record {
    same_queue = second.same_queue ∙ first.same_queue;
    engine_from = elim second.engine_from [
      | inr chosen ↦ inr chosen
      | inl same ↦ elim first.engine_from [
        | inl before ↦ inl (same ∙ before)
        | inr chosen ↦ inr (subst (λ (e : Engine W). IsFirst e.name e available) (sym same) chosen)
      ]
    ];
  }

  Keeps-goes :
      (c t c' : Choice)
      → t.the_queue ≡ c.the_queue
      → t.the_engine ≡ c.the_engine
      → goes t ≡ goes c'
      → Keeps c c'
  Keeps-goes c t c' same_queue same_engine h =
      let same : t ≡ c' = cc h in
      subst (λ (x : Choice). Keeps c x) same
        (record { same_queue = same_queue; engine_from = inl same_engine })

  set_number-Keeps :
      (c : Choice) (attr : QueueAttr) (r : UlongParse) {c' : Choice}
      → c.the_queue.filename ≡ none
      → set_number (posix_queue k) host c attr r ≡ goes c'
      → Keeps c c'
  unfolding set_number
  set_number-Keeps c attr r {c'} unowned h = elim (Bool-cases r.ok) [
    | inl accepted ↦
        Keeps-goes c _ c' (ap (λ x. x.1) (set_attribute-not_owner c.the_queue attr r.val unowned))
          refl (rw (accepted, set_number) at h)
    | inr refused ↦ absurd (cc (rw (refused, set_number) at h))
  ]

  choose_engine-Keeps :
      (c : Choice) (name : Bytes) {c' : Choice}
      → choose_engine (posix_queue k) host available c name ≡ goes c'
      → Keeps c c'
  unfolding choose_engine
  choose_engine-Keeps c name {c'} h = elim (Option-cases (get_engine_by_name name available)) [
    | inl unknown ↦ absurd (cc (rw (unknown, choose_engine) at h))
    | inr (e, known) ↦
        let first : IsFirst name e available = get_engine_by_name-IsFirst name available known in
        let same : record c { the_engine = e } ≡ c' = cc (rw (known, choose_engine) at h) in
        subst (λ (x : Choice). Keeps c x) same
          (record {
            same_queue = refl;
            engine_from =
                inr (subst (λ (n : Bytes). IsFirst n e available) (sym first.named) first);
          })
  ]

  choose_group-Keeps :
      (c : Choice) (reply : Reply ℕ × W) {c' : Choice}
      → choose_group (posix_queue k) host c reply ≡ goes c'
      → Keeps c c'
  unfolding choose_group
  choose_group-Keeps c (done g, w) {c'} h = Keeps-goes c _ c' refl refl h
  choose_group-Keeps c (failed n, w) h = absurd (cc h)

  taken : {A : Type 1} {a b : A} → returns a ≡ returns b → a ≡ b
  taken h = cc h

  number-Keeps :
      (c : Choice) (attr : QueueAttr) (arg : Bytes) {c' : Choice}
      → c.the_queue.filename ≡ none
      → (do r ← parse_ulong arg c.proc.env; returns (set_number (posix_queue k) host c attr r))
        ≡ returns (goes c')
      → Keeps c c'
  number-Keeps c attr arg unowned h =
      let (r, run, set) = >>=-eq-returns (parse_ulong arg c.proc.env) _ h in
      set_number-Keeps c attr r unowned (taken set)

  take_option-Keeps :
      (c : Choice) (o : Opt) {c' : Choice}
      → c.the_queue.filename ≡ none
      → take_option (posix_queue k) host available c o ≡ returns (goes c')
      → Keeps c c'
  unfolding take_option choose_log
  take_option-Keeps c (msgsize arg) unowned h = number-Keeps c max_message_size arg unowned h
  take_option-Keeps c (qsize arg) unowned h = number-Keeps c max_message_in_queue arg unowned h
  take_option-Keeps c (engine arg) unowned h = choose_engine-Keeps c arg (taken h)
  take_option-Keeps c (group arg) unowned h =
      choose_group-Keeps c (host.getgrnam arg c.proc.world) (taken h)
  take_option-Keeps c (log arg) {c'} unowned h = Keeps-goes c _ c' refl refl (taken h)
  take_option-Keeps c (pid arg) {c'} unowned h = Keeps-goes c _ c' refl refl (taken h)
  take_option-Keeps c (queue arg) {c'} unowned h = Keeps-goes c _ c' refl refl (taken h)
  take_option-Keeps c (table arg) {c'} unowned h = Keeps-goes c _ c' refl refl (taken h)
  take_option-Keeps c daemonize {c'} unowned h = Keeps-goes c _ c' refl refl (taken h)
  take_option-Keeps c verbose {c'} unowned h = Keeps-goes c _ c' refl refl (taken h)
  take_option-Keeps c help unowned h = absurd (cc h)

  rest-Keeps :
      (rest : List Opt) (c : Choice) (o : Opt) (c' : Choice)
      → ((d : Choice)
          → d.the_queue.filename ≡ none
          → take_options (posix_queue k) host available d rest ≡ returns (goes c')
          → Keeps d c')
      → c.the_queue.filename ≡ none
      → (t : Taken Choice) → take_option (posix_queue k) host available c o ≡ returns t
      → (elim t [
        | exits status ↦ returns (exits status)
        | goes d ↦ take_options (posix_queue k) host available d rest
      ])
        ≡ returns (goes c')
      → Keeps c c'
  rest-Keeps rest c o c' others unowned (exits status) run more = absurd (cc more)
  rest-Keeps rest c o c' others unowned (goes d) run more =
      let first = take_option-Keeps c o unowned run in
      Keeps-then c d c' first
        (others d (ap (λ (q : PosixQueue). q.filename) first.same_queue ∙ unowned) more)

  -- Whatever options are given over a POSIX queue that is not open yet, `-b` and `-s` among them: if the
  -- process goes on, the queue is as it was, and the engine is the one from before or the first of
  -- its name in the table.
  take_options-Keeps :
      (options : List Opt) (c : Choice) {c' : Choice}
      → c.the_queue.filename ≡ none
      → take_options (posix_queue k) host available c options ≡ returns (goes c')
      → Keeps c c'
  unfolding take_options
  take_options-Keeps [] c {c'} unowned h = Keeps-goes c c c' refl refl (taken h)
  take_options-Keeps (o ∷ rest) c {c'} unowned h =
      let (t, run, more) = >>=-eq-returns (take_option (posix_queue k) host available c o) _ h in
      rest-Keeps rest c o c' (λ d. take_options-Keeps rest d) unowned t run more
