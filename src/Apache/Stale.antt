-- ===== src/Apache/Stale.antt =====
-- The GET arguments that the Apache module keeps from one request to the next.
use banip.Base.{
  Bool, ◌>>=◌, Option, none, Bool-cases, Option-cases, inl, inr, returns, >>=-eq-returns, ◌≡◌, refl,
  ◌≢◌, ◌∙◌, true, false, List, [], ◌∷◌, ◌++◌, All, some, Bytes, codes, undefined, use_after_free,
  Returns-inv,
}
use banip.Queue.{QueueApi}
use banip.Error.{null}
use banip.Process.{set_slot}
use banip.Apache.{
  Httpd, Request, Kept, Rule, ServerConf, Variable, lookup_default, lookup_env, lookup_get,
  lookup_http, lookup_post, variables, find_variable, compare_rule, lookup,
}
use banip.Apache.Rules.{Matches, argument-found}
use banip.Apache.Tries.{Tried, try_rule-other, try_rule-stale}
use banip.Apache.Hooks.{
  Status, State, log_line, queue_send_message, try_rule, fixup_rules, banip_fixup,
}

module _ {W R T : Type 0} (api : QueueApi W) (h : Httpd R T) (write_log : Bytes → W → W) where
  abbrev TheState : Type 0
  TheState = State api h write_log

  -- A rule that does not look at an argument, and does not match.
  abbrev Passes : Request T → Rule R → Type 0
  Passes r rule =
      Matches h r rule false × ((name : Bytes) → rule.what ≢ some (codes "GET:" ++ name))

  fixup_rules-stale :
      (r : Request T) (before after : List (Rule R)) (rule : Rule R) (name : Bytes) (s : TheState)
      (kept : Kept T)
      → All (Passes r) before
      → rule.what ≡ some (codes "GET:" ++ name)
      → s.get ≡ some kept
      → r.alive kept.pool ≡ false
      → fixup_rules api h write_log r (before ++ rule ∷ after) s ≡ undefined use_after_free
  unfolding fixup_rules
  fixup_rules-stale r [] after rule name s kept pass named there gone =
      rw (try_rule-stale api h write_log r rule s kept name named there gone, fixup_rules) refl
  fixup_rules-stale r (first ∷ before) after rule name s kept pass named there gone =
      let (t, run, (answer, queue, same, slot)) =
        Returns-inv (Tried api h write_log r s false s.get) _
          (try_rule-other api h write_log r first s false pass.0.0 pass.0.1) in
      rw (run, answer, fixup_rules)
        (fixup_rules-stale r before after rule name t.1 kept pass.1 named (same ∙ there) gone)

  lookup-keeps :
      (v : Variable) (name : Bytes) (r : Request T) (kept : Kept T)
      (a : Option Bytes × Option (Kept T))
      → lookup h v name r (some kept) ≡ returns a
      → a.1 ≡ some kept
  unfolding lookup
  lookup-keeps lookup_default name r kept a run = cc run
  lookup-keeps lookup_env name r kept a run = cc run
  lookup-keeps lookup_http name r kept a run = cc run
  lookup-keeps lookup_post name r kept a run = cc run
  lookup-keeps lookup_get name r kept a run = elim (Bool-cases (r.alive kept.pool)) [
    | inl there ↦ cc (rw (there, lookup) at run)
    | inr gone ↦ absurd (cc (rw (gone, lookup) at run))
  ]

  -- What is left of a try once the lookup is done.
  compared-keeps :
      (rule : Rule R) (s : TheState) (kept : Kept T) (a : Bool × TheState)
      (looked : Option Bytes × Option (Kept T))
      → looked.1 ≡ some kept
      → (elim looked.0 [
        | none ↦ returns (false, record s { get = looked.1 })
        | some text ↦ do
          matched ← compare_rule h rule text
          returns (matched, log_line api h write_log text (record s { get = looked.1 }))
      ])
        ≡ returns a
      → a.1.get ≡ some kept
  compared-keeps rule s kept a (none, get) same e = cc (same, e)
  compared-keeps rule s kept a (some text, get) same e =
      let (matched, m, end) = >>=-eq-returns (compare_rule h rule text) _ e in cc (same, end)

  try_rule-keeps :
      (r : Request T) (rule : Rule R) (s : TheState) (kept : Kept T) (a : Bool × TheState)
      → s.get ≡ some kept
      → try_rule api h write_log r rule s ≡ returns a
      → a.1.get ≡ some kept
  unfolding try_rule
  try_rule-keeps r rule s kept a there run =
      let (found, found_is, rest) = >>=-eq-returns (find_variable variables rule.what) _ run in
      looked found rest
    where
      looked :
          (found : Option (Variable × Bytes))
          → (elim found [
            | none ↦ returns (false, s)
            | some (v, name) ↦ do
              (string, get) ← lookup h v name r s.get
              elim string [
                | none ↦ returns (false, record s { get = get })
                | some text ↦ do
                  matched ← compare_rule h rule text
                  returns (matched, log_line api h write_log text (record s { get = get }))
              ]
          ])
            ≡ returns a
          → a.1.get ≡ some kept
      looked none e = cc (there, e)
      looked (some (v, name)) e =
          let (x, run', end) = >>=-eq-returns (lookup h v name r s.get) _ e in
          compared-keeps rule s kept a x (lookup-keeps v name r kept x (rw there at run')) end

  send-keeps :
      (ip : Bytes) (s t : TheState) (kept : Kept T)
      → s.get ≡ some kept
      → queue_send_message api h write_log ip s ≡ returns t
      → t.get ≡ some kept
  unfolding queue_send_message
  send-keeps ip s t kept there run = elim (Option-cases s.queue) [
    | inl absent ↦ absurd (cc (rw (absent, queue_send_message) at run))
    | inr (q, given) ↦
        let (x, sent, end) =
          >>=-eq-returns (api.queue_send q ip none (set_slot s.proc null)) _
            (rw (given, queue_send_message) at run) in
        elim (Bool-cases x.0) [
          | inl won ↦ cc (there, rw won at end)
          | inr lost ↦ cc (there, rw lost at end)
        ]
  ]

  fixup_rules-keeps :
      (r : Request T) (rules : List (Rule R)) (s : TheState) (kept : Kept T) (t : Status × TheState)
      → s.get ≡ some kept
      → fixup_rules api h write_log r rules s ≡ returns t
      → t.1.get ≡ some kept
  unfolding fixup_rules
  fixup_rules-keeps r [] s kept t there run = cc (there, run)
  fixup_rules-keeps r (rule ∷ rest) s kept t there run =
      let (a, tried, later) = >>=-eq-returns (try_rule api h write_log r rule s) _ run in
      let still = try_rule-keeps r rule s kept a there tried in
      elim (Bool-cases a.0) [
        | inl won ↦
            let (u, sent, end) =
              >>=-eq-returns (queue_send_message api h write_log r.useragent_ip a.1) _
                (rw won at later) in
            let kept_there = send-keeps r.useragent_ip a.1 u kept still sent in cc (kept_there, end)
        | inr lost ↦ fixup_rules-keeps r rest a.1 kept t still (rw lost at later)
      ]

  -- What is kept once a rule has looked at an argument.
  own : Request T → Kept T
  own r = record { pool = r.pool; table = r.args }

  try_rule-first :
      (r : Request T) (rule : Rule R) (name : Bytes) (s : TheState) (a : Bool × TheState)
      → rule.what ≡ some (codes "GET:" ++ name)
      → s.get ≡ none
      → try_rule api h write_log r rule s ≡ returns a
      → a.1.get ≡ some (own r)
  unfolding own try_rule lookup
  try_rule-first r rule name s a named empty run =
      compared-keeps rule s (own r) a (h.table_get r.args name, some (own r)) refl
        (rw (named, argument-found h r name, empty, try_rule, lookup) at run)

  -- With the module enabled, the arguments of an earlier request kept, and the pool of that request
  -- gone: if a rule looks at an argument, and no rule before it does or matches, the fixup hook reads
  -- freed memory.
  banip_fixup-stale :
      (conf : ServerConf R) (r : Request T) (before after : List (Rule R)) (rule : Rule R)
      (name : Bytes) (s : TheState) (kept : Kept T)
      → conf.enabled ≡ true
      → conf.rules ≡ before ++ rule ∷ after
      → All (Passes r) before
      → rule.what ≡ some (codes "GET:" ++ name)
      → s.get ≡ some kept
      → r.alive kept.pool ≡ false
      → banip_fixup api h write_log conf r s ≡ undefined use_after_free
  unfolding banip_fixup
  banip_fixup-stale conf r before after rule name s kept on rules pass named there gone =
      rw (on, rules, banip_fixup)
        (fixup_rules-stale r before after rule name s kept pass named there gone)

  fixup_rules-first :
      (r : Request T) (rule : Rule R) (rest : List (Rule R)) (name : Bytes) (s : TheState)
      (t : Status × TheState)
      → rule.what ≡ some (codes "GET:" ++ name)
      → s.get ≡ none
      → fixup_rules api h write_log r (rule ∷ rest) s ≡ returns t
      → t.1.get ≡ some (own r)
  unfolding fixup_rules
  fixup_rules-first r rule rest name s t named empty run =
      let (a, tried, later) = >>=-eq-returns (try_rule api h write_log r rule s) _ run in
      let still = try_rule-first r rule name s a named empty tried in
      elim (Bool-cases a.0) [
        | inl won ↦
            let (u, sent, end) =
              >>=-eq-returns (queue_send_message api h write_log r.useragent_ip a.1) _
                (rw won at later) in
            let kept_there = send-keeps r.useragent_ip a.1 u (own r) still sent in
            cc (kept_there, end)
        | inr lost ↦ fixup_rules-keeps r rest a.1 (own r) t still (rw lost at later)
      ]

  -- With the module enabled, no arguments kept, and a first rule that looks at an argument: once the
  -- hook has returned for one request, it reads freed memory for every later request that is served
  -- after the pool of that one is gone.
  pub banip_fixup-second :
      (conf : ServerConf R) (r1 r2 : Request T) (rule : Rule R) (rest : List (Rule R))
      (name : Bytes) (s : TheState) (t : Status × TheState)
      → conf.enabled ≡ true
      → conf.rules ≡ rule ∷ rest
      → rule.what ≡ some (codes "GET:" ++ name)
      → s.get ≡ none
      → banip_fixup api h write_log conf r1 s ≡ returns t
      → r2.alive r1.pool ≡ false
      → banip_fixup api h write_log conf r2 t.1 ≡ undefined use_after_free
  unfolding banip_fixup own
  banip_fixup-second conf r1 r2 rule rest name s t on rules named empty run gone =
      banip_fixup-stale conf r2 [] rest rule name t.1 (own r1) on rules tt named
        (fixup_rules-first r1 rule rest name s t named empty (rw (banip_fixup, on, rules) at run))
        gone
