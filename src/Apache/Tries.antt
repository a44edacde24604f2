-- ===== src/Apache/Tries.antt =====
-- What the Apache module's try of one rule leaves.
use banip.Base.{
  ◌≡◌, refl, sym, Bool, true, false, Option, none, some, Bytes, codes, ◌++◌, ◌≢◌, returns,
  undefined, use_after_free, Returns, inl, inr,
}
use banip.Queue.{QueueApi}
use banip.Apache.{
  Httpd, Request, Kept, Rule, Variable, lookup_get, variables, find_variable, compare_rule, lookup,
}
use banip.Apache.Rules.{
  Looks, Matches, no_value, value, Looks-Finds, argument-found, Compares-compare,
}
use banip.Apache.Hooks.{State, try_rule}

module _ {W R T : Type 0} (api : QueueApi W) (h : Httpd R T) (write_log : Bytes → W → W)
    (r : Request T) where
  abbrev TheState : Type 0
  TheState = State api h write_log

  -- There is no table of arguments yet, or it is that of this request, and its pool is there.
  abbrev pub HasArgs : Option (Kept T) → Type 0
  HasArgs none = Unit
  HasArgs (some kept) = (r.alive kept.pool ≡ true) × (kept.table ≡ r.args)

  -- The answer for a rule and what `get` is then, with the queue and the error as they were.
  abbrev pub Tried : TheState → Bool → Option (Kept T) → Bool × TheState → Type 0
  Tried s b get t =
      (t.0 ≡ b) × (t.1.queue ≡ s.queue) × (t.1.get ≡ get) × (t.1.proc.env.slot ≡ s.proc.env.slot)

  -- A value is compared; without one the answer is no.
  abbrev Judged : Rule R → Option Bytes → Bool → Type 0
  Judged rule none b = b ≡ false
  Judged rule (some text) b = compare_rule h rule text ≡ returns b

  Matches-Judged :
      {rule : Rule R} {b : Bool}
      → Matches h r rule b
      → (v : Option Bytes) × Looks h r rule.what v × Judged rule v b
  Matches-Judged (no_value looks) = (none, looks, refl)
  Matches-Judged (value text b looks compared) = (some text, looks, Compares-compare h r compared)

  found-Tried :
      (rule : Rule R) (s : TheState) (var : Variable) (name : Bytes) (v : Option Bytes)
      (get : Option (Kept T)) (b : Bool)
      → find_variable variables rule.what ≡ returns (some (var, name))
      → lookup h var name r s.get ≡ returns (v, get)
      → Judged rule v b
      → Returns (Tried s b get) (try_rule api h write_log r rule s)
  unfolding try_rule
  found-Tried rule s var name none get b found looked judged =
      rw (found, looked, try_rule) (sym judged, refl, refl, refl)
  found-Tried rule s var name (some text) get b found looked judged =
      rw (found, looked, judged, try_rule) (refl, refl, refl, refl)

  unknown-Tried :
      (rule : Rule R) (s : TheState) (v : Option Bytes) (b : Bool)
      → find_variable variables rule.what ≡ returns none
      → v ≡ none
      → Judged rule v b
      → Returns (Tried s b s.get) (try_rule api h write_log r rule s)
  unfolding try_rule
  unknown-Tried rule s none b found empty judged =
      rw (found, try_rule) (sym judged, refl, refl, refl)
  unknown-Tried rule s (some text) b found empty judged = absurd (cc empty)

  lookup_get-own :
      (name : Bytes) (get : Option (Kept T))
      → r.alive r.pool ≡ true
      → HasArgs get
      → (get' : Option (Kept T)) × HasArgs get'
        × (lookup h lookup_get name r get ≡ returns (h.table_get r.args name, get'))
  unfolding lookup
  lookup_get-own name none there own =
      (some (record { pool = r.pool; table = r.args }), (there, refl), refl)
  lookup_get-own name (some kept) there own = (some kept, own, rw (own.0, own.1, lookup) refl)

  -- A rule that matches is found to match, and one that does not is found not to.
  pub try_rule-Tried :
      (rule : Rule R) (s : TheState) (b : Bool)
      → r.alive r.pool ≡ true
      → HasArgs s.get
      → Matches h r rule b
      → (get : Option (Kept T)) × HasArgs get
        × Returns (Tried s b get) (try_rule api h write_log r rule s)
  try_rule-Tried rule s b there own matches =
      let (v, looks, judged) = Matches-Judged matches in
      elim (Looks-Finds h r looks) [
        | inl (found, empty) ↦ (s.get, own, unknown-Tried rule s v b found empty judged)
        | inr (inl (var, name, found, looked)) ↦
            (s.get, own, found-Tried rule s var name v s.get b found (looked s.get) judged)
        | inr (inr (name, named, is)) ↦
            let (get, own', looked) = lookup_get-own name s.get there own in
            (
              get,
              own',
              found-Tried rule s lookup_get name v get b (rw named (argument-found h r name))
                  (rw is looked) judged,
            )
      ]

  -- The same for a rule that does not look at an argument, whatever table is kept.
  pub try_rule-other :
      (rule : Rule R) (s : TheState) (b : Bool)
      → Matches h r rule b
      → ((name : Bytes) → rule.what ≢ some (codes "GET:" ++ name))
      → Returns (Tried s b s.get) (try_rule api h write_log r rule s)
  try_rule-other rule s b matches other =
      let (v, looks, judged) = Matches-Judged matches in
      elim (Looks-Finds h r looks) [
        | inl (found, empty) ↦ unknown-Tried rule s v b found empty judged
        | inr (inl (var, name, found, looked)) ↦
            found-Tried rule s var name v s.get b found (looked s.get) judged
        | inr (inr (name, named, is)) ↦ absurd (other name named)
      ]

  -- A rule that looks at an argument, when the table that is kept stood in a pool that is gone.
  pub try_rule-stale :
      (rule : Rule R) (s : TheState) (kept : Kept T) (name : Bytes)
      → rule.what ≡ some (codes "GET:" ++ name)
      → s.get ≡ some kept
      → r.alive kept.pool ≡ false
      → try_rule api h write_log r rule s ≡ undefined use_after_free
  unfolding try_rule lookup
  try_rule-stale rule s kept name named there gone =
      rw (named, argument-found h r name, there, gone, try_rule, lookup) refl
