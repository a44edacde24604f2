-- ===== src/Apache/Rules.antt =====
-- What a rule of the Apache module looks at and when it matches, told by what the directive
-- `BanIPRule` names, and what that has to do with the table of lookups of mod_banip.c.
use banip.Base.{
  ℕ, ◌≡◌, ◌≢◌, refl, ap, ◌∙◌, Bool, true, false, List, [], ◌∷◌, ◌++◌, Option, none, some, Bytes,
  codes, str_eq, str_eq_refl, ◌==◌, returns, ◌⊎◌, inl, inr, Option-cases, Bool-cases, arith,
  str_eq→eq, some_inj,
}
use banip.Apache.{
  Httpd, Request, Kept, Rule, regex, plain, Variable, lookup_default, lookup_env, lookup_get,
  lookup_http, lookup_post, variables, strip, find_variable, compare_rule, lookup,
}

module _ {R T : Type 0} (h : Httpd R T) (r : Request T) where
  -- What a rule that names this looks at: the path of the request, a variable of its environment, which
  -- is one of the request, a note or one of the process, an argument or a header. The body of a request,
  -- and whatever else a rule names, has no value.
  pub data Looks : Option Bytes → Option Bytes → Type 0 where
    path : Looks none (some r.uri)
    request_variable :
        (name v : Bytes)
        → h.table_get r.subprocess_env name ≡ some v
        → Looks (some (codes "ENV:" ++ name)) (some v)
    note :
        (name v : Bytes)
        → h.table_get r.subprocess_env name ≡ none
        → h.table_get r.notes name ≡ some v
        → Looks (some (codes "ENV:" ++ name)) (some v)
    process_variable :
        (name : Bytes)
        → h.table_get r.subprocess_env name ≡ none
        → h.table_get r.notes name ≡ none
        → Looks (some (codes "ENV:" ++ name)) (h.getenv name)
    argument : (name : Bytes) → Looks (some (codes "GET:" ++ name)) (h.table_get r.args name)
    header : (name : Bytes) → Looks (some (codes "HTTP:" ++ name)) (h.table_get r.headers_in name)
    body : (name : Bytes) → Looks (some (codes "POST:" ++ name)) none
    unknown :
        (w : Bytes)
        → ((name : Bytes) → w ≢ codes "ENV:" ++ name)
        → ((name : Bytes) → w ≢ codes "GET:" ++ name)
        → ((name : Bytes) → w ≢ codes "HTTP:" ++ name)
        → ((name : Bytes) → w ≢ codes "POST:" ++ name)
        → Looks (some w) none

  -- Whether a text is that of a rule: equal to its pattern, or found by its regular expression.
  pub data Compares (rule : Rule R) (text : Bytes) : Bool → Type 0 where
    equal : rule.compiler ≡ plain → rule.pattern ≡ text → Compares rule text true
    unequal : rule.compiler ≡ plain → rule.pattern ≢ text → Compares rule text false
    executed :
        (x : R)
        → rule.compiler ≡ regex
        → rule.regexp ≡ some x
        → Compares rule text (h.regexec x text)

  -- Whether a rule matches the request. Where there is no value it does not.
  pub data Matches (rule : Rule R) : Bool → Type 0 where
    no_value : Looks rule.what none → Matches rule false
    value :
        (text : Bytes) (b : Bool)
        → Looks rule.what (some text)
        → Compares rule text b
        → Matches rule b

  -- Whether one of the rules does, where the rules up to the first that matches can be compared.
  pub data AnyMatches : List (Rule R) → Bool → Type 0 where
    no_rule_left : AnyMatches [] false
    first_matches :
        (rule : Rule R) (rest : List (Rule R)) → Matches rule true → AnyMatches (rule ∷ rest) true
    first_passes :
        (rule : Rule R) (rest : List (Rule R)) (b : Bool)
        → Matches rule false
        → AnyMatches rest b
        → AnyMatches (rule ∷ rest) b

  -- What the table of lookups makes of it: no lookup, one that does not look at the arguments, or that of
  -- an argument.
  abbrev pub Finds : Option Bytes → Option Bytes → Type 0
  Finds what v =
      ((find_variable variables what ≡ returns none) × (v ≡ none))
      ⊎ ((var : Variable) × (name : Bytes) × (find_variable variables what
            ≡ returns (some (var, name)))
          × ((get : Option (Kept T)) → lookup h var name r get ≡ returns (v, get)))
      ⊎ ((name : Bytes) × (what ≡ some (codes "GET:" ++ name)) × (v ≡ h.table_get r.args name))

  byte-eq : (c d : ℕ) → c == d ≡ true → d ≡ c
  byte-eq c d same = ground arith

  strip-some : (p w name : Bytes) → strip p w ≡ some name → w ≡ p ++ name
  unfolding strip
  strip-some [] w name e = some_inj e
  strip-some (c ∷ p) [] name e = absurd (cc e)
  strip-some (c ∷ p) (d ∷ w) name e = elim (Bool-cases (c == d)) [
    | inl same ↦
        ap (λ (x : Bytes). d ∷ x) (strip-some p w name (rw (strip, same) at e))
        ∙ ap (λ (x : ℕ). x ∷ (p ++ name)) (byte-eq c d same)
    | inr other ↦ absurd (cc (rw (strip, other) at e))
  ]

  strip-none : (p w : Bytes) → ((name : Bytes) → w ≢ p ++ name) → strip p w ≡ none
  strip-none p w never = elim (Option-cases (strip p w)) [
    | inl e ↦ e
    | inr (name, e) ↦ absurd (never name (strip-some p w name e))
  ]

  pub Looks-Finds : {what v : Option Bytes} → Looks what v → Finds what v
  unfolding find_variable lookup strip
  Looks-Finds path = inr (inl (lookup_default, [], refl, λ get. refl))
  Looks-Finds (request_variable name v e) = inr (inl (lookup_env, name, refl, λ get. rw e refl))
  Looks-Finds (note name v e e') = inr (inl (lookup_env, name, refl, λ get. rw (e, e') refl))
  Looks-Finds (process_variable name e e') =
      inr (inl (lookup_env, name, refl, λ get. rw (e, e') refl))
  Looks-Finds (argument name) = inr (inr (name, refl, refl))
  Looks-Finds (header name) = inr (inl (lookup_http, name, refl, λ get. refl))
  Looks-Finds (body name) = inr (inl (lookup_post, name, refl, λ get. refl))
  Looks-Finds (unknown w env get http post) = inl (
    rw
        (
          strip-none (codes "ENV:") w env,
          strip-none (codes "GET:") w get,
          strip-none (codes "HTTP:") w http,
          strip-none (codes "POST:") w post,
          find_variable,
        )
        refl,
    refl,
  )

  pub argument-found :
      (name : Bytes)
      → find_variable variables (some (codes "GET:" ++ name)) ≡ returns (some (lookup_get, name))
  unfolding find_variable strip
  argument-found name = refl

  pub Compares-compare :
      {rule : Rule R} {text : Bytes} {b : Bool}
      → Compares rule text b
      → compare_rule h rule text ≡ returns b
  unfolding compare_rule
  Compares-compare {rule = rule} {text = text} (equal is same) =
      rw (is, same, str_eq_refl text) refl
  Compares-compare {rule = rule} {text = text} (unequal is other) =
      elim (Bool-cases (str_eq rule.pattern text)) [
        | inl same ↦ absurd (other (str_eq→eq rule.pattern text same))
        | inr differs ↦ rw (compare_rule, is, differs) refl
      ]
  Compares-compare (executed x is there) = rw (is, there) refl
