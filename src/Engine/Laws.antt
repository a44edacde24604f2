-- ===== src/Engine/Laws.antt =====
-- Which engine the program gets.
use banip.Base.{
  ◌≡◌, ap, ◌≢◌, inl, inr, Bool, true, false, List, [], ◌∷◌, ◌++◌, none, some, Bytes, str_eq,
  str_eq_refl, str_eq→eq, Bool-cases, All, some_inj,
}
use banip.Engine.{
  Engine, Build, Linked, included, available_engines, get_default_engine, get_engine_by_name,
}

module _ {W : Type 0} where
  -- The engine stands in the table behind engines of other names: it is the first of its name.
  pub record IsFirst (name : Bytes) (e : Engine W) (table : List (Engine W)) : Type 1 where
    pub before : List (Engine W)
    pub after : List (Engine W)
    pub table_is : table ≡ before ++ e ∷ after
    pub named : e.name ≡ name
    pub others : All (λ (o : Engine W). str_eq o.name name ≡ false) before

  -- A search by name gives the first engine of that name in the table.
  pub get_engine_by_name-IsFirst :
      (name : Bytes) (table : List (Engine W)) {e : Engine W}
      → get_engine_by_name name table ≡ some e
      → IsFirst name e table
  unfolding get_engine_by_name
  get_engine_by_name-IsFirst name [] found = absurd (cc found)
  get_engine_by_name-IsFirst name (o ∷ rest) {e} found = elim (Bool-cases (str_eq o.name name)) [
    | inl same ↦ record {
      before = [];
      after = rest;
      table_is =
          ap (λ (x : Engine W). x ∷ rest) (some_inj (rw (same, get_engine_by_name) at found));
      named =
          str_eq→eq e.name name (rw (some_inj (rw (same, get_engine_by_name) at found)) at same);
      others = tt;
    }
    | inr differs ↦
        let more =
          get_engine_by_name-IsFirst name rest (rw (differs, get_engine_by_name) at found) in
        record {
          before = o ∷ more.before;
          after = more.after;
          table_is = ap (λ (l : List (Engine W)). o ∷ l) more.table_is;
          named = more.named;
          others = (differs, more.others);
        }
  ]

  -- A search by name fails only where no engine of the table has the name.
  pub get_engine_by_name-none :
      (name : Bytes) (table : List (Engine W))
      → get_engine_by_name name table ≡ none
      → All (λ (o : Engine W). str_eq o.name name ≡ false) table
  unfolding get_engine_by_name
  get_engine_by_name-none name [] h = tt
  get_engine_by_name-none name (o ∷ rest) h = elim (Bool-cases (str_eq o.name name)) [
    | inl same ↦ absurd (cc (rw (same, get_engine_by_name) at h))
    | inr differs ↦
        (differs, get_engine_by_name-none name rest (rw (differs, get_engine_by_name) at h))
  ]

  included-default :
      (wanted : Bool) (e : Engine W) (rest : List (Engine W))
      → get_default_engine rest ≢ none
      → get_default_engine (included wanted e rest) ≢ none
  unfolding get_default_engine
  included-default true e rest h none_left = cc none_left
  included-default false e rest h none_left = h none_left

  included-found :
      (name : Bytes) (wanted : Bool) (e : Engine W) (rest : List (Engine W))
      → get_engine_by_name name rest ≢ none
      → get_engine_by_name name (included wanted e rest) ≢ none
  unfolding get_engine_by_name
  included-found name false e rest h none_left = h none_left
  included-found name true e rest h none_left = elim (Bool-cases (str_eq e.name name)) [
    | inl same ↦ cc (rw (same, get_engine_by_name) at none_left)
    | inr differs ↦ h (rw (differs, get_engine_by_name) at none_left)
  ]

  dummy-default : (e : Engine W) → get_default_engine (e ∷ []) ≢ none
  unfolding get_default_engine
  dummy-default e h = cc h

  dummy-found : (e : Engine W) → get_engine_by_name e.name (e ∷ []) ≢ none
  unfolding get_engine_by_name
  dummy-found e h = cc (rw (str_eq_refl e.name, get_engine_by_name) at h)

  -- Whatever was built in, there is a default engine, and the engine called like the dummy one is
  -- found.
  pub available_engines-default :
      (b : Build) (l : Linked W)
      → (get_default_engine (available_engines b l) ≢ none)
        × (get_engine_by_name l.dummy.name (available_engines b l) ≢ none)
  unfolding available_engines
  available_engines-default b l = (
    included-default b.with_pf l.pf _ (
        included-default b.with_npf l.npf _ (
          included-default b.with_nftables l.nftables _ (
            included-default b.with_ipset l.ipset _ (
              included-default b.with_iptables l.iptables (l.dummy ∷ [])
                (dummy-default l.dummy))))),
    included-found l.dummy.name b.with_pf l.pf _ (
        included-found _ b.with_npf l.npf _ (
          included-found _ b.with_nftables l.nftables _ (
            included-found _ b.with_ipset l.ipset _
              (included-found _ b.with_iptables l.iptables _ (dummy-found l.dummy))))),
  )
