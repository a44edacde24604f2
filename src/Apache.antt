-- ===== src/Apache.antt =====
-- clients/apache24/mod_banip.c: the rules, what they look at, and the directives that make them.
pub mod Hooks
pub mod Rules
pub mod Tries
pub mod Laws
pub mod Stale
use banip.Base.{
  ℕ, Bool, true, false, List, [], ◌∷◌, ◌++◌, Option, none, some, Bytes, codes, str_eq, ◌==◌,
  if◌then◌else◌, Outcome, returns, undefined, null_pointer, use_after_free, uninitialised, ◌>>=◌,
}

-- What the module uses of the server: regular expressions of type `R` and tables of type `T`.
pub record Httpd (R T : Type 0) : Type 0 where
  pub regcomp : Bytes → Option R
  -- whether the result is 0
  pub regexec : R → Bytes → Bool
  pub table_get : T → Bytes → Option Bytes
  pub table_unset : T → Bytes → T
  pub getenv : Bytes → Option Bytes

-- `request_rec`, with the table that `ap_args_to_table` makes of it, in the pool of the request.
pub record Request (T : Type 0) : Type 0 where
  -- the number of its pool, and the pools that are there while the request is served
  pub pool : ℕ
  pub alive : ℕ → Bool
  pub uri : Bytes
  pub subprocess_env : T
  pub notes : T
  pub headers_in : T
  pub headers_out : T
  pub err_headers_out : T
  pub args : T
  pub useragent_ip : Bytes

-- The table that `get` points to, with the pool that it stands in.
pub record Kept (T : Type 0) : Type 0 where
  pub pool : ℕ
  pub table : T

-- The entries of `pattern_compilers`.
pub data Compiler : Type 0 where
  regex plain : Compiler

-- `banip_rule`
pub record Rule (R : Type 0) : Type 0 where
  pub what : Option Bytes
  pub pattern : Bytes
  pub regexp : Option R
  pub compiler : Compiler

-- `banip_server_conf` and `banip_perdir_conf`
pub record ServerConf (R : Type 0) : Type 0 where
  pub queue_name : Option Bytes
  pub enabled : Bool
  pub rules : List (Rule R)

pub record PerdirConf (R T : Type 0) : Type 0 where
  pub get : Option (Kept T)
  pub rules : List (Rule R)

-- The lookups of `variables`.
pub data Variable : Type 0 where
  lookup_default lookup_env lookup_get lookup_http lookup_post : Variable

-- `BANIP_HEADER`
abbrev pub banip_header : Bytes
banip_header = codes "X-BanIP"

abbrev pub variables : List (Option Bytes × Variable)
variables =
    (none, lookup_default)
    ∷ (some (codes "ENV:"), lookup_env)
    ∷ (some (codes "GET:"), lookup_get)
    ∷ (some (codes "HTTP:"), lookup_http)
    ∷ (some (codes "POST:"), lookup_post)
    ∷ []

-- `strncmp` with the length of a prefix: what stands behind it.
unfoldable pub strip : Bytes → Bytes → Option Bytes
strip [] s = some s
strip (c ∷ prefix) [] = none
strip (c ∷ prefix) (d ∷ s) = elim (c == d) [ true ↦ strip prefix s | false ↦ none ]

-- The first variable for what a rule names, and the rest of the name. `strncmp` takes no null pointer.
unfoldable pub find_variable :
    List (Option Bytes × Variable) → Option Bytes → Outcome (Option (Variable × Bytes))
unfolding strip
find_variable [] what = returns none
find_variable ((none, v) ∷ more) none = returns (some (v, []))
find_variable ((none, v) ∷ more) (some w) = find_variable more (some w)
find_variable ((some prefix, v) ∷ more) none = undefined null_pointer
find_variable ((some prefix, v) ∷ more) (some w) = elim (strip prefix w) [
  | some name ↦ returns (some (v, name))
  | none ↦ find_variable more (some w)
]

module _ {R T : Type 0} (h : Httpd R T) where
  -- The rule with its pattern, and whether the pattern was compiled.
  unfoldable pub compile_rule : Rule R → Bytes → Rule R × Bool
  compile_rule rule [] =
      let regexp = h.regcomp [] in
      (
        record { what = rule.what; pattern = []; regexp = regexp; compiler = regex },
        elim regexp [ none ↦ false | some r ↦ true ],
      )
  compile_rule rule (c ∷ pattern) =
      let regexp = h.regcomp (c ∷ pattern) in
      if c == b'='
      then (record { what = rule.what; pattern = pattern; regexp = none; compiler = plain }, true)
      else (
        record { what = rule.what; pattern = c ∷ pattern; regexp = regexp; compiler = regex },
        elim regexp [ none ↦ false | some r ↦ true ],
      )

  -- `0 == rule->compiler->compare(rule, string)`
  unfoldable pub compare_rule : Rule R → Bytes → Outcome Bool
  compare_rule rule string = elim rule.compiler [
    | plain ↦ returns (str_eq rule.pattern string)
    | regex ↦ elim rule.regexp [
      | none ↦ undefined null_pointer
      | some r ↦ returns (h.regexec r string)
    ]
  ]

  -- A lookup, with the `get` of the directory's configuration before and after it. The pool of a
  -- request, with what stands in it, is freed when the request is over.
  unfoldable pub lookup :
      Variable → Bytes → Request T → Option (Kept T) → Outcome (Option Bytes × Option (Kept T))
  lookup lookup_default name r get = returns (some r.uri, get)
  lookup lookup_env name r get =
      let value : Option Bytes = elim (h.table_get r.subprocess_env name) [
        | some v ↦ some v
        | none ↦ elim (h.table_get r.notes name) [ some v ↦ some v | none ↦ h.getenv name ]
      ] in
      returns (value, get)
  lookup lookup_http name r get = returns (h.table_get r.headers_in name, get)
  lookup lookup_get name r get = elim get [
    | none ↦ returns (h.table_get r.args name, some (record { pool = r.pool; table = r.args }))
    | some kept ↦
        if r.alive kept.pool
        then returns (h.table_get kept.table name, some kept)
        else undefined use_after_free
  ]
  lookup lookup_post name r get = returns (none, get)

  abbrev pub no_rule : Rule R
  no_rule = record { what = none; pattern = []; regexp = none; compiler = regex }

  -- `config_server_create` and `config_perdir_create`
  abbrev pub config_server_create : ServerConf R
  config_server_create = record { queue_name = none; enabled = false; rules = [] }

  abbrev pub config_perdir_create : PerdirConf R T
  config_perdir_create = record { get = none; rules = [] }

  -- `base` is used although nothing set it.
  unfoldable pub config_server_merge : ServerConf R → ServerConf R → Outcome (ServerConf R)
  config_server_merge basev overrides = undefined uninitialised

  unfoldable pub config_perdir_merge : PerdirConf R T → PerdirConf R T → Outcome (PerdirConf R T)
  config_perdir_merge basev overrides = undefined uninitialised

  -- The directives, of a server if `path` is null, and of a directory else.
  unfoldable pub cmd_banip_enable : Option Bytes → Bool → ServerConf R → ServerConf R
  cmd_banip_enable none flag s = record s { enabled = flag }
  cmd_banip_enable (some path) flag s = s

  unfoldable pub cmd_banip_queue : Bytes → ServerConf R → ServerConf R
  cmd_banip_queue arg s = record s { queue_name = some arg }

  -- The rule is added even where its pattern is not compiled.
  unfoldable pub add_rule :
      Option Bytes
      → Option Bytes
      → Bytes
      → ServerConf R
      → PerdirConf R T
      → Bool × ServerConf R × PerdirConf R T
  unfolding compile_rule
  add_rule path what pattern s d =
      let (rule, compiled) = compile_rule no_rule pattern in
      let named : Rule R = record rule { what = what } in
      elim path [
        | none ↦ (compiled, record s { rules = s.rules ++ named ∷ [] }, d)
        | some p ↦ (compiled, s, record d { rules = d.rules ++ named ∷ [] })
      ]

  -- Whether there is no error.
  unfoldable pub cmd_banip_rule :
      Option Bytes
      → List Bytes
      → ServerConf R
      → PerdirConf R T
      → Bool × ServerConf R × PerdirConf R T
  unfolding add_rule
  cmd_banip_rule path (pattern ∷ []) s d = add_rule path none pattern s d
  cmd_banip_rule path (what ∷ pattern ∷ []) s d = add_rule path (some what) pattern s d
  cmd_banip_rule path args s d = (false, s, d)
