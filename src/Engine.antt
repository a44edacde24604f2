-- ===== src/Engine.antt =====
-- engine.h and engine.c: the interface of a firewall, and the table of those that were built in.
pub mod Npf
pub mod Iptables
pub mod Nftables
pub mod Laws
pub mod Command
pub mod Pf
use banip.Base.{
  ℕ, Bool, true, false, List, [], ◌∷◌, ◌++◌, Option, none, some, Bytes, str_eq, if◌then◌else◌,
  Outcome, returns, undefined, invalid_free, ◌>>=◌,
}
use banip.Process.{Proc}
use banip.Parse.Addr.{Addr}

-- What `void *ctxt` holds: an object that `malloc` gave, or an integer made into a pointer.
pub data Pointer (C : Type 0) : Type 0 where
  heap : C → Pointer C
  address : ℕ → Pointer C

-- `engine_t`, with its three functions `open`, `handle` and `close`. A null pointer is `none`, both for a function and for a context.
pub record Engine (W : Type 0) : Type 1 where
  pub drop_privileges : Bool
  pub name : Bytes
  pub Ctxt : Type 0
  pub on_open : Option (Bytes → Proc W → Outcome (Option (Pointer Ctxt) × Proc W))
  pub on_handle : Option (Pointer Ctxt) → Bytes → Addr → Proc W → Outcome (Bool × Proc W)
  pub on_close : Option (Pointer Ctxt → Proc W → Outcome (Unit {0} × Proc W))

module _ {W : Type 0} (engine : Engine W) where
  -- `engine->close(ctxt)`, if there is one
  abbrev pub close_engine : Pointer engine.Ctxt → Proc W → Outcome (Proc W)
  close_engine c p = elim engine.on_close [
    | none ↦ returns p
    | some on_close ↦ do (nothing, p') ← on_close c p; returns p'
  ]

  -- `free(ctxt)`
  abbrev pub free_pointer : Pointer engine.Ctxt → Proc W → Outcome (Proc W)
  free_pointer (heap c) p = returns p
  free_pointer (address n) p = undefined invalid_free

-- The macros `WITH_PF` and so on.
pub record Build : Type 0 where
  pub with_pf : Bool
  pub with_npf : Bool
  pub with_nftables : Bool
  pub with_ipset : Bool
  pub with_iptables : Bool

-- The engines that can be linked.
pub record Linked (W : Type 0) : Type 1 where
  pub pf : Engine W
  pub npf : Engine W
  pub nftables : Engine W
  pub ipset : Engine W
  pub iptables : Engine W
  pub dummy : Engine W

module _ {W : Type 0} where
  abbrev pub included : Bool → Engine W → List (Engine W) → List (Engine W)
  included wanted e rest = if wanted then e ∷ rest else rest

  -- `available_engines`, without the final null pointer.
  unfoldable pub available_engines : Build → Linked W → List (Engine W)
  available_engines b l = included b.with_pf l.pf (
      included b.with_npf l.npf (
        included b.with_nftables l.nftables
          (included b.with_ipset l.ipset (included b.with_iptables l.iptables (l.dummy ∷ [])))))

  unfoldable pub get_default_engine : List (Engine W) → Option (Engine W)
  get_default_engine [] = none
  get_default_engine (e ∷ rest) = some e

  unfoldable pub get_engine_by_name : Bytes → List (Engine W) → Option (Engine W)
  get_engine_by_name name [] = none
  get_engine_by_name name (e ∷ rest) =
      if str_eq e.name name then some e else get_engine_by_name name rest
