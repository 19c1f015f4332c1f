-- ===== src/Collateral/Replaced.antt =====
-- libs/index-core/src/collateral/collateral_router.rs: `add_bridge`, `add_chain_source` and
-- `set_default_destination` report a duplicate after they have replaced it.
use index_maker.Prelude.{==_iff, ℕ, ◌≡◌, refl, ◌↔◌, true, Option, none, some, Result, ok, err}
use index_maker.Bits.{Symbol}
use index_maker.Bits.Symbols.{symbol_eq_refl}
use index_maker.Collateral.Router.{
  Bridge, RouterError, duplicate, CollateralRouter, ends_eq, chain_eq, ends, if_new, add_bridge,
  add_chain_source, set_default_destination,
}
use index_maker.Prelude.Keyed.{find_key, find_key-put_self}

abbrev pub IsThere : {A : Type 0} → Option A → Type 0
IsThere none = ⊥
IsThere (some a) = Unit {0}

-- Whatever is reported, the new value is in the place of the old, and a duplicate is reported exactly
-- if there was an old one.
abbrev pub Replaces :
    {A : Type 0} → Option A → A → Result RouterError (Unit {0}) → Option A → Type 0
Replaces old new r now =
    (now ≡ some new) × ((r ≡ ok tt) ↔ (old ≡ none)) × ((r ≡ err duplicate) ↔ IsThere old)

if_new-Replaces :
    {A : Type 0} (old now : Option A) (new : A) → now ≡ some new → Replaces old new (if_new old) now
if_new-Replaces none now new h = (h, (λ _. refl, λ _. refl), (λ e. cc, λ there. absurd there))
if_new-Replaces (some x) now new h = (h, (λ e. cc, λ e. cc), (λ _. tt, λ _. refl))

ends_eq_refl : (e : Symbol × Symbol) → ends_eq e e ≡ true
ends_eq_refl (a, b) = rw (symbol_eq_refl a, symbol_eq_refl b) refl

chain_eq_refl : (e : ℕ × Symbol) → chain_eq e e ≡ true
chain_eq_refl (a, b) = rw ((==_iff a a).1 refl, symbol_eq_refl b) refl

-- The three setters of the router put the new value in place of the old one even where they report
-- a duplicate, and report one exactly if there was an old value.
pub setters-Replaces :
    (bridge : Bridge) (chain_id : ℕ) (symbol designation : Symbol) (r : CollateralRouter)
    → Replaces
        (find_key ends_eq (ends bridge) r.bridges)
        bridge
        (add_bridge bridge r).0
        (find_key ends_eq (ends bridge) (add_bridge bridge r).1.bridges)
      × Replaces
          (find_key chain_eq (chain_id, symbol) r.chain_sources)
          designation
          (add_chain_source chain_id symbol designation r).0
          (find_key chain_eq
            (chain_id, symbol)
            (add_chain_source chain_id symbol designation r).1.chain_sources)
      × Replaces r.default_destination designation
          (set_default_destination designation r).0
          (set_default_destination designation r).1.default_destination
unfolding add_bridge add_chain_source set_default_destination
setters-Replaces bridge chain_id symbol designation r = (
  if_new-Replaces _ _ bridge
      (find_key-put_self ends_eq (ends bridge) bridge r.bridges (ends_eq_refl (ends bridge))),
  if_new-Replaces _ _ designation (
      find_key-put_self chain_eq (chain_id, symbol) designation r.chain_sources
        (chain_eq_refl (chain_id, symbol))),
  if_new-Replaces _ _ designation refl,
)
