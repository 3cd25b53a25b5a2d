-- ===== src/Common/Dict.antt =====
-- A Python `dict` in insertion order, over a key type with a decided equality.
use Prim.Native.Nat.{ℕ}
use mathlib.Core.Path.{◌≡◌, refl}
use mathlib.Core.Logic.{◌↔◌}
use mathlib.Core.Bool.{Bool, true}
use mathlib.Core.Option.{Option, none, some}
use mathlib.Core.List.{List, [], ◌∷◌, ◌++◌}
use native.Mathlib.Omega.{arith}
use lad_translate.Common.Tests.{◌==◌, ==_iff, if◌then◌else◌}
use lad_translate.Common.Text.{Text, text_eq, text_eq_iff}

-- Keys that can be compared.
pub record Key {ℓ} (K : Type ℓ) : Type ℓ where
  pub eq : K → K → Bool
  pub eq_iff : (a b : K) → (eq a b ≡ true) ↔ (a ≡ b)

instance abbrev pub nat_key : Key ℕ
nat_key = record { eq = ◌==◌; eq_iff = ==_iff }

instance abbrev pub text_key : Key Text
text_key = record { eq = text_eq; eq_iff = text_eq_iff }

abbrev pub Dict {ℓ κ} : Type ℓ → Type κ → Type (ℓ ⊔ κ)
Dict K V = List (K × V)

module _ {ℓ κ} {K : Type ℓ} {V : Type κ} ⦃k : Key K⦄ where
  -- `d.get(a)`
  unfoldable pub lookup : K → Dict K V → Option V
  lookup a [] = none
  lookup a ((b, v) ∷ d) = if k.eq b a then some v else lookup a d

  -- `d[a] = v`
  unfoldable pub insert : K → V → Dict K V → Dict K V
  insert a v [] = (a, v) ∷ []
  insert a v ((b, w) ∷ d) = if k.eq b a then (b, v) ∷ d else (b, w) ∷ insert a v d

  -- `d.pop(a, None)`
  unfoldable pub erase : K → Dict K V → Dict K V
  erase a [] = []
  erase a ((b, w) ∷ d) = let rest = erase a d in if k.eq b a then rest else (b, w) ∷ rest

  -- `d.setdefault(a, v)`
  unfoldable pub set_default : K → V → Dict K V → Dict K V
  unfolding lookup insert
  set_default a v d = elim (lookup a d) [ none ↦ insert a v d | some w ↦ d ]

  pub lookup-insert :
      (a b : K) (v : V) (d : Dict K V)
      → lookup b (insert a v d) ≡ (if k.eq a b then some v else lookup b d)
  unfolding lookup insert
  lookup-insert a b v [] = refl
  lookup-insert a b v ((c, w) ∷ d) =
      ground (arith, k.eq_iff a b, k.eq_iff c a, k.eq_iff c b, lookup-insert a b v d)

  pub lookup-erase :
      (a b : K) (d : Dict K V) → lookup b (erase a d) ≡ (if k.eq a b then none else lookup b d)
  unfolding lookup erase
  lookup-erase a b [] = ground arith
  lookup-erase a b ((c, w) ∷ d) =
      ground (arith, k.eq_iff a b, k.eq_iff c a, k.eq_iff c b, lookup-erase a b d)

  pub lookup-set_default :
      (a b : K) (v : V) (d : Dict K V)
      → lookup b (set_default a v d) ≡ elim (lookup a d) [
        | none ↦ (if k.eq a b then some v else lookup b d)
        | some w ↦ lookup b d
      ]
  unfolding set_default
  lookup-set_default a b v d = ground (arith, lookup-insert a b v d)

  -- `d.update(e)`
  unfoldable pub update : Dict K V → Dict K V → Dict K V
  update d [] = d
  update d ((a, v) ∷ e) = update (insert a v d) e

  -- Each key once, as in every Python dict.
  abbrev pub HasUniqueKeys : Dict K V → Type κ
  HasUniqueKeys [] = Unit
  HasUniqueKeys ((a, v) ∷ d) = (lookup a d ≡ none) × HasUniqueKeys d

  pub lookup-update :
      (a : K) (d e : Dict K V)
      → HasUniqueKeys e
      → lookup a (update d e) ≡ elim (lookup a e) [ none ↦ lookup a d | some v ↦ some v ]
  unfolding update lookup
  lookup-update a d [] u = refl
  lookup-update a d ((b, v) ∷ e) u =
      ground (arith, lookup-update a (insert b v d) e u.1, lookup-insert b a v d, k.eq_iff b a, u.0)

  pub insert-HasUniqueKeys :
      (a : K) (v : V) (d : Dict K V) → HasUniqueKeys d → HasUniqueKeys (insert a v d)
  unfolding insert lookup
  insert-HasUniqueKeys a v [] u = (refl, tt)
  insert-HasUniqueKeys a v ((b, w) ∷ d) u = ground (
    arith,
    k.eq_iff b a,
    u.0,
    u.1,
    insert-HasUniqueKeys a v d u.1,
    lookup-insert a b v d,
    k.eq_iff a b,
  )

-- `d.setdefault(a, []).append(x)`
abbrev pub get_list {ℓ κ} : {K : Type ℓ} {V : Type κ} ⦃k : Key K⦄ → K → Dict K (List V) → List V
get_list a d = elim (lookup a d) [ none ↦ [] | some xs ↦ xs ]

unfoldable pub append_at {ℓ κ} :
    {K : Type ℓ} {V : Type κ} ⦃k : Key K⦄ → K → V → Dict K (List V) → Dict K (List V)
append_at a x d = insert a (get_list a d ++ x ∷ []) d
