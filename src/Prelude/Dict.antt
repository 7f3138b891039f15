-- ===== src/Prelude/Dict.antt =====
-- A Python dict, in insertion order, over keys with an equality test.
use mathlib.Core.Path.{◌≡◌, refl, sym, subst₂}
use mathlib.Core.Logic.{inl, inr}
use mathlib.Core.Option.{Option, none, some}
use mathlib.Core.List.{List, [], ◌∷◌}
use native.Mathlib.Omega.{arith}
use qchat.Prelude.Tests.{Eq, ◌==◌, if◌then◌else◌, Bool-cases}
use qchat.Prelude.Lists.{All}

abbrev pub Dict {ℓ κ} : Type ℓ → Type κ → Type (ℓ ⊔ κ)
Dict K V = List (K × V)

module _ {ℓ κ} {K : Type ℓ} {V : Type κ} ⦃e : Eq K⦄ where
  -- `d.get(k)`
  unfoldable pub lookup : K → Dict K V → Option V
  lookup k [] = none
  lookup k ((j, v) ∷ d) = if k == j then some v else lookup k d

  -- `d[k] = v`: a key keeps its place.
  unfoldable pub insert : K → V → Dict K V → Dict K V
  insert k v [] = (k, v) ∷ []
  insert k v ((j, w) ∷ d) = if k == j then (j, v) ∷ d else (j, w) ∷ insert k v d

  -- `del d[k]`, of a key that is there once
  unfoldable pub erase : K → Dict K V → Dict K V
  erase k [] = []
  erase k ((j, w) ∷ d) = if k == j then d else (j, w) ∷ erase k d

  pub lookup-insert :
      (k j : K) (v : V) (d : Dict K V)
      → lookup j (insert k v d) ≡ (if j == k then some v else lookup j d)
  unfolding lookup insert
  lookup-insert k j v [] = refl
  lookup-insert k j v ((i, w) ∷ d) =
      ground (arith, e.beq_iff j k, e.beq_iff k i, e.beq_iff j i, lookup-insert k j v d)

  -- What holds of every entry holds of an entry that is found.
  pub lookup-All {μ} :
      (P : K → V → Type μ) (k : K) (v : V) (d : Dict K V)
      → All (λ x. P x.0 x.1) d
      → lookup k d ≡ some v
      → P k v
  unfolding lookup
  lookup-All P k v [] h found = cc
  lookup-All P k v ((j, w) ∷ d) h found = elim (Bool-cases (k == j)) [
    | inl same ↦
        let value : some w ≡ some v = rw (same, lookup) at found in
        subst₂ P (sym ((e.beq_iff k j).0 same)) (cc) h.0
    | inr other ↦ lookup-All P k v d h.1 (rw (other, lookup) at found)
  ]
