-- ===== src/Common/Dict/Every.antt =====
-- Predicates of every entry of a dictionary, and how the writes keep them.
use bigfleet_demo.Common.Tests.{Bool-cases}
use bigfleet_demo.Common.Equality.{Eq}
use bigfleet_demo.Common.Dict.{Dict, lookup, insert, delete, update, lookup-delete, Unique}
use bigfleet_demo.Common.Dict.Counting.{count_if, adjust, count_if-delete, delete-Unique}
use Prim.Native.Nat.{◌≤◌}
use mathlib.Core.Path.{◌≡◌, subst₂}
use mathlib.Core.Logic.{◌≢◌, inl, inr}
use mathlib.Core.Bool.{Bool, true}
use mathlib.Core.Option.{some}
use mathlib.Core.List.{[], ◌∷◌}
use native.Mathlib.Omega.{arith}

abbrev pub Every {ℓ κ μ} : {K : Type ℓ} {V : Type κ} → (K → V → Type μ) → Dict K V → Type μ
Every P [] = Unit
Every P ((k, v) ∷ m) = P k v × Every P m

module _ {ℓ κ μ} {K : Type ℓ} {V : Type κ} ⦃e : Eq K⦄ (P : K → V → Type μ) where
  pub Every-insert : (k : K) (v : V) (m : Dict K V) → P k v → Every P m → Every P (insert k v m)
  unfolding insert
  Every-insert k v [] h a = (h, tt)
  Every-insert k v ((i, w) ∷ m) h a = elim (Bool-cases (e.same i k)) [
    | inl same ↦ rw same (h, a.1)
    | inr other ↦ rw other (a.0, Every-insert k v m h a.1)
  ]

  pub Every-delete : (k : K) (m : Dict K V) → Every P m → Every P (delete k m)
  unfolding delete
  Every-delete k [] a = tt
  Every-delete k ((i, w) ∷ m) a = elim (Bool-cases (e.same i k)) [
    | inl same ↦ rw same (Every-delete k m a.1)
    | inr other ↦ rw other (a.0, Every-delete k m a.1)
  ]

  pub Every-update :
      (k : K) (f : V → V) (m : Dict K V)
      → ((i : K) (v : V) → P i v → P i (f v))
      → Every P m
      → Every P (update k f m)
  unfolding update
  Every-update k f [] h a = tt
  Every-update k f ((i, w) ∷ m) h a = elim (Bool-cases (e.same i k)) [
    | inl same ↦ rw same (h i w a.0, Every-update k f m h a.1)
    | inr other ↦ rw other (a.0, Every-update k f m h a.1)
  ]

  pub Every-adjust :
      (f : V → V) (m : Dict K V)
      → ((i : K) (v : V) → P i v → P i (f v))
      → Every P m
      → Every P (adjust f m)
  unfolding adjust
  Every-adjust f [] h a = tt
  Every-adjust f ((i, w) ∷ m) h a = (h i w a.0, Every-adjust f m h a.1)

  pub Every-lookup : (k : K) (v : V) (m : Dict K V) → Every P m → lookup k m ≡ some v → P k v
  unfolding lookup
  Every-lookup k v [] a h = absurd (ground arith)
  Every-lookup k v ((i, w) ∷ m) a h = elim (Bool-cases (e.same i k)) [
    | inl same ↦
        let p : i ≡ k = (e.same_iff i k).0 same in
        let q : w ≡ v = ground (arith, same, h) in subst₂ P p q a.0
    | inr other ↦ Every-lookup k v m a.1 (ground (arith, other, h))
  ]

module _ {ℓ κ} {K : Type ℓ} {V : Type κ} ⦃e : Eq K⦄ where
  -- Two keys whose values both pass a test make the count at least two.
  pub two-le-count_if :
      (p : V → Bool) (k j : K) (v w : V) (m : Dict K V)
      → Unique m
      → k ≢ j
      → lookup k m ≡ some v
      → lookup j m ≡ some w
      → p v ≡ true
      → p w ≡ true
      → 2 ≤ count_if p m
  two-le-count_if p k j v w m u ne a b pv pw =
      let kept : lookup j (delete k m) ≡ some w =
        ground (arith, lookup-delete k j m, e.same_iff k j) in
      ground (
        arith,
        count_if-delete p k v m u a,
        count_if-delete p j w (delete k m) (delete-Unique k m u) kept,
      )
