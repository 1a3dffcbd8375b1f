-- ===== src/Common/Dict/Counting.antt =====
-- Unique keys, and how each write to a dictionary changes the number of values that pass a test.
use bigfleet_demo.Common.Tests.{if◌then◌else◌, bit, Option-cases}
use mathlib.Core.Logic.{inl, inr}
use bigfleet_demo.Common.Equality.{Eq}
use bigfleet_demo.Common.Dict.{
  Dict, lookup, insert, delete, update, lookup-insert, lookup-delete, Unique,
}
use Prim.Native.Nat.{ℕ, ◌+◌, ◌≤◌}
use mathlib.Core.Path.{◌≡◌, refl}
use mathlib.Core.Bool.{Bool, true}
use mathlib.Core.Option.{none, some}
use mathlib.Core.List.{[], ◌∷◌}
use native.Mathlib.Omega.{arith}

module _ {ℓ κ} {K : Type ℓ} {V : Type κ} where
  -- The number of values that pass the test: a loop over the map with a counter.
  unfoldable pub count_if : (V → Bool) → Dict K V → ℕ
  count_if p [] = 0
  count_if p ((k, v) ∷ m) = bit (p v) + count_if p m

  -- A loop over the map that writes through every pointer.
  unfoldable pub adjust : (V → V) → Dict K V → Dict K V
  adjust f [] = []
  adjust f ((k, v) ∷ m) = (k, f v) ∷ adjust f m

  pub count_if-adjust_le :
      (p : V → Bool) (f : V → V) (m : Dict K V)
      → ((v : V) → p (f v) ≡ true → p v ≡ true)
      → count_if p (adjust f m) ≤ count_if p m
  unfolding count_if adjust
  count_if-adjust_le p f [] h = omega arith
  count_if-adjust_le p f ((k, v) ∷ m) h = ground (arith, h v, count_if-adjust_le p f m h)

  pub count_if-adjust_eq :
      (p : V → Bool) (f : V → V) (m : Dict K V)
      → ((v : V) → p (f v) ≡ p v)
      → count_if p (adjust f m) ≡ count_if p m
  unfolding count_if adjust
  count_if-adjust_eq p f [] h = refl
  count_if-adjust_eq p f ((k, v) ∷ m) h = rw (h v, count_if-adjust_eq p f m h)

  pub count_if_mono :
      (p q : V → Bool) (m : Dict K V)
      → ((v : V) → p v ≡ true → q v ≡ true)
      → count_if p m ≤ count_if q m
  unfolding count_if
  count_if_mono p q [] h = omega arith
  count_if_mono p q ((k, v) ∷ m) h = ground (arith, h v, count_if_mono p q m h)

module _ {ℓ κ} {K : Type ℓ} {V : Type κ} ⦃e : Eq K⦄ where
  pub lookup-update :
      (k j : K) (f : V → V) (m : Dict K V) (v : V)
      → lookup j m ≡ some v
      → lookup j (update k f m) ≡ some (if e.same k j then f v else v)
  unfolding lookup update
  lookup-update k j f [] v h = ground arith
  lookup-update k j f ((i, w) ∷ m) v h =
      ground (arith, e.same_iff k j, e.same_iff i k, e.same_iff i j, lookup-update k j f m v)

  pub lookup-update-none :
      (k j : K) (f : V → V) (m : Dict K V) → lookup j m ≡ none → lookup j (update k f m) ≡ none
  unfolding lookup update
  lookup-update-none k j f [] h = refl
  lookup-update-none k j f ((i, w) ∷ m) h = ground (arith, lookup-update-none k j f m)

  pub lookup-adjust :
      (j : K) (f : V → V) (m : Dict K V) (v : V)
      → lookup j m ≡ some v
      → lookup j (adjust f m) ≡ some (f v)
  unfolding lookup adjust
  lookup-adjust j f [] v h = ground arith
  lookup-adjust j f ((i, w) ∷ m) v h = ground (arith, lookup-adjust j f m v)

  pub lookup-adjust-none :
      (j : K) (f : V → V) (m : Dict K V) → lookup j m ≡ none → lookup j (adjust f m) ≡ none
  unfolding lookup adjust
  lookup-adjust-none j f [] h = refl
  lookup-adjust-none j f ((i, w) ∷ m) h = ground (arith, lookup-adjust-none j f m)

  pub update_absent : (k : K) (f : V → V) (m : Dict K V) → lookup k m ≡ none → update k f m ≡ m
  unfolding lookup update
  update_absent k f [] h = refl
  update_absent k f ((i, w) ∷ m) h = ground (arith, update_absent k f m)

  pub delete_absent : (k : K) (m : Dict K V) → lookup k m ≡ none → delete k m ≡ m
  unfolding lookup delete
  delete_absent k [] h = refl
  delete_absent k ((i, w) ∷ m) h = ground (arith, delete_absent k m)

  pub insert-Unique : (k : K) (v : V) (m : Dict K V) → Unique m → Unique (insert k v m)
  unfolding insert lookup
  insert-Unique k v [] u = (refl, tt)
  insert-Unique k v ((i, w) ∷ m) u =
      ground (arith, e.same_iff i k, e.same_iff k i, lookup-insert k i v m, insert-Unique k v m)

  pub delete-Unique : (k : K) (m : Dict K V) → Unique m → Unique (delete k m)
  unfolding delete
  delete-Unique k [] u = tt
  delete-Unique k ((i, w) ∷ m) u = ground (arith, lookup-delete k i m, delete-Unique k m)

  pub update-Unique : (k : K) (f : V → V) (m : Dict K V) → Unique m → Unique (update k f m)
  unfolding update
  update-Unique k f [] u = tt
  update-Unique k f ((i, w) ∷ m) u = ground (arith, lookup-update-none k i f m, update-Unique k f m)

  pub adjust-Unique : (f : V → V) (m : Dict K V) → Unique m → Unique (adjust f m)
  unfolding adjust
  adjust-Unique f [] u = tt
  adjust-Unique f ((i, w) ∷ m) u = (lookup-adjust-none i f m u.0, adjust-Unique f m u.1)

  pub count_if-insert_fresh :
      (p : V → Bool) (k : K) (v : V) (m : Dict K V)
      → lookup k m ≡ none
      → count_if p (insert k v m) ≡ count_if p m + bit (p v)
  unfolding count_if insert lookup
  count_if-insert_fresh p k v [] h = omega arith
  count_if-insert_fresh p k v ((i, w) ∷ m) h = ground (arith, count_if-insert_fresh p k v m)

  pub count_if-delete :
      (p : V → Bool) (k : K) (v : V) (m : Dict K V)
      → Unique m
      → lookup k m ≡ some v
      → count_if p (delete k m) + bit (p v) ≡ count_if p m
  unfolding count_if delete lookup
  count_if-delete p k v [] u h = ground arith
  count_if-delete p k v ((i, w) ∷ m) u h =
      ground (arith, e.same_iff i k, count_if-delete p k v m u.1, delete_absent k m)

  pub count_if-update :
      (p : V → Bool) (k : K) (f : V → V) (v : V) (m : Dict K V)
      → Unique m
      → lookup k m ≡ some v
      → count_if p (update k f m) + bit (p v) ≡ count_if p m + bit (p (f v))
  unfolding count_if update lookup
  count_if-update p k f v [] u h = ground arith
  count_if-update p k f v ((i, w) ∷ m) u h =
      ground (arith, e.same_iff i k, count_if-update p k f v m u.1, update_absent k f m)

  pub count_if-update_eq :
      (p : V → Bool) (k : K) (f : V → V) (m : Dict K V)
      → ((v : V) → p (f v) ≡ p v)
      → count_if p (update k f m) ≡ count_if p m
  unfolding count_if update
  count_if-update_eq p k f [] h = refl
  count_if-update_eq p k f ((i, w) ∷ m) h = ground (arith, h w, count_if-update_eq p k f m h)

  pub count_if-update_le :
      (p : V → Bool) (k : K) (f : V → V) (m : Dict K V)
      → Unique m
      → ((v : V) → lookup k m ≡ some v → p (f v) ≡ true → p v ≡ true)
      → count_if p (update k f m) ≤ count_if p m
  count_if-update_le p k f m u h = elim (Option-cases (lookup k m)) [
    | inl e ↦ rw (update_absent k f m e) (omega arith)
    | inr (v, e) ↦ ground (arith, count_if-update p k f v m u e, h v e)
  ]

  pub count_if-delete_le :
      (p : V → Bool) (k : K) (m : Dict K V) → count_if p (delete k m) ≤ count_if p m
  unfolding count_if delete
  count_if-delete_le p k [] = omega arith
  count_if-delete_le p k ((i, w) ∷ m) = ground (arith, count_if-delete_le p k m)
