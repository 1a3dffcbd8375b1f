-- ===== src/Common/Listing.antt =====
-- Membership and distinctness of lists, by recursion.
use bigfleet_demo.Common.{refl, ◌≢◌, List, [], ◌∷◌, ◌++◌, All, map, All-append}
use mathlib.Core.List.{Memᴰ}

module _ {ℓ} {A : Type ℓ} where
  abbrev pub Distinct : List A → Type ℓ
  Distinct [] = Unit
  Distinct (x ∷ xs) = All (λ y. x ≢ y) xs × Distinct xs

module _ {ℓ κ} {A : Type ℓ} (P : A → Type κ) where
  pub All-of_listed : (xs : List A) → ((x : A) → Memᴰ x xs → P x) → All P xs
  All-of_listed [] h = tt
  All-of_listed (x ∷ xs) h = (h x (Memᴰ.head refl), All-of_listed xs (λ y l. h y (Memᴰ.tail l)))

  pub All-listed : (x : A) (xs : List A) → All P xs → Memᴰ x xs → P x
  All-listed x [] a l = elim l [ ]
  All-listed x (y ∷ ys) a (Memᴰ.head e) = rw e a.0
  All-listed x (y ∷ ys) a (Memᴰ.tail l) = All-listed x ys a.1 l

  pub All-map {μ} :
      {B : Type μ} (f : A → B) (Q : B → Type κ) (xs : List A)
      → ((x : A) → P x → Q (f x))
      → All P xs
      → All Q (map f xs)
  All-map f Q [] h a = tt
  All-map f Q (x ∷ xs) h a = (h x a.0, All-map f Q xs h a.1)

module _ {ℓ} {A : Type ℓ} where
  -- Two distinct lists with nothing in common.
  pub Distinct-append :
      (xs ys : List A)
      → Distinct xs
      → Distinct ys
      → All (λ x. All (λ y. x ≢ y) ys) xs
      → Distinct (xs ++ ys)
  Distinct-append [] ys dx dy apart = dy
  Distinct-append (x ∷ xs) ys dx dy apart =
      (All-append (λ y. x ≢ y) xs ys dx.0 apart.0, Distinct-append xs ys dx.1 dy apart.1)
