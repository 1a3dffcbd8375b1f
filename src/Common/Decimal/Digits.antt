-- ===== src/Common/Decimal/Digits.antt =====
-- What a printed number consists of, and how it is told from what follows it.
use bigfleet_demo.Common.{
  ℕ, zero, suc, ◌+◌, ◌-◌, ◌/◌, ◌%◌, ◌≤◌, ◌<◌, ◌≡◌, ◌≢◌, refl, sym, ap, ◌∙◌, [], ◌∷◌, ◌++◌, arith,
  Text, ltb, Bool-cases, inl, inr, length, replicate, All,
}
use bigfleet_demo.Common.Decimal.{print, decimal, padded, value_from, value_from-decimal}

abbrev pub IsDigit : ℕ → Type 0
IsDigit c = (b'0' ≤ c) × (c ≤ b'9')

print-All : (f n : ℕ) (out : Text) → All IsDigit out → All IsDigit (print f n out)
unfolding print
print-All zero n out a = a
print-All (suc f) n out a =
    let rest = print-All f (n / 10) ((b'0' + n % 10) ∷ out) ((omega arith, omega arith), a) in
    elim (Bool-cases (ltb n 10)) [
      | inl e ↦ rw e ((omega arith, ground (arith, e)), a)
      | inr e ↦ rw e rest
    ]

pub decimal-All : (n : ℕ) → All IsDigit (decimal n)
unfolding decimal
decimal-All n = print-All (n + 1) n [] tt

pub zeros-All : (k : ℕ) (s : Text) → All IsDigit s → All IsDigit (replicate k b'0' ++ s)
zeros-All zero s a = a
zeros-All (suc k) s a = ((omega arith, omega arith), zeros-All k s a)

pub padded-All : (n : ℕ) → All IsDigit (padded n)
unfolding padded
padded-All n = zeros-All (4 - length (decimal n)) (decimal n) (decimal-All n)

pub decimal-injective : (n m : ℕ) → decimal n ≡ decimal m → n ≡ m
decimal-injective n m e = sym (value_from-decimal n) ∙ ap (value_from 0) e ∙ value_from-decimal m

abbrev pub Without : ℕ → Text → Type 0
Without c = All (λ d. d ≢ c)

pub digits-Without : (c : ℕ) (s : Text) → c < b'0' → All IsDigit s → Without c s
digits-Without c [] h a = tt
digits-Without c (d ∷ s) h a = ((λ e. omega arith), digits-Without c s h a.1)

-- The first occurrence of `c` tells where a text without `c` ends.
pub split_at :
    (c : ℕ) (s t r q : Text)
    → Without c s
    → Without c t
    → s ++ c ∷ r ≡ t ++ c ∷ q
    → (s ≡ t) × (r ≡ q)
split_at c [] [] r q a b e = (refl, ground (arith, e))
split_at c [] (x ∷ t) r q a b e = absurd (b.0 (ground (arith, e)))
split_at c (x ∷ s) [] r q a b e = absurd (a.0 (ground (arith, e)))
split_at c (x ∷ s) (y ∷ t) r q a b e =
    let (same, tails) = split_at c s t r q a.1 b.1 (ground (arith, e)) in
    (ground (arith, e, same), tails)

pub append-cancel : (s t u : Text) → s ++ t ≡ s ++ u → t ≡ u
append-cancel [] t u e = e
append-cancel (c ∷ s) t u e = append-cancel s t u (ground (arith, e))
