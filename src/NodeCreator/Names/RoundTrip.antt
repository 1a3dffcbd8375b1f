-- ===== src/NodeCreator/Names/RoundTrip.antt =====
-- What a name was printed from is read back from it.
use bigfleet_demo.Common.{
  ℕ, zero, suc, ◌+◌, ◌-◌, ◌*◌, ◌/◌, ◌%◌, ◌<◌, ◌≡◌, refl, sym, ap, ◌∙◌, false, [], ◌∷◌, ◌++◌, arith,
  Text, eqb, if◌then◌else◌, Bool-cases, inl, inr, length, replicate, All,
}
use mathlib.Core.List.{reverse, reverse-append, reverse-cons, reverse-reverse}
use bigfleet_demo.Common.Decimal.{
  decimal, padded, value_from, value_from-padded, value_from-decimal, value_from-zeros,
}
use bigfleet_demo.Common.Decimal.Digits.{IsDigit, padded-All, zeros-All, decimal-All}
use bigfleet_demo.Fakecloud.Catalog.{machine_id}
use bigfleet_demo.NodeCreator.Names.{
  is_digit, leading_digits, atoi, trailing_num, digit36, print36, b36, padded2,
}

leading_digits-stop :
    (s : Text) (c : ℕ) (r : Text)
    → All IsDigit s
    → is_digit c ≡ false
    → leading_digits (s ++ c ∷ r) ≡ s
unfolding leading_digits
leading_digits-stop [] c r a e = ground (arith, e)
leading_digits-stop (d ∷ s) c r a e = ground (arith, a.0, leading_digits-stop s c r a.1 e)

All-snoc : (s : Text) (c : ℕ) → All IsDigit s → IsDigit c → All IsDigit (s ++ c ∷ [])
All-snoc [] c a h = (h, tt)
All-snoc (d ∷ s) c a h = (a.0, All-snoc s c a.1 h)

reverse-All : (s : Text) → All IsDigit s → All IsDigit (reverse s)
reverse-All [] a = tt
reverse-All (c ∷ s) a = rw (reverse-cons c s) (All-snoc (reverse s) c (reverse-All s a.1) a.0)

append_snoc : (s : Text) (c : ℕ) (t : Text) → (s ++ c ∷ []) ++ t ≡ s ++ c ∷ t
append_snoc [] c t = refl
append_snoc (d ∷ s) c t = ap (λ l. d ∷ l) (append_snoc s c t)

trailing_digits :
    (s d : Text) (c : ℕ) → All IsDigit d → is_digit c ≡ false → trailing_num (s ++ c ∷ d) ≡ atoi d
unfolding trailing_num
trailing_digits s d c a e =
    let back : reverse (s ++ c ∷ d) ≡ reverse d ++ c ∷ reverse s =
      reverse-append s (c ∷ d)
      ∙ ap (λ l. l ++ reverse s) (reverse-cons c d)
      ∙ append_snoc (reverse d) c (reverse s) in
    let digits : leading_digits (reverse (s ++ c ∷ d)) ≡ reverse d =
      ap leading_digits back ∙ leading_digits-stop (reverse d) c (reverse s) (reverse-All d a) e in
    ap (λ l. atoi (reverse l)) digits ∙ ap atoi (reverse-reverse d)

-- The number of a machine is read back from its id, for every number that an int holds.
pub trailing_num-machine_id :
    (cloud : Text) (n : ℕ) → n < 9_223_372_036_854_775_808 → trailing_num (machine_id cloud n) ≡ n
unfolding machine_id atoi
trailing_num-machine_id cloud n small =
    trailing_digits cloud (padded n) b'-' (padded-All n) refl
    ∙ rw (value_from-padded n, atoi) (ground (arith, small))

-- The number that digits and small letters spell in base 36, behind `n`.
unfoldable pub value36_from : ℕ → Text → ℕ
value36_from n [] = n
value36_from n (c ∷ s) = value36_from (n * 36 + (if is_digit c then c - b'0' else c + 10 - b'a')) s

value36_from-print36 :
    (f v : ℕ) (out : Text) → v < f → value36_from 0 (print36 f v out) ≡ value36_from v out
unfolding print36 value36_from
value36_from-print36 zero v out h = absurd (omega arith)
value36_from-print36 (suc f) v out h =
    ground (arith, value36_from-print36 f (v / 36) (digit36 (v % 36) ∷ out))

value36_from-zeros : (k : ℕ) (s : Text) → value36_from 0 (replicate k b'0' ++ s) ≡ value36_from 0 s
unfolding value36_from
value36_from-zeros zero s = refl
value36_from-zeros (suc k) s = value36_from-zeros k s

value36_from-all_zeros : (k : ℕ) → value36_from 0 (replicate k b'0') ≡ 0
unfolding value36_from
value36_from-all_zeros zero = refl
value36_from-all_zeros (suc k) = value36_from-all_zeros k

-- What `b36` prints, padded to any width, spells the number that it was given.
pub value36_from-b36 : (v min : ℕ) → value36_from 0 (b36 v min) ≡ v
unfolding b36 value36_from
value36_from-b36 v min =
    let out = print36 (v + 1) v [] in
    let read = value36_from-print36 (v + 1) v [] (omega arith) in
    elim (Bool-cases (eqb v 0)) [
      | inl e ↦ rw (e, b36) (ground (arith, e, value36_from-all_zeros min))
      | inr e ↦ rw (e, b36) (value36_from-zeros (min - length out) out ∙ read)
    ]

pub b36-injective : (v w min : ℕ) → b36 v min ≡ b36 w min → v ≡ w
b36-injective v w min e =
    sym (value36_from-b36 v min) ∙ ap (value36_from 0) e ∙ value36_from-b36 w min

pub padded2-All : (n : ℕ) → All IsDigit (padded2 n)
unfolding padded2
padded2-All n = zeros-All (2 - length (decimal n)) (decimal n) (decimal-All n)

value_from-padded2 : (n : ℕ) → value_from 0 (padded2 n) ≡ n
unfolding padded2
value_from-padded2 n = value_from-zeros (2 - length (decimal n)) (decimal n) ∙ value_from-decimal n

pub padded2-injective : (n m : ℕ) → padded2 n ≡ padded2 m → n ≡ m
padded2-injective n m e = sym (value_from-padded2 n) ∙ ap (value_from 0) e ∙ value_from-padded2 m
