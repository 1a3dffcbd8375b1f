-- ===== src/Common/Decimal.antt =====
-- Numbers in decimal, as `%d` and `%04d` of `fmt.Sprintf` print them.
pub mod Digits
use bigfleet_demo.Common.{
  ℕ, zero, suc, ◌+◌, ◌-◌, ◌*◌, ◌/◌, ◌%◌, ◌<◌, ◌≡◌, refl, sym, ◌∙◌, ap, [], ◌∷◌, ◌++◌, arith, Text,
  codes, ltb, if◌then◌else◌, length, replicate,
}

-- The digits of `n` before `out`; a number below its fuel is printed whole.
print : ℕ → ℕ → Text → Text
print zero n out = out
print (suc f) n out =
    let rest = print f (n / 10) ((b'0' + n % 10) ∷ out) in
    if ltb n 10 then (b'0' + n) ∷ out else rest

unfoldable pub decimal : ℕ → Text
unfolding print
decimal n = print (n + 1) n []

-- `%04d`
unfoldable pub padded : ℕ → Text
padded n = let s = decimal n in replicate (4 - length s) b'0' ++ s

-- The number that digits spell behind `n`.
unfoldable pub value_from : ℕ → Text → ℕ
value_from n [] = n
value_from n (c ∷ s) = value_from (n * 10 + (c - b'0')) s

value_from-print : (f n : ℕ) (out : Text) → n < f → value_from 0 (print f n out) ≡ value_from n out
unfolding print value_from
value_from-print zero n out h = absurd (omega arith)
value_from-print (suc f) n out h =
    ground (arith, value_from-print f (n / 10) ((b'0' + n % 10) ∷ out))

pub value_from-zeros : (k : ℕ) (s : Text) → value_from 0 (replicate k b'0' ++ s) ≡ value_from 0 s
unfolding value_from
value_from-zeros zero s = refl
value_from-zeros (suc k) s = value_from-zeros k s

pub value_from-decimal : (n : ℕ) → value_from 0 (decimal n) ≡ n
unfolding decimal value_from
value_from-decimal n = value_from-print (n + 1) n [] (omega arith)

-- Padding loses nothing: the number is read back from its print.
pub value_from-padded : (n : ℕ) → value_from 0 (padded n) ≡ n
unfolding padded
value_from-padded n = value_from-zeros (4 - length (decimal n)) (decimal n) ∙ value_from-decimal n

pub padded-injective : (n m : ℕ) → padded n ≡ padded m → n ≡ m
padded-injective n m h = sym (value_from-padded n) ∙ ap (value_from 0) h ∙ value_from-padded m

padded_small : padded 7 ≡ codes "0007"
unfolding padded decimal
padded_small = refl

decimal_large : decimal 21016 ≡ codes "21016"
unfolding decimal
decimal_large = refl
