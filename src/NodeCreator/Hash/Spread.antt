-- ===== src/NodeCreator/Hash/Spread.antt =====
-- The range of the dwells.
use bigfleet_demo.Common.{ℕ, ◌-◌, ◌*◌, ◌/◌, ◌%◌, ◌≤◌, ◌<◌, inl, inr, arith, Text, leb, Bool-cases}
use bigfleet_demo.Host.State.{second}
use bigfleet_demo.NodeCreator.Hash.{Dwell, dwell_for, fnv32}

remainder_bound : (a n : ℕ) → 0 < n → a % n < n
remainder_bound a n h = omega arith

span_bound : (r n w : ℕ) → r < n → n * 1_000_000_000 ≤ w → r * 1_000_000_000 ≤ w
span_bound r n w h k = omega arith

-- A dwell is between its two bounds, whatever the name, where the bounds are in order.
pub dwell_for_between :
    (d : Dwell) (name : Text)
    → d.min ≤ d.max
    → (d.min ≤ dwell_for d name) × (dwell_for d name ≤ d.max)
unfolding dwell_for
dwell_for_between d name h = elim (Bool-cases (leb d.max d.min)) [
  | inl e ↦ rw e (omega arith, omega arith)
  | inr e ↦ elim (Bool-cases (leb ((d.max - d.min) / second) 0)) [
    | inl f ↦ rw (e, f) (omega arith, omega arith)
    | inr f ↦
        let span = (d.max - d.min) / second in
        let positive : 0 < span = ground (arith, f) in
        let fits : span * 1_000_000_000 ≤ d.max - d.min = omega arith in
        let step =
          span_bound (fnv32 name % span) span (d.max - d.min)
            (remainder_bound (fnv32 name) span positive) fits in
        rw (e, f) (omega arith, omega (arith, step))
  ]
]
