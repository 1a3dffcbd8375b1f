-- ===== src/Host/Ports.antt =====
-- cmd/demohost/main.go: `allocBaseLocked`, the search for the lowest free port block.
use bigfleet_demo.Common.{
  ℕ, zero, suc, ◌+◌, ◌*◌, ◌≤◌, ◌<◌, ◌≡◌, refl, ◌⊎◌, inl, inr, Bool, true, false, Option, none, some,
  arith, if◌then◌else◌, Bool-cases,
}
use native.Mathlib.Decide.{dec_lt}
use bigfleet_demo.Host.State.{Host, is_used}

-- The loop: `n` rounds are left, and `k` is the round. `free` is the probe that binds the port.
scan_bases : (ℕ → Bool) → Host → ℕ → ℕ → Option ℕ
scan_bases free h zero k = none
scan_bases free h (suc n) k =
    let b = h.cfg.port_base + k * h.cfg.stride in
    let rest = scan_bases free h n (k + 1) in
    if is_used b h.used_bases then rest else if free b then some b else rest

abbrev pub port_blocks : Host → ℕ
port_blocks h = h.cfg.max_sessions * 4 + 8

unfoldable pub alloc_base : (ℕ → Bool) → Host → Option ℕ
unfolding scan_bases
alloc_base free h = scan_bases free h (port_blocks h) 0

-- The first port of block `k`.
abbrev pub block : Host → ℕ → ℕ
block h k = h.cfg.port_base + k * h.cfg.stride

-- A block that may not be given out.
abbrev pub Taken : (ℕ → Bool) → Host → ℕ → Type 0
Taken free h b = (is_used b h.used_bases ≡ true) ⊎ (free b ≡ false)

abbrev pub IsLowest : (ℕ → Bool) → Host → ℕ → ℕ → Option ℕ → Type 0
IsLowest free h from end none = (k : ℕ) → from ≤ k → k < end → Taken free h (block h k)
IsLowest free h from end (some b) =
    (j : ℕ) × (b ≡ block h j)
    × (j < end)
    × (is_used b h.used_bases ≡ false)
    × (free b ≡ true)
    × ((k : ℕ) → from ≤ k → k < j → Taken free h (block h k))

IsLowest-widen :
    (free : ℕ → Bool) (h : Host) (k end : ℕ) (r : Option ℕ)
    → Taken free h (block h k)
    → IsLowest free h (k + 1) end r
    → IsLowest free h k end r
IsLowest-widen free h k end none t l = λ j a b. taken_from j a b
  where
    taken_from : (j : ℕ) → k ≤ j → j < end → Taken free h (block h j)
    taken_from j a b = elim (dec_lt k j) [
      | yes p ↦ l j (omega arith) b
      | no p ↦ let e : j ≡ k = omega arith in rw e t
    ]
IsLowest-widen free h k end (some b) t (j, e, below, unused, bindable, l) =
    (j, e, below, unused, bindable, taken_from)
  where
    taken_from : (i : ℕ) → k ≤ i → i < j → Taken free h (block h i)
    taken_from i a b = elim (dec_lt k i) [
      | yes p ↦ l i (omega arith) b
      | no p ↦ let e : i ≡ k = omega arith in rw e t
    ]

scan_bases-IsLowest :
    (free : ℕ → Bool) (h : Host) (n k end : ℕ)
    → k + n ≡ end
    → IsLowest free h k end (scan_bases free h n k)
unfolding scan_bases
scan_bases-IsLowest free h zero k end e = λ j a b. absurd (omega arith)
scan_bases-IsLowest free h (suc n) k end e =
    let ih = scan_bases-IsLowest free h n (k + 1) end (omega arith) in
    elim (Bool-cases (is_used (block h k) h.used_bases)) [
      | inl used ↦ rw used (IsLowest-widen free h k end _ (inl used) ih)
      | inr unused ↦ rw unused (elim (Bool-cases (free (block h k))) [
        | inl open_port ↦
            rw open_port (k, refl, omega arith, unused, open_port, λ i a b. absurd (omega arith))
        | inr busy ↦ rw busy (IsLowest-widen free h k end _ (inr busy) ih)
      ])
    ]

-- The search gives the lowest of the blocks 0 to 4 * max_sessions + 7 that is not marked used and
-- whose first port can be bound; it fails only if each of those blocks is used or cannot be bound.
pub alloc_base-IsLowest :
    (free : ℕ → Bool) (h : Host) → IsLowest free h 0 (port_blocks h) (alloc_base free h)
unfolding alloc_base
alloc_base-IsLowest free h =
    scan_bases-IsLowest free h (port_blocks h) 0 (port_blocks h) (omega arith)
