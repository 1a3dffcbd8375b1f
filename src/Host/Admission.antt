-- ===== src/Host/Admission.antt =====
-- cmd/demohost/main.go: `admitLocked`, the decision whether one more session fits.
pub mod Decision
pub mod Fits
use bigfleet_demo.Common.{
  ℕ, ◌+◌, ◌*◌, ◌≤◌, ◌<◌, ◌≡◌, refl, Bool, true, false, ◌&&◌, arith, ltb, leb, if◌then◌else◌,
}
use bigfleet_demo.Host.State.{Host, active_count}

-- The three refusals, with the figures that their texts print.
pub data Refusal : Type 0 where
  at_max_sessions : ℕ → Refusal
  over_reservation : ℕ → ℕ → ℕ → Refusal
  near_measured : ℕ → ℕ → ℕ → Refusal

pub data Admission : Type 0 where
  admitted : Admission
  refused : Refusal → Admission

-- Sessions that hold a reservation, those of the warm pool that are still being created included.
unfoldable pub reserved_count : Host → ℕ
reserved_count h = active_count h + h.pool_in_flight

unfoldable pub admit : Host → Admission
admit h =
    let n = reserved_count h in
    if leb h.cfg.max_sessions n
    then refused (at_max_sessions h.cfg.max_sessions)
    else if ltb h.cfg.demo_budget_mb ((n + 1) * h.cfg.session_mb)
    then refused (over_reservation n h.cfg.session_mb h.cfg.demo_budget_mb)
    else if ltb 0 h.mem_actual_mb && ltb h.cfg.demo_budget_mb (h.mem_actual_mb + h.cfg.session_mb)
    then refused (near_measured h.mem_actual_mb h.cfg.session_mb h.cfg.demo_budget_mb)
    else admitted
