-- ===== src/Host/Capacity.antt =====
-- cmd/demohost/main.go: `capacityView`, the picture that the coordinator routes visitors by.
pub mod Headroom
use bigfleet_demo.Common.{
  ℕ, zero, suc, ◌+◌, ◌-◌, ◌*◌, ◌/◌, Bool, Option, none, some, ltb, eqb, if◌then◌else◌,
}
use bigfleet_demo.Common.Int.{ℤ, pos, negsuc, pos_part, sub_ℕ, quot, ltb_ℤ}
use bigfleet_demo.Common.Dict.Counting.{count_if}
use bigfleet_demo.Host.State.{Host, Session, active_count, is_ready, is_visitor, second}

-- `pct`: the exact quotient; the source rounds it to a float64. A zero denominator gives 0.
pub record Percent : Type 0 where
  pub numerator : ℕ
  pub denominator : ℕ

unfoldable pub pct : ℕ → ℕ → Percent
pct a b =
    if eqb b 0
    then record { numerator = 0; denominator = 1 }
    else record { numerator = a * 100; denominator = b }

pub record CapacityView : Type 0 where
  pub machine_total_mb : ℕ
  pub demo_budget_mb : ℕ
  pub per_session_mb : ℕ
  pub running_sessions : ℕ
  pub visitor_sessions : ℕ
  pub max_sessions : ℕ
  pub reserved_mb : ℕ
  pub measured_actual_mb : ℕ
  pub measured_age_sec : ℕ
  pub warm_ready : ℕ
  pub headroom_sessions : ℕ
  pub budget_used_pct : Percent

-- `headroom` before it is cut off at zero: what fits under the reservations, under the measured
-- memory if there is a measurement, and under `max_sessions`.
unfoldable pub raw_headroom : Host → ℤ
raw_headroom h =
    let n = active_count h in
    let by_reserve = quot (sub_ℕ h.cfg.demo_budget_mb (n * h.cfg.session_mb)) h.cfg.session_mb in
    let by_actual = quot (sub_ℕ h.cfg.demo_budget_mb h.mem_actual_mb) h.cfg.session_mb in
    let by_memory =
      if ltb 0 h.mem_actual_mb
      then (if ltb_ℤ by_actual by_reserve then by_actual else by_reserve)
      else by_reserve in
    let by_max = sub_ℕ h.cfg.max_sessions n in if ltb_ℤ by_max by_memory then by_max else by_memory

-- Headroom for new stacks.
unfoldable pub spare : Host → ℕ
unfolding raw_headroom
spare h = if ltb_ℤ (raw_headroom h) (pos 0) then 0 else pos_part (raw_headroom h)

unfoldable pub warm_ready : Host → ℕ
warm_ready h = count_if is_ready h.sessions

unfoldable pub visitor_count : Host → ℕ
visitor_count h = count_if is_visitor h.sessions

-- `none`: `session_mb` is zero and the division panics.
unfoldable pub capacity_view : ℕ → Host → Option CapacityView
unfolding spare warm_ready visitor_count pct
capacity_view now h =
    let n = active_count h in
    if eqb h.cfg.session_mb 0
    then none
    else some (record {
      machine_total_mb = h.machine_mb;
      demo_budget_mb = h.cfg.demo_budget_mb;
      per_session_mb = h.cfg.session_mb;
      running_sessions = n;
      visitor_sessions = visitor_count h;
      max_sessions = h.cfg.max_sessions;
      reserved_mb = n * h.cfg.session_mb;
      measured_actual_mb = h.mem_actual_mb;
      measured_age_sec = elim h.mem_sampled_at [ none ↦ 0 | some at ↦ (now - at) / second ];
      warm_ready = warm_ready h;
      headroom_sessions = spare h + warm_ready h;
      budget_used_pct = pct (n * h.cfg.session_mb) h.cfg.demo_budget_mb;
    })
