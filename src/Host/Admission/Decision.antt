-- ===== src/Host/Admission/Decision.antt =====
-- When `admit` says yes.
use bigfleet_demo.Common.{◌+◌, ◌*◌, ◌≤◌, ◌≡◌, refl, ◌↔◌, ◌⊎◌, inl, inr, arith}
use bigfleet_demo.Host.State.{Host}
use bigfleet_demo.Host.Admission.{Admission, Refusal, admitted, refused, admit, reserved_count}

pub Admission-cases : (a : Admission) → (a ≡ admitted) ⊎ ((r : Refusal) × (a ≡ refused r))
Admission-cases admitted = inl refl
Admission-cases (refused r) = inr (r, refl)

-- One more session is admitted exactly when the number of sessions with a reservation, those still
-- being created for the pool included, stays within `max_sessions` with it, the reservations stay
-- within the budget with it, and the measured memory, if there is a measurement, leaves room for it.
pub admit_iff :
    (h : Host)
    → (admit h ≡ admitted) ↔ (
        (reserved_count h + 1 ≤ h.cfg.max_sessions)
        × ((reserved_count h + 1) * h.cfg.session_mb ≤ h.cfg.demo_budget_mb)
        × ((h.mem_actual_mb ≡ 0) ⊎ (h.mem_actual_mb + h.cfg.session_mb ≤ h.cfg.demo_budget_mb)))
unfolding admit
admit_iff h = ground arith
