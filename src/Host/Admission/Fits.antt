-- ===== src/Host/Admission/Fits.antt =====
-- An admission against the registry with the session in it.
use bigfleet_demo.Common.{
  ℕ, ◌+◌, ◌*◌, ◌≤◌, ◌≡◌, refl, ◌↔◌, ◌⊎◌, none, [], ◌∷◌, arith, bit, Text, text_has_eq,
}
use bigfleet_demo.Common.Dict.{Dict, lookup, insert}
use bigfleet_demo.Common.Dict.Counting.{count_if, count_if-insert_fresh}
use bigfleet_demo.Host.State.{
  Session, State, starting, warming, pooled, running, reaping, is_active, active_count, Host,
  register,
}
use bigfleet_demo.Host.Admission.{admitted, admit, reserved_count}
use bigfleet_demo.Host.Admission.Decision.{admit_iff}

-- The sessions of the registry that hold a reservation: all but those that are being taken down.
unfoldable pub held : Dict Text Session → ℕ
held [] = 0
held ((k, s) ∷ m) = elim s.state [ reaping ↦ 0 | _ ↦ 1 ] + held m

-- The reservations of a host, with those of the sessions that are still to be created for the pool.
abbrev pub reservations : Host → ℕ
reservations h = held h.sessions + h.pool_in_flight

held-count : (m : Dict Text Session) → count_if (λ s. is_active s.state) m ≡ held m
unfolding held count_if
held-count [] = refl
held-count ((k, s) ∷ m) = one s.state (held-count m)
  where
    one :
        (t : State) {n n' : ℕ}
        → n ≡ n'
        → bit (is_active t) + n ≡ elim t [ reaping ↦ 0 | _ ↦ 1 ] + n'
    one starting e = omega (arith, e)
    one warming e = omega (arith, e)
    one pooled e = omega (arith, e)
    one running e = omega (arith, e)
    one reaping e = omega (arith, e)

held_fresh :
    (k : Text) (s : Session) (m : Dict Text Session)
    → lookup k m ≡ none
    → s.state ≡ starting
    → held (insert k s m) ≡ held m + 1
held_fresh k s m free begins =
    let active : bit (is_active s.state) ≡ 1 = rw begins refl in
    omega (
      arith,
      active,
      held-count m,
      held-count (insert k s m),
      count_if-insert_fresh (λ (s : Session). is_active s.state) k s m free,
    )

reserved-reservations : (h : Host) → reserved_count h ≡ reservations h
unfolding reserved_count active_count
reserved-reservations h = omega (arith, held-count h.sessions)

-- A session that is not in the registry yet and begins is admitted exactly when, with it in the
-- registry, the sessions that are not being taken down and those still to be created for the pool are
-- `max_sessions` or fewer, their reservations are within the budget, and the measured memory, if there
-- is a measurement, leaves room for one more.
pub admit-register :
    (h : Host) (s : Session)
    → lookup s.id h.sessions ≡ none
    → s.state ≡ starting
    → let h' = register s h in
      (admit h ≡ admitted) ↔ (
        (reservations h' ≤ h.cfg.max_sessions)
        × (reservations h' * h.cfg.session_mb ≤ h.cfg.demo_budget_mb)
        × ((h.mem_actual_mb ≡ 0) ⊎ (h.mem_actual_mb + h.cfg.session_mb ≤ h.cfg.demo_budget_mb)))
unfolding register
admit-register h s free begins =
    let one : held (insert s.id s h.sessions) ≡ held h.sessions + 1 =
      held_fresh s.id s h.sessions free begins in
    let same : held (insert s.id s h.sessions) + h.pool_in_flight ≡ reserved_count h + 1 =
      omega (arith, one, reserved-reservations h) in
    rw same (admit_iff h)
