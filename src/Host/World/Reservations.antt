-- ===== src/Host/World/Reservations.antt =====
-- When the reservations of the host are within its limits, and the writes that keep them so.
use bigfleet_demo.Common.{
  ℕ, ◌+◌, ◌*◌, ◌≤◌, ◌≡◌, refl, ◌∙◌, subst, Bool, true, none, some, arith, Text, text_has_eq,
}
use bigfleet_demo.Common.Dict.{lookup, Unique}
use bigfleet_demo.Common.Dict.Counting.{
  adjust, count_if-adjust_le, count_if-update_le, count_if-insert_fresh, count_if-delete_le,
}
use bigfleet_demo.Host.State.{
  Config, Session, Host, is_active, active_count, register, remove, modify,
}
use bigfleet_demo.Host.Admission.{admitted, admit, reserved_count}
use bigfleet_demo.Host.Admission.Decision.{admit_iff}
use bigfleet_demo.Host.World.Cases.{remove_cases}

abbrev pub active : Session → Bool
active s = is_active s.state

-- `n` sessions with a reservation are within the limits of the configuration.
abbrev pub Fits : Config → ℕ → Type 0
Fits cfg n = (n ≤ cfg.max_sessions) × (n * cfg.session_mb ≤ cfg.demo_budget_mb)

pub record InBudget (cfg : Config) (h : Host) (waiting : ℕ) : Type 0 where
  pub same_cfg : h.cfg ≡ cfg
  pub counted : h.pool_in_flight ≡ waiting
  pub fits : Fits cfg (active_count h + waiting)

-- Fewer reservations fit as well.
pub Fits-mono : (cfg : Config) (m n : ℕ) → m ≤ n → Fits cfg n → Fits cfg m
Fits-mono cfg m n le f = (omega arith, grind arith)

pub fewer-InBudget :
    (cfg : Config) (h u : Host) (n : ℕ)
    → u.cfg ≡ h.cfg
    → u.pool_in_flight ≡ h.pool_in_flight
    → active_count u ≤ active_count h
    → InBudget cfg h n
    → InBudget cfg u n
fewer-InBudget cfg h u n c f le b = record {
  same_cfg = c ∙ b.same_cfg;
  counted = f ∙ b.counted;
  fits = Fits-mono cfg (active_count u + n) (active_count h + n) (omega arith) b.fits;
}

-- What an admission promises, at the configuration that the host keeps.
pub admit-Fits :
    (cfg : Config) (h : Host) (n : ℕ)
    → admit h ≡ admitted
    → InBudget cfg h n
    → Fits cfg (active_count h + n + 1)
unfolding reserved_count
admit-Fits cfg h n a b =
    let (count, memory, _) = (admit_iff h).0 a in
    subst (λ c. Fits c (active_count h + n + 1)) b.same_cfg
      (subst (λ k. Fits h.cfg (active_count h + k + 1)) b.counted (count, memory))

module _ (cfg : Config) where
  pub modify-InBudget :
      (id : Text) (f : Session → Session) (h : Host) (n : ℕ)
      → Unique h.sessions
      → ((s : Session) → lookup id h.sessions ≡ some s → active (f s) ≡ true → active s ≡ true)
      → InBudget cfg h n
      → InBudget cfg (modify id f h) n
  unfolding modify active_count
  modify-InBudget id f h n u keeps b =
      fewer-InBudget cfg h _ n refl refl (count_if-update_le active id f h.sessions u keeps) b

  pub adjust-InBudget :
      (f : Session → Session) (h : Host) (n : ℕ)
      → ((s : Session) → active (f s) ≡ true → active s ≡ true)
      → InBudget cfg h n
      → InBudget cfg (record h { sessions = adjust f h.sessions }) n
  unfolding active_count
  adjust-InBudget f h n keeps b =
      fewer-InBudget cfg h _ n refl refl (count_if-adjust_le active f h.sessions keeps) b

  pub remove-InBudget :
      (id : Text) (h : Host) (n : ℕ) → InBudget cfg h n → InBudget cfg (remove id h) n
  unfolding active_count
  remove-InBudget id h n b =
      remove_cases (λ u. InBudget cfg u n) id h b
        λ s _. fewer-InBudget cfg h _ n refl refl (count_if-delete_le active id h.sessions) b

  -- A session that was admitted in this very section.
  pub launch-InBudget :
      (s : Session) (h : Host) (n : ℕ)
      → lookup s.id h.sessions ≡ none
      → admit h ≡ admitted
      → InBudget cfg h n
      → InBudget cfg (register s h) n
  unfolding register active_count
  launch-InBudget s h n fresh a b = record {
    same_cfg = b.same_cfg;
    counted = b.counted;
    fits =
        Fits-mono cfg _ (active_count h + n + 1)
          (ground (arith, count_if-insert_fresh active s.id s h.sessions fresh))
          (admit-Fits cfg h n a b);
  }
