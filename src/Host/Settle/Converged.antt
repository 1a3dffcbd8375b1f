-- ===== src/Host/Settle/Converged.antt =====
-- When a session counts as settled.
use bigfleet_demo.Common.{
  ℕ, ◌+◌, ◌≡◌, refl, sym, ◌∙◌, ◌↔◌, inl, inr, Bool, true, false, ◌&&◌, ◌||◌, List, [], ◌∷◌, arith,
  ltb, Bool-cases, All,
}
use bigfleet_demo.Host.Settle.{
  has_converged, Poll, Settling, settled_down, timed_out, unfinished, settle_loop, wait_for_settle,
}

abbrev pub head_converged : List Poll → Bool
head_converged [] = false
head_converged (p ∷ ps) = has_converged p.answer

-- Two rounds in a row find the fleet converged.
unfoldable pub converges_twice : List Poll → Bool
converges_twice [] = false
converges_twice (p ∷ ps) = (has_converged p.answer && head_converged ps) || converges_twice ps

abbrev is_settled : Settling → Bool
is_settled settled_down = true
is_settled timed_out = false
is_settled unfinished = false

settle_loop-settled :
    (deadline : ℕ) (ps : List Poll)
    → All (λ p. ltb p.now deadline ≡ true) ps
    → (is_settled (settle_loop deadline 0 ps) ≡ converges_twice ps)
      × (is_settled (settle_loop deadline 1 ps) ≡ (head_converged ps || converges_twice ps))
unfolding settle_loop converges_twice
settle_loop-settled deadline [] a = (refl, refl)
settle_loop-settled deadline (p ∷ ps) a =
    let (fresh, once) = settle_loop-settled deadline ps a.1 in
    elim (Bool-cases (has_converged p.answer)) [
      | inl e ↦ rw (a.0, e) (once, refl)
      | inr e ↦ rw (a.0, e) (fresh, fresh)
    ]

settled_iff : (s : Settling) → (s ≡ settled_down) ↔ (is_settled s ≡ true)
settled_iff settled_down = ground arith
settled_iff timed_out = ground arith
settled_iff unfinished = ground arith

-- As long as the rounds start before the deadline, the wait ends with the session settled exactly where
-- two rounds in a row find that nothing is pending and some nodes are up.
pub wait_for_settle_iff :
    (start max : ℕ) (ps : List Poll)
    → All (λ p. ltb p.now (start + max) ≡ true) ps
    → (wait_for_settle start max ps ≡ settled_down) ↔ (converges_twice ps ≡ true)
unfolding wait_for_settle
wait_for_settle_iff start max ps a =
    let same = (settle_loop-settled (start + max) ps a).0 in
    let iff = settled_iff (settle_loop (start + max) 0 ps) in
    ((λ e. sym same ∙ iff.0 e), (λ e. iff.1 (same ∙ e)))
