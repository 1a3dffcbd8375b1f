-- ===== src/Host/Reaper/Scan.antt =====
-- What the ring of completions keeps.
use bigfleet_demo.Common.{
  ℕ, ◌-◌, ◌/◌, ◌≤◌, ◌≡◌, refl, ◌⊎◌, inl, inr, false, none, some, List, [], ◌∷◌, ◌++◌, arith, length,
  length-drop, drop, ltb, Bool-cases, Option-cases,
}
use bigfleet_demo.Host.State.{
  Session, Host, Completion, Reason, max_completions, second, append_completion,
}

-- The entry that a finished session leaves.
abbrev pub entry : ℕ → ℕ → Reason → Completion
entry now at reason = record { ended_at = now / second; duration = now - at; reason = reason }

ring_fits :
    (cs : List Completion)
    → ltb max_completions (length cs) ≡ false
    → (cs ≡ drop (length cs - max_completions) cs) × (length cs ≤ max_completions)
ring_fits cs fits =
    let le : length cs ≤ max_completions = ground (arith, fits) in
    let z : length cs - max_completions ≡ 0 = omega arith in (rw z, le)

ring_keeps :
    (s : Session) (reason : Reason) (now : ℕ) (h : Host) (at : ℕ)
    → s.assigned_at ≡ some at
    → let cs = h.completions ++ entry now at reason ∷ [] in
      let kept = (append_completion s reason now h).completions in
      (kept ≡ drop (length cs - max_completions) cs) × (length kept ≤ max_completions)
unfolding append_completion
ring_keeps s reason now h at e =
    let cs = h.completions ++ entry now at reason ∷ [] in
    rw (e, append_completion)
      (elim (Bool-cases (ltb max_completions (length cs))) [
        | inl over ↦ rw over (refl, omega (arith, length-drop (length cs - max_completions) cs))
        | inr fits ↦ rw fits (ring_fits cs fits)
      ])

-- The ring forgets only its oldest entries: recording a session that a visitor had adds one entry
-- at the end and drops just as many from the front as leave at most 1000; a session that no visitor
-- had leaves no entry.
pub append_completion_ring :
    (s : Session) (reason : Reason) (now : ℕ) (h : Host)
    → let kept = (append_completion s reason now h).completions in
      ((s.assigned_at ≡ none) × (kept ≡ h.completions))
      ⊎ ((at : ℕ) × (s.assigned_at ≡ some at)
          × (let cs = h.completions ++ entry now at reason ∷ [] in
              (kept ≡ drop (length cs - max_completions) cs) × (length kept ≤ max_completions)))
unfolding append_completion
append_completion_ring s reason now h = elim (Option-cases s.assigned_at) [
  | inl e ↦ inl (e, rw (e, append_completion))
  | inr (at, e) ↦ inr (at, e, ring_keeps s reason now h at e)
]
