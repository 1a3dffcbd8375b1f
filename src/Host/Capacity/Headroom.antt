-- ===== src/Host/Capacity/Headroom.antt =====
-- What the headroom promises to whoever asks for a session next.
use bigfleet_demo.Common.{
  ℕ, zero, suc, ◌+◌, ◌-◌, ◌*◌, ◌/◌, ◌≤◌, ◌<◌, ◌≡◌, refl, ◌↔◌, ◌⊎◌, ◌≢◌, inl, inr, Bool, none, some,
  [], ◌∷◌, List, arith, Text, Option-cases, Bool-cases, leb, leb→le, ltb, if◌then◌else◌,
}
use native.Mathlib.Decide.{dec_lt}
use bigfleet_demo.Common.Int.{ℤ, pos, pos_part, sub_ℕ, quot, ltb_ℤ}
use bigfleet_demo.Common.Dict.{Dict}
use bigfleet_demo.Common.Dict.Counting.{count_if}
use bigfleet_demo.Host.State.{Host, Session, active_count, is_ready}
use bigfleet_demo.Host.Admission.{
  Refusal, admitted, refused, at_max_sessions, admit, reserved_count,
}
use bigfleet_demo.Host.Admission.Decision.{Admission-cases, admit_iff}
use bigfleet_demo.Host.Identity.{Draw, gen_id}
use bigfleet_demo.Host.Ports.{alloc_base}
use bigfleet_demo.Host.Create.{find_ready, take_pooled, begin_create, over_capacity}
use bigfleet_demo.Host.Capacity.{CapacityView, spare, warm_ready, capacity_view}

-- A quotient is positive exactly when the divisor fits.
div-pos : (x s : ℕ) → 0 < s → (0 < x / s) ↔ (s ≤ x)
div-pos x s h = (λ p. grind arith, λ p. grind arith)

-- Whether an integer is positive.
abbrev IsPos : ℤ → Type 0
IsPos a = 0 < pos_part a

quot-IsPos : (b m s : ℕ) → 0 < s → IsPos (quot (sub_ℕ b m) s) ↔ (m + s ≤ b)
quot-IsPos b m s h = elim (Bool-cases (leb m b)) [
  | inl le ↦ rw le (ground (arith, div-pos (b - m) s h, leb→le m b le))
  | inr gt ↦ rw gt (ground arith)
]

min-IsPos : (a b : ℤ) → IsPos (if ltb_ℤ a b then a else b) ↔ (IsPos a × IsPos b)
min-IsPos a b = ground arith

sub_ℕ-IsPos : (a b : ℕ) → IsPos (sub_ℕ a b) ↔ (b + 1 ≤ a)
sub_ℕ-IsPos a b = ground arith

cut-IsPos : (a : ℤ) → (0 < (if ltb_ℤ a (pos 0) then 0 else pos_part a)) ↔ IsPos a
cut-IsPos a = ground arith

memory-IsPos :
    (a r : ℤ) (mem : ℕ)
    → IsPos (if ltb 0 mem then (if ltb_ℤ a r then a else r) else r)
      ↔ (IsPos r × ((mem ≡ 0) ⊎ IsPos a))
memory-IsPos a r zero = ground arith
memory-IsPos a r (suc mem) = ground arith

room_of : {B C : Type 0} (A : Type 0) → B ↔ C → A ⊎ B → A ⊎ C
room_of A e (inl a) = inl a
room_of A e (inr b) = inr (e.0 b)

-- A positive spare means that one more session keeps within each of the three limits.
spare_fits :
    (h : Host)
    → 0 < h.cfg.session_mb
    → (0 < spare h) ↔ (
        (active_count h + 1 ≤ h.cfg.max_sessions)
        × ((active_count h + 1) * h.cfg.session_mb ≤ h.cfg.demo_budget_mb)
        × ((h.mem_actual_mb ≡ 0) ⊎ (h.mem_actual_mb + h.cfg.session_mb ≤ h.cfg.demo_budget_mb)))
unfolding spare
spare_fits h p =
    let n = active_count h in
    let s = h.cfg.session_mb in
    let b = h.cfg.demo_budget_mb in
    let mem = h.mem_actual_mb in
    let a = quot (sub_ℕ b mem) s in
    let r = quot (sub_ℕ b (n * s)) s in
    let by_memory = if ltb 0 mem then (if ltb_ℤ a r then a else r) else r in
    let by_max = sub_ℕ h.cfg.max_sessions n in
    let all = min-IsPos by_max by_memory in
    let cut = cut-IsPos (if ltb_ℤ by_max by_memory then by_max else by_memory) in
    let reserve = quot-IsPos b (n * s) s p in
    let actual = quot-IsPos b mem s p in
    let memory = memory-IsPos a r mem in
    let count = sub_ℕ-IsPos h.cfg.max_sessions n in
    (
      λ q.
          let (m, k) = all.0 (cut.0 q) in
          let (rest, room) = memory.0 k in
          let fits : n * s + s ≤ b = reserve.0 rest in
          (count.0 m, grind arith, room_of (mem ≡ 0) actual room),
      λ q.
          let fits : n * s + s ≤ b = grind arith in
          cut.1 (
            all.1
              (count.1 q.0, memory.1 (reserve.1 fits, room_of (mem ≡ 0) (actual.1, actual.0) q.2))),
    )

ready-none : (m : Dict Text Session) → count_if is_ready m ≡ 0 → find_ready m ≡ none
unfolding count_if find_ready
ready-none [] e = refl
ready-none ((k, s) ∷ m) e = ground (arith, ready-none m)

ready-some :
    (m : Dict Text Session)
    → 0 < count_if is_ready m
    → (x : Text × Session) × (find_ready m ≡ some x)
unfolding count_if find_ready
ready-some [] e = absurd (omega arith)
ready-some ((k, s) ∷ m) e = elim (Bool-cases (is_ready s)) [
  | inl yes_ready ↦ ((k, s), rw yes_ready)
  | inr not_ready ↦ rw not_ready (ready-some m (ground (arith, not_ready)))
]

module _ (free : ℕ → Bool) (draws : List Draw) (t : ℕ) (h : Host) where
  abbrev pub NotRefused : Type 0
  NotRefused = (r : Refusal) → (begin_create free draws t h).0 ≢ over_capacity r

  ready-NotRefused : (x : Text × Session) → find_ready h.sessions ≡ some x → NotRefused
  unfolding begin_create take_pooled
  ready-NotRefused (k, s) e r = rw (e, begin_create, take_pooled) (λ q. cc)

  admitted-NotRefused : admit h ≡ admitted → NotRefused
  unfolding begin_create take_pooled
  admitted-NotRefused a r = elim (Option-cases (find_ready h.sessions)) [
    | inr ((k, s), e) ↦ rw (e, begin_create, take_pooled) (λ q. cc)
    | inl e ↦ elim (Option-cases (alloc_base free h)) [
      | inl b ↦ rw (e, a, b, begin_create, take_pooled) (λ q. cc)
      | inr (base, b) ↦ elim (Option-cases (gen_id draws h)) [
        | inl g ↦ rw (e, a, b, g, begin_create, take_pooled) (λ q. cc)
        | inr (id, g) ↦ rw (e, a, b, g, begin_create, take_pooled) (λ q. cc)
      ]
    ]
  ]

  refused-over :
      (r : Refusal)
      → find_ready h.sessions ≡ none
      → admit h ≡ refused r
      → (begin_create free draws t h).0 ≡ over_capacity r
  unfolding begin_create take_pooled
  refused-over r e a = rw (e, a, begin_create, take_pooled)

  served_iff :
      0 < h.cfg.session_mb → h.pool_in_flight ≡ 0 → (0 < spare h + warm_ready h) ↔ NotRefused
  unfolding warm_ready
  served_iff p idle =
      let fits = spare_fits h p in
      let same : reserved_count h ≡ active_count h = unfold reserved_count in omega arith in
      let decide = rw same at (admit_iff h) in
      (
        λ q. elim (dec_lt 0 (count_if is_ready h.sessions)) [
          | yes w ↦ let (x, e) = ready-some h.sessions w in ready-NotRefused x e
          | no w ↦ admitted-NotRefused (decide.1 (fits.0 (omega arith)))
        ],
        λ q. elim (dec_lt 0 (spare h + warm_ready h)) [
          | yes w ↦ w
          | no w ↦ elim (Admission-cases (admit h)) [
            | inl a ↦ let one : 0 < spare h = fits.1 (decide.0 a) in omega arith
            | inr (r, a) ↦ absurd (q r (refused-over r (ready-none h.sessions (omega arith)) a))
          ]
        ],
      )

-- The headroom that the host reports tells the truth about the next request, while no pool session
-- is waiting to be created: it is positive exactly when `createSession` does not turn the visitor
-- away for lack of capacity, whatever the ports, the random bytes and the clock.
pub headroom_iff_served :
    (now : ℕ) (v : CapacityView) (free : ℕ → Bool) (draws : List Draw) (t : ℕ) (h : Host)
    → capacity_view now h ≡ some v
    → h.pool_in_flight ≡ 0
    → (0 < v.headroom_sessions) ↔ NotRefused free draws t h
unfolding capacity_view
headroom_iff_served now v free draws t h e idle =
    let p : 0 < h.cfg.session_mb = ground (arith, e) in
    let same : spare h + warm_ready h ≡ v.headroom_sessions = ground (arith, e) in
    rw (← same) (served_iff free draws t h p idle)

at_max :
    (h : Host)
    → h.cfg.max_sessions ≤ reserved_count h
    → admit h ≡ refused (at_max_sessions h.cfg.max_sessions)
unfolding admit
at_max h full = ground arith

-- While pool sessions wait to be created the report overstates. If no session is ready, the
-- sessions fill `max_sessions` only together with those that wait, the budget has room for one more,
-- and no memory is measured, then the reported headroom is positive and yet the next `createSession`
-- is refused because the host is at its maximum.
headroom_ignores_in_flight :
    (now : ℕ) (v : CapacityView) (free : ℕ → Bool) (draws : List Draw) (t : ℕ) (h : Host)
    → capacity_view now h ≡ some v
    → find_ready h.sessions ≡ none
    → active_count h < h.cfg.max_sessions
    → h.cfg.max_sessions ≤ active_count h + h.pool_in_flight
    → (active_count h + 1) * h.cfg.session_mb ≤ h.cfg.demo_budget_mb
    → h.mem_actual_mb ≡ 0
    → (0 < v.headroom_sessions)
      × ((begin_create free draws t h).0 ≡ over_capacity (at_max_sessions h.cfg.max_sessions))
unfolding capacity_view reserved_count
headroom_ignores_in_flight now v free draws t h e none_ready below full room unmeasured =
    let p : 0 < h.cfg.session_mb = ground (arith, e) in
    let one : 0 < spare h = (spare_fits h p).1 (omega arith, room, inl unmeasured) in
    (
      ground (arith, e, one),
      refused-over free draws t h (at_max_sessions h.cfg.max_sessions) none_ready (at_max h full),
    )
