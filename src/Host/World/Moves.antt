-- ===== src/Host/World/Moves.antt =====
-- What each critical section may do to a session, and how the writes to the registry do it.
use bigfleet_demo.Common.{
  ℕ, ◌≡◌, sym, subst, ◌∙◌, ap, inl, inr, Bool, true, false, Option, none, some, [], ◌∷◌, Text,
  text_eq, text_eq_iff, text_has_eq, nat_eq, Bool-cases, Option-cases, arith, List,
}
use bigfleet_demo.Common.Dict.{
  Dict, lookup, insert, delete, update, lookup-insert, lookup-delete, Unique,
}
use bigfleet_demo.Common.Dict.Counting.{
  adjust, lookup-update, lookup-update-none, lookup-adjust, lookup-adjust-none,
}
use bigfleet_demo.Host.State.{
  Config, Session, State, starting, warming, pooled, running, reaping, is_running,
}
use bigfleet_demo.Host.Identity.{Draw}
use bigfleet_demo.Host.Create.{find_ready}
use bigfleet_demo.Host.Pool.{mark_stale, is_stale, warm_now, warm_state, settle, settle_state}
use bigfleet_demo.Host.Reaper.{Probe, scan_session, is_due}
use bigfleet_demo.Host.Reaper.Scans.{is_running_iff}
use bigfleet_demo.Host.World.{
  Event, creates, created, ticks, recycled, pools, warmed, settled, scans, reaps, deletes, deleted,
}

-- What decides on a session's life: its state, whether it is of the pool, and when a visitor got it.
pub record View : Type 0 where
  pub state : State
  pub is_pooled : Bool
  pub assigned_at : Option ℕ

abbrev pub at : State → Bool → Option ℕ → Option View
at st p a = some (record { state = st; is_pooled = p; assigned_at = a })

-- What may become of the session under a key by each critical section; `none` is a session that the
-- registry does not hold.
pub data Moves : Event → Text → Option View → Option View → Type 0 where
  stays : {e : Event} {k : Text} {o : Option View} → Moves e k o o
  begins :
      {free : ℕ → Bool} {draws : List Draw} {now : ℕ} {k : Text}
      → Moves (creates free draws now) k none (at starting false (some now))
  hands_out :
      {free : ℕ → Bool} {draws : List Draw} {now : ℕ} {k : Text} {a : Option ℕ}
      → Moves (creates free draws now) k (at pooled true a) (at running false (some now))
  comes_up :
      {now : ℕ} {id k : Text} {st : State} {p : Bool} {a : Option ℕ}
      → id ≡ k
      → Moves (created true now id) k (at st p a) (at running p a)
  fails : {now : ℕ} {id k : Text} {v : View} → id ≡ k → Moves (created false now id) k (some v) none
  launches :
      {free : ℕ → Bool} {draws : List Draw} {now : ℕ} {k : Text}
      → Moves (pools free draws now) k none (at starting true none)
  warms :
      {now : ℕ} {id k : Text} {p : Bool} {a : Option ℕ}
      → id ≡ k
      → Moves (warmed true now id) k (at starting p a) (at warming p a)
  stays_cold :
      {now : ℕ} {id k : Text} {v : View} → id ≡ k → Moves (warmed false now id) k (some v) none
  settles :
      {id k : Text} {p : Bool} {a : Option ℕ}
      → id ≡ k
      → Moves (settled id) k (at warming p a) (at pooled p a)
  goes_stale :
      {now : ℕ} {k : Text} {st : State} {a : Option ℕ}
      → Moves (ticks now) k (at st true a) (at reaping true a)
  recycles : {id k : Text} {v : View} → id ≡ k → Moves (recycled id) k (some v) none
  expires :
      {now : ℕ} {probe : ℕ → Probe} {k : Text} {p : Bool} {a : Option ℕ}
      → Moves (scans now probe) k (at running p a) (at reaping p a)
  goes :
      {now : ℕ} {id k : Text} {s : Session} {v : View}
      → id ≡ k
      → Moves (reaps now id s) k (some v) none
  is_deleted :
      {id k : Text} {st : State} {p : Bool} {a : Option ℕ}
      → id ≡ k
      → Moves (deletes id) k (at st p a) (at reaping p a)
  is_gone :
      {now : ℕ} {id k : Text} {s : Session} {v : View}
      → id ≡ k
      → Moves (deleted now id s) k (some v) none

abbrev pub view : Session → View
view s = record { state = s.state; is_pooled = s.is_pooled; assigned_at = s.assigned_at }

abbrev pub view_of : Option Session → Option View
view_of none = none
view_of (some s) = some (view s)

-- How the registry has the session under a key.
abbrev pub view_in : Text → Dict Text Session → Option View
view_in k m = view_of (lookup k m)

module _ (e : Event) (k : Text) where
  pub view_in-update :
      (id : Text) (f : Session → Session) (m : Dict Text Session)
      → ((s : Session)
          → id ≡ k
          → lookup id m ≡ some s
          → Moves e k (some (view s)) (some (view (f s))))
      → Moves e k (view_in k m) (view_in k (update id f m))
  view_in-update id f m h = elim (Option-cases (lookup k m)) [
    | inl q ↦ rw (q, lookup-update-none id k f m q) stays
    | inr (s, q) ↦ elim (Bool-cases (text_eq id k)) [
      | inr other ↦ rw (q, lookup-update id k f m s q, other) stays
      | inl same ↦
          let here : id ≡ k = (text_eq_iff id k).0 same in
          rw (q, lookup-update id k f m s q, same) (h s here (ap (λ j. lookup j m) here ∙ q))
    ]
  ]

  pub view_in-adjust :
      (f : Session → Session) (m : Dict Text Session)
      → ((s : Session) → Moves e k (some (view s)) (some (view (f s))))
      → Moves e k (view_in k m) (view_in k (adjust f m))
  view_in-adjust f m h = elim (Option-cases (lookup k m)) [
    | inl q ↦ rw (q, lookup-adjust-none k f m q) stays
    | inr (s, q) ↦ rw (q, lookup-adjust k f m s q) (h s)
  ]

  pub view_in-delete :
      (id : Text) (m : Dict Text Session)
      → ((v : View) → id ≡ k → Moves e k (some v) none)
      → Moves e k (view_in k m) (view_in k (delete id m))
  view_in-delete id m leaves = elim (Bool-cases (text_eq id k)) [
    | inr q ↦ rw (lookup-delete id k m, q) stays
    | inl q ↦ rw (lookup-delete id k m, q) (gone ((text_eq_iff id k).0 q) (lookup k m))
  ]
    where
      gone : id ≡ k → (o : Option Session) → Moves e k (view_of o) none
      gone here none = stays
      gone here (some s) = leaves (view s) here

  pub view_in-register :
      (id : Text) (s : Session) (m : Dict Text Session)
      → lookup id m ≡ none
      → Moves e k none (some (view s))
      → Moves e k (view_in k m) (view_in k (insert id s m))
  view_in-register id s m free starts = elim (Bool-cases (text_eq id k)) [
    | inr q ↦ rw (lookup-insert id k s m, q) stays
    | inl q ↦
        let same : lookup k m ≡ none = ground (arith, q, free, text_eq_iff id k) in
        rw (lookup-insert id k s m, q, same) starts
  ]

-- The session that is handed out waits in the pool.
pub find_ready-pooled :
    (m : Dict Text Session) (k : Text) (s : Session)
    → find_ready m ≡ some (k, s)
    → Unique m
    → (lookup k m ≡ some s) × (s.state ≡ pooled) × (s.is_pooled ≡ true)
unfolding find_ready lookup
find_ready-pooled [] k s e u = absurd (ground arith)
find_ready-pooled ((i, t) ∷ m) k s e u = ground (arith, text_eq_iff i k, find_ready-pooled m k s)

pub mark_stale-Moves :
    (c : Config) (now : ℕ) (k : Text) (s : Session)
    → Moves (ticks now) k (some (view s)) (some (view (mark_stale c now s)))
unfolding mark_stale is_stale
mark_stale-Moves c now k s = elim (Bool-cases (is_stale c now s)) [
  | inr e ↦ rw (e, mark_stale) stays
  | inl e ↦
      let in_pool : s.is_pooled ≡ true = ground (arith, e) in
      rw (e, mark_stale)
        (subst (λ p. Moves (ticks now) k (at s.state p s.assigned_at) (at reaping p s.assigned_at))
          (sym in_pool) goes_stale)
]

pub scan_session-Moves :
    (now : ℕ) (probe : ℕ → Probe) (k : Text) (s : Session)
    → Moves (scans now probe) k (some (view s)) (some (view (scan_session now probe s)))
unfolding scan_session
scan_session-Moves now probe k s = elim (Bool-cases (is_running s.state)) [
  | inr e ↦ rw (e, scan_session) stays
  | inl e ↦ elim (Bool-cases (is_due now (probe s.port_base) s)) [
    | inr q ↦ rw (e, q, scan_session) stays
    | inl q ↦
        rw (e, q, scan_session)
          (subst
            (λ st.
              Moves (scans now probe) k (at st s.is_pooled s.assigned_at)
                (at reaping s.is_pooled s.assigned_at))
            (sym ((is_running_iff s.state).1 e)) expires)
  ]
]

pub warm_now-Moves :
    (now : ℕ) (id k : Text) (s : Session)
    → id ≡ k
    → Moves (warmed true now id) k (some (view s)) (some (view (warm_now now s)))
unfolding warm_now
warm_now-Moves now id k s here = by_state s.state
  where
    by_state :
        (t : State)
        → Moves
            (warmed true now id)
            k
            (at t s.is_pooled s.assigned_at)
            (at (warm_state t) s.is_pooled s.assigned_at)
    by_state starting = warms here
    by_state warming = stays
    by_state pooled = stays
    by_state running = stays
    by_state reaping = stays

pub settle-Moves :
    (id k : Text) (s : Session)
    → id ≡ k
    → Moves (settled id) k (some (view s)) (some (view (settle s)))
unfolding settle
settle-Moves id k s here = by_state s.state
  where
    by_state :
        (t : State)
        → Moves
            (settled id)
            k
            (at t s.is_pooled s.assigned_at)
            (at (settle_state t) s.is_pooled s.assigned_at)
    by_state starting = stays
    by_state warming = settles here
    by_state pooled = stays
    by_state running = stays
    by_state reaping = stays
