-- ===== src/Backend/Clock/Deadline.antt =====
-- When a session's clock runs out.
use bigfleet_demo.Common.{
  ℕ, ◌+◌, ◌-◌, ◌/◌, ◌≤◌, ◌<◌, ◌≡◌, refl, sym, ap, subst, ◌∙◌, ◌↔◌, ◌⊎◌, true, false, List, [], ◌∷◌,
  map, arith, Text,
}
use bigfleet_demo.Host.State.{second}
use bigfleet_demo.Backend.Clock.{
  SessionClock, new_session_clock, beat, begin, scheduled, idle, snapshot, ClockRequest, heartbeats,
  begins, handle, handle_all,
}

-- What no request changes once the clock runs.
pub record Fixed (s t : SessionClock) : Type 0 where
  pub same_ttl : t.ttl ≡ s.ttl
  pub same_idle : t.idle_timeout ≡ s.idle_timeout
  pub same_start : t.started_at ≡ s.started_at
  pub same_deadline : t.hard_deadline ≡ s.hard_deadline
  pub runs : t.begun ≡ true

begin_again : (now : ℕ) (s : SessionClock) → s.begun ≡ true → begin now s ≡ s
unfolding begin
begin_again now s b = ground (arith, b)

handle-Fixed : (r : ClockRequest) (s : SessionClock) → s.begun ≡ true → Fixed s (handle r s)
unfolding handle beat begin
handle-Fixed (heartbeats now) s b = record {
  same_ttl = refl;
  same_idle = refl;
  same_start = refl;
  same_deadline = refl;
  runs = b;
}
handle-Fixed (begins now) s b =
    let same : begin now s ≡ s = begin_again now s b in
    subst (Fixed s) (sym same) (record {
      same_ttl = refl;
      same_idle = refl;
      same_start = refl;
      same_deadline = refl;
      runs = b;
    })

handle_all-Fixed :
    (rs : List ClockRequest) (s : SessionClock) → s.begun ≡ true → Fixed s (handle_all rs s)
unfolding handle_all
handle_all-Fixed [] s b = record {
  same_ttl = refl;
  same_idle = refl;
  same_start = refl;
  same_deadline = refl;
  runs = b;
}
handle_all-Fixed (r ∷ rs) s b =
    let first = handle-Fixed r s b in
    let rest = handle_all-Fixed rs (handle r s) first.runs in
    record {
      same_ttl = rest.same_ttl ∙ first.same_ttl;
      same_idle = rest.same_idle ∙ first.same_idle;
      same_start = rest.same_start ∙ first.same_start;
      same_deadline = rest.same_deadline ∙ first.same_deadline;
      runs = rest.runs;
    }

begin_first :
    (now : ℕ) (s : SessionClock)
    → s.begun ≡ false
    → ((begin now s).started_at ≡ now)
      × ((begin now s).hard_deadline ≡ now + s.ttl)
      × ((begin now s).begun ≡ true)
      × ((begin now s).idle_timeout ≡ s.idle_timeout)
unfolding begin
begin_first now s b = ground (arith, b)

-- A clock that only heartbeats have reached.
record Dormant (ttl idle_timeout : ℕ) (s : SessionClock) : Type 0 where
  at_ttl : s.ttl ≡ ttl
  at_idle : s.idle_timeout ≡ idle_timeout
  asleep : s.begun ≡ false

beats-Dormant :
    (ttl idle_timeout : ℕ) (ts : List ℕ) (s : SessionClock)
    → Dormant ttl idle_timeout s
    → Dormant ttl idle_timeout (handle_all (map heartbeats ts) s)
unfolding handle_all handle beat
beats-Dormant ttl idle_timeout [] s d = d
beats-Dormant ttl idle_timeout (t ∷ ts) s d =
    beats-Dormant ttl idle_timeout ts (beat t s)
      (record { at_ttl = d.at_ttl; at_idle = d.at_idle; asleep = d.asleep })

new_session_clock-Dormant :
    (id : Text) (ttl idle_timeout t : ℕ)
    → Dormant ttl idle_timeout (new_session_clock id ttl idle_timeout t)
unfolding new_session_clock
new_session_clock-Dormant id ttl idle_timeout t = record {
  at_ttl = refl;
  at_idle = refl;
  asleep = refl;
}

-- The deadline of a session is `ttl` after the first begin, whatever heartbeats came before it and
-- whatever requests, further begins included, come after it; its idle timeout stays as configured.
pub hard_deadline_fixed :
    (id : Text) (ttl idle_timeout boot t : ℕ) (before : List ℕ) (after : List ClockRequest)
    → let waiting =
        handle_all (map heartbeats before) (new_session_clock id ttl idle_timeout boot) in
      let s = handle_all after (begin t waiting) in
      (s.started_at ≡ t)
      × (s.hard_deadline ≡ t + ttl)
      × (s.begun ≡ true)
      × (s.idle_timeout ≡ idle_timeout)
hard_deadline_fixed id ttl idle_timeout boot t before after =
    let waiting = handle_all (map heartbeats before) (new_session_clock id ttl idle_timeout boot) in
    let d =
      beats-Dormant ttl idle_timeout before (new_session_clock id ttl idle_timeout boot)
        (new_session_clock-Dormant id ttl idle_timeout boot) in
    let (start, deadline, runs, limit) = begin_first t waiting d.asleep in
    let f = handle_all-Fixed after (begin t waiting) runs in
    (
      f.same_start ∙ start,
      f.same_deadline ∙ deadline ∙ ap (λ l. t + l) d.at_ttl,
      f.runs,
      f.same_idle ∙ limit ∙ d.at_idle,
    )

snapshot_asleep :
    (now : ℕ) (s : SessionClock)
    → s.begun ≡ false
    → ((snapshot now s).expired ≡ false) × ((snapshot now s).remaining_seconds ≡ s.ttl / second)
unfolding snapshot
snapshot_asleep now s b = (ground (arith, b), ground (arith, b))

-- A session that waits in the pool does not expire, however long it waits, and shows its full time.
pub waiting_never_expires :
    (id : Text) (ttl idle_timeout boot now : ℕ) (before : List ℕ)
    → let waiting =
        handle_all (map heartbeats before) (new_session_clock id ttl idle_timeout boot) in
      ((snapshot now waiting).expired ≡ false)
      × ((snapshot now waiting).remaining_seconds ≡ ttl / second)
waiting_never_expires id ttl idle_timeout boot now before =
    let waiting = handle_all (map heartbeats before) (new_session_clock id ttl idle_timeout boot) in
    let d =
      beats-Dormant ttl idle_timeout before (new_session_clock id ttl idle_timeout boot)
        (new_session_clock-Dormant id ttl idle_timeout boot) in
    let (quiet, full) = snapshot_asleep now waiting d.asleep in
    (quiet, full ∙ ap (λ l. l / second) d.at_ttl)

-- What the status of a clock that runs says agrees with itself: the session expires at the earlier of
-- the two deadlines, for the reason given, has expired exactly when that time is past, and the
-- seconds that remain count up to it.
pub snapshot_agrees :
    (now : ℕ) (s : SessionClock)
    → s.begun ≡ true
    → let st = snapshot now s in
      ((st.expired ≡ true) ↔ (st.expires_at < now))
      × (((st.expires_reason ≡ scheduled)
            × (st.expires_at ≡ st.hard_deadline)
            × (st.hard_deadline ≤ st.idle_deadline))
          ⊎ ((st.expires_reason ≡ idle)
              × (st.expires_at ≡ st.idle_deadline)
              × (st.idle_deadline < st.hard_deadline)))
      × (st.remaining_seconds ≡ (st.expires_at - now) / second)
unfolding snapshot
snapshot_agrees now s b = ground (arith, b)
