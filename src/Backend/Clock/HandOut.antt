-- ===== src/Backend/Clock/HandOut.antt =====
-- The clock of a session and the reaper of the host together.
use bigfleet_demo.Common.{
  ℕ, ◌+◌, ◌≤◌, ◌<◌, ◌≡◌, refl, sym, subst, Bool, true, false, ◌&&◌, Option, none, some, List, [],
  ◌∷◌, map, arith, Text, leb,
}
use bigfleet_demo.Host.State.{Session, running, reaping}
use bigfleet_demo.Host.Create.{hand_out}
use bigfleet_demo.Host.Reaper.{Probe, status, backend_expired, scan_session, is_due}
use bigfleet_demo.Backend.Clock.{
  SessionClock, new_session_clock, begin, snapshot, beat, ClockRequest, heartbeats, begins, handle,
  handle_all,
}

-- What the reaper sees of a backend with this clock.
abbrev pub polled : ℕ → SessionClock → Probe
polled now c = backend_expired (status (snapshot now c).expired)

-- What happens to a session that is handed out: a request at its clock, or a scan of the reaper.
pub data Happening : Type 0 where
  requests : ClockRequest → Happening
  scans : ℕ → Happening

unfoldable pub happens : Happening → SessionClock × Session → SessionClock × Session
happens (requests r) (c, s) = (handle r c, s)
happens (scans now) (c, s) = (c, scan_session now (λ port. polled now c) s)

unfoldable pub happen_all : List Happening → SessionClock × Session → SessionClock × Session
happen_all [] x = x
happen_all (e ∷ es) x = happen_all es (happens e x)

-- The session is begun at `t` or later, and each scan comes by `limit` and, once it is begun, within the
-- idle timeout of the last heartbeat or the beginning; `last` is the time of these.
unfoldable pub attended : ℕ → ℕ → ℕ → Option ℕ → List Happening → Bool
attended t limit idle last [] = true
attended t limit idle none (requests (heartbeats n) ∷ es) = attended t limit idle none es
attended t limit idle (some b) (requests (heartbeats n) ∷ es) = attended t limit idle (some n) es
attended t limit idle none (requests (begins n) ∷ es) = leb t n && attended t limit idle (some n) es
attended t limit idle (some b) (requests (begins n) ∷ es) = attended t limit idle (some b) es
attended t limit idle none (scans now ∷ es) = leb now limit && attended t limit idle none es
attended t limit idle (some b) (scans now ∷ es) =
    (leb now limit && leb now (b + idle)) && attended t limit idle (some b) es

-- The clock and the session while the visitor keeps it.
abbrev IsBegunAt : ℕ → Option ℕ → SessionClock → Type 0
IsBegunAt limit none c = c.begun ≡ false
IsBegunAt limit (some b) c = (c.begun ≡ true) × (c.last_beat ≡ b) × (limit ≤ c.hard_deadline)

record IsKept (t ttl idle : ℕ) (last : Option ℕ) (c : SessionClock) (s : Session) : Type 0 where
  timeout : c.idle_timeout ≡ idle
  full : c.ttl ≡ ttl
  clock : IsBegunAt (t + ttl) last c
  up : s.state ≡ running
  limit : s.expires_at ≡ t + ttl

scan-keeps :
    (t ttl idle now : ℕ) (last : Option ℕ) (c : SessionClock) (s : Session)
    → (snapshot now c).expired ≡ false
    → now ≤ t + ttl
    → IsKept t ttl idle last c s
    → IsKept t ttl idle last c (scan_session now (λ port. polled now c) s)
unfolding scan_session is_due backend_expired
scan-keeps t ttl idle now beat c s fresh early k = record {
  timeout = k.timeout;
  full = k.full;
  clock = k.clock;
  up = ground (arith, fresh, early, k.up, k.limit);
  limit = ground (arith, fresh, early, k.up, k.limit);
}

begin-keeps :
    (t ttl idle n : ℕ) (c : SessionClock) (s : Session)
    → t ≤ n
    → IsKept t ttl idle none c s
    → IsKept t ttl idle (some n) (begin n c) s
unfolding begin
begin-keeps t ttl idle n c s late k =
    let begun : begin n c
        ≡ record c { begun = true; started_at = n; hard_deadline = n + c.ttl; last_beat = n } =
      rw (k.clock, begin) refl in
    subst (λ c. IsKept t ttl idle (some n) c s) (sym begun)
      (record {
        timeout = k.timeout;
        full = k.full;
        clock = (refl, refl, omega (arith, k.full, late));
        up = k.up;
        limit = k.limit;
      })

begin_again : (n : ℕ) (c : SessionClock) → c.begun ≡ true → begin n c ≡ c
unfolding begin
begin_again n c e = ground (arith, e)

snapshot_fresh :
    (now limit : ℕ) (c : SessionClock) → IsBegunAt limit none c → (snapshot now c).expired ≡ false
unfolding snapshot
snapshot_fresh now limit c e = ground (arith, e)

snapshot_attended :
    (now limit b idle : ℕ) (c : SessionClock)
    → IsBegunAt limit (some b) c
    → c.idle_timeout ≡ idle
    → now ≤ limit
    → now ≤ b + idle
    → (snapshot now c).expired ≡ false
unfolding snapshot
snapshot_attended now limit b idle c (begun, last, deadline) timeout early soon =
    ground (arith, begun, last, deadline, timeout)

attended-keeps :
    (t ttl idle : ℕ) (es : List Happening) (last : Option ℕ) (c : SessionClock) (s : Session)
    → attended t (t + ttl) idle last es ≡ true
    → IsKept t ttl idle last c s
    → (happen_all es (c, s)).1.state ≡ running
unfolding attended happen_all happens handle beat
attended-keeps t ttl idle [] last c s a k = k.up
attended-keeps t ttl idle (requests (heartbeats n) ∷ es) none c s a k =
    attended-keeps t ttl idle es none (beat n c) s a
      (record { timeout = k.timeout; full = k.full; clock = k.clock; up = k.up; limit = k.limit })
attended-keeps t ttl idle (requests (heartbeats n) ∷ es) (some b) c s a k =
    attended-keeps t ttl idle es (some n) (beat n c) s a (record {
      timeout = k.timeout;
      full = k.full;
      clock = (k.clock.0, refl, k.clock.2);
      up = k.up;
      limit = k.limit;
    })
attended-keeps t ttl idle (requests (begins n) ∷ es) none c s a k =
    attended-keeps t ttl idle es (some n) (begin n c) s (ground (arith, a))
      (begin-keeps t ttl idle n c s (ground (arith, a)) k)
attended-keeps t ttl idle (requests (begins n) ∷ es) (some b) c s a k =
    attended-keeps t ttl idle es (some b) (begin n c) s a
      (subst (λ c. IsKept t ttl idle (some b) c s) (sym (begin_again n c k.clock.0)) k)
attended-keeps t ttl idle (scans now ∷ es) none c s a k =
    attended-keeps t ttl idle es none c _ (ground (arith, a)) (
      scan-keeps t ttl idle now none c s (snapshot_fresh now (t + ttl) c k.clock)
        (ground (arith, a)) k)
attended-keeps t ttl idle (scans now ∷ es) (some b) c s a k =
    let early : now ≤ t + ttl = ground (arith, a) in
    let soon : now ≤ b + idle = ground (arith, a) in
    attended-keeps t ttl idle es (some b) c _ (ground (arith, a)) (
      scan-keeps t ttl idle now (some b) c s
        (snapshot_attended now (t + ttl) b idle c k.clock k.timeout early soon) early k)

waiting-unbegun :
    (before : List ℕ) (c : SessionClock)
    → let c' = handle_all (map heartbeats before) c in
      (c'.begun ≡ c.begun) × (c'.ttl ≡ c.ttl) × (c'.idle_timeout ≡ c.idle_timeout)
unfolding handle_all handle beat
waiting-unbegun [] c = (refl, refl, refl)
waiting-unbegun (n ∷ before) c = waiting-unbegun before (beat n c)

-- A visitor who gets a pooled session at `t` keeps it until `t + ttl`: through any requests at its clock
-- and any scans of the reaper that the backend answers, in any order, the session still runs, if the clock
-- is begun at `t` or later, each scan comes by `t + ttl`, and each that comes after the beginning comes
-- within the idle timeout of the last heartbeat, or of the beginning.
pub visitor_keeps_session :
    (id : Text) (ttl idle_timeout boot t : ℕ) (before : List ℕ) (es : List Happening) (s : Session)
    → attended t (t + ttl) idle_timeout none es ≡ true
    → let waiting =
        handle_all (map heartbeats before) (new_session_clock id ttl idle_timeout boot) in
      (happen_all es (waiting, hand_out ttl t s)).1.state ≡ running
unfolding new_session_clock hand_out
visitor_keeps_session id ttl idle_timeout boot t before es s a =
    let start = new_session_clock id ttl idle_timeout boot in
    let (begun, full, timeout) = waiting-unbegun before start in
    attended-keeps t ttl idle_timeout es none (handle_all (map heartbeats before) start)
      (hand_out ttl t s) a
      (record { timeout = timeout; full = full; clock = begun; up = refl; limit = refl })

snapshot_idle :
    (now : ℕ) (c : SessionClock)
    → c.begun ≡ true
    → c.last_beat + c.idle_timeout < now
    → (snapshot now c).expired ≡ true
unfolding snapshot
snapshot_idle now c b late = ground (arith, b)

-- A session whose clock runs and whose tab is gone, so that no heartbeat came within the idle
-- timeout, is taken down by the next scan.
abandoned_is_reaped :
    (now : ℕ) (c : SessionClock) (s : Session)
    → c.begun ≡ true
    → c.last_beat + c.idle_timeout < now
    → s.state ≡ running
    → (scan_session now (λ port. polled now c) s).state ≡ reaping
unfolding scan_session is_due backend_expired
abandoned_is_reaped now c s b late up = ground (arith, up, snapshot_idle now c b late)
