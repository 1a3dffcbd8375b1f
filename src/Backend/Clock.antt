-- ===== src/Backend/Clock.antt =====
-- backend/cmd/demo-backend/main.go: `sessionClock` and its handlers. The times of a status stand as
-- they are before they are formatted.
pub mod Deadline
pub mod HandOut
use bigfleet_demo.Common.{
  ℕ, ◌+◌, ◌-◌, ◌/◌, Bool, true, false, ◌||◌, Option, none, some, List, [], ◌∷◌, Text, ltb,
  if◌then◌else◌,
}
use bigfleet_demo.Host.State.{second}

-- `started_at` and `hard_deadline` are 0 before `begin`, and not read.
pub record SessionClock : Type 0 where
  pub id : Text
  pub ttl : ℕ
  pub idle_timeout : ℕ
  pub started_at : ℕ
  pub hard_deadline : ℕ
  pub last_beat : ℕ
  pub begun : Bool

unfoldable pub new_session_clock : Text → ℕ → ℕ → ℕ → SessionClock
new_session_clock id ttl idle_timeout now = record {
  id = id;
  ttl = ttl;
  idle_timeout = idle_timeout;
  started_at = 0;
  hard_deadline = 0;
  last_beat = now;
  begun = false;
}

unfoldable pub beat : ℕ → SessionClock → SessionClock
beat now s = record s { last_beat = now }

unfoldable pub begin : ℕ → SessionClock → SessionClock
begin now s =
    if s.begun
    then s
    else record s { begun = true; started_at = now; hard_deadline = now + s.ttl; last_beat = now }

pub data ExpiresReason : Type 0 where
  pending scheduled idle : ExpiresReason

pub record SessionStatus : Type 0 where
  pub id : Text
  pub started_at : ℕ
  pub hard_deadline : ℕ
  pub idle_deadline : ℕ
  pub expires_at : ℕ
  pub expires_reason : ExpiresReason
  pub now : ℕ
  pub remaining_seconds : ℕ
  pub expired : Bool

unfoldable pub snapshot : ℕ → SessionClock → SessionStatus
snapshot now s =
    let full = now + s.ttl in
    let idle_deadline = s.last_beat + s.idle_timeout in
    let is_idle_first = ltb idle_deadline s.hard_deadline in
    let expires_at = if is_idle_first then idle_deadline else s.hard_deadline in
    if s.begun
    then record {
      id = s.id;
      started_at = s.started_at;
      hard_deadline = s.hard_deadline;
      idle_deadline = idle_deadline;
      expires_at = expires_at;
      expires_reason = if is_idle_first then idle else scheduled;
      now = now;
      remaining_seconds = (expires_at - now) / second;
      expired = ltb s.hard_deadline now || ltb idle_deadline now;
    }
    else record {
      id = s.id;
      started_at = now;
      hard_deadline = full;
      idle_deadline = full;
      expires_at = full;
      expires_reason = pending;
      now = now;
      remaining_seconds = s.ttl / second;
      expired = false;
    }

-- `GET /api/session`: `none` is the status with `hosted` false, where there is no clock.
unfoldable pub session_handler : ℕ → Option SessionClock → Option SessionStatus
session_handler now none = none
session_handler now (some s) = some (snapshot now s)

-- The requests that write the clock.
pub data ClockRequest : Type 0 where
  heartbeats : ℕ → ClockRequest
  begins : ℕ → ClockRequest

-- `heartbeatHandler` and `beginHandler` where there is a clock.
unfoldable pub handle : ClockRequest → SessionClock → SessionClock
handle (heartbeats now) s = beat now s
handle (begins now) s = begin now s

unfoldable pub handle_all : List ClockRequest → SessionClock → SessionClock
handle_all [] s = s
handle_all (r ∷ rs) s = handle_all rs (handle r s)
