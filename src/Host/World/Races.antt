-- ===== src/Host/World/Races.antt =====
-- Two interleavings of the daemon that its counters do not survive.
use bigfleet_demo.Common.{
  ℕ, ◌+◌, ◌-◌, ◌/◌, ◌≤◌, ◌≡◌, true, some, [], ◌∷◌, arith, Text, length, length-append, text_has_eq,
}
use bigfleet_demo.Common.Dict.{lookup, Unique}
use bigfleet_demo.Common.Dict.Counting.{count_if-update}
use bigfleet_demo.Host.State.{
  Session, Host, Reason, manual, second, reaping, is_active, active_count, modify,
  append_completion, max_completions, remove,
}
use bigfleet_demo.Host.Create.{run_now, finish_create}
use bigfleet_demo.Host.Reaper.{reap_reason, finish_reap, finish_delete}
use bigfleet_demo.Host.World.{World, created, step}

-- A creation that completes on a session which is being taken down brings it back: the session
-- counts as active again, although its place may have been given away in the meantime.
created_revives :
    (now : ℕ) (id : Text) (s : Session) (w : World)
    → Unique w.host.sessions
    → lookup id w.host.sessions ≡ some s
    → s.state ≡ reaping
    → active_count (step (created true now id) w).host ≡ active_count w.host + 1
unfolding step finish_create modify active_count run_now
created_revives now id s w u e r =
    ground (arith, count_if-update (λ t. is_active t.state) id (run_now now) s w.host.sessions u e)

remove-completions : (id : Text) (h : Host) → (remove id h).completions ≡ h.completions
unfolding remove
remove-completions id h = ground arith

append_completion-length :
    (s : Session) (r : Reason) (now at : ℕ) (h : Host)
    → s.assigned_at ≡ some at
    → length h.completions + 1 ≤ max_completions
    → length (append_completion s r now h).completions ≡ length h.completions + 1
unfolding append_completion
append_completion-length s r now at h e room = ground (
  arith,
  length-append h.completions
      (record { ended_at = now / second; duration = now - at; reason = r } ∷ []),
)

-- A session that the reaper has found due and that is deleted before the reaper is done with it is
-- recorded as two finished sessions: once as manual, once by the reaper.
recorded_twice :
    (now later at : ℕ) (id : Text) (s : Session) (h : Host)
    → s.assigned_at ≡ some at
    → length h.completions + 2 ≤ max_completions
    → length (finish_reap now id s (finish_delete later id s h)).completions
      ≡ length h.completions + 2
unfolding finish_reap finish_delete
recorded_twice now later at id s h e room =
    let before = remove id h in
    let once = append_completion s manual later before in
    let first = append_completion-length s manual later at before e in
    let second_time = append_completion-length s (reap_reason now s) now at (remove id once) e in
    ground (arith, first, second_time, remove-completions id h, remove-completions id once)
