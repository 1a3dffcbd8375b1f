-- ===== src/Host/Reaper.antt =====
-- cmd/demohost/main.go: `reapOnce`, `sampleMemory` and `deleteSession`.
pub mod Scan
pub mod Scans
use bigfleet_demo.Common.{
  ℕ, ◌+◌, ◌-◌, ◌*◌, Bool, true, false, not, ◌&&◌, ◌||◌, Option, none, some, List, [], ◌∷◌, Text,
  ltb, if◌then◌else◌, text_has_eq,
}
use bigfleet_demo.Common.Dict.{Dict, lookup}
use bigfleet_demo.Common.Dict.Counting.{adjust}
use bigfleet_demo.Host.State.{
  Session, Host, Reason, idle, hard_cap, manual, reaping, is_running, second, append_completion,
  remove, modify,
}

-- The result of `backendExpired` for the session on a port.
pub record Probe : Type 0 where
  pub expired : Bool
  pub reachable : Bool

-- What the poll of a session's backend meets: no connection, a body that is no JSON, or a status.
pub data Answer : Type 0 where
  no_connection : Answer
  undecodable : Answer
  status : Bool → Answer

unfoldable pub backend_expired : Answer → Probe
backend_expired no_connection = record { expired = false; reachable = false }
backend_expired undecodable = record { expired = false; reachable = true }
backend_expired (status expired) = record { expired = expired; reachable = true }

abbrev pub backend_grace : ℕ
backend_grace = 60 * second

-- `lastSeenOK` as the scan leaves it.
unfoldable pub seen_at : ℕ → Probe → Session → ℕ
seen_at now p s = if p.reachable then now else s.last_seen_ok

-- Whether the scan takes a running session down.
unfoldable pub is_due : ℕ → Probe → Session → Bool
unfolding seen_at
is_due now p s =
    is_running s.state
    && (ltb s.expires_at now
        || (p.expired || (not p.reachable && ltb backend_grace (now - seen_at now p s))))

-- The loop body of `reapOnce`.
unfoldable pub scan_session : ℕ → (ℕ → Probe) → Session → Session
scan_session now probe s =
    let p = probe s.port_base in
    if is_running s.state
    then (let seen = record s { last_seen_ok = seen_at now p s } in
        if is_due now p s then record seen { state = reaping } else seen)
    else s

-- `due`, with the keys.
unfoldable pub due_sessions : ℕ → (ℕ → Probe) → Dict Text Session → Dict Text Session
due_sessions now probe [] = []
due_sessions now probe ((k, s) ∷ m) =
    if is_due now (probe s.port_base) s
    then (k, scan_session now probe s) ∷ due_sessions now probe m
    else due_sessions now probe m

-- The first critical section of `reapOnce`.
unfoldable pub reap_scan : ℕ → (ℕ → Probe) → Host → Host
reap_scan now probe h = record h { sessions = adjust (scan_session now probe) h.sessions }

unfoldable pub reap_reason : ℕ → Session → Reason
reap_reason now s = if ltb s.expires_at now then hard_cap else idle

-- The second one, for each session that is due; `now` is the time of the scan.
unfoldable pub finish_reap : ℕ → Text → Session → Host → Host
finish_reap now id s h = append_completion s (reap_reason now s) now (remove id h)

unfoldable pub sample_memory : ℕ → ℕ → Host → Host
sample_memory mb now h = record h { mem_actual_mb = mb; mem_sampled_at = some now }

unfoldable pub mark_reaping : Session → Session
mark_reaping s = record s { state = reaping }

-- `deleteSession` up to the call of `reap`: the session, or `none` for the answer 404.
unfoldable pub begin_delete : Text → Host → Option Session × Host
begin_delete id h = elim (lookup id h.sessions) [
  | none ↦ (none, h)
  | some s ↦ (some (mark_reaping s), modify id mark_reaping h)
]

unfoldable pub finish_delete : ℕ → Text → Session → Host → Host
finish_delete now id s h = append_completion s manual now (remove id h)
