-- ===== src/Host/Reaper/Scans.antt =====
-- A session through many scans of the reaper.
use bigfleet_demo.Common.{
  ℕ, ◌+◌, ◌-◌, ◌*◌, ◌≡◌, ◌↔◌, refl, sym, ◌∙◌, ap, ◌&&◌, ◌||◌, not, Bool, true, false, some, List,
  [], ◌∷◌, arith, Text, leb, if◌then◌else◌, Bool-cases, inl, inr, text_has_eq,
}
use bigfleet_demo.Common.Dict.{lookup}
use bigfleet_demo.Common.Dict.Counting.{lookup-adjust}
use bigfleet_demo.Host.State.{
  Session, State, Host, starting, warming, pooled, running, reaping, is_running, second,
}
use bigfleet_demo.Host.Create.{hand_out}
use bigfleet_demo.Host.Reaper.{Probe, scan_session, is_due, seen_at, reap_scan}

-- A scan: its time, and what the polls of the backends answer it.
pub record Scan : Type 0 where
  pub now : ℕ
  pub probe : ℕ → Probe

unfoldable pub reap_scans : List Scan → Host → Host
reap_scans [] h = h
reap_scans (c ∷ cs) h = reap_scans cs (reap_scan c.now c.probe h)

unfoldable pub scan_all : List Scan → Session → Session
scan_all [] s = s
scan_all (c ∷ cs) s = scan_all cs (scan_session c.now c.probe s)

-- Every scan comes by `limit`, finds that the backend on the port does not report its session expired, and
-- reaches it or has reached it in the last minute.
unfoldable pub spares : ℕ → ℕ → ℕ → List Scan → Bool
spares port limit since [] = true
spares port limit since (c ∷ cs) =
    (leb c.now limit
      && (not (c.probe port).expired
          && ((c.probe port).reachable || leb (c.now - since) (60 * second))))
    && spares port limit (if (c.probe port).reachable then c.now else since) cs

-- One scan of a running session, by the same test.
spared : (c : Scan) (s : Session) → Bool
spared c s =
    leb c.now s.expires_at
    && (not (c.probe s.port_base).expired
        && ((c.probe s.port_base).reachable || leb (c.now - s.last_seen_ok) (60 * second)))

scan_session-spared :
    (c : Scan) (s : Session)
    → s.state ≡ running
    → spared c s ≡ true
    → let s' = scan_session c.now c.probe s in
      (s'.state ≡ running)
      × (s'.port_base ≡ s.port_base)
      × (s'.expires_at ≡ s.expires_at)
      × (s'.last_seen_ok ≡ (if (c.probe s.port_base).reachable then c.now else s.last_seen_ok))
unfolding scan_session is_due seen_at spared
scan_session-spared c s up e = ground (arith, up, e)

scan_session-due :
    (c : Scan) (s : Session)
    → s.state ≡ running
    → spared c s ≡ false
    → (scan_session c.now c.probe s).state ≡ reaping
unfolding scan_session is_due seen_at spared
scan_session-due c s up e = ground (arith, up, e)

scan_all-reaping :
    (cs : List Scan) (s : Session) → s.state ≡ reaping → (scan_all cs s).state ≡ reaping
unfolding scan_all scan_session
scan_all-reaping [] s e = e
scan_all-reaping (c ∷ cs) s e =
    scan_all-reaping cs (scan_session c.now c.probe s) (ground (arith, e))

pub scan_all-runs :
    (cs : List Scan) (s : Session)
    → s.state ≡ running
    → is_running (scan_all cs s).state ≡ spares s.port_base s.expires_at s.last_seen_ok cs
unfolding scan_all spares spared
scan_all-runs [] s up = rw up refl
scan_all-runs (c ∷ cs) s up = elim (Bool-cases (spared c s)) [
  | inl e ↦
      let s' = scan_session c.now c.probe s in
      let seen = if (c.probe s.port_base).reachable then c.now else s.last_seen_ok in
      let (up', port, limit, since) = scan_session-spared c s up e in
      scan_all-runs cs s' up'
      ∙ rw (port, limit, since) (sym (ap (λ b. b && spares s.port_base s.expires_at seen cs) e))
  | inr e ↦
      let seen = if (c.probe s.port_base).reachable then c.now else s.last_seen_ok in
      ap is_running (scan_all-reaping cs _ (scan_session-due c s up e))
      ∙ sym (ap (λ b. b && spares s.port_base s.expires_at seen cs) e)
]

lookup-reap_scans :
    (cs : List Scan) (h : Host) (k : Text) (s : Session)
    → lookup k h.sessions ≡ some s
    → lookup k (reap_scans cs h).sessions ≡ some (scan_all cs s)
unfolding reap_scans scan_all reap_scan
lookup-reap_scans [] h k s e = e
lookup-reap_scans (c ∷ cs) h k s e =
    lookup-reap_scans cs (reap_scan c.now c.probe h) k (scan_session c.now c.probe s)
      (lookup-adjust k (scan_session c.now c.probe) h.sessions s e)

pub is_running_iff : (s : State) → (s ≡ running) ↔ (is_running s ≡ true)
is_running_iff starting = ground arith
is_running_iff warming = ground arith
is_running_iff pooled = ground arith
is_running_iff running = ground arith
is_running_iff reaping = ground arith

-- No session outlives the reaper's scans that should not, and none is taken down early. One that runs at
-- first, through any scans, still runs after them exactly where each came by its hard cap and found that
-- its backend did not report it expired and was reached, then or in an earlier scan of the last minute;
-- before the first scan the time of the last contact is the one that the session holds.
pub reap_scans_alive :
    (cs : List Scan) (h : Host) (k : Text) (s : Session)
    → lookup k h.sessions ≡ some s
    → s.state ≡ running
    → (s' : Session) × (lookup k (reap_scans cs h).sessions ≡ some s')
      × ((s'.state ≡ running) ↔ (spares s.port_base s.expires_at s.last_seen_ok cs ≡ true))
reap_scans_alive cs h k s e up =
    let same = scan_all-runs cs s up in
    let iff = is_running_iff (scan_all cs s).state in
    (
      scan_all cs s,
      lookup-reap_scans cs h k s e,
      ((λ r. sym same ∙ iff.0 r), (λ q. iff.1 (same ∙ q))),
    )

-- A session that is handed out at `t` runs on through all scans by `t + ttl`, as long as its backend never
-- reports it expired and is never out of reach for more than a minute from `t` on, or from the last scan
-- that reached it.
pub hand_out_full_time :
    (ttl t : ℕ) (cs : List Scan) (s : Session)
    → spares s.port_base (t + ttl) t cs ≡ true
    → (scan_all cs (hand_out ttl t s)).state ≡ running
unfolding hand_out
hand_out_full_time ttl t cs s fine =
    (is_running_iff (scan_all cs (hand_out ttl t s)).state).1
      (scan_all-runs cs (hand_out ttl t s) refl ∙ fine)
