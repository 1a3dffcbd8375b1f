-- ===== src/Backend/Dashboards/Paths.antt =====
-- A dashboard behind both proxies: that of the host and that of the session's backend.
use bigfleet_demo.Common.{
  subst, ℕ, ◌≡◌, refl, sym, ap, ◌≢◌, some, [], ◌∷◌, ◌++◌, arith, Text, codes, if◌then◌else◌,
  text_has_eq,
}
use bigfleet_demo.Common.Dict.{lookup}
use bigfleet_demo.Host.State.{
  Host, Session, State, starting, warming, pooled, running, reaping, is_running,
}
use bigfleet_demo.Host.Http.{
  trim_prefix, is_empty, bearer, backend_path, forward, still_starting, session_proxy,
}
use bigfleet_demo.Host.Http.Keys.{cut_prefix_iff}
use bigfleet_demo.Backend.Dashboards.{DashMount, Outgoing, dash_path, direct}

trim_prefix-append : (p r : Text) → trim_prefix p (p ++ r) ≡ r
unfolding trim_prefix
trim_prefix-append p r = rw ((cut_prefix_iff p (p ++ r) r).1 refl, trim_prefix) refl

pub dash_path-append :
    (prefix : Text) (c : ℕ) (p : Text) → dash_path prefix (prefix ++ c ∷ p) ≡ c ∷ p
unfolding dash_path
dash_path-append prefix c p = rw (dash_path, trim_prefix-append prefix (c ∷ p)) refl

backend_path-append :
    (id : Text) (c : ℕ) (p : Text) → backend_path id (codes "/s/" ++ (id ++ c ∷ p)) ≡ c ∷ p
unfolding backend_path
backend_path-append id c p = rw (backend_path, trim_prefix-append (codes "/s/" ++ id) (c ∷ p)) refl

-- What a visitor asks, under the path of a session that runs, of a dashboard whose mount has a prefix
-- that is not empty goes to the backend of that session, and the dashboard is asked for the path
-- behind its mount, with its token if it has one.
pub visitor_reaches_dashboard :
    (h : Host) (id : Text) (s : Session) (m : DashMount) (c : ℕ) (mount p : Text) (host : Text)
    (req : Outgoing)
    → lookup id h.sessions ≡ some s
    → s.state ≡ running
    → m.prefix ≡ c ∷ mount
    → (session_proxy id (codes "/s/" ++ (id ++ (m.prefix ++ (b'/' ∷ p)))) h
        ≡ forward s.port_base (m.prefix ++ (b'/' ∷ p)))
      × ((direct m host (record req { path = m.prefix ++ (b'/' ∷ p) })).path ≡ b'/' ∷ p)
      × (m.token ≢ []
          → (direct m host (record req { path = m.prefix ++ (b'/' ∷ p) })).authorization
            ≡ bearer ++ m.token)
unfolding session_proxy direct
visitor_reaches_dashboard h id s m c mount p host req found up starts =
    let behind : backend_path id (codes "/s/" ++ (id ++ (m.prefix ++ (b'/' ∷ p))))
        ≡ m.prefix ++ (b'/' ∷ p) =
      subst (λ t. backend_path id (codes "/s/" ++ (id ++ (t ++ (b'/' ∷ p)))) ≡ t ++ (b'/' ∷ p))
        (sym starts) (backend_path-append id c (mount ++ (b'/' ∷ p))) in
    (
      rw (found, session_proxy) (forwards s.state up behind),
      dash_path-append m.prefix b'/' p,
      sends m.token,
    )
  where
    forwards :
        (st : State)
        → st ≡ running
        → backend_path id (codes "/s/" ++ (id ++ (m.prefix ++ (b'/' ∷ p)))) ≡ m.prefix ++ (b'/' ∷ p)
        → (if is_running st
            then forward s.port_base
                (backend_path id (codes "/s/" ++ (id ++ (m.prefix ++ (b'/' ∷ p)))))
            else still_starting)
          ≡ forward s.port_base (m.prefix ++ (b'/' ∷ p))
    forwards running e b = ap (forward s.port_base) b
    forwards starting e b = absurd (ground (arith, e))
    forwards warming e b = absurd (ground (arith, e))
    forwards pooled e b = absurd (ground (arith, e))
    forwards reaping e b = absurd (ground (arith, e))

    sends :
        (token : Text)
        → token ≢ []
        → (if is_empty token then req.authorization else bearer ++ token) ≡ bearer ++ token
    sends [] ne = absurd (ne refl)
    sends (d ∷ t) ne = refl
