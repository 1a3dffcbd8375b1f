-- ===== src/Host/Serve/Guard.antt =====
-- What a request gets without the coordinator key.
use bigfleet_demo.Common.{◌≡◌, refl, ◌≢◌, ◌⊎◌, inl, inr, [], ◌++◌, Text, Bool-cases}
use bigfleet_demo.Host.State.{Host}
use bigfleet_demo.Host.Http.{authorized, bearer}
use bigfleet_demo.Host.Http.Keys.{authorized_sound}
use bigfleet_demo.Host.Serve.{
  Request, Answer, unauthorized, created, listed, deleting, viewed, counted, healthy, proxied,
  moved, Route, create_session, list_sessions, delete_session, capacity, list_stats, healthz, proxy,
  redirect, Surroundings, auth, serve_route, serve_request,
}

-- The answers that anybody may have.
abbrev pub IsPublic : Answer → Type 0
IsPublic unauthorized = Unit
IsPublic healthy = Unit
IsPublic (proxied p) = Unit
IsPublic (moved path) = Unit
IsPublic (created s) = ⊥
IsPublic (listed ss) = ⊥
IsPublic (deleting s) = ⊥
IsPublic (viewed v) = ⊥
IsPublic (counted cs) = ⊥

-- The request carries a key that is configured.
abbrev pub HasKey : Text → Request → Type 0
HasKey want r =
    (want ≢ [])
    × ((r.demo_key ≡ want)
        ⊎ ((r.demo_key ≡ []) × ((r.authorization ≡ bearer ++ want) ⊎ (r.authorization ≡ want))))

abbrev Guarded : Request → Host → Answer × Host → Type 0
Guarded r h (a, h') = HasKey h.cfg.key r ⊎ ((h' ≡ h) × IsPublic a)

auth-Guarded : (r : Request) (h : Host) (next : Answer × Host) → Guarded r h (auth r next h)
unfolding auth
auth-Guarded r h next = elim (Bool-cases (authorized h.cfg.key r.demo_key r.authorization)) [
  | inl e ↦ inl (authorized_sound h.cfg.key r.demo_key r.authorization e)
  | inr e ↦ rw (e, auth) (inr (refl, tt))
]

route-Guarded :
    (e : Surroundings) (p : Route) (r : Request) (h : Host) → Guarded r h (serve_route e p r h)
unfolding serve_route
route-Guarded e create_session r h = auth-Guarded r h _
route-Guarded e list_sessions r h = auth-Guarded r h _
route-Guarded e (delete_session id) r h = auth-Guarded r h _
route-Guarded e capacity r h = auth-Guarded r h _
route-Guarded e (list_stats since) r h = auth-Guarded r h _
route-Guarded e healthz r h = inr (refl, tt)
route-Guarded e (proxy id path) r h = inr (refl, tt)
route-Guarded e (redirect id path) r h = inr (refl, tt)

-- Whatever request comes: either it carries the coordinator key, which is then not empty, or it
-- leaves the host as it is, and is answered that it is not authorized, or with the health of the
-- daemon, the proxy of a session or a redirect.
pub serve_request_guarded :
    (e : Surroundings) (r : Request) (h : Host)
    → let (a, h') = serve_request e r h in HasKey h.cfg.key r ⊎ ((h' ≡ h) × IsPublic a)
unfolding serve_request
serve_request_guarded e r h = route-Guarded e r.route r h
