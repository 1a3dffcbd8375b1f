-- ===== src/Host/Examples/Daemon.antt =====
-- The daemon's start, its end and its client at a small configuration.
use bigfleet_demo.Common.{
  ℕ, zero, suc, ◌≡◌, refl, arith, ltb, false, none, ◌⊎◌, true, some, List, [], ◌∷◌, Text, codes,
  bit, text_has_eq,
}
use bigfleet_demo.Common.Dict.{lookup}
use bigfleet_demo.Host.State.{Config, new_host}
use bigfleet_demo.Host.Http.{
  authorized, resolve_key, trim_space, trim_left, serve_starts, auth_mode,
}
use bigfleet_demo.Host.Client.{ls, client_main, request_of}
use bigfleet_demo.Host.Client.SameKey.{same_key_opens}
use bigfleet_demo.Host.World.{run, boot}
use bigfleet_demo.Host.Scripts.{Entry, sweep_orphans, orphans, reap_all}
use bigfleet_demo.Host.Scripts.Sweep.{is_orphan}
use bigfleet_demo.Host.Scripts.Once.{times, sweep_orphans_once}
use bigfleet_demo.Host.Scripts.Shutdown.{is_registered, reap_all_once}
use bigfleet_demo.Host.Serve.{
  Request, delete_session, Surroundings, serve_request, Found, Serving, serve_main,
}
use bigfleet_demo.Host.Serve.Guard.{IsPublic, HasKey, serve_request_guarded}
use bigfleet_demo.Backend.Clock.{SessionClock, new_session_clock}
use bigfleet_demo.Host.Begin.{Delivery, unanswered, answered, begin_backend}
use bigfleet_demo.Host.Begin.Once.{first_arrival, begun_at, begin_backend_once}
use bigfleet_demo.Host.Examples.{small, history, final, id_a, any_port, draw}

-- Two clusters of the session `aaaaa` are left, and a directory of the session `ccccc`.
abbrev left_clusters : Text
left_clusters = codes "aaaaa-cluster-a\naaaaa-cluster-b\ncluster-a\n"

abbrev left_entries : List Entry
left_entries = record { name = codes "ccccc"; is_dir = true } ∷ []

sweep_orphans_once_example :
    times id_a (sweep_orphans small (some left_clusters) (some left_entries))
    ≡ bit (is_orphan id_a (some left_clusters) (some left_entries))
sweep_orphans_once_example = sweep_orphans_once small id_a (some left_clusters) (some left_entries)

reap_all_once_example :
    times id_a (reap_all (run history (boot small 16000)).host)
    ≡ bit (is_registered (lookup id_a (run history (boot small 16000)).host.sessions))
reap_all_once_example = reap_all_once small 16000 history id_a

-- A request without a key to delete a session.
abbrev stranger : Request
stranger = record { route = delete_session id_a; demo_key = []; authorization = codes "Bearer x" }

abbrev around : Surroundings
around = record { free = any_port; draws = draw 2 ∷ []; now = 500 }

serve_request_guarded_example :
    HasKey final.host.cfg.key stranger
    ⊎ (((serve_request around stranger final.host).1 ≡ final.host)
        × IsPublic (serve_request around stranger final.host).0)
serve_request_guarded_example = serve_request_guarded around stranger final.host

-- The response to the first attempt is lost, the second is answered.
abbrev flaky : ℕ → Delivery
flaky attempt = elim attempt [ zero ↦ unanswered 100 | suc n ↦ answered 103 ]

abbrev dormant : SessionClock
dormant = new_session_clock id_a 3600 300 10

begin_backend_once_example :
    (begin_backend flaky dormant).1 ≡ begun_at (first_arrival 3 0 flaky) dormant
begin_backend_once_example = begin_backend_once flaky dormant

abbrev keyless : Config
keyless = record small { key = [] }

abbrev key_found : Found
key_found = record {
  env_key = [];
  key_file = some (codes " open\n");
  machine_mb = 16000;
  is_built = true;
  clusters = none;
  entries = none;
}

-- The daemon as it begins to listen.
abbrev listening : Serving
listening = record {
  host = new_host (record small { key = codes "open" }) 16000;
  warns = false;
  swept = [];
  fills_pool = ltb 0 small.warm_pool;
  auth = codes "on";
}

same_key_opens_example :
    (codes "open" ≡ codes "open") × (authorized (codes "open") (codes "open") [] ≡ true)
unfolding serve_main resolve_key trim_space trim_left serve_starts auth_mode sweep_orphans orphans
    client_main request_of new_host
same_key_opens_example =
    same_key_opens keyless false key_found listening (codes "http://host") (codes "open ") [] none
      ls
      (record {
        method = codes "GET";
        url = codes "http://host/v1/sessions";
        demo_key = codes "open";
      })
      (codes "open") (codes " ") (codes "\n") [] (codes " ") (refl, (refl, (refl, (refl, tt))))
      (λ e. ground (arith, e)) (refl, tt) (refl, tt) tt (refl, tt) refl refl refl refl refl refl
