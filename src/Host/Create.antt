-- ===== src/Host/Create.antt =====
-- cmd/demohost/main.go: `takePooledLocked` and `createSession`. The handler has two critical
-- sections, before and after `demo-up.sh` runs; what the script and the clock answer are arguments.
use bigfleet_demo.Common.{
  ℕ, ◌+◌, Bool, false, Option, none, some, List, [], ◌∷◌, Text, if◌then◌else◌,
}
use bigfleet_demo.Common.Dict.{Dict}
use bigfleet_demo.Host.State.{
  Config, Session, Host, starting, running, is_ready, register, remove, modify, session_url,
}
use bigfleet_demo.Host.Admission.{Refusal, admitted, refused, admit}
use bigfleet_demo.Host.Ports.{alloc_base}
use bigfleet_demo.Host.Identity.{Draw, gen_id}

-- The first session of the walk over the map that is ready to be handed out, with its key.
unfoldable pub find_ready : Dict Text Session → Option (Text × Session)
find_ready [] = none
find_ready ((k, s) ∷ m) = if is_ready s then some (k, s) else find_ready m

unfoldable pub hand_out : ℕ → ℕ → Session → Session
hand_out ttl now s = record s {
  is_pooled = false;
  state = running;
  last_seen_ok = now;
  assigned_at = some now;
  expires_at = now + ttl;
}

unfoldable pub take_pooled : ℕ → Host → Option (Session × Host)
unfolding find_ready
take_pooled now h = elim (find_ready h.sessions) [
  | none ↦ none
  | some (k, s) ↦ some (hand_out h.cfg.ttl now s, modify k (hand_out h.cfg.ttl now) h)
]

-- What the first critical section decides. `out_of_draws` is no answer of the handler: the random
-- bytes that the model was given did not reach a free id.
pub data Started : Type 0 where
  handed : Session → Started
  over_capacity : Refusal → Started
  no_port_block : Started
  out_of_draws : Started
  launched : Session → Started

unfoldable pub new_session : Config → Text → ℕ → ℕ → Bool → Option ℕ → Session
new_session cfg id base now is_pooled assigned_at = record {
  id = id;
  port_base = base;
  url = session_url cfg.advertise base;
  created_at = now;
  expires_at = now + cfg.ttl;
  reserved_mb = cfg.session_mb;
  state = starting;
  is_pooled = is_pooled;
  last_seen_ok = now;
  assigned_at = assigned_at;
}

-- `createSession` up to the call of `spawn`.
unfoldable pub begin_create : (ℕ → Bool) → List Draw → ℕ → Host → Started × Host
begin_create free draws now h = elim (take_pooled now h) [
  | some (s, h') ↦ (handed s, h')
  | none ↦ elim (admit h) [
    | refused r ↦ (over_capacity r, h)
    | admitted ↦ elim (alloc_base free h) [
      | none ↦ (no_port_block, h)
      | some base ↦ elim (gen_id draws h) [
        | none ↦ (out_of_draws, h)
        | some id ↦
            let s = new_session h.cfg id base now false (some now) in (launched s, register s h)
      ]
    ]
  ]
]

unfoldable pub run_now : ℕ → Session → Session
run_now now s = record s { state = running; last_seen_ok = now }

-- `createSession` after `spawn`: `up` says whether the script succeeded.
unfoldable pub finish_create : Bool → ℕ → Text → Host → Host
finish_create up now id h = if up then modify id (run_now now) h else remove id h

-- The HTTP status of the response.
unfoldable pub create_status : Started → Bool → ℕ
create_status (handed s) up = 201
create_status (over_capacity r) up = 503
create_status no_port_block up = 503
create_status out_of_draws up = 503
create_status (launched s) up = if up then 201 else 500
