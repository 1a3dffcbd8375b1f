-- ===== src/Host/Client.antt =====
-- cmd/demohost/client.go: the commands `create`, `ls`, `capacity` and `rm`, which call a daemon. What is
-- printed stands as data; decoding JSON is a parameter.
pub mod Agreement
pub mod SameKey
use bigfleet_demo.Common.{
  ℕ, ◌/◌, Bool, true, false, Option, none, some, List, [], ◌∷◌, ◌++◌, Text, codes, ltb, eqb,
  text_eq, if◌then◌else◌,
}
use bigfleet_demo.Host.State.{Session}
use bigfleet_demo.Host.Capacity.{CapacityView, Percent}
use bigfleet_demo.Host.Http.{is_empty}
use bigfleet_demo.Host.Scripts.{last_lines}

-- A call of the daemon; the key is sent in the header `X-Demo-Key`.
pub record Sent : Type 0 where
  pub method : Text
  pub url : Text
  pub demo_key : Text

-- The commands of the switch over `sub`.
pub data Subcommand : Type 0 where
  create ls capacity : Subcommand
  rm : Text → Subcommand

pub data Outgoing : Type 0 where
  no_key : Outgoing
  bad_usage : Outgoing
  sends : Sent → Outgoing

unfoldable pub request_of : Text → Text → Subcommand → Outgoing
request_of server key create =
    sends (record { method = codes "POST"; url = server ++ codes "/v1/sessions"; demo_key = key })
request_of server key ls =
    sends (record { method = codes "GET"; url = server ++ codes "/v1/sessions"; demo_key = key })
request_of server key capacity =
    sends (record { method = codes "GET"; url = server ++ codes "/v1/capacity"; demo_key = key })
request_of server key (rm id) =
    if is_empty id
    then bad_usage
    else sends (record {
      method = codes "DELETE";
      url = server ++ (codes "/v1/sessions/" ++ id);
      demo_key = key;
    })

-- `clientMain` up to the call; `key` is what `resolveKey` gives.
unfoldable pub client_main : Text → Text → Subcommand → Outgoing
client_main server key sub = if is_empty key then no_key else request_of server key sub

pub record Response : Type 0 where
  pub status : ℕ
  pub body : Text

-- How `req` ends: it dies with a status and a message, or hands the body on.
pub data Received : Type 0 where
  failed : Received
  refused : ℕ → Text → Received
  received : Text → Received

-- `error_of`: the field `error` of a body, `none` where it is no such JSON object; without a response
-- the call has failed.
unfoldable pub req : (Text → Option Text) → Option Response → Received
req error_of none = failed
req error_of (some r) =
    let message : Text = elim (error_of r.body) [
      | none ↦ last_lines r.body 3
      | some e ↦ if is_empty e then last_lines r.body 3 else e
    ] in
    if eqb (r.status / 100) 2 then received r.body else refused r.status message

-- A line of `printCapacity`, with its numbers.
pub data CapacityLine : Type 0 where
  machine_ram demo_budget per_session headroom : ℕ → CapacityLine
  running : ℕ → ℕ → CapacityLine
  reserved : ℕ → Percent → CapacityLine
  measured : ℕ → ℕ → CapacityLine
  not_sampled : CapacityLine

unfoldable pub print_capacity : CapacityView → List CapacityLine
print_capacity v =
    machine_ram v.machine_total_mb
    ∷ demo_budget v.demo_budget_mb
    ∷ per_session v.per_session_mb
    ∷ running v.running_sessions v.max_sessions
    ∷ reserved v.reserved_mb v.budget_used_pct
    ∷ (if ltb 0 v.measured_actual_mb
        then measured v.measured_actual_mb v.measured_age_sec
        else not_sampled)
    ∷ headroom v.headroom_sessions
    ∷ []

-- What `ls` prints of a session, and when there is none.
pub data Listed : Type 0 where
  no_live_sessions : Listed
  table : List Session → Listed

unfoldable pub print_sessions : List Session → Listed
print_sessions [] = no_live_sessions
print_sessions (s ∷ ss) = table (s ∷ ss)
