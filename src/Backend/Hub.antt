-- ===== src/Backend/Hub.antt =====
-- backend/cmd/demo-backend/main.go: the hub that sends each poll to the open streams. A channel is a
-- number with the messages that wait in it; a message is the text of a state.
pub mod Streams
use bigfleet_demo.Common.{
  ℕ, ◌+◌, Option, none, some, List, [], ◌∷◌, ◌++◌, Text, ltb, leb, if◌then◌else◌, length, nat_eq,
}
use bigfleet_demo.Common.Dict.{Dict, lookup, insert, delete}
use bigfleet_demo.Common.Dict.Counting.{adjust}

abbrev pub max_sse_clients : ℕ
max_sse_clients = 64

-- The capacity of a stream's channel.
abbrev pub buffered : ℕ
buffered = 4

-- `made` counts the channels that were made.
pub record Hub : Type 0 where
  pub clients : Dict ℕ (List Text)
  pub last : Option Text
  pub made : ℕ

unfoldable pub new_hub : Hub
new_hub = record { clients = []; last = none; made = 0 }

-- The `select` with a default: a full channel does not get the message.
unfoldable pub offer : Text → List Text → List Text
offer b waiting = if ltb (length waiting) buffered then waiting ++ b ∷ [] else waiting

unfoldable pub broadcast : Text → Hub → Hub
broadcast b h = record h { last = some b; clients = adjust (offer b) h.clients }

-- What `serveSSE` answers at first: it is refused, or it has a channel and sends the last state.
pub data Opened : Type 0 where
  too_many_streams : Opened
  streaming : ℕ → Option Text → Opened

unfoldable pub open_stream : Hub → Opened × Hub
open_stream h =
    let next = record h { made = h.made + 1 } in
    if leb max_sse_clients (length h.clients)
    then (too_many_streams, next)
    else (streaming h.made h.last, record next { clients = insert h.made [] h.clients })

-- The loop of `serveSSE` takes the next message of its channel, if one waits.
unfoldable pub take_message : ℕ → Hub → Option Text × Hub
take_message ch h = elim (lookup ch h.clients) [
  | none ↦ (none, h)
  | some [] ↦ (none, h)
  | some (b ∷ waiting) ↦ (some b, record h { clients = insert ch waiting h.clients })
]

unfoldable pub close_stream : ℕ → Hub → Hub
close_stream ch h = record h { clients = delete ch h.clients }

pub data HubStep : Type 0 where
  broadcasts : Text → HubStep
  opens : HubStep
  takes : ℕ → HubStep
  closes : ℕ → HubStep

unfoldable pub hub_step : HubStep → Hub → Hub
hub_step (broadcasts b) h = broadcast b h
hub_step opens h = (open_stream h).1
hub_step (takes ch) h = (take_message ch h).1
hub_step (closes ch) h = close_stream ch h

unfoldable pub hub_run : List HubStep → Hub → Hub
hub_run [] h = h
hub_run (s ∷ ss) h = hub_run ss (hub_step s h)
