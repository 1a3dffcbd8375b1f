-- ===== src/Host/World/Lifecycle.antt =====
-- The life of one session, as a state machine that every critical section follows.
use bigfleet_demo.Common.{Option, Text, text_has_eq, nat_eq}
use bigfleet_demo.Host.State.{Host}
use bigfleet_demo.Host.World.{World}
use bigfleet_demo.Host.World.Moves.{Moves, View, view_in}

-- How a session stands in the host.
abbrev pub seen : Text → Host → Option View
seen k h = view_in k h.sessions
