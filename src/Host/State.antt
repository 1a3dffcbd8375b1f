-- ===== src/Host/State.antt =====
-- cmd/demohost/main.go: the configuration, the sessions and the host record, and the helpers that
-- read or write the registry under its lock.
use bigfleet_demo.Common.{
  ℕ, ◌-◌, ◌/◌, Bool, true, false, Option, none, some, List, [], ◌∷◌, ◌++◌, Text, codes, ltb,
  if◌then◌else◌, length, drop, nat_eq, text_has_eq,
}
use bigfleet_demo.Common.Decimal.{decimal}
use bigfleet_demo.Common.Dict.{Dict, lookup, insert, delete, update}
use bigfleet_demo.Common.Dict.Counting.{count_if}

pub record Config : Type 0 where
  pub addr : Text
  pub repo : Text
  pub advertise : Text
  pub key : Text
  pub port_base : ℕ
  pub stride : ℕ
  pub max_sessions : ℕ
  pub demo_budget_mb : ℕ
  pub session_mb : ℕ
  pub ttl : ℕ
  pub idle : ℕ
  pub dashboards : Bool
  pub warm_pool : ℕ
  pub warm_settle : ℕ
  pub warm_max_age : ℕ

-- The values of the field `State`.
pub data State : Type 0 where
  starting warming pooled running reaping : State

pub record Session : Type 0 where
  pub id : Text
  pub port_base : ℕ
  pub url : Text
  pub created_at : ℕ
  pub expires_at : ℕ
  pub reserved_mb : ℕ
  pub state : State
  pub is_pooled : Bool
  pub last_seen_ok : ℕ
  -- The zero time is `none`.
  pub assigned_at : Option ℕ

pub data Reason : Type 0 where
  idle hard_cap manual : Reason

-- `ended_at` in seconds, `duration` exact in nanoseconds.
pub record Completion : Type 0 where
  pub ended_at : ℕ
  pub duration : ℕ
  pub reason : Reason

abbrev pub max_completions : ℕ
max_completions = 1000

abbrev pub second : ℕ
second = 1_000_000_000

pub record Host : Type 0 where
  pub cfg : Config
  pub sessions : Dict Text Session
  pub used_bases : Dict ℕ Bool
  pub completions : List Completion
  pub machine_mb : ℕ
  -- 0: not measured yet.
  pub mem_actual_mb : ℕ
  pub mem_sampled_at : Option ℕ
  pub pool_in_flight : ℕ

unfoldable pub new_host : Config → ℕ → Host
new_host cfg machine_mb = record {
  cfg = cfg;
  sessions = [];
  used_bases = [];
  completions = [];
  machine_mb = machine_mb;
  mem_actual_mb = 0;
  mem_sampled_at = none;
  pool_in_flight = 0;
}

-- `s.State != "reaping"`
abbrev pub is_active : State → Bool
is_active reaping = false
is_active _ = true

abbrev pub is_running : State → Bool
is_running running = true
is_running _ = false

-- `s.Pooled && s.State == "pooled"`
abbrev pub is_ready : Session → Bool
is_ready s = elim s.state [ pooled ↦ s.is_pooled | _ ↦ false ]

-- `!s.assignedAt.IsZero() && s.State != "reaping"`
abbrev pub is_visitor : Session → Bool
is_visitor s = elim s.assigned_at [ none ↦ false | some at ↦ is_active s.state ]

unfoldable pub active_count : Host → ℕ
active_count h = count_if (λ s. is_active s.state) h.sessions

-- `h.usedBases[b]`: false where the key is missing.
unfoldable pub is_used : ℕ → Dict ℕ Bool → Bool
is_used b m = elim (lookup b m) [ none ↦ false | some v ↦ v ]

-- The ring keeps the newest `max_completions`; a session that no visitor had is not recorded.
unfoldable pub append_completion : Session → Reason → ℕ → Host → Host
append_completion s reason now h = elim s.assigned_at [
  | none ↦ h
  | some at ↦
      let cs =
        h.completions
        ++ record { ended_at = now / second; duration = now - at; reason = reason } ∷ [] in
      record h {
        completions =
            if ltb max_completions (length cs) then drop (length cs - max_completions) cs else cs;
      }
]

-- Puts a new session into the registry and marks its port block.
unfoldable pub register : Session → Host → Host
register s h = record h {
  sessions = insert s.id s h.sessions;
  used_bases = insert s.port_base true h.used_bases;
}

-- Drops a session from the registry and frees its port block.
unfoldable pub remove : Text → Host → Host
remove id h = elim (lookup id h.sessions) [
  | none ↦ h
  | some s ↦ record h {
    used_bases = delete s.port_base h.used_bases;
    sessions = delete id h.sessions;
  }
]

-- A write through the pointer to a session that the registry holds.
unfoldable pub modify : Text → (Session → Session) → Host → Host
modify id f h = record h { sessions = update id f h.sessions }

-- `fmt.Sprintf("http://%s:%d", advertise, base)`
unfoldable pub session_url : Text → ℕ → Text
session_url advertise base = codes "http://" ++ (advertise ++ (b':' ∷ decimal base))
