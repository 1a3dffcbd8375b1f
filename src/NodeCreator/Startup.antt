-- ===== src/NodeCreator/Startup.antt =====
-- cmd/node-creator/main.go: `main`: the flags and the loop of ticks.
use bigfleet_demo.Common.{ℕ, ◌+◌, ◌*◌, List, [], ◌∷◌, ◌++◌}
use bigfleet_demo.Host.State.{second}
use bigfleet_demo.NodeCreator.Tick.{Timing, Memory, Input, Call, tick}

pub record Flags : Type 0 where
  pub interval : ℕ
  pub node_pods : ℕ
  pub dwell_min : ℕ
  pub dwell_max : ℕ
  pub drain_dwell : ℕ
  pub warmup : ℕ

-- The flags where none is given; `node_pods` in thousandths, as an amount.
abbrev pub default_flags : Flags
default_flags = record {
  interval = 1_500_000_000;
  node_pods = 110_000;
  dwell_min = 15 * second;
  dwell_max = 40 * second;
  drain_dwell = 20 * second;
  warmup = 0;
}

-- The package's variables once the flags are parsed, at `now`.
unfoldable pub timing_of : Flags → ℕ → Timing
timing_of f now = record {
  dwell = record { min = f.dwell_min; max = f.dwell_max };
  drain_dwell = f.drain_dwell;
  warmup_until = now + f.warmup;
  node_pods = f.node_pods;
}

abbrev pub fresh : Memory
fresh = record { first_ready = []; drain_at = [] }

-- The loop of `main`, on what the API server answers to each tick; an error of a tick is only printed.
unfoldable pub main_loop : Timing → List Input → Memory → Memory × List Call
main_loop t [] s = (s, [])
main_loop t (i ∷ is) s =
    let r = tick t i s in let (end, calls) = main_loop t is r.memory in (end, r.calls ++ calls)
