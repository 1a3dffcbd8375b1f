-- ===== src/Backend/Shard.antt =====
-- backend/cmd/demo-backend/main.go: `scrapeShard`. The two regular expressions are the standard
-- library's: their matches in the metrics, each a name and a number's text, are arguments, and so is
-- the number that `atoi` makes of a text.
pub mod Sums
use bigfleet_demo.Common.{
  ℕ, ◌+◌, Option, none, some, List, [], ◌∷◌, Text, codes, text_eq, text_has_eq, if◌then◌else◌,
}
use bigfleet_demo.Common.Dict.{Dict, insert}
use bigfleet_demo.Backend.Feed.{count_at}

-- `out[k] += n`
unfoldable pub add_to : Text → ℕ → Dict Text ℕ → Dict Text ℕ
add_to k n out = insert k (count_at k out + n) out

abbrev pub no_counts : Dict Text ℕ
no_counts =
    (codes "idle", 0)
    ∷ (codes "configured", 0)
    ∷ (codes "speculative", 0)
    ∷ (codes "bootstrap", 0)
    ∷ (codes "reclaim", 0)
    ∷ (codes "preempt", 0)
    ∷ []

-- The counter that a kind of action adds to, and that a state of machines does.
abbrev pub action_key : Text → Option Text
action_key kind =
    if text_eq kind (codes "Bootstrap")
    then some (codes "bootstrap")
    else if text_eq kind (codes "Reclaim")
    then some (codes "reclaim")
    else if text_eq kind (codes "Preempt")
    then some (codes "preempt")
    else none

abbrev pub state_key : Text → Option Text
state_key state =
    if text_eq state (codes "Idle")
    then some (codes "idle")
    else if text_eq state (codes "Configured")
    then some (codes "configured")
    else if text_eq state (codes "Speculative")
    then some (codes "speculative")
    else none

module _ (atoi : Text → ℕ) where
  unfoldable pub add_all : (Text → Option Text) → List (Text × Text) → Dict Text ℕ → Dict Text ℕ
  add_all key [] out = out
  add_all key ((name, figure) ∷ ms) out =
      add_all key ms (elim (key name) [ none ↦ out | some k ↦ add_to k (atoi figure) out ])

  -- `none`: the metrics cannot be read.
  unfoldable pub scrape_shard : Option (List (Text × Text) × List (Text × Text)) → Dict Text ℕ
  scrape_shard none = no_counts
  scrape_shard (some (actions, inventory)) =
      add_all state_key inventory (add_all action_key actions no_counts)
