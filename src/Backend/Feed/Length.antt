-- ===== src/Backend/Feed/Length.antt =====
-- The feed never grows beyond its length.
use bigfleet_demo.Common.{
  suc, ◌≤◌, inl, inr, Bool, true, false, List, [], ◌∷◌, arith, Text, ltb, length, length-take,
  if◌then◌else◌, Bool-cases, text_has_eq,
}
use bigfleet_demo.Backend.Feed.{
  FeedLine, FleetState, Feed, add_line, add_lines, push_feed, poll_lines, synthesize_feed,
}

-- What the feed is told: a poll, or a line of a scenario.
pub data FeedStep : Type 0 where
  polls : FleetState → FeedStep
  narrates : Text → Text → FeedStep

unfoldable pub feed_run : List FeedStep → Feed → Feed
feed_run [] f = f
feed_run (polls st ∷ es) f = feed_run es (synthesize_feed st f).0
feed_run (narrates ts line ∷ es) f = feed_run es (push_feed ts line f)

pub add_line-short :
    (ts : Text) (l : FeedLine) (feed : List (Text × FeedLine)) → length (add_line ts l feed) ≤ 40
unfolding add_line
add_line-short ts l feed = elim (Bool-cases (ltb 40 (suc (length feed)))) [
  | inl e ↦ rw e (omega (arith, length-take 40 ((ts, l) ∷ feed)))
  | inr e ↦ rw e (ground (arith, e))
]

pub add_lines-short :
    (ts : Text) (ls : List FeedLine) (feed : List (Text × FeedLine))
    → length feed ≤ 40
    → length (add_lines ts ls feed) ≤ 40
unfolding add_lines
add_lines-short ts [] feed h = h
add_lines-short ts (l ∷ ls) feed h =
    add_lines-short ts ls (add_line ts l feed) (add_line-short ts l feed)

pub synthesize_feed-short :
    (st : FleetState) (f : Feed) → length f.feed ≤ 40 → length (synthesize_feed st f).0.feed ≤ 40
unfolding synthesize_feed
synthesize_feed-short st f h =
    either f.feed_primed _ _ (add_lines-short st.ts (poll_lines st f) f.feed h) (omega arith)
  where
    either :
        (b : Bool) (x y : Feed)
        → length x.feed ≤ 40
        → length y.feed ≤ 40
        → length (if b then x else y).feed ≤ 40
    either true x y p q = p
    either false x y p q = q

-- The feed never holds more than 40 lines, whatever is polled and narrated, in whatever order.
pub feed_run_short :
    (es : List FeedStep) (f : Feed) → length f.feed ≤ 40 → length (feed_run es f).feed ≤ 40
unfolding feed_run push_feed
feed_run_short [] f h = h
feed_run_short (polls st ∷ es) f h =
    feed_run_short es (synthesize_feed st f).0 (synthesize_feed-short st f h)
feed_run_short (narrates ts line ∷ es) f h =
    feed_run_short es (push_feed ts line f) (add_line-short ts _ f.feed)
