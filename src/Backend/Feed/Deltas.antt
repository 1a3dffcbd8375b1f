-- ===== src/Backend/Feed/Deltas.antt =====
-- The numbers of the feed add up to the change of the fleet.
use bigfleet_demo.Common.{
  ℕ, suc, ◌+◌, ◌<◌, ◌≡◌, refl, ap, ◌∙◌, Bool, true, false, List, [], ◌∷◌, map, arith, Text, codes,
  if◌then◌else◌, text_eq, text_has_eq, length, length-take, ltb, Bool-cases, inl, inr,
}
use bigfleet_demo.Common.Dict.{Dict, insert, lookup-insert}
use bigfleet_demo.Backend.Feed.{
  FeedLine, FleetState, Feed, count_at, copy_counts, note_prev, poll_lines, synthesize_feed,
  add_line, add_lines, push_feed, narrated,
}
use bigfleet_demo.Backend.Feed.Length.{FeedStep, polls, narrates, feed_run}
use bigfleet_demo.Backend.Feed.Sums.{placed_by, reclaimed_by, sum_by, poll_lines-placed}

owned-note_prev :
    (st : FleetState) (d : Dict Text ℕ)
    → count_at (codes "owned") (note_prev st d) ≡ st.capacity.onprem_in_use
unfolding note_prev count_at text_eq
owned-note_prev st d =
    let owned = insert (codes "owned") st.capacity.onprem_in_use (copy_counts st.shard d) in
    let cloud = insert (codes "cloud") st.capacity.cloud_in_use owned in
    let spot = insert (codes "spot") st.capacity.spot_in_use cloud in
    rw
      (
        count_at,
        lookup-insert (codes "ondemand") (codes "owned") st.capacity.on_demand_in_use spot,
        lookup-insert (codes "spot") (codes "owned") st.capacity.spot_in_use cloud,
        lookup-insert (codes "cloud") (codes "owned") st.capacity.cloud_in_use owned,
        lookup-insert (codes "owned") (codes "owned") st.capacity.onprem_in_use
            (copy_counts st.shard d),
      )
      refl

-- The lines of a feed.
abbrev pub lines_of : List (Text × FeedLine) → List FeedLine
lines_of feed = map (λ l. l.1) feed

-- The committed nodes in use at the last poll; `n` are those before.
unfoldable pub owned_after : ℕ → List FeedStep → ℕ
owned_after n [] = n
owned_after n (polls st ∷ es) = owned_after st.capacity.onprem_in_use es
owned_after n (narrates ts line ∷ es) = owned_after n es

-- As long as the feed is not full, a line that is added stands before the others.
add_line-room :
    (ts : Text) (l : FeedLine) (feed : List (Text × FeedLine))
    → length (add_line ts l feed) < 40
    → (length feed < 40) × (add_line ts l feed ≡ (ts, l) ∷ feed)
unfolding add_line
add_line-room ts l feed short = elim (Bool-cases (ltb 40 (suc (length feed)))) [
  | inl e ↦ absurd (ground (arith, rw (e, add_line) at short, length-take 40 ((ts, l) ∷ feed), e))
  | inr e ↦ (ground (arith, rw (e, add_line) at short), rw (e, add_line) refl)
]

add_lines-room :
    (g : FeedLine → ℕ) (ts : Text) (ls : List FeedLine) (feed : List (Text × FeedLine))
    → length (add_lines ts ls feed) < 40
    → (length feed < 40)
      × (sum_by g (lines_of (add_lines ts ls feed)) ≡ sum_by g ls + sum_by g (lines_of feed))
unfolding add_lines sum_by
add_lines-room g ts [] feed short = (short, omega arith)
add_lines-room g ts (l ∷ ls) feed short =
    let (room, sums) = add_lines-room g ts ls (add_line ts l feed) short in
    let (before, same) = add_line-room ts l feed room in
    let more : sum_by g (lines_of (add_line ts l feed)) ≡ g l + sum_by g (lines_of feed) =
      rw same refl in
    (before, omega (arith, sums, more))

poll_feed :
    (st : FleetState) (f : Feed)
    → f.feed_primed ≡ true
    → ((synthesize_feed st f).0.feed ≡ add_lines st.ts (poll_lines st f) f.feed)
      × ((synthesize_feed st f).0.feed_primed ≡ true)
unfolding synthesize_feed
poll_feed st f e = rw (e, synthesize_feed) (refl, refl)

primed-prev : (st : FleetState) (f : Feed) → (synthesize_feed st f).0.prev ≡ note_prev st f.prev
unfolding synthesize_feed
primed-prev st f = either f.feed_primed _ _ refl refl
  where
    either :
        (b : Bool) (x y : Feed)
        → x.prev ≡ note_prev st f.prev
        → y.prev ≡ note_prev st f.prev
        → (if b then x else y).prev ≡ note_prev st f.prev
    either true x y p q = p
    either false x y p q = q

owned-synthesize_feed :
    (st : FleetState) (f : Feed)
    → count_at (codes "owned") (synthesize_feed st f).0.prev ≡ st.capacity.onprem_in_use
owned-synthesize_feed st f =
    ap (count_at (codes "owned")) (primed-prev st f) ∙ owned-note_prev st f.prev

-- The lines of a feed before and after some steps against the committed nodes then in use.
abbrev Balances : Feed → List FeedStep → Type 0
Balances f es =
    let end = feed_run es f in
    let before = count_at (codes "owned") f.prev in
    before + sum_by placed_by (lines_of end.feed) + sum_by reclaimed_by (lines_of f.feed)
    ≡ owned_after before es
      + sum_by reclaimed_by (lines_of end.feed)
      + sum_by placed_by (lines_of f.feed)

feed_run-Balances :
    (es : List FeedStep) (f : Feed)
    → f.feed_primed ≡ true
    → length (feed_run es f).feed < 40
    → (length f.feed < 40) × Balances f es
unfolding feed_run owned_after push_feed sum_by
feed_run-Balances [] f primed short = (short, omega arith)
feed_run-Balances (narrates ts line ∷ es) f primed short =
    let (room, sums) = feed_run-Balances es (push_feed ts line f) primed short in
    let (before, same) = add_line-room ts (narrated line) f.feed room in
    let silent : lines_of (push_feed ts line f).feed ≡ narrated line ∷ lines_of f.feed =
      ap lines_of same in
    let placed : sum_by placed_by (lines_of (push_feed ts line f).feed)
        ≡ sum_by placed_by (lines_of f.feed) =
      ap (sum_by placed_by) silent ∙ omega arith in
    let reclaimed : sum_by reclaimed_by (lines_of (push_feed ts line f).feed)
        ≡ sum_by reclaimed_by (lines_of f.feed) =
      ap (sum_by reclaimed_by) silent ∙ omega arith in
    (before, omega (arith, sums, placed, reclaimed))
feed_run-Balances (polls st ∷ es) f primed short =
    let f' = (synthesize_feed st f).0 in
    let (added, still) = poll_feed st f primed in
    let (room, sums) = feed_run-Balances es f' still short in
    let room' : length (add_lines st.ts (poll_lines st f) f.feed) < 40 = rw (← added) room in
    let (before, placed) = add_lines-room placed_by st.ts (poll_lines st f) f.feed room' in
    let (_, reclaimed) = add_lines-room reclaimed_by st.ts (poll_lines st f) f.feed room' in
    let now = owned-synthesize_feed st f in
    let later = ap (λ n. owned_after n es) now in
    let (grew, shrank) = poll_lines-placed st f in
    (
      before,
      omega (
        arith,
        sums,
        now,
        later,
        grew,
        shrank,
        ap (λ feed. sum_by placed_by (lines_of feed)) added ∙ placed,
        ap (λ feed. sum_by reclaimed_by (lines_of feed)) added ∙ reclaimed,
      ),
    )

-- The first poll starts the feed with a line that says nothing of nodes.
first_feed :
    (st : FleetState) (f : Feed)
    → f.feed_primed ≡ false
    → let f' = (synthesize_feed st f).0 in
      (f'.feed_primed ≡ true)
      × (sum_by placed_by (lines_of f'.feed) ≡ 0)
      × (sum_by reclaimed_by (lines_of f'.feed) ≡ 0)
unfolding synthesize_feed sum_by
first_feed st f e = rw (e, synthesize_feed) (refl, refl, refl)

-- From the first poll on, through any further polls and narrated lines, and as long as the feed has fewer
-- than 40 lines at the end, so that it still holds all of them: the committed nodes in use at the
-- first poll, with all that the lines of the feed say were placed, are those in use at the last with all
-- that its lines say were reclaimed.
pub feed_adds_up :
    (st : FleetState) (es : List FeedStep) (f : Feed)
    → f.feed_primed ≡ false
    → length (feed_run (polls st ∷ es) f).feed < 40
    → let end = feed_run (polls st ∷ es) f in
      st.capacity.onprem_in_use + sum_by placed_by (lines_of end.feed)
      ≡ owned_after st.capacity.onprem_in_use es + sum_by reclaimed_by (lines_of end.feed)
unfolding feed_run
feed_adds_up st es f fresh short =
    let f' = (synthesize_feed st f).0 in
    let (primed, placed, reclaimed) = first_feed st f fresh in
    let (_, sums) = feed_run-Balances es f' primed short in
    let now = owned-synthesize_feed st f in
    omega (arith, sums, now, ap (λ n. owned_after n es) now, placed, reclaimed)
