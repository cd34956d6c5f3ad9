-- ===== src/Feed/Events.antt =====
-- What successions of polls, dismissals and additions to libraries leave in the feeds of
-- backend/feed/__init__.py.
use ai_powered_research_work.Prelude.{
  ℕ, ◌≤◌, ◌≡◌, ap, ◌∙◌, inl, inr, true, List, [], ◌∷◌, map, arith, Text, any, ◌==◌, if◌then◌else◌,
  Bool-cases, ==_iff,
}
use ai_powered_research_work.Feed.Poll.{
  InterestProfile, RawFeedHit, dismissed, Tables, is_owned, Scores, item_of, Models, surfaced,
  poll_feed_job, is_item, dismiss_item, nothing,
}
use ai_powered_research_work.Feed.Once.{surfaced_lem}
use ai_powered_research_work.Feed.Histories.{
  Event, poll, dismiss, own, or_same, after, after_all, count_of, IsOnce, count_of-append, found-le,
  set_state-count, after_events-IsOnce,
}

module _ (scores : Scores) where
  -- A paper of the library is not added to the feed, and stays in the library.
  record IsLeftOut (p : ℕ) (id : Text) (before later : Tables scores.S) : Type 0 where
    still : is_owned p later.library id ≡ true
    no_more : count_of scores p id later.feed_items ≤ count_of scores p id before.feed_items

  poll-IsLeftOut :
      (models : Models scores) (profile : InterestProfile) (hits : List RawFeedHit) (p q : ℕ)
      (id : Text) (tables : Tables scores.S)
      → is_owned q tables.library id ≡ true
      → IsLeftOut q id tables (poll_feed_job scores models profile hits p tables)
  unfolding poll_feed_job
  poll-IsLeftOut models profile hits p q id tables o =
      elim (Bool-cases (nothing profile.categories)) [
        | inl e ↦ rw e (record { still = o; no_more = omega arith })
        | inr e ↦
            let found = surfaced scores models profile hits p tables.seen_set tables.library in
            let new =
              (surfaced_lem scores models profile hits p tables.seen_set tables.library).0 id in
            rw e (record {
              still = o;
              no_more =
                  rw (count_of-append scores q id tables.feed_items (map (item_of scores p) found))
                    (elim (Bool-cases (p == q)) [
                      | inl same ↦
                          let owned : is_owned p tables.library id ≡ true =
                            ap (λ n. is_owned n tables.library id) ((==_iff p q).0 same) ∙ o in
                          ground (arith, new, owned, found-le scores p q id found)
                      | inr other ↦ ground (arith, rw other at (found-le scores p q id found))
                    ]);
            })
      ]

  dismiss-IsLeftOut :
      (p q : ℕ) (i id : Text) (tables : Tables scores.S)
      → is_owned q tables.library id ≡ true
      → IsLeftOut q id tables (or_same scores tables (dismiss_item p i tables))
  unfolding dismiss_item
  dismiss-IsLeftOut p q i id tables o = elim (Bool-cases (any (is_item p i) tables.feed_items)) [
    | inl e ↦ rw e (record {
      still = o;
      no_more = omega (arith, set_state-count scores dismissed p q i id tables.feed_items);
    })
    | inr e ↦ rw e (record { still = o; no_more = omega arith })
  ]

  after-IsLeftOut :
      (e : Event scores) (q : ℕ) (id : Text) (tables : Tables scores.S)
      → is_owned q tables.library id ≡ true
      → IsLeftOut q id tables (after scores e tables)
  after-IsLeftOut (poll models profile hits p) q id tables o =
      poll-IsLeftOut models profile hits p q id tables o
  after-IsLeftOut (dismiss p i) q id tables o = dismiss-IsLeftOut p q i id tables o
  after-IsLeftOut (own p i) q id tables o = record {
    still = ground (arith, o);
    no_more = omega arith;
  }

  after_all-IsLeftOut :
      (events : List (Event scores)) (q : ℕ) (id : Text) (tables : Tables scores.S)
      → is_owned q tables.library id ≡ true
      → count_of scores q id (after_all scores events tables).feed_items
        ≤ count_of scores q id tables.feed_items
  after_all-IsLeftOut [] q id tables o = omega arith
  after_all-IsLeftOut (e ∷ events) q id tables o =
      let one = after-IsLeftOut e q id tables o in
      omega (arith, one.no_more, after_all-IsLeftOut events q id (after scores e tables) one.still)

  -- Whatever polls, dismissals and additions to libraries follow each other, in any projects, from
  -- tables where it holds at first: a paper stands at most once in the feed of a project, only if
  -- the seen set has it, and every item of the feed has a reason. And a paper that a project has in
  -- its library at first stands in its feed afterwards no more often than before.
  pub after_all-IsOnce :
      (events : List (Event scores)) (tables : Tables scores.S)
      → IsOnce scores tables
      → IsOnce scores (after_all scores events tables)
        × ((p : ℕ) (id : Text)
            → count_of scores p id (after_all scores events tables).feed_items ≤ (
                if is_owned p tables.library id then count_of scores p id tables.feed_items else 1))
  after_all-IsOnce events tables h =
      let later = after_events-IsOnce scores events tables h in
      (
        later,
        λ p id. elim (Bool-cases (is_owned p tables.library id)) [
          | inl o ↦ rw o (after_all-IsLeftOut events p id tables o)
          | inr o ↦ rw o (ground (arith, later.once p id))
        ],
      )
