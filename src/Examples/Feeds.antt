-- ===== src/Examples/Feeds.antt =====
-- A feed that is polled twice, with a dismissal between.
use ai_powered_research_work.Prelude.{
  ℕ, ◌+◌, ◌≤◌, if◌then◌else◌, ◌≡◌, refl, none, some, List, [], ◌∷◌, map, arith, codes, Text, ltb,
}
use ai_powered_research_work.Papers.CanonicalId.{resolve_canonical_id}
use ai_powered_research_work.Writing.References.{contains, join}
use ai_powered_research_work.Provenance.Normalize.{is_space}
use ai_powered_research_work.Feed.Poll.{
  InterestProfile, RawFeedHit, FeedItem, dismissed, ItemState, Tables, Scores, Models, is_owned,
  poll_feed_job, dismiss_item, dedupe_from, select_unseen, why_of, score_all,
  add_centroid_similarity, insert_best, sort_best, rerank_top, surfaced,
}
use ai_powered_research_work.Feed.Histories.{Event, poll, dismiss, count_of, after_all, IsOnce}
use ai_powered_research_work.Feed.Events.{after_all-IsOnce}

abbrev points : Scores
points = record { S = ℕ; lt = ltb; plus = λ a b. a + b; count_score = λ n. n }

abbrev models : Models points
models = record { lower = λ t. t; similar = none; rerank = λ query texts. map (λ t. 1) texts }

abbrev interests : InterestProfile
interests = record { categories = codes "cs.AI" ∷ []; keywords = [] }

abbrev of_doi : Text → Text → RawFeedHit
of_doi doi category = record {
  source_ids = record { doi = some doi; arxiv_id = none; s2_id = none; openalex_id = none };
  title = doi;
  abstract_text = none;
  category = category;
}

abbrev hits : List RawFeedHit
hits =
    of_doi (codes "a") (codes "cs.AI")
    ∷ of_doi (codes "a") (codes "cs.AI")
    ∷ of_doi (codes "b") (codes "math")
    ∷ of_doi (codes "c") (codes "cs.AI")
    ∷ []

abbrev no_items : Tables ℕ
no_items = record { feed_items = []; seen_set = []; library = (1, codes "doi:c") ∷ [] }

abbrev the_id : Text
the_id = codes "doi:a"

abbrev events : List (Event points)
events = poll models interests hits 1 ∷ dismiss 1 the_id ∷ poll models interests hits 1 ∷ []

abbrev states : List (FeedItem ℕ) → List ItemState
states items = map FeedItem.state items

states_test : states (after_all points events no_items).feed_items ≡ dismissed ∷ []
unfolding poll_feed_job dismiss_item dedupe_from select_unseen why_of score_all
    add_centroid_similarity insert_best sort_best rerank_top surfaced resolve_canonical_id contains
    join is_space
states_test = refl

after_all_example :
    IsOnce points (after_all points events no_items)
    × ((p : ℕ) (id : Text)
        → count_of points p id (after_all points events no_items).feed_items ≤ (
            if is_owned p no_items.library id then count_of points p id no_items.feed_items else 1))
after_all_example =
    after_all-IsOnce points events no_items (record { once = λ p id. omega arith; reasoned = tt })
