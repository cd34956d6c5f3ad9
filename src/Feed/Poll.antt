-- ===== src/Feed/Poll.antt =====
-- `poll_feed_job` and `dismiss_item` of backend/feed/__init__.py. What the sources
-- answer, `str.lower`, the similarities and the scores of the cross-encoder are arguments; scores
-- are values of a type with an order, a sum and the counts. Of a hit the ids, title, abstract and
-- category are kept, and of a reason the matches, without the similarity.
use ai_powered_research_work.Prelude.{
  ℕ, ◌+◌, Bool, true, false, not, ◌&&◌, Option, none, some, List, [], ◌∷◌, ◌++◌, map, Text, codes,
  text_eq, is_empty, length, take, drop, any, keep, ◌==◌, if◌then◌else◌,
}
use ai_powered_research_work.Prelude.Fresh.{mem_text}
use ai_powered_research_work.Papers.CanonicalId.{SourceIds, resolve_canonical_id}
use ai_powered_research_work.Writing.References.{contains, join}

pub record InterestProfile : Type 0 where
  pub categories : List Text
  pub keywords : List Text

pub record RawFeedHit : Type 0 where
  pub source_ids : SourceIds
  pub title : Text
  pub abstract_text : Option Text
  pub category : Text

pub record WhyRelevant : Type 0 where
  pub matched_keywords : List Text
  pub matched_categories : List Text

pub data ItemState : Type 0 where
  new saved dismissed : ItemState

pub data Reason : Type 0 where
  was_read in_library was_surfaced was_dismissed : Reason

-- A row of `seen_set`, without its time.
pub record Seen : Type 0 where
  pub project_id : ℕ
  pub canonical_id : Text
  pub reason : Reason

pub record FeedItem (S : Type 0) : Type 0 where
  pub project_id : ℕ
  pub canonical_id : Text
  pub title : Text
  pub score : S
  pub why_relevant : WhyRelevant
  pub state : ItemState

pub record Tables (S : Type 0) : Type 0 where
  pub feed_items : List (FeedItem S)
  pub seen_set : List Seen
  -- `project_papers` joined with `papers`: a project and the canonical id of a paper
  pub library : List (ℕ × Text)

pub record Scored (S : Type 0) : Type 0 where
  pub canonical_id : Text
  pub hit : RawFeedHit
  pub score : S
  pub why : WhyRelevant

abbrev pub Candidate : Type 0
Candidate = Text × RawFeedHit

abbrev add_hit :
    List Text → RawFeedHit → Option Text → (List Text → List Candidate) → List Candidate
add_hit seen hit none later = later seen
add_hit seen hit (some id) later =
    if mem_text id seen then later seen else (id, hit) ∷ later (id ∷ seen)

-- `_dedupe`, `seen` being the keys of the dict so far.
unfoldable pub dedupe_from : List RawFeedHit → List Text → List Candidate
unfolding resolve_canonical_id
dedupe_from [] seen = []
dedupe_from (hit ∷ hits) seen =
    add_hit seen hit (resolve_canonical_id hit.source_ids) (λ keys. dedupe_from hits keys)

-- Whether the seen set has an id for a project.
abbrev pub is_seen : ℕ → List Seen → Text → Bool
is_seen p seen id = any (λ s. (Seen.project_id s == p) && text_eq (Seen.canonical_id s) id) seen

-- Whether the library of a project has a paper.
abbrev pub is_owned : ℕ → List (ℕ × Text) → Text → Bool
is_owned p library id = any (λ entry. (entry.0 == p) && text_eq entry.1 id) library

-- `_select_unseen` with the two anti-joins of `db.filter_unseen`.
unfoldable pub select_unseen : ℕ → List Seen → List (ℕ × Text) → List Candidate → List Candidate
select_unseen p seen library candidates =
    keep (λ c. not (is_seen p seen c.0) && not (is_owned p library c.0)) candidates

abbrev text_or_none : Option Text → Text
text_or_none none = []
text_or_none (some t) = t

abbrev pub hit_text : RawFeedHit → Text
hit_text hit = hit.title ++ codes "\n" ++ text_or_none hit.abstract_text

unfoldable pub why_of : (Text → Text) → InterestProfile → RawFeedHit → WhyRelevant
unfolding contains
why_of lower profile hit = record {
  matched_keywords = keep (λ k. contains (lower k) (lower (hit_text hit))) profile.keywords;
  matched_categories = if mem_text hit.category profile.categories then hit.category ∷ [] else [];
}

abbrev pub nothing : List Text → Bool
nothing [] = true
nothing (t ∷ ts) = false

abbrev pub has_reason : WhyRelevant → Bool
has_reason why = not (nothing why.matched_keywords && nothing why.matched_categories)

-- The scores of a project: `count_score` is `float(n)`.
pub record Scores : Type 1 where
  pub S : Type 0
  pub lt : S → S → Bool
  pub plus : S → S → S
  pub count_score : ℕ → S

module _ (scores : Scores) where
  abbrev pub scored_one : WhyRelevant → Candidate → Scored scores.S
  scored_one why c = record {
    canonical_id = c.0;
    hit = c.1;
    score = scores.count_score (length why.matched_keywords + length why.matched_categories);
    why = why;
  }

  -- `score_candidate` in the loop of the job: a candidate without a reason is left out.
  unfoldable pub score_all :
      (Text → Text) → InterestProfile → List Candidate → List (Scored scores.S)
  unfolding why_of
  score_all lower profile [] = []
  score_all lower profile (c ∷ candidates) =
      let rest = score_all lower profile candidates in
      let why = why_of lower profile c.1 in if has_reason why then scored_one why c ∷ rest else rest

  -- Scores added to those of the first candidates, one for each that there is.
  abbrev pub add_scores : List (Scored scores.S) → List scores.S → List (Scored scores.S)
  add_scores [] added = []
  add_scores (c ∷ candidates) [] = []
  add_scores (c ∷ candidates) (s ∷ added) =
      record c { score = scores.plus c.score s } ∷ add_scores candidates added

  -- `_add_centroid_similarity`; `none` is a project without a centroid.
  unfoldable pub add_centroid_similarity :
      Option (List Text → List scores.S) → List (Scored scores.S) → List (Scored scores.S)
  add_centroid_similarity none candidates = candidates
  add_centroid_similarity (some similar) candidates =
      add_scores candidates (similar (map (λ c. hit_text (Scored.hit c)) candidates))

  -- `sorted(..., reverse=True)`
  unfoldable pub insert_best : Scored scores.S → List (Scored scores.S) → List (Scored scores.S)
  insert_best c [] = c ∷ []
  insert_best c (d ∷ ranked) =
      if scores.lt c.score d.score then d ∷ insert_best c ranked else c ∷ d ∷ ranked

  unfoldable pub sort_best : List (Scored scores.S) → List (Scored scores.S)
  unfolding insert_best
  sort_best [] = []
  sort_best (c ∷ candidates) = insert_best c (sort_best candidates)

  abbrev pub rerank_query : InterestProfile → Text
  rerank_query profile =
      let keywords = join (codes " ") profile.keywords in
      if is_empty keywords then join (codes " ") profile.categories else keywords

  -- `_rerank_top`
  unfoldable pub rerank_top :
      (Text → List Text → List scores.S)
      → InterestProfile
      → List (Scored scores.S)
      → List (Scored scores.S)
  unfolding sort_best join
  rerank_top rerank profile candidates =
      let ranked = sort_best candidates in
      let head = take 50 ranked in
      if is_empty (rerank_query profile)
      then candidates
      else add_scores head (rerank (rerank_query profile) (map (λ c. hit_text (Scored.hit c)) head))
        ++ drop 50 ranked

  abbrev pub item_of : ℕ → Scored scores.S → FeedItem scores.S
  item_of p c = record {
    project_id = p;
    canonical_id = c.canonical_id;
    title = c.hit.title;
    score = c.score;
    why_relevant = c.why;
    state = new;
  }

  abbrev pub seen_of : ℕ → Scored scores.S → Seen
  seen_of p c = record { project_id = p; canonical_id = c.canonical_id; reason = was_surfaced }

  -- What a poll meets: the lower-casing, the similarities to the centroid, and the cross-encoder.
  pub record Models : Type 0 where
    pub lower : Text → Text
    pub similar : Option (List Text → List scores.S)
    pub rerank : Text → List Text → List scores.S

  -- The candidates that a poll surfaces.
  unfoldable pub surfaced :
      Models
      → InterestProfile
      → List RawFeedHit
      → ℕ
      → List Seen
      → List (ℕ × Text)
      → List (Scored scores.S)
  unfolding dedupe_from select_unseen score_all add_centroid_similarity rerank_top
  surfaced models profile hits p seen library = rerank_top models.rerank profile (
      add_centroid_similarity models.similar
        (score_all models.lower profile (select_unseen p seen library (dedupe_from hits []))))

  -- `poll_feed_job`, with the hits of all categories.
  unfoldable pub poll_feed_job :
      Models → InterestProfile → List RawFeedHit → ℕ → Tables scores.S → Tables scores.S
  unfolding surfaced
  poll_feed_job models profile hits p tables =
      let found = surfaced models profile hits p tables.seen_set tables.library in
      if nothing profile.categories then tables else record {
        feed_items = tables.feed_items ++ map (item_of p) found;
        seen_set = tables.seen_set ++ map (seen_of p) found;
        library = tables.library;
      }

abbrev code_of : Reason → ℕ
code_of was_read = 0
code_of in_library = 1
code_of was_surfaced = 2
code_of was_dismissed = 3

abbrev pub same_row : Seen → Seen → Bool
same_row r s =
    (r.project_id == s.project_id)
    && (text_eq r.canonical_id s.canonical_id && (code_of r.reason == code_of s.reason))

-- `on_conflict_do_nothing`
abbrev pub put_seen : Seen → List Seen → List Seen
put_seen row seen = if any (same_row row) seen then seen else seen ++ row ∷ []

module _ {S : Type 0} where
  abbrev pub is_item : ℕ → Text → FeedItem S → Bool
  is_item p id item = (item.project_id == p) && text_eq item.canonical_id id

  abbrev pub set_state : ItemState → ℕ → Text → List (FeedItem S) → List (FeedItem S)
  set_state state p id [] = []
  set_state state p id (item ∷ items) =
      let rest = set_state state p id items in
      if is_item p id item then record item { state = state } ∷ rest else item ∷ rest

  abbrev pub mark : ItemState → ℕ → Text → Tables S → Tables S
  mark state p id tables = record {
    feed_items = set_state state p id tables.feed_items;
    seen_set =
        put_seen record { project_id = p; canonical_id = id; reason = was_dismissed }
          tables.seen_set;
    library = tables.library;
  }

  -- `dismiss_item`, by the canonical id of the item; `none` is the ValueError.
  unfoldable pub dismiss_item : ℕ → Text → Tables S → Option (Tables S)
  dismiss_item p id tables =
      if any (is_item p id) tables.feed_items then some (mark dismissed p id tables) else none
