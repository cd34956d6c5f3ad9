-- ===== src/Feed/Histories.antt =====
-- Successions of polls, dismissals and additions to libraries, of backend/feed/__init__.py, and that a
-- paper stands in a feed once.
use ai_powered_research_work.Prelude.{
  ℕ, ◌+◌, ◌≤◌, ◌≡◌, refl, ap, sym, inl, inr, true, false, ◌||◌, Option, none, some, List, [], ◌∷◌,
  ◌++◌, map, arith, Text, text_eq, length, any, keep, All, All-append, ◌==◌, if◌then◌else◌,
  Bool-cases, ==_iff,
}
use ai_powered_research_work.Prelude.Fresh.{text_eq_sym}
use ai_powered_research_work.Search.Dedupe.{occurrences}
use ai_powered_research_work.Feed.Poll.{
  InterestProfile, RawFeedHit, ItemState, dismissed, was_dismissed, Seen, FeedItem, Tables, Scored,
  is_seen, has_reason, Scores, item_of, seen_of, Models, surfaced, poll_feed_job, is_item,
  set_state, mark, dismiss_item, nothing, put_seen, same_row,
}
use ai_powered_research_work.Feed.Once.{ids_of, surfaced_lem}

module _ (scores : Scores) where
  pub data Event : Type 0 where
    poll :
        (models : Models scores) (profile : InterestProfile) (hits : List RawFeedHit)
        (project_id : ℕ)
        → Event
    dismiss : (project_id : ℕ) (canonical_id : Text) → Event
    -- a paper comes into the library of a project
    own : (project_id : ℕ) (canonical_id : Text) → Event

  abbrev pub or_same : Tables scores.S → Option (Tables scores.S) → Tables scores.S
  or_same tables none = tables
  or_same tables (some changed) = changed

  abbrev pub after : Event → Tables scores.S → Tables scores.S
  after (poll models profile hits p) tables = poll_feed_job scores models profile hits p tables
  after (dismiss p id) tables = or_same tables (dismiss_item p id tables)
  after (own p id) tables = record tables { library = (p, id) ∷ tables.library }

  abbrev pub after_all : List Event → Tables scores.S → Tables scores.S
  after_all [] tables = tables
  after_all (e ∷ events) tables = after_all events (after e tables)

  abbrev pub count_of : ℕ → Text → List (FeedItem scores.S) → ℕ
  count_of p id items = length (keep (is_item p id) items)

  -- A paper stands at most once in the feed of a project, it is in the seen set if it does, and
  -- every item has a reason.
  pub record IsOnce (tables : Tables scores.S) : Type 0 where
    pub once :
        (p : ℕ) (id : Text)
        → count_of p id tables.feed_items ≤ (if is_seen p tables.seen_set id then 1 else 0)
    pub reasoned : All (λ item. has_reason (FeedItem.why_relevant item) ≡ true) tables.feed_items

  pub count_of-append :
      (p : ℕ) (id : Text) (xs ys : List (FeedItem scores.S))
      → count_of p id (xs ++ ys) ≡ count_of p id xs + count_of p id ys
  count_of-append p id [] ys = omega arith
  count_of-append p id (x ∷ xs) ys = ground (arith, count_of-append p id xs ys)

  is_seen-append :
      (p : ℕ) (id : Text) (xs ys : List Seen)
      → is_seen p (xs ++ ys) id ≡ (is_seen p xs id || is_seen p ys id)
  is_seen-append p id [] ys = refl
  is_seen-append p id (x ∷ xs) ys = ground (arith, is_seen-append p id xs ys)

  pub found-le :
      (p q : ℕ) (id : Text) (found : List (Scored scores.S))
      → count_of q id (map (item_of scores p) found)
        ≤ (if p == q then occurrences id (ids_of scores found) else 0)
  found-le p q id [] = ground arith
  found-le p q id (c ∷ found) =
      let later = found-le p q id found in
      elim (Bool-cases (text_eq id c.canonical_id)) [
        | inl t ↦ rw t (ground (arith, later))
        | inr t ↦ rw (t, text_eq_sym id c.canonical_id t) (ground (arith, later))
      ]

  found-seen :
      (p q : ℕ) (id : Text) (found : List (Scored scores.S))
      → is_seen q (map (seen_of scores p) found) id ≡ false
      → count_of q id (map (item_of scores p) found) ≤ 0
  found-seen p q id [] h = omega arith
  found-seen p q id (c ∷ found) h = ground (arith, found-seen p q id found)

  found-reasoned :
      (p : ℕ) (found : List (Scored scores.S))
      → All (λ c. has_reason (Scored.why c) ≡ true) found
      → All (λ item. has_reason (FeedItem.why_relevant item) ≡ true) (map (item_of scores p) found)
  found-reasoned p [] h = tt
  found-reasoned p (c ∷ found) h = (h.0, found-reasoned p found h.1)

  added_le :
      (p q : ℕ) (id : Text) (tables : Tables scores.S) (found : List (Scored scores.S))
      → count_of q id tables.feed_items ≤ (if is_seen q tables.seen_set id then 1 else 0)
      → occurrences id (ids_of scores found) ≤ (if is_seen p tables.seen_set id then 0 else 1)
      → count_of q id tables.feed_items + count_of q id (map (item_of scores p) found) ≤ (
          if is_seen q tables.seen_set id || is_seen q (map (seen_of scores p) found) id
          then 1
          else 0)
  added_le p q id tables found h new = elim (Bool-cases (p == q)) [
    | inl e ↦
        let same : is_seen q tables.seen_set id ≡ is_seen p tables.seen_set id =
          ap (λ n. is_seen n tables.seen_set id) (sym ((==_iff p q).0 e)) in
        elim (Bool-cases (is_seen q (map (seen_of scores p) found) id)) [
          | inl s ↦ ground (arith, h, new, same, s, found-le p q id found)
          | inr s ↦ ground (arith, h, s, found-seen p q id found s)
        ]
    | inr e ↦ ground (arith, h, rw e at (found-le p q id found))
  ]

  poll-IsOnce :
      (models : Models scores) (profile : InterestProfile) (hits : List RawFeedHit) (p : ℕ)
      (tables : Tables scores.S)
      → IsOnce tables
      → IsOnce (poll_feed_job scores models profile hits p tables)
  unfolding poll_feed_job
  poll-IsOnce models profile hits p tables h = elim (Bool-cases (nothing profile.categories)) [
    | inl e ↦ rw e h
    | inr e ↦
        let found = surfaced scores models profile hits p tables.seen_set tables.library in
        let new = surfaced_lem scores models profile hits p tables.seen_set tables.library in
        rw e (record {
          once = λ q id.
              rw
                (
                  count_of-append q id tables.feed_items (map (item_of scores p) found),
                  is_seen-append q id tables.seen_set (map (seen_of scores p) found),
                )
                (added_le p q id tables found (h.once q id) (ground (arith, new.0 id)));
          reasoned = All-append _ tables.feed_items _ h.reasoned (found-reasoned p found new.1);
        })
  ]

  pub set_state-count :
      (state : ItemState) (p q : ℕ) (i j : Text) (items : List (FeedItem scores.S))
      → count_of q j (set_state state p i items) ≡ count_of q j items
  set_state-count state p q i j [] = refl
  set_state-count state p q i j (item ∷ items) =
      let later = set_state-count state p q i j items in
      elim (Bool-cases (is_item p i item)) [
        | inl e ↦ rw e (ground (arith, later))
        | inr e ↦ rw e (ground (arith, later))
      ]

  set_state-reasoned :
      (state : ItemState) (p : ℕ) (i : Text) (items : List (FeedItem scores.S))
      → All (λ item. has_reason (FeedItem.why_relevant item) ≡ true) items
      → All (λ item. has_reason (FeedItem.why_relevant item) ≡ true) (set_state state p i items)
  set_state-reasoned state p i [] h = tt
  set_state-reasoned state p i (item ∷ items) h = elim (Bool-cases (is_item p i item)) [
    | inl e ↦ rw e (h.0, set_state-reasoned state p i items h.1)
    | inr e ↦ rw e (h.0, set_state-reasoned state p i items h.1)
  ]

  put_seen-le :
      (row : Seen) (seen : List Seen) (p : ℕ) (id : Text)
      → is_seen p seen id ≡ true
      → is_seen p (put_seen row seen) id ≡ true
  put_seen-le row seen p id h = elim (Bool-cases (any (same_row row) seen)) [
    | inl e ↦ rw e h
    | inr e ↦ rw (e, is_seen-append p id seen (row ∷ []), h) refl
  ]

  kept_le :
      (q : ℕ) (id : Text) (seen later : List Seen) {n : ℕ}
      → n ≤ (if is_seen q seen id then 1 else 0)
      → (is_seen q seen id ≡ true → is_seen q later id ≡ true)
      → n ≤ (if is_seen q later id then 1 else 0)
  kept_le q id seen later h keeps = elim (Bool-cases (is_seen q seen id)) [
    | inl e ↦ rw (keeps e) (rw e at h)
    | inr e ↦ ground (arith, rw e at h)
  ]

  mark-IsOnce :
      (p : ℕ) (i : Text) (tables : Tables scores.S)
      → IsOnce tables
      → IsOnce (mark dismissed p i tables)
  mark-IsOnce p i tables h = record {
    once = λ q id. rw (set_state-count dismissed p q i id tables.feed_items) (
        kept_le q id _ _ (h.once q id) (
          put_seen-le record { project_id = p; canonical_id = i; reason = was_dismissed }
            tables.seen_set q id));
    reasoned = set_state-reasoned dismissed p i tables.feed_items h.reasoned;
  }

  dismiss-IsOnce :
      (p : ℕ) (i : Text) (tables : Tables scores.S)
      → IsOnce tables
      → IsOnce (or_same tables (dismiss_item p i tables))
  unfolding dismiss_item
  dismiss-IsOnce p i tables h = elim (Bool-cases (any (is_item p i) tables.feed_items)) [
    | inl e ↦ rw e (mark-IsOnce p i tables h)
    | inr e ↦ rw e h
  ]

  pub after-IsOnce :
      (e : Event) (tables : Tables scores.S) → IsOnce tables → IsOnce (after e tables)
  after-IsOnce (poll models profile hits p) tables h = poll-IsOnce models profile hits p tables h
  after-IsOnce (dismiss p id) tables h = dismiss-IsOnce p id tables h
  after-IsOnce (own p id) tables h = record { once = h.once; reasoned = h.reasoned }

  pub after_events-IsOnce :
      (events : List Event) (tables : Tables scores.S)
      → IsOnce tables
      → IsOnce (after_all events tables)
  after_events-IsOnce [] tables h = h
  after_events-IsOnce (e ∷ events) tables h =
      after_events-IsOnce events (after e tables) (after-IsOnce e tables h)
