-- ===== src/Search/Dedupe.antt =====
-- What `_dedupe` and the merge of `_widen` of backend/search/__init__.py keep.
use ai_powered_research_work.Prelude.{
  ℕ, ◌+◌, ◌≤◌, ◌≡◌, refl, ap, ◌∙◌, subst, inl, inr, Bool, true, false, ◌||◌, Option, none, some,
  List, [], ◌∷◌, ◌++◌, Text, text_eq, text_eq_sound, arith, All, Sub, done, same, skip, length,
  keep, find_first, any, if◌then◌else◌, Bool-cases, Option-cases,
}
use ai_powered_research_work.Prelude.Fresh.{mem_text}
use ai_powered_research_work.Search.Models.{RawHit, PaperSummary, ResultSet}
use ai_powered_research_work.Search.Federation.{
  id_of, dedupe_from, dedupe, ids_of, new_papers, merge_added, widen_with,
}

abbrev has_id_with : Text → Option Text → Bool
has_id_with i none = false
has_id_with i (some j) = text_eq i j

abbrev pub has_id : Text → RawHit → Bool
has_id i h = has_id_with i (id_of h)

-- How often an id stands in a list.
abbrev pub occurrences : Text → List Text → ℕ
occurrences i ids = length (keep (text_eq i) ids)

abbrev pub HasId : RawHit → Type 0
HasId h = (i : Text) × (id_of h ≡ some i)

mem-cons :
    (i j : Text) (seen : List Text) → text_eq i j ≡ false → mem_text i (j ∷ seen) ≡ mem_text i seen
mem-cons i j seen e = rw e

mem-here : (i j : Text) (seen : List Text) → text_eq i j ≡ true → mem_text i (j ∷ seen) ≡ true
mem-here i j seen e = rw e

mem_same : (i j : Text) (seen : List Text) → text_eq i j ≡ true → mem_text i seen ≡ mem_text j seen
mem_same i j seen e = ap (λ t. mem_text t seen) (text_eq_sound i j e)

dedupe_from-Sub : (hits : List RawHit) (seen : List Text) → Sub (dedupe_from hits seen) hits
unfolding dedupe_from
dedupe_from-Sub [] seen = done
dedupe_from-Sub (h ∷ hits) seen = elim (Option-cases (id_of h)) [
  | inl e ↦ rw e (skip (dedupe_from-Sub hits seen))
  | inr (j, e) ↦ rw e (elim (Bool-cases (mem_text j seen)) [
    | inl m ↦ rw m (skip (dedupe_from-Sub hits seen))
    | inr m ↦ rw m (same (dedupe_from-Sub hits (j ∷ seen)))
  ])
]

dedupe_from-first :
    (i : Text) (hits : List RawHit) (seen : List Text)
    → find_first (has_id i) (dedupe_from hits seen)
      ≡ (if mem_text i seen then none else find_first (has_id i) hits)
unfolding dedupe_from
dedupe_from-first i [] seen = ground arith
dedupe_from-first i (h ∷ hits) seen = elim (Option-cases (id_of h)) [
  | inl e ↦ rw e (dedupe_from-first i hits seen)
  | inr (j, e) ↦ rw e (elim (Bool-cases (mem_text j seen)) [
    | inl m ↦ elim (Bool-cases (text_eq i j)) [
      | inl t ↦ rw (m, t, dedupe_from-first i hits seen, mem_same i j seen t ∙ m)
      | inr t ↦ rw (m, t) (dedupe_from-first i hits seen)
    ]
    | inr m ↦ elim (Bool-cases (text_eq i j)) [
      | inl t ↦ rw (m, e, t, mem_same i j seen t ∙ m)
      | inr t ↦ rw (m, e, t, dedupe_from-first i hits (j ∷ seen), mem-cons i j seen t)
    ]
  ])
]

dedupe_from-once :
    (i : Text) (hits : List RawHit) (seen : List Text)
    → length (keep (has_id i) (dedupe_from hits seen)) ≤ (if mem_text i seen then 0 else 1)
unfolding dedupe_from
dedupe_from-once i [] seen = omega arith
dedupe_from-once i (h ∷ hits) seen = elim (Option-cases (id_of h)) [
  | inl e ↦ rw e (dedupe_from-once i hits seen)
  | inr (j, e) ↦ rw e (elim (Bool-cases (mem_text j seen)) [
    | inl m ↦ rw m (dedupe_from-once i hits seen)
    | inr m ↦
        let AtMost : Bool → Type 0 =
          λ b. length (keep (has_id i) (dedupe_from hits (j ∷ seen))) ≤ (if b then 0 else 1) in
        let later : AtMost (mem_text i (j ∷ seen)) = dedupe_from-once i hits (j ∷ seen) in
        elim (Bool-cases (text_eq i j)) [
          | inl t ↦
              let no_more : AtMost true = subst AtMost (mem-here i j seen t) later in
              rw (m, e, t, mem_same i j seen t ∙ m)
                (let bound : length (keep (has_id i) (dedupe_from hits (j ∷ seen))) ≤ 0 = no_more in
                  omega (arith, bound))
          | inr t ↦ rw (m, e, t) (subst AtMost (mem-cons i j seen t) later)
        ]
  ])
]

dedupe_from-HasId : (hits : List RawHit) (seen : List Text) → All HasId (dedupe_from hits seen)
unfolding dedupe_from
dedupe_from-HasId [] seen = tt
dedupe_from-HasId (h ∷ hits) seen = elim (Option-cases (id_of h)) [
  | inl e ↦ rw e (dedupe_from-HasId hits seen)
  | inr (j, e) ↦ rw e (elim (Bool-cases (mem_text j seen)) [
    | inl m ↦ rw m (dedupe_from-HasId hits seen)
    | inr m ↦ rw m ((j, e), dedupe_from-HasId hits (j ∷ seen))
  ])
]

-- For every list of hits, what `dedupe` returns is that list with some hits left out; each of its
-- hits resolves to a canonical id; and for every id it holds at most one hit, the first of the
-- list that resolves to that id when there is one.
pub dedupe_lem :
    (hits : List RawHit)
    → Sub (dedupe hits) hits
      × All HasId (dedupe hits)
      × ((i : Text)
          → (length (keep (has_id i) (dedupe hits)) ≤ 1)
            × (find_first (has_id i) (dedupe hits) ≡ find_first (has_id i) hits))
unfolding dedupe
dedupe_lem hits = (
  dedupe_from-Sub hits [],
  dedupe_from-HasId hits [],
  λ i. (dedupe_from-once i hits [], dedupe_from-first i hits []),
)

-- The ids of the added summaries, with the ids that were known, are the known ids and the ids of
-- the ranked hits; a known id is not added, any other id at most once.
unfoldable Adds : List RawHit → List Text → List PaperSummary → Type 0
Adds ranked known added =
    (i : Text)
    → (occurrences i (ids_of added) ≤ (if mem_text i known then 0 else 1))
      × ((mem_text i known || mem_text i (ids_of added))
          ≡ (mem_text i known || any (has_id i) ranked))

known_or :
    (k a r t : Bool) → (t ≡ true → k ≡ true) → (k || a) ≡ (k || r) → (k || a) ≡ (k || (t || r))
known_or true a r t h e = refl
known_or false a r true h e = absurd (cc (h refl))
known_or false a r false h e = e

add_id :
    (i j : Text) (known : List Text) (ranked : List RawHit) (added : List PaperSummary)
    → mem_text j known ≡ false
    → (occurrences i (ids_of added) ≤ (if mem_text i (j ∷ known) then 0 else 1))
      × ((mem_text i (j ∷ known) || mem_text i (ids_of added))
          ≡ (mem_text i (j ∷ known) || any (has_id i) ranked))
    → (occurrences i (j ∷ ids_of added) ≤ (if mem_text i known then 0 else 1))
      × ((mem_text i known || mem_text i (j ∷ ids_of added))
          ≡ (mem_text i known || (text_eq i j || any (has_id i) ranked)))
add_id i j known ranked added m (once, same_ids) = elim (Bool-cases (text_eq i j)) [
  | inl t ↦
      let no_more : occurrences i (ids_of added) ≤ 0 =
        subst (λ b. occurrences i (ids_of added) ≤ (if b then 0 else 1)) (mem-here i j known t)
          once in
      rw (t, mem_same i j known t ∙ m) (omega (arith, no_more), refl)
  | inr t ↦
      let same_mem = mem-cons i j known t in
      rw t (
        subst (λ b. occurrences i (ids_of added) ≤ (if b then 0 else 1)) same_mem once,
        subst (λ b. (b || mem_text i (ids_of added)) ≡ (b || any (has_id i) ranked)) same_mem
            same_ids,
      )
]

new_papers-Adds :
    (ranked : List RawHit) (known : List Text)
    → All HasId ranked
    → (added : List PaperSummary) × (new_papers ranked known ≡ some added) × Adds ranked known added
unfolding new_papers Adds
new_papers-Adds [] known r = ([], refl, λ i. (omega arith, refl))
new_papers-Adds (h ∷ ranked) known ((j, e), r) = elim (Bool-cases (mem_text j known)) [
  | inl m ↦
      let (added, run, adds) = new_papers-Adds ranked known r in
      (
        added,
        rw (e, m) run,
        λ i. (
          (adds i).0,
          rw e (
              known_or (mem_text i known) (mem_text i (ids_of added)) (any (has_id i) ranked)
                (text_eq i j) (λ t. mem_same i j known t ∙ m) (adds i).1),
        ),
      )
  | inr m ↦
      let (added, run, adds) = new_papers-Adds ranked (j ∷ known) r in
      (
        record { canonical_id = j; hit = h } ∷ added,
        rw (e, m, run),
        λ i. rw e (add_id i j known ranked added m (adds i)),
      )
]

ids_of-append : (l m : List PaperSummary) → ids_of (l ++ m) ≡ ids_of l ++ ids_of m
ids_of-append [] m = refl
ids_of-append (p ∷ l) m = ap (λ r. p.canonical_id ∷ r) (ids_of-append l m)

occurrences-append :
    (i : Text) (l m : List Text) → occurrences i (l ++ m) ≡ occurrences i l + occurrences i m
occurrences-append i [] m = omega arith
occurrences-append i (j ∷ l) m = ground (arith, occurrences-append i l m)

mem-append : (i : Text) (l m : List Text) → mem_text i (l ++ m) ≡ (mem_text i l || mem_text i m)
mem-append i [] m = refl
mem-append i (j ∷ l) m = ground (arith, mem-append i l m)

occurrences_none : (i : Text) (l : List Text) → mem_text i l ≡ false → occurrences i l ≡ 0
occurrences_none i [] h = refl
occurrences_none i (j ∷ l) h = ground (arith, occurrences_none i l)

abbrev pub DistinctIds : List PaperSummary → Type 0
DistinctIds l = (i : Text) → occurrences i (ids_of l) ≤ 1

still_distinct :
    (cached added : List PaperSummary) (i : Text)
    → occurrences i (ids_of cached) ≤ 1
    → occurrences i (ids_of added) ≤ (if mem_text i (ids_of cached) then 0 else 1)
    → occurrences i (ids_of (cached ++ added)) ≤ 1
still_distinct cached added i one once =
    rw (ids_of-append cached added, occurrences-append i (ids_of cached) (ids_of added))
      (elim (Bool-cases (mem_text i (ids_of cached))) [
        | inl m ↦
            let no_more : occurrences i (ids_of added) ≤ 0 =
              subst (λ b. occurrences i (ids_of added) ≤ (if b then 0 else 1)) m once in
            omega (arith, no_more, one)
        | inr m ↦
            let at_most : occurrences i (ids_of added) ≤ 1 =
              subst (λ b. occurrences i (ids_of added) ≤ (if b then 0 else 1)) m once in
            omega (arith, at_most, occurrences_none i (ids_of cached) m)
      ])

-- When every ranked hit resolves to a canonical id and the cached results have distinct ids, the
-- merge gives a result set whose results are the cached ones followed by others, whose ids are
-- distinct, and whose ids are those of the cached results and of the ranked hits.
pub widen_with_lem :
    (cached : ResultSet) (ranked : List RawHit) (failed : List Text)
    → All HasId ranked
    → DistinctIds cached.results
    → (merged : ResultSet) × (widen_with cached ranked failed ≡ some merged)
      × ((added : List PaperSummary) × (merged.results ≡ cached.results ++ added))
      × DistinctIds merged.results
      × ((i : Text)
          → mem_text i (ids_of merged.results)
            ≡ (mem_text i (ids_of cached.results) || any (has_id i) ranked))
unfolding widen_with Adds
widen_with_lem cached ranked failed r distinct =
    let (added, run, adds) = new_papers-Adds ranked (ids_of cached.results) r in
    (
      merge_added cached failed added,
      rw (widen_with, run) refl,
      (added, refl),
      (λ i. still_distinct cached.results added i (distinct i) (adds i).0),
      λ i.
          ap (mem_text i) (ids_of-append cached.results added)
          ∙ mem-append i (ids_of cached.results) (ids_of added)
          ∙ (adds i).1,
    )
