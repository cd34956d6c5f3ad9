-- ===== src/Feed/Once.antt =====
-- What the polls of backend/feed/__init__.py surface.
use ai_powered_research_work.Prelude.{
  ℕ, ◌+◌, ◌≤◌, ◌≡◌, ap, ◌∙◌, subst, inl, inr, Bool, true, false, ◌||◌, Option, none, some, List, [],
  ◌∷◌, ◌++◌, map, arith, Text, text_eq, text_eq_sound, take, drop, take-append-drop, All,
  All-append, if◌then◌else◌, is_empty, Bool-cases, Option-cases,
}
use ai_powered_research_work.Prelude.Fresh.{mem_text}
use ai_powered_research_work.Papers.CanonicalId.{resolve_canonical_id}
use ai_powered_research_work.Search.Dedupe.{occurrences}
use ai_powered_research_work.Feed.Poll.{
  InterestProfile, RawFeedHit, Seen, Scored, Candidate, dedupe_from, is_seen, is_owned,
  select_unseen, why_of, has_reason, Scores, score_all, add_scores, add_centroid_similarity,
  insert_best, sort_best, rerank_top, Models, surfaced, hit_text, rerank_query,
}

abbrev keys : List Candidate → List Text
keys candidates = map (λ c. c.0) candidates

dedupe_from-once :
    (id : Text) (hits : List RawFeedHit) (seen : List Text)
    → occurrences id (keys (dedupe_from hits seen)) ≤ (if mem_text id seen then 0 else 1)
unfolding dedupe_from
dedupe_from-once id [] seen = omega arith
dedupe_from-once id (hit ∷ hits) seen = elim (Option-cases (resolve_canonical_id hit.source_ids)) [
  | inl e ↦ rw e (dedupe_from-once id hits seen)
  | inr (j, e) ↦ rw e (elim (Bool-cases (mem_text j seen)) [
    | inl m ↦ rw m (dedupe_from-once id hits seen)
    | inr m ↦
        let later = dedupe_from-once id hits (j ∷ seen) in
        elim (Bool-cases (text_eq id j)) [
          | inl t ↦
              let gone : mem_text id seen ≡ false =
                ap (λ u. mem_text u seen) (text_eq_sound id j t) ∙ m in
              rw (m, t, gone) (ground (arith, rw t at later))
          | inr t ↦ rw (m, t) (rw t at later)
        ]
  ])
]

-- Whether a poll leaves a paper out.
abbrev pub is_known : ℕ → List Seen → List (ℕ × Text) → Text → Bool
is_known p seen library id = is_seen p seen id || is_owned p library id

select_unseen-le :
    (id : Text) (p : ℕ) (seen : List Seen) (library : List (ℕ × Text)) (candidates : List Candidate)
    → occurrences id (keys (select_unseen p seen library candidates))
      ≤ (if is_known p seen library id then 0 else occurrences id (keys candidates))
unfolding select_unseen
select_unseen-le id p seen library [] = ground arith
select_unseen-le id p seen library (c ∷ candidates) =
    let later = select_unseen-le id p seen library candidates in
    elim (Bool-cases (text_eq id c.0)) [
      | inl t ↦
          let same : is_known p seen library id ≡ is_known p seen library c.0 =
            ap (is_known p seen library) (text_eq_sound id c.0 t) in
          elim (Bool-cases (is_known p seen library c.0)) [
            | inl e ↦ ground (arith, e, same, later)
            | inr e ↦ ground (arith, e, same, t, later)
          ]
      | inr t ↦ ground (arith, t, later)
    ]

module _ (scores : Scores) where
  abbrev pub ids_of : List (Scored scores.S) → List Text
  ids_of candidates = map Scored.canonical_id candidates

  abbrev pub AllReasoned : List (Scored scores.S) → Type 0
  AllReasoned candidates = All (λ c. has_reason (Scored.why c) ≡ true) candidates

  -- At most the occurrences of another list, each entry with a reason.
  record Fewer (candidates before : List (Scored scores.S)) : Type 0 where
    le : (id : Text) → occurrences id (ids_of candidates) ≤ occurrences id (ids_of before)
    reasoned : AllReasoned before → AllReasoned candidates

  score_all-le :
      (id : Text) (lower : Text → Text) (profile : InterestProfile) (candidates : List Candidate)
      → occurrences id (ids_of (score_all scores lower profile candidates))
        ≤ occurrences id (keys candidates)
  unfolding score_all
  score_all-le id lower profile [] = omega arith
  score_all-le id lower profile (c ∷ candidates) =
      let later = score_all-le id lower profile candidates in
      elim (Bool-cases (has_reason (why_of lower profile c.1))) [
        | inl e ↦ rw e (ground (arith, later))
        | inr e ↦ rw e (ground (arith, later))
      ]

  score_all-AllReasoned :
      (lower : Text → Text) (profile : InterestProfile) (candidates : List Candidate)
      → AllReasoned (score_all scores lower profile candidates)
  unfolding score_all
  score_all-AllReasoned lower profile [] = tt
  score_all-AllReasoned lower profile (c ∷ candidates) =
      elim (Bool-cases (has_reason (why_of lower profile c.1))) [
        | inl e ↦ rw e (e, score_all-AllReasoned lower profile candidates)
        | inr e ↦ rw e (score_all-AllReasoned lower profile candidates)
      ]

  add_scores-Fewer :
      (candidates : List (Scored scores.S)) (added : List scores.S)
      → Fewer (add_scores scores candidates added) candidates
  add_scores-Fewer [] added = record { le = λ id. omega arith; reasoned = λ h. h }
  add_scores-Fewer (c ∷ candidates) [] = record { le = λ id. omega arith; reasoned = λ h. tt }
  add_scores-Fewer (c ∷ candidates) (s ∷ added) =
      let later = add_scores-Fewer candidates added in
      record { le = λ id. ground (arith, later.le id); reasoned = λ h. (h.0, later.reasoned h.1) }

  insert_best-Fewer :
      (c : Scored scores.S) (ranked : List (Scored scores.S))
      → Fewer (insert_best scores c ranked) (c ∷ ranked)
  unfolding insert_best
  insert_best-Fewer c [] = record { le = λ id. omega arith; reasoned = λ h. h }
  insert_best-Fewer c (d ∷ ranked) =
      let later = insert_best-Fewer c ranked in
      elim (Bool-cases (scores.lt c.score d.score)) [
        | inl e ↦ rw e (record {
          le = λ id. ground (arith, later.le id);
          reasoned = λ h. (h.1.0, later.reasoned (h.0, h.1.1));
        })
        | inr e ↦ rw e (record { le = λ id. omega arith; reasoned = λ h. h })
      ]

  Fewer-trans : {xs ys zs : List (Scored scores.S)} → Fewer xs ys → Fewer ys zs → Fewer xs zs
  Fewer-trans f g = record {
    le = λ id. omega (arith, f.le id, g.le id);
    reasoned = λ h. f.reasoned (g.reasoned h);
  }

  sort_best-Fewer : (xs : List (Scored scores.S)) → Fewer (sort_best scores xs) xs
  unfolding sort_best
  sort_best-Fewer [] = record { le = λ id. omega arith; reasoned = λ h. h }
  sort_best-Fewer (c ∷ xs) =
      let later = sort_best-Fewer xs in
      Fewer-trans (insert_best-Fewer c (sort_best scores xs)) (record {
        le = λ id. ground (arith, later.le id);
        reasoned = λ h. (h.0, later.reasoned h.1);
      })

  occurrences-append :
      (id : Text) (xs ys : List (Scored scores.S))
      → occurrences id (ids_of (xs ++ ys)) ≡ occurrences id (ids_of xs) + occurrences id (ids_of ys)
  occurrences-append id [] ys = omega arith
  occurrences-append id (x ∷ xs) ys = ground (arith, occurrences-append id xs ys)

  All-split :
      (xs ys : List (Scored scores.S)) → AllReasoned (xs ++ ys) → AllReasoned xs × AllReasoned ys
  All-split [] ys h = (tt, h)
  All-split (x ∷ xs) ys h = ((h.0, (All-split xs ys h.1).0), (All-split xs ys h.1).1)

  append-Fewer : (xs xs' ys : List (Scored scores.S)) → Fewer xs' xs → Fewer (xs' ++ ys) (xs ++ ys)
  append-Fewer xs xs' ys f = record {
    le = λ id. omega (arith, occurrences-append id xs' ys, occurrences-append id xs ys, f.le id);
    reasoned = λ h. All-append _ xs' ys (f.reasoned (All-split xs ys h).0) (All-split xs ys h).1;
  }

  rerank_top-Fewer :
      (rerank : Text → List Text → List scores.S) (profile : InterestProfile)
      (candidates : List (Scored scores.S))
      → Fewer (rerank_top scores rerank profile candidates) candidates
  unfolding rerank_top
  rerank_top-Fewer rerank profile candidates =
      elim (Bool-cases (is_empty (rerank_query scores profile))) [
        | inl e ↦ rw e (record { le = λ id. omega arith; reasoned = λ h. h })
        | inr e ↦
            let ranked = sort_best scores candidates in
            let query = rerank_query scores profile in
            let texts = map (λ c. hit_text (Scored.hit c)) (take 50 ranked) in
            rw e (
              Fewer-trans
                (subst
                  (λ xs.
                    Fewer
                      (add_scores scores (take 50 ranked) (rerank query texts) ++ drop 50 ranked)
                      xs)
                  (take-append-drop 50 ranked)
                  (append-Fewer (take 50 ranked) _ (drop 50 ranked)
                    (add_scores-Fewer (take 50 ranked) (rerank query texts))))
                (sort_best-Fewer candidates))
      ]

  add_centroid_similarity-Fewer :
      (similar : Option (List Text → List scores.S)) (candidates : List (Scored scores.S))
      → Fewer (add_centroid_similarity scores similar candidates) candidates
  unfolding add_centroid_similarity
  add_centroid_similarity-Fewer none candidates = record {
    le = λ id. omega arith;
    reasoned = λ h. h;
  }
  add_centroid_similarity-Fewer (some similar) candidates = add_scores-Fewer candidates _

  -- What a poll surfaces was not seen and is not in the library, is surfaced once, and has a reason.
  pub surfaced_lem :
      (models : Models scores) (profile : InterestProfile) (hits : List RawFeedHit) (p : ℕ)
      (seen : List Seen) (library : List (ℕ × Text))
      → ((id : Text)
          → occurrences id (ids_of (surfaced scores models profile hits p seen library))
            ≤ (if is_known p seen library id then 0 else 1))
        × AllReasoned (surfaced scores models profile hits p seen library)
  unfolding surfaced
  surfaced_lem models profile hits p seen library =
      let fresh = select_unseen p seen library (dedupe_from hits []) in
      let scored = score_all scores models.lower profile fresh in
      let nearer = add_centroid_similarity-Fewer models.similar scored in
      let all =
        Fewer-trans
          (rerank_top-Fewer models.rerank profile
            (add_centroid_similarity scores models.similar scored))
          nearer in
      (
        λ id. ground (
          arith,
          all.le id,
          score_all-le id models.lower profile fresh,
          select_unseen-le id p seen library (dedupe_from hits []),
          dedupe_from-once id hits [],
        ),
        all.reasoned (score_all-AllReasoned models.lower profile fresh),
      )
