-- ===== src/Memory/TopK.antt =====
-- What `_select_top_k` and `query_memory` of backend/memory/__init__.py select.
use ai_powered_research_work.Prelude.{
  ℕ, zero, suc, ◌-◌, ◌≤◌, ◌<◌, min, ◌≡◌, refl, ap, sym, ◌∙◌, inl, inr, Bool, true, false, not, List,
  [], ◌∷◌, map, arith, Text, length, take, ltb, leb, ◌==◌, if◌then◌else◌, Bool-cases, All, All-map,
  keep,
}
use ai_powered_research_work.Memory.Selection.{
  SourceType, type_number, same_type, CitedRow, PerType, counted_in, select_from, insert_desc,
  sort_desc, zip_scores, ranked_candidates, query_memory,
}

-- How many of the types are `t`.
abbrev pub of_type : SourceType → List SourceType → ℕ
of_type t types = length (keep (λ s. same_type s t) types)

of_type_same :
    (s t : SourceType) (types : List SourceType)
    → same_type s t ≡ true
    → of_type s types ≡ of_type t types
of_type_same s t types h =
    let e : type_number s ≡ type_number t = ground arith in
    ap (λ n. length (keep (λ u. type_number u == n) types)) e

of_type-cons :
    (s t : SourceType) (types : List SourceType)
    → of_type t (s ∷ types) ≡ (if same_type s t then suc (of_type t types) else of_type t types)
of_type-cons s t types = ground arith

-- The laws of `<` on the scores.
pub record IsOrder {S : Type 0} (lt : S → S → Bool) : Type 0 where
  pub asym : (a b : S) → lt a b ≡ true → lt b a ≡ false
  pub ge_trans : (a b c : S) → lt a b ≡ false → lt b c ≡ false → lt a c ≡ false

module _ {S : Type 0} where
  -- The rows before which fewer than `limit` of the same type stand; `before` are types before all.
  abbrev pub first_of_types : ℕ → List SourceType → List (CitedRow × S) → List (CitedRow × S)
  first_of_types limit before [] = []
  first_of_types limit before (p ∷ ranked) =
      let t = CitedRow.source_type p.0 in
      let rest = first_of_types limit (t ∷ before) ranked in
      if ltb (of_type t before) limit then p ∷ rest else rest

  abbrev pub types_of : List (CitedRow × S) → List SourceType
  types_of ranked = map (λ p. CitedRow.source_type p.0) ranked

  -- Of each type at most `limit` rows are left, those before counted.
  pub first_of_types-le :
      (t : SourceType) (limit : ℕ) (before : List SourceType) (ranked : List (CitedRow × S))
      → of_type t (types_of (first_of_types limit before ranked)) ≤ limit - of_type t before
  first_of_types-le t limit before [] = omega arith
  first_of_types-le t limit before ((row, score) ∷ ranked) =
      let s = row.source_type in
      let later = first_of_types-le t limit (s ∷ before) ranked in
      elim (Bool-cases (same_type s t)) [
        | inr other ↦ elim (Bool-cases (ltb (of_type s before) limit)) [
          | inl e ↦ rw (e, other) (rw other at later)
          | inr e ↦ rw e (rw other at later)
        ]
        | inl alike ↦ elim (Bool-cases (ltb (of_type s before) limit)) [
          | inl e ↦ rw (e, alike) (ground (arith, rw alike at later, of_type_same s t before alike))
          | inr e ↦ rw e (ground (arith, rw alike at later, of_type_same s t before alike))
        ]
      ]

  -- A cut takes no rows of a type in.
  pub of_type-take :
      (t : SourceType) (n : ℕ) (ranked : List (CitedRow × S))
      → of_type t (types_of (take n ranked)) ≤ of_type t (types_of ranked)
  of_type-take t zero ranked = omega arith
  of_type-take t (suc n) [] = omega arith
  of_type-take t (suc n) (p ∷ ranked) = ground (arith, of_type-take t n ranked)

-- The dict counts the rows before, up to the limit.
abbrev Counts : ℕ → PerType → List SourceType → Type 0
Counts limit per_type before = (t : SourceType) → per_type t ≡ min limit (of_type t before)

still_counts :
    (limit : ℕ) (s : SourceType) (per_type : PerType) (before : List SourceType)
    → leb limit (per_type s) ≡ true
    → Counts limit per_type before
    → Counts limit per_type (s ∷ before)
still_counts limit s per_type before full c t = elim (Bool-cases (same_type s t)) [
  | inr other ↦ rw other (c t)
  | inl alike ↦ rw alike (ground (arith, c t, c s, of_type_same s t before alike))
]

counts :
    (limit : ℕ) (s : SourceType) (per_type : PerType) (before : List SourceType)
    → leb limit (per_type s) ≡ false
    → Counts limit per_type before
    → Counts limit (counted_in s per_type) (s ∷ before)
counts limit s per_type before space c t = elim (Bool-cases (same_type s t)) [
  | inr other ↦ rw other (c t)
  | inl alike ↦ rw alike (ground (arith, c t, c s, of_type_same s t before alike))
]

take-nil : {S : Type 0} (n : ℕ) → take {A = S} n [] ≡ []
take-nil zero = refl
take-nil (suc n) = refl

module _ {S : Type 0} (lt : S → S → Bool) where
  -- The rows before the first one below the floor.
  abbrev pub above_floor : S → List (CitedRow × S) → List (CitedRow × S)
  above_floor m [] = []
  above_floor m (p ∷ ranked) = if lt p.1 m then [] else p ∷ above_floor m ranked

  select_from-lem :
      (k : ℕ) (m : S) (limit n : ℕ) (per_type : PerType) (before : List SourceType)
      (ranked : List (CitedRow × S))
      → n < k
      → ((t : SourceType) → per_type t ≡ min limit (of_type t before))
      → select_from lt k m limit n per_type ranked
        ≡ take (k - n) (first_of_types limit before (above_floor m ranked))
  unfolding select_from
  select_from-lem k m limit n per_type before [] h c = sym (take-nil (k - n))
  select_from-lem k m limit n per_type before ((row, score) ∷ ranked) h c =
      let s = row.source_type in
      elim (Bool-cases (lt score m)) [
        | inl low ↦ rw low (sym (take-nil (k - n)))
        | inr high ↦ elim (Bool-cases (leb limit (per_type s))) [
          | inl full ↦
              let out : ltb (of_type s before) limit ≡ false = ground (arith, c s) in
              rw (high, full, out)
                (select_from-lem k m limit n per_type (s ∷ before) ranked h
                  (still_counts limit s per_type before full c))
          | inr space ↦
              let room : ltb (of_type s before) limit ≡ true = ground (arith, c s) in
              let one : k - n ≡ suc (k - suc n) = omega arith in
              rw (high, space, room, one)
                (elim (Bool-cases (leb k (suc n))) [
                  | inl last ↦ let rest : k - suc n ≡ 0 = ground arith in rw (last, rest) refl
                  | inr more ↦ rw more (
                      ap (λ l. (row, score) ∷ l)
                        (select_from-lem k m limit (suc n) (counted_in s per_type) (s ∷ before)
                          ranked (ground arith) (counts limit s per_type before space c)))
                ])
        ]
      ]

  -- No row stands behind one that scores less.
  abbrev pub Descending : List (CitedRow × S) → Type 0
  Descending [] = Unit
  Descending (p ∷ ranked) = All (λ q. lt p.1 (q.1) ≡ false) ranked × Descending ranked

  module _ (order : IsOrder lt) where
    insert_desc-All :
        (b : S) (p : CitedRow × S) (ranked : List (CitedRow × S))
        → lt b p.1 ≡ false
        → All (λ q. lt b (q.1) ≡ false) ranked
        → All (λ q. lt b (q.1) ≡ false) (insert_desc lt p ranked)
    unfolding insert_desc
    insert_desc-All b p [] h all = (h, tt)
    insert_desc-All b p (q ∷ ranked) h all = elim (Bool-cases (lt p.1 q.1)) [
      | inl e ↦ rw e (all.0, insert_desc-All b p ranked h all.1)
      | inr e ↦ rw e (h, all)
    ]

    insert_desc-Descending :
        (p : CitedRow × S) (ranked : List (CitedRow × S))
        → Descending ranked
        → Descending (insert_desc lt p ranked)
    unfolding insert_desc
    insert_desc-Descending p [] h = (tt, tt)
    insert_desc-Descending p (q ∷ ranked) h = elim (Bool-cases (lt p.1 q.1)) [
      | inl e ↦ rw e (
        insert_desc-All q.1 p ranked (order.asym p.1 q.1 e) h.0,
        insert_desc-Descending p ranked h.1,
      )
      | inr e ↦ rw e ((e, All-map ranked (λ r le. order.ge_trans p.1 q.1 r.1 e le) h.0), h)
    ]

    sort_desc-Descending : (pairs : List (CitedRow × S)) → Descending (sort_desc lt pairs)
    unfolding sort_desc
    sort_desc-Descending [] = tt
    sort_desc-Descending (p ∷ pairs) =
        insert_desc-Descending p (sort_desc lt pairs) (sort_desc-Descending pairs)

    all_below :
        (m : S) (p : CitedRow × S) (ranked : List (CitedRow × S))
        → lt p.1 m ≡ true
        → All (λ q. lt p.1 (q.1) ≡ false) ranked
        → keep (λ q. not (lt q.1 m)) ranked ≡ []
    all_below m p [] below h = refl
    all_below m p (q ∷ ranked) below h = elim (Bool-cases (lt q.1 m)) [
      | inl e ↦ rw e (all_below m p ranked below h.1)
      | inr e ↦ absurd (ground (arith, below, order.ge_trans p.1 q.1 m h.0 e))
    ]

    above_floor-Descending :
        (m : S) (ranked : List (CitedRow × S))
        → Descending ranked
        → above_floor m ranked ≡ keep (λ q. not (lt q.1 m)) ranked
    above_floor-Descending m [] h = refl
    above_floor-Descending m (p ∷ ranked) h = elim (Bool-cases (lt p.1 m)) [
      | inl e ↦ rw e (sym (all_below m p ranked e h.0))
      | inr e ↦ rw e (ap (λ l. p ∷ l) (above_floor-Descending m ranked h.1))
    ]

    ranked_candidates-Descending :
        (rerank : List Text → List S) (candidates : List CitedRow)
        → Descending (ranked_candidates lt rerank candidates).0
    unfolding ranked_candidates
    ranked_candidates-Descending rerank [] = tt
    ranked_candidates-Descending rerank (c ∷ candidates) =
        sort_desc-Descending
          (zip_scores lt (c ∷ candidates) (rerank (map CitedRow.text (c ∷ candidates))))

  -- The selection that is promised: of the rows that reach the floor, those before which fewer
  -- than `limit` of their type stand, and of these the first `k`.
  abbrev pub best : ℕ → S → ℕ → List (CitedRow × S) → List (CitedRow × S)
  best k m limit ranked = take k (first_of_types limit [] (keep (λ q. not (lt q.1 m)) ranked))

  best-le :
      (t : SourceType) (k : ℕ) (m : S) (limit : ℕ) (ranked : List (CitedRow × S))
      → of_type t (types_of (best k m limit ranked)) ≤ limit
  best-le t k m limit ranked =
      let reach = keep (λ q. not (lt q.1 m)) ranked in
      omega (
        arith,
        of_type-take t k (first_of_types limit [] reach),
        first_of_types-le t limit [] reach,
      )

  -- When `<` on the scores is a strict order: `query_memory` returns the rows of the candidates,
  -- best first, that reach the floor and before which fewer than three of their type reach it, cut
  -- to six, and so at most three of each type.
  pub query_memory_lem :
      IsOrder lt
      → (zero_score : S) (rerank : List Text → List S) (candidates : List CitedRow)
      → (ranked : List (CitedRow × S)) × (ranked ≡ (ranked_candidates lt rerank candidates).0)
        × Descending ranked
        × (query_memory lt zero_score rerank candidates
            ≡ map (λ p. p.0) (best 6 zero_score 3 ranked))
        × ((t : SourceType) → of_type t (types_of (best 6 zero_score 3 ranked)) ≤ 3)
  unfolding query_memory
  query_memory_lem order zero_score rerank candidates =
      let ranked = (ranked_candidates lt rerank candidates).0 in
      let falls = ranked_candidates-Descending order rerank candidates in
      (
        ranked,
        refl,
        falls,
        ap (map (λ p. p.0)) (
            select_from-lem 6 zero_score 3 0 (λ t. 0) [] ranked (omega arith) (λ t. omega arith)
            ∙ ap (λ l. take 6 (first_of_types 3 [] l))
                (above_floor-Descending order zero_score ranked falls)),
        λ t. best-le t 6 zero_score 3 ranked,
      )
