-- ===== src/Harness/Context/Eviction.antt =====
-- What `assemble` of backend/harness/context.py keeps of each band.
use ai_powered_research_work.Prelude.{
  ℕ, zero, suc, ◌+◌, ◌≤◌, ◌<◌, ◌≡◌, ◌≢◌, refl, sym, ap, ◌∙◌, ◌⊎◌, inl, inr, Option, some, List, [],
  arith, length, drop, drop-drop, Sub, Sub-refl, Sub-trans, ltb, ◌==◌, Bool-cases,
}
use ai_powered_research_work.Harness.Models.{Message}
use ai_powered_research_work.Harness.Context.Blocks.{ContextBlock}
use ai_powered_research_work.Harness.Context.Assemble.{
  Entry, messages_of, number_from, highest_band, remove_first, totals_from, evict, assemble,
}
use ai_powered_research_work.Harness.Context.Bands.{
  of_band, highest_band-evictable, above_highest, length-round, of_band-remove_first_own,
  of_band-remove_first_other, remove_first-Sub, number_from-Numbered, Sub-Numbered,
  sort_by_index_lem, length-number_from,
}

-- Of a band, the first `dropped` blocks are gone and the others are kept. A band that lost a block
-- is above band 1, and every band above it lost all of its blocks.
pub record Band (all kept : List Entry) (b : ℕ) : Type 0 where
  pub dropped : ℕ
  pub left : of_band b kept ≡ drop dropped (of_band b all)
  pub evictable : 0 < dropped → 1 < b
  pub above : 0 < dropped → (c : ℕ) → b < c → of_band c kept ≡ []

module _ (all : List Entry) where
  start : (b : ℕ) → Band all all b
  start b = record {
    dropped = 0;
    left = refl;
    evictable = λ h. absurd (omega arith);
    above = λ h. absurd (omega arith);
  }

  round_own :
      (kept : List Entry) (h : ℕ)
      → highest_band kept ≡ h
      → h ≢ 0
      → Band all kept h
      → Band all (remove_first h kept) h
  round_own kept h e nz b = record {
    dropped = b.dropped + 1;
    left =
        of_band-remove_first_own h kept
        ∙ (ap (drop 1) b.left ∙ drop-drop b.dropped 1 (of_band h all));
    evictable = λ p. rw e at (highest_band-evictable kept (λ z. nz (sym e ∙ z)));
    above = λ p c l.
        of_band-remove_first_other h c kept (λ q. absurd (omega arith))
        ∙ above_highest c kept (omega (arith, highest_band-evictable kept (λ z. nz (sym e ∙ z))))
            (omega arith);
  }

  round_other :
      (kept : List Entry) (h b : ℕ) → h ≢ b → Band all kept b → Band all (remove_first h kept) b
  round_other kept h b d x = record {
    dropped = x.dropped;
    left = of_band-remove_first_other h b kept d ∙ x.left;
    evictable = x.evictable;
    above = λ p c l. gone c (x.above p c l);
  }
    where
      gone : (c : ℕ) → of_band c kept ≡ [] → of_band c (remove_first h kept) ≡ []
      gone c e = elim (Bool-cases (h == c)) [
        | inl q ↦ let r : h ≡ c = ground arith in rw (r, of_band-remove_first_own c kept, e)
        | inr q ↦ of_band-remove_first_other h c kept (λ r. absurd (ground arith)) ∙ e
      ]

  round :
      (kept : List Entry)
      → highest_band kept ≢ 0
      → ((b : ℕ) → Band all kept b)
      → (b : ℕ) → Band all (remove_first (highest_band kept) kept) b
  round kept nz inv b = elim (Bool-cases (highest_band kept == b)) [
    | inl q ↦
        let r : highest_band kept ≡ b = ground arith in
        rw r (round_own kept b r (λ z. nz (r ∙ z)) (inv b))
    | inr q ↦ round_other kept (highest_band kept) b (λ r. absurd (ground arith)) (inv b)
  ]

  module _ (count_tokens : List Message → ℕ) (budget : ℕ) where
    -- The kept blocks stand in their order, each band as above, and they meet the budget or only
    -- band 1 is left.
    pub record Kept (kept : List Entry) : Type 0 where
      pub in_order : Sub kept all
      pub bands : (b : ℕ) → Band all kept b
      pub fits :
          (count_tokens (messages_of kept) ≤ budget) ⊎ ((b : ℕ) → 1 < b → of_band b kept ≡ [])

    abbrev Evicted : Option (List Entry) → Type 0
    Evicted r = (kept : List Entry) × (r ≡ some kept) × Kept kept

    evict_lem :
        (fuel : ℕ) (kept : List Entry)
        → length kept < fuel
        → Sub kept all
        → ((b : ℕ) → Band all kept b)
        → Evicted (evict count_tokens budget fuel kept)
    unfolding evict
    evict_lem zero kept l s inv = absurd (omega arith)
    evict_lem (suc fuel) kept l s inv =
        elim (Bool-cases (ltb budget (count_tokens (messages_of kept)))) [
          | inr fits ↦
              (kept, rw fits, record { in_order = s; bands = inv; fits = inl (ground arith) })
          | inl over ↦ elim (Bool-cases (highest_band kept == 0)) [
            | inl bare ↦ (
              kept,
              rw (over, bare),
              record {
                in_order = s;
                bands = inv;
                fits = inr (λ b p. above_highest b kept p (ground arith));
              },
            )
            | inr more ↦
                let nz : highest_band kept ≢ 0 = λ z. absurd (ground arith) in
                let h = highest_band kept in
                let (out, e, k) =
                  evict_lem fuel (remove_first h kept) (omega (arith, length-round kept nz))
                    (Sub-trans s (remove_first-Sub h kept)) (round kept nz inv) in
                (out, rw (over, more, e), k)
          ]
        ]

-- Whatever the blocks, the counter and the budget, `assemble` returns. What it returns are the
-- messages and totals of blocks that stand in the given order: all blocks of band 1; of each other
-- band the latest, where a band loses a block only when all bands above it are gone; and they meet
-- the budget, or no block above band 1 is left.
pub assemble_lem :
    (count_tokens : List Message → ℕ) (budget : ℕ) (blocks : List ContextBlock)
    → (kept : List Entry) × (assemble count_tokens budget blocks
        ≡ some (messages_of kept, totals_from count_tokens [] kept))
      × Kept (number_from 0 blocks) count_tokens budget kept
      × (of_band 1 kept ≡ of_band 1 (number_from 0 blocks))
unfolding assemble
assemble_lem count_tokens budget blocks =
    let all = number_from 0 blocks in
    let (kept, e, k) =
      evict_lem all count_tokens budget (suc (length blocks)) all
        (omega (arith, length-number_from 0 blocks)) (Sub-refl all) (start all) in
    let sorted =
      sort_by_index_lem 0 kept (Sub-Numbered k.in_order 0 (number_from-Numbered 0 blocks)) in
    (kept, rw (e, sorted), k, first_band all kept (k.bands 1))
  where
    first_band : (all kept : List Entry) → Band all kept 1 → of_band 1 kept ≡ of_band 1 all
    first_band all kept b =
        let none_gone : b.dropped ≡ 0 = grind (arith, b.evictable) in
        b.left ∙ ap (λ k. drop k (of_band 1 all)) none_gone
