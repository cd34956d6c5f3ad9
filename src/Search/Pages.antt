-- ===== src/Search/Pages.antt =====
-- "Search more": a client that reveals page after page while `has_more` holds.
use ai_powered_research_work.Prelude.{
  ℕ, zero, suc, ◌+◌, ◌-◌, ◌≤◌, ◌<◌, ◌≡◌, refl, sym, ap, ◌∙◌, inl, inr, min, false, Option, none,
  some, List, ◌++◌, arith, length, take, drop, keep, length-drop, length-take, take-append-drop,
  take_all, drop-drop, ltb, ltb→lt, if◌then◌else◌, Bool-cases,
}
use ai_powered_research_work.Search.Models.{SearchFilters, PaperSummary, ResultSet}
use ai_powered_research_work.Search.Federation.{matches, refine_results}

module _ (cached : ResultSet) (filters : SearchFilters) (limit : ℕ) where
  abbrev matched : List PaperSummary
  matched = keep (matches filters) cached.results

  abbrev page : ℕ → ResultSet
  page offset = refine_results cached filters offset (some limit)

  -- The pages from `offset` on; `none` when the fuel runs out.
  abbrev cons_page : List PaperSummary → Option (List PaperSummary) → Option (List PaperSummary)
  cons_page l none = none
  cons_page l (some m) = some (l ++ m)

  unfoldable pub reveal : ℕ → ℕ → Option (List PaperSummary)
  reveal zero offset = none
  reveal (suc fuel) offset =
      let more =
        cons_page (page offset).results (reveal fuel (offset + length (page offset).results)) in
      if (page offset).has_more then more else some (page offset).results

  page-results : (offset : ℕ) → (page offset).results ≡ take limit (drop offset matched)
  unfolding refine_results
  page-results offset = refl

  page-has_more :
      (offset : ℕ)
      → (page offset).has_more
        ≡ ltb (offset + length (take limit (drop offset matched))) (length matched)
  unfolding refine_results
  page-has_more offset = refl

  reveal_from :
      (fuel offset : ℕ)
      → 0 < limit
      → offset ≤ length matched
      → length matched < offset + fuel
      → reveal fuel offset ≡ some (drop offset matched)
  unfolding reveal
  reveal_from zero offset p l h = absurd (omega arith)
  reveal_from (suc fuel) offset p l h =
      let rest = drop offset matched in
      let size : length (take limit rest) ≡ min limit (length matched - offset) =
        omega (arith, length-take limit rest, length-drop offset matched) in
      elim (Bool-cases (ltb (offset + length (take limit rest)) (length matched))) [
        | inr stop ↦
            let whole =
              take_all limit rest (omega (arith, length-drop offset matched, not_ltb _ _ stop)) in
            rw (page-has_more offset, stop, page-results offset, whole)
        | inl more ↦
            let full : length (take limit rest) ≡ limit =
              omega (arith, length-drop offset matched, ltb→lt _ _ more) in
            let next : offset + length (take limit rest) ≡ offset + limit = omega arith in
            let ih : reveal fuel (offset + limit) ≡ some (drop (offset + limit) matched) =
              reveal_from fuel (offset + limit) p (omega (arith, ltb→lt _ _ more)) (omega arith) in
            let glue : take limit rest ++ drop (offset + limit) matched ≡ rest =
              ap (λ l. take limit rest ++ l) (sym (drop-drop offset limit matched))
              ∙ take-append-drop limit rest in
            rw (page-has_more offset, more, page-results offset, next, ih, glue)
      ]
    where
      not_ltb : (a b : ℕ) → ltb a b ≡ false → b ≤ a
      not_ltb a b h = ground arith

-- A client that starts at 0 and goes on by what it got sees every match, once and in order, and
-- stops: for every filter and every positive page size.
pub reveal_lem :
    (cached : ResultSet) (filters : SearchFilters) (limit : ℕ)
    → 0 < limit
    → reveal cached filters limit (suc (length (keep (matches filters) cached.results))) 0
      ≡ some (keep (matches filters) cached.results)
reveal_lem cached filters limit p =
    reveal_from cached filters limit _ 0 p (omega arith) (omega arith)
