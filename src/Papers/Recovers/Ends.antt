-- ===== src/Papers/Recovers/Ends.antt =====
-- A paper of backend/papers/__init__.py that is not stuck reaches its end.
use ai_powered_research_work.Prelude.{
  ℕ, zero, suc, ◌≤◌, ◌≡◌, refl, sym, ◌⊎◌, inl, inr, Bool, true, false, not, ◌&&◌, ◌||◌, some, arith,
  Bool-cases,
}
use ai_powered_research_work.Prelude.Assoc.{lookup}
use ai_powered_research_work.Papers.Pipeline.{PaperRow, Library, is_done, is_terminal}
use ai_powered_research_work.Papers.Jobs.{is_in}
use ai_powered_research_work.Papers.Steps.{Reach, here, next}
use ai_powered_research_work.Papers.Steps.{empty}
use ai_powered_research_work.Papers.Staged.{plain}
use ai_powered_research_work.Papers.Staged.Requests.{row-RowOk}
use ai_powered_research_work.Papers.Staged.Always.{Reach-IsStaged}
use ai_powered_research_work.Papers.Recovers.{
  not_done, done_terminal, left, IsSound, Progress, fetch-Progress, parse-Progress,
}
use ai_powered_research_work.Papers.Recovers.Behind.{
  trace-Progress, embed-Progress, extract-Progress,
}

-- The fetch is at its end; when it is done, so is the parse; and when that is done, the card, the
-- chunks and the references are.
abbrev pub is_ended : PaperRow → Bool
is_ended row =
    is_terminal row.fetch_state
    && (not (is_done row.fetch_state) || is_terminal row.parse_state)
    && (not (is_done row.parse_state)
        || (is_terminal row.extract_state
            && is_terminal row.embed_state
            && is_terminal row.references_state))

Reach-trans : {s t u : Library} → Reach s t → Reach t u → Reach s u
Reach-trans r here = r
Reach-trans r (next q step) = next (Reach-trans r q) step

module _ (id : ℕ) where
  behind-Progress :
      (s : Library) (row : PaperRow)
      → IsSound id s row
      → is_terminal row.fetch_state ≡ true
      → is_done row.parse_state ≡ true
      → (is_ended row ≡ true) ⊎ Progress id s row
  behind-Progress s row h f p = elim (Bool-cases (is_terminal row.references_state)) [
    | inr e ↦ inr (trace-Progress id s row h f p e)
    | inl g ↦ elim (Bool-cases (is_terminal row.embed_state)) [
      | inr e ↦ inr (embed-Progress id s row h f p g e)
      | inl d ↦ elim (Bool-cases (is_terminal row.extract_state)) [
        | inr e ↦ inr (extract-Progress id s row h f p g d e)
        | inl e ↦ inl (rw (f, done_terminal row.parse_state p, p, g, d, e) (ground arith))
      ]
    ]
  ]

  parsed-Progress :
      (s : Library) (row : PaperRow)
      → IsSound id s row
      → is_terminal row.fetch_state ≡ true
      → is_terminal row.parse_state ≡ true
      → (is_ended row ≡ true) ⊎ Progress id s row
  parsed-Progress s row h f q = elim (Bool-cases (is_done row.parse_state)) [
    | inl p ↦ behind-Progress s row h f p
    | inr p ↦ inl (rw (f, q, p) (ground arith))
  ]

  fetched-Progress :
      (s : Library) (row : PaperRow)
      → IsSound id s row
      → is_terminal row.fetch_state ≡ true
      → (is_ended row ≡ true) ⊎ Progress id s row
  fetched-Progress s row h f = elim (Bool-cases (is_terminal row.parse_state)) [
    | inl q ↦ parsed-Progress s row h f q
    | inr q ↦ elim (Bool-cases (is_done row.fetch_state)) [
      | inl d ↦ inr (parse-Progress id s row h d q)
      | inr d ↦ inl (rw (f, d, not_done row.parse_state q) refl)
    ]
  ]

  any-Progress :
      (s : Library) (row : PaperRow) → IsSound id s row → (is_ended row ≡ true) ⊎ Progress id s row
  any-Progress s row h = elim (Bool-cases (is_terminal row.fetch_state)) [
    | inl f ↦ fetched-Progress s row h f
    | inr f ↦ inr (fetch-Progress id s row h f)
  ]

  -- A library that steps lead to, in which the paper is at its end.
  abbrev pub Ends : Library → Type 0
  Ends s =
      (t : Library) × (later : PaperRow) × Reach s t
      × (lookup id t.papers ≡ some later)
      × (is_ended later ≡ true)

  sound-Ends :
      (bound : ℕ) (s : Library) (row : PaperRow) → left row ≤ bound → IsSound id s row → Ends s
  sound-Ends zero s row l h = elim (any-Progress s row h) [
    | inl e ↦ (s, row, here, h.found, e)
    | inr p ↦ absurd (omega (arith, l, p.4))
  ]
  sound-Ends (suc bound) s row l h = elim (any-Progress s row h) [
    | inl e ↦ (s, row, here, h.found, e)
    | inr p ↦
        let (u, last, r, there, e) = sound-Ends bound p.0 p.1 (omega (arith, l, p.4)) p.3 in
        (u, last, Reach-trans p.2 r, there, e)
  ]

  -- In a library that steps can reach: a paper whose text is not in the table without its parse
  -- being done can be brought to its end by steps from there on: its fetch ends; when that is done,
  -- its parse ends; when that is done, so do its card, its chunks and its references.
  pub Reach-Ends :
      (s : Library) (row : PaperRow)
      → Reach empty s
      → lookup id s.papers ≡ some row
      → (is_in id s.content ≡ true → is_done row.parse_state ≡ true)
      → Ends s
  Reach-Ends s row reached there parsed =
      let ok = row-RowOk plain s.content id s.papers row (Reach-IsStaged reached).rows there in
      sound-Ends (left row) s row (ground arith) (record {
        found = there;
        file = ok.0;
        texts = same (is_in id s.content) (is_done row.parse_state) parsed ok.1;
      })
    where
      same : (x y : Bool) → (x ≡ true → y ≡ true) → (y ≡ true → x ≡ true) → x ≡ y
      same true y f g = sym (f refl)
      same false true f g = g refl
      same false false f g = refl
