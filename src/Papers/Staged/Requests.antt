-- ===== src/Papers/Staged/Requests.antt =====
-- What the requests of backend/papers/__init__.py, and the stubs of references, keep of the stages.
use ai_powered_research_work.Prelude.{
  ℕ, ◌≡◌, refl, sym, ap, ◌∙◌, subst, inl, inr, Bool, true, false, not, ◌&&◌, none, some, List, [],
  ◌∷◌, ◌++◌, arith, Text, any, find_first, All, All-append, ◌==◌, ==_iff, Bool-cases, Option-cases,
}
use ai_powered_research_work.Prelude.Assoc.{Assoc, lookup}
use ai_powered_research_work.Prelude.Fresh.{mem_text, Distinct, Distinct-snoc}
use ai_powered_research_work.Papers.CanonicalId.{SourceIds, resolve_canonical_id}
use ai_powered_research_work.Papers.Pipeline.{
  done, StageState, queued, skipped, PaperRow, JobKind, fetch, parse, extract, embed, trace,
  Library, enqueue, update, is_done, is_terminal, has_canonical, find_or_add, fetch_when_new,
  add_paper, add_reference_stub, set_fetch, set_parse, set_embed, set_extract, set_references,
  redrive, reprocess_row, reprocess_paper, heal_row, get_paper,
}
use ai_powered_research_work.Papers.Jobs.{is_in, set_fetched, add_stubs, or_same}
use ai_powered_research_work.Papers.Staged.{
  Extra, RowOk, KindOk, IsStaged, if_keeps, Keeps, canonical_ids, update-IsStaged, enqueue-IsStaged,
}

module _ (extra : Extra) where
  module _ (content : Assoc Text) (id : ℕ) (state : StageState) where
    pub set_fetch-Keeps : is_done state ≡ false → Keeps extra content id (set_fetch state)
    set_fetch-Keeps e = record {
      same = λ row. refl;
      others = λ row. extra.same_parse id row (set_fetch state row) refl;
      keeps = λ row h. (λ d. cc (d, e), h.1, h.2, h.3, h.4);
    }

    pub set_parse-Keeps : is_done state ≡ false → Keeps extra content id (set_parse state)
    set_parse-Keeps e = record {
      same = λ row. refl;
      others = λ row r. extra.unparsed id (set_parse state row) e;
      keeps = λ row h. (h.0, λ d. cc (d, e), h.2, h.3, h.4);
    }

    module _ (allowed : is_done state ≡ true → is_in id content ≡ true) where
      pub set_embed-Keeps : Keeps extra content id (set_embed state)
      set_embed-Keeps = record {
        same = λ row. refl;
        others = λ row. extra.same_parse id row (set_embed state row) refl;
        keeps = λ row h. (h.0, h.1, allowed, h.3, h.4);
      }

      pub set_extract-Keeps : Keeps extra content id (set_extract state)
      set_extract-Keeps = record {
        same = λ row. refl;
        others = λ row. extra.same_parse id row (set_extract state row) refl;
        keeps = λ row h. (h.0, h.1, h.2, allowed, h.4);
      }

      pub set_references-Keeps : Keeps extra content id (set_references state)
      set_references-Keeps = record {
        same = λ row. refl;
        others = λ row. extra.same_parse id row (set_references state row) refl;
        keeps = λ row h. (h.0, h.1, h.2, h.3, allowed);
      }

  pub parsed-Keeps :
      (content before : Assoc Text) (id : ℕ)
      → is_in id content ≡ true
      → extra.Texts before
      → is_in id before ≡ false
      → Keeps extra content id (set_parse done)
  parsed-Keeps content before id there texts absent = record {
    same = λ row. refl;
    others = λ row r. extra.just_parsed id before (set_parse done row) texts absent;
    keeps = λ row h. (h.0, λ d. there, h.2, h.3, h.4);
  }

  pub set_fetched-Keeps :
      (content : Assoc Text) (id : ℕ) (path : Text) → Keeps extra content id (set_fetched path)
  set_fetched-Keeps content id path = record {
    same = λ row. refl;
    others = λ row. extra.same_parse id row (set_fetched path row) refl;
    keeps = λ row h. (λ d. refl, h.1, h.2, h.3, h.4);
  }

  -- A stage that is reset and enqueued again.
  redrive-IsStaged :
      (state : StageState) (set : StageState → PaperRow → PaperRow) (kind : JobKind) (id : ℕ)
      (s : Library)
      → Keeps extra s.content id (set queued)
      → KindOk s.content kind id
      → IsStaged extra s
      → IsStaged extra (redrive state set kind id s)
  redrive-IsStaged state set kind id s k ok h =
      if_keeps (IsStaged extra) (is_terminal state) s (enqueue kind id (update id (set queued) s))
        (λ e. h)
        (λ e.
          enqueue-IsStaged extra kind id (update id (set queued) s) ok
            (update-IsStaged extra id (set queued) s k h))

  redrive-content :
      (state : StageState) (set : StageState → PaperRow → PaperRow) (kind : JobKind) (id : ℕ)
      (s : Library)
      → (redrive state set kind id s).content ≡ s.content
  redrive-content state set kind id s = ground arith

  pub row-RowOk :
      (content : Assoc Text) (id : ℕ) (papers : Assoc PaperRow) (row : PaperRow)
      → All (RowOk content) papers
      → lookup id papers ≡ some row
      → RowOk content (id, row)
  unfolding lookup
  row-RowOk content id [] r h e = cc
  row-RowOk content id ((j, row) ∷ rest) r h e = elim (Bool-cases (j == id)) [
    | inl same ↦
        let here_row : row ≡ r = cc (rw same at e) in
        subst (λ q. RowOk content (id, q)) here_row
          (subst (λ i. RowOk content (i, row)) ((==_iff j id).0 same) h.0)
    | inr other ↦ row-RowOk content id rest r h.1 (rw other at e)
  ]

  reprocess_row-IsStaged :
      (id : ℕ) (s : Library) (row : PaperRow)
      → lookup id s.papers ≡ some row
      → IsStaged extra s
      → IsStaged extra (reprocess_row id s (some row))
  reprocess_row-IsStaged id s row e h =
      let extracted_again = redrive row.extract_state set_extract extract id s in
      let embedded_again = redrive row.embed_state set_embed embed id extracted_again in
      let kept = redrive-content row.extract_state set_extract extract id s in
      let kept_twice = redrive-content row.embed_state set_embed embed id extracted_again ∙ kept in
      if_keeps (IsStaged extra) (not (is_terminal row.fetch_state)) _ _
        (λ _.
          redrive-IsStaged row.fetch_state set_fetch fetch id s
            (set_fetch-Keeps s.content id queued refl) tt h)
        (λ _.
          if_keeps (IsStaged extra) (is_done row.fetch_state && not (is_terminal row.parse_state)) _
            _
            (λ _.
              redrive-IsStaged row.parse_state set_parse parse id s
                (set_parse-Keeps s.content id queued refl) tt h)
            (λ _.
              if_keeps (IsStaged extra) (is_done row.parse_state) _ s
                (λ d.
                  let there = (row-RowOk s.content id s.papers row h.rows e).1 d in
                  redrive-IsStaged row.references_state set_references trace id embedded_again
                    (set_references-Keeps embedded_again.content id queued (λ q. cc)) tt
                    (redrive-IsStaged row.embed_state set_embed embed id extracted_again
                      (set_embed-Keeps extracted_again.content id queued (λ q. cc))
                      (subst (λ c. is_in id c ≡ true) (sym kept) there)
                      (redrive-IsStaged row.extract_state set_extract extract id s
                        (set_extract-Keeps s.content id queued (λ q. cc)) there h)))
                (λ _. h)))

  pub reprocess-IsStaged :
      (id : ℕ) (s : Library) → IsStaged extra s → IsStaged extra (reprocess_paper id s)
  unfolding reprocess_paper
  reprocess-IsStaged id s h = elim (Option-cases (lookup id s.papers)) [
    | inl e ↦ rw e h
    | inr (row, e) ↦
        subst (λ found. IsStaged extra (reprocess_row id s found)) (sym e)
          (reprocess_row-IsStaged id s row e h)
  ]

  pub opened-IsStaged : (id : ℕ) (s : Library) → IsStaged extra s → IsStaged extra (get_paper id s)
  unfolding get_paper
  opened-IsStaged id s h = elim (Option-cases (lookup id s.papers)) [
    | inl e ↦ rw e h
    | inr (row, e) ↦
        subst (λ found. IsStaged extra (heal_row id s found)) (sym e)
          (if_keeps (IsStaged extra) _ _ s (λ _. enqueue-IsStaged extra trace id s tt h) (λ _. h))
  ]

  canonical_ids-append :
      (papers : Assoc PaperRow) (entry : ℕ × PaperRow)
      → canonical_ids (papers ++ entry ∷ [])
        ≡ canonical_ids papers ++ PaperRow.canonical_id entry.1 ∷ []
  canonical_ids-append [] entry = refl
  canonical_ids-append (e ∷ papers) entry =
      ap (λ ids. PaperRow.canonical_id e.1 ∷ ids) (canonical_ids-append papers entry)

  absent_mem :
      (canonical_id : Text) (papers : Assoc PaperRow)
      → find_first (has_canonical canonical_id) papers ≡ none
      → mem_text canonical_id (canonical_ids papers) ≡ false
  absent_mem canonical_id [] h = refl
  absent_mem canonical_id (e ∷ papers) h = ground (arith, absent_mem canonical_id papers)

  Distinct-added :
      (canonical_id : Text) (papers : Assoc PaperRow) (entry : ℕ × PaperRow)
      → PaperRow.canonical_id entry.1 ≡ canonical_id
      → find_first (has_canonical canonical_id) papers ≡ none
      → Distinct (canonical_ids papers)
      → Distinct (canonical_ids (papers ++ entry ∷ []))
  Distinct-added canonical_id papers entry e absent h =
      subst Distinct (sym (canonical_ids-append papers entry)) (
        subst (λ c. Distinct (canonical_ids papers ++ c ∷ [])) (sym e)
          (Distinct-snoc canonical_id (canonical_ids papers) (absent_mem canonical_id papers absent)
            h))

  find_or_add-IsStaged :
      (canonical_id title : Text) (state : StageState) (new_id : ℕ) (s : Library)
      → is_done state ≡ false
      → IsStaged extra s
      → IsStaged extra (find_or_add canonical_id title state new_id s).1
  find_or_add-IsStaged canonical_id title state new_id s e h =
      elim (Option-cases (find_first (has_canonical canonical_id) s.papers)) [
        | inr (entry, f) ↦ rw f h
        | inl f ↦ rw f (record {
          rows =
              All-append _ s.papers _ h.rows
                ((λ d. cc (d, e), λ d. cc d, λ d. cc d, λ d. cc d, λ d. cc d), tt);
          queued_jobs = h.queued_jobs;
          active_jobs = h.active_jobs;
          others = All-append _ s.papers _ h.others (extra.unparsed new_id _ refl, tt);
          texts = h.texts;
          distinct = Distinct-added canonical_id s.papers _ refl f h.distinct;
        })
      ]

  fetch_when_new-IsStaged :
      (b : Bool) (made : ℕ × Library)
      → IsStaged extra made.1
      → IsStaged extra (fetch_when_new b made).1
  fetch_when_new-IsStaged true (id, s) h = h
  fetch_when_new-IsStaged false (id, s) h = enqueue-IsStaged extra fetch id s tt h

  pub add_paper-IsStaged :
      (ids : SourceIds) (title : Text) (new_id : ℕ) (s : Library) {made : ℕ × Library}
      → IsStaged extra s
      → add_paper ids title new_id s ≡ some made
      → IsStaged extra made.1
  unfolding add_paper
  add_paper-IsStaged ids title new_id s {made} h e =
      elim (Option-cases (resolve_canonical_id ids)) [
        | inl r ↦ cc (rw r at e)
        | inr (canonical_id, r) ↦
            let found =
              fetch_when_new (any (has_canonical canonical_id) s.papers)
                (find_or_add canonical_id title queued new_id s) in
            let same : found ≡ made = cc (rw r at e) in
            subst (λ (m : ℕ × Library). IsStaged extra m.1) same
              (fetch_when_new-IsStaged (any (has_canonical canonical_id) s.papers)
                (find_or_add canonical_id title queued new_id s)
                (find_or_add-IsStaged canonical_id title queued new_id s refl h))
      ]

  stub-IsStaged :
      (ids : SourceIds) (title : Text) (new_id : ℕ) (s : Library)
      → IsStaged extra s
      → IsStaged extra (or_same s (add_reference_stub ids title new_id s))
  unfolding add_reference_stub
  stub-IsStaged ids title new_id s h = elim (Option-cases (resolve_canonical_id ids)) [
    | inl e ↦ rw e h
    | inr (canonical_id, e) ↦ rw e (find_or_add-IsStaged canonical_id title skipped new_id s refl h)
  ]

  pub add_stubs-IsStaged :
      (references : List (SourceIds × Text × ℕ)) (s : Library)
      → IsStaged extra s
      → IsStaged extra (add_stubs references s)
  add_stubs-IsStaged [] s h = h
  add_stubs-IsStaged ((ids, title, new_id) ∷ rest) s h =
      add_stubs-IsStaged rest (or_same s (add_reference_stub ids title new_id s))
        (stub-IsStaged ids title new_id s h)

  stub-content :
      (ids : SourceIds) (title : Text) (new_id : ℕ) (s : Library)
      → (or_same s (add_reference_stub ids title new_id s)).content ≡ s.content
  unfolding add_reference_stub
  stub-content ids title new_id s = elim (Option-cases (resolve_canonical_id ids)) [
    | inl e ↦ rw e refl
    | inr (canonical_id, e) ↦
        rw e (elim (Option-cases (find_first (has_canonical canonical_id) s.papers)) [
          | inl f ↦ rw f refl
          | inr (entry, f) ↦ rw f refl
        ])
  ]

  pub add_stubs-content :
      (references : List (SourceIds × Text × ℕ)) (s : Library)
      → (add_stubs references s).content ≡ s.content
  add_stubs-content [] s = refl
  add_stubs-content ((ids, title, new_id) ∷ rest) s =
      add_stubs-content rest (or_same s (add_reference_stub ids title new_id s))
      ∙ stub-content ids title new_id s
