-- ===== src/Papers/Recovers.antt =====
-- How retries of backend/papers/__init__.py bring a paper that is not stuck to its end.
pub mod Behind
pub mod Ends
use ai_powered_research_work.Prelude.{
  ℕ, zero, suc, ◌+◌, ◌≤◌, ◌<◌, ◌≡◌, refl, sym, ap, ◌∙◌, subst, ◌⊎◌, inl, inr, Bool, true, false,
  not, ◌&&◌, Option, none, some, List, [], ◌∷◌, ◌++◌, arith, Text, codes, any, All, ◌==◌, ==_iff,
  if◌then◌else◌, Bool-cases, Option-cases,
}
use ai_powered_research_work.Prelude.Assoc.{Assoc, lookup}
use ai_powered_research_work.Papers.Pipeline.{
  StageState, queued, running, done, failed, degraded, skipped, PaperRow, JobKind, fetch, parse,
  extract, embed, trace, Job, Library, enqueue, change, update, is_done, is_terminal, set_fetch,
  set_parse, set_embed, set_extract, set_references, redrive, reprocess_row, reprocess_paper,
}
use ai_powered_research_work.Papers.Jobs.{
  fetched, JobEnv, activate, exists, is_stored, has_pdf, is_in, begin, finish, set_fetched,
  with_queue, with_active,
}
use ai_powered_research_work.Papers.Steps.{Step, retried, began, finished, Reach, here, next}
use ai_powered_research_work.Papers.Staged.{is_in_added}

pub lookup-change :
    (id : ℕ) (f : PaperRow → PaperRow) (papers : Assoc PaperRow) (row : PaperRow)
    → lookup id papers ≡ some row
    → lookup id (change id f papers) ≡ some (f row)
unfolding lookup
lookup-change id f [] row h = cc h
lookup-change id f ((j, r) ∷ papers) row h = ground (arith, lookup-change id f papers row)

abbrev pub weight : StageState → ℕ
weight state = if is_terminal state then 0 else 1

pub not_done : (state : StageState) → is_terminal state ≡ false → is_done state ≡ false
not_done queued e = refl
not_done running e = refl
not_done done e = cc e
not_done failed e = refl
not_done degraded e = refl
not_done skipped e = refl

pub done_terminal : (state : StageState) → is_done state ≡ true → is_terminal state ≡ true
done_terminal queued e = cc e
done_terminal running e = cc e
done_terminal done e = refl
done_terminal failed e = cc e
done_terminal degraded e = refl
done_terminal skipped e = cc e

-- The number of stages that are not at an end.
abbrev pub left : PaperRow → ℕ
left row =
    weight row.fetch_state
    + weight row.parse_state
    + weight row.embed_state
    + weight row.extract_state
    + weight row.references_state

-- A run in which the sources, the parser and the models answer.
abbrev pub answering : JobEnv
answering = record {
  fetch_end = fetched (codes "paper.pdf");
  parsed = some [];
  embedded = true;
  card = some [];
  edges_written = true;
  references = some [];
}

module _ (id : ℕ) where
  -- A paper whose text is in the table exactly when its parse is done, and whose fetch gave a file.
  pub record IsSound (s : Library) (row : PaperRow) : Type 0 where
    pub found : lookup id s.papers ≡ some row
    pub file : is_done row.fetch_state ≡ true → is_stored row.pdf_path ≡ true
    pub texts : is_in id s.content ≡ is_done row.parse_state

  abbrev pub job : JobKind → Job
  job kind = record { kind = kind; paper_id = id }

  -- The library after the last job of the queue began and finished.
  abbrev pub ran : JobKind → Library → Library
  ran kind s = finish (job kind) answering (with_active (s.active ++ []) (activate (job kind) s))

  pub run_last :
      (kind : JobKind) (s t u : Library) (q : List Job)
      → Reach s t
      → t.queue ≡ q ++ (job kind ∷ [])
      → begin (job kind) (with_queue (q ++ []) t) ≡ activate (job kind) u
      → Reach s (ran kind u)
  run_last kind s t u q r e b =
      next (subst (Reach s) b (next r (began q (job kind) [] e)))
        (finished u.active (job kind) [] answering refl)

  -- A retry, and the last job that it enqueued.
  abbrev pub Progress : Library → PaperRow → Type 0
  Progress s row =
      (t : Library) × (later : PaperRow) × Reach s t × IsSound t later × (left later < left row)

  pub retry-Reach : (s t : Library) → reprocess_paper id s ≡ t → Reach s t
  retry-Reach s t e = subst (Reach s) e (next here (retried id))

  pub fetch-Progress :
      (s : Library) (row : PaperRow)
      → IsSound s row
      → is_terminal row.fetch_state ≡ false
      → Progress s row
  unfolding reprocess_paper begin finish
  fetch-Progress s row h e =
      let reset = update id (set_fetch queued) s in
      let again = enqueue fetch id reset in
      let waiting = with_queue (s.queue ++ []) again in
      let there = lookup-change id (set_fetch queued) s.papers row h.found in
      (
        ran fetch waiting,
        set_fetched (codes "paper.pdf") (set_fetch queued row),
        run_last fetch s again waiting s.queue (retry-Reach s again (rw (h.found, e) refl)) refl
            (rw there refl),
        record {
          found = lookup-change id (set_fetched (codes "paper.pdf")) _ _ there;
          file = λ d. refl;
          texts = h.texts;
        },
        ground (arith, e),
      )

  pub parse-Progress :
      (s : Library) (row : PaperRow)
      → IsSound s row
      → is_done row.fetch_state ≡ true
      → is_terminal row.parse_state ≡ false
      → Progress s row
  unfolding reprocess_paper begin finish
  parse-Progress s row h d e =
      let reset = update id (set_parse queued) s in
      let again = enqueue parse id reset in
      let waiting = with_queue (s.queue ++ []) again in
      let there = lookup-change id (set_parse queued) s.papers row h.found in
      let begun = update id (set_parse running) waiting in
      let parsing = lookup-change id (set_parse running) _ _ there in
      let absent : is_in id s.content ≡ false = h.texts ∙ not_done row.parse_state e in
      let u = ran parse begun in
      (
        u,
        set_parse done (set_parse running (set_parse queued row)),
        run_last parse s again begun s.queue
            (retry-Reach s again (rw (h.found, done_terminal row.fetch_state d, d, e) refl)) refl
            (rw (there, h.file d) refl),
        rw absent (record {
          found = lookup-change id (set_parse done) _ _ parsing;
          file = h.file;
          texts = is_in_added id [] s.content;
        }),
        ground (arith, e),
      )
