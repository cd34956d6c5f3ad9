-- ===== src/Papers/Recovers/Behind.antt =====
-- The stages behind the parse in backend/papers/__init__.py: a retry runs one that is not at its end.
use ai_powered_research_work.Prelude.{
  ℕ, ◌≡◌, ◌<◌, refl, sym, ap, ◌∙◌, inl, inr, true, false, [], ◌++◌, arith, Bool-cases,
  if◌then◌else◌,
}
use ai_powered_research_work.Prelude.Assoc.{lookup}
use ai_powered_research_work.Papers.Pipeline.{
  StageState, queued, running, done, PaperRow, JobKind, extract, embed, trace, Library, enqueue,
  update, change, is_done, is_terminal, set_embed, set_extract, set_references, redrive,
  reprocess_paper,
}
use ai_powered_research_work.Papers.Jobs.{
  activate, is_stored, is_in, begin, finish, with_queue, with_active,
}
use ai_powered_research_work.Papers.Recovers.{
  lookup-change, done_terminal, left, answering, IsSound, job, ran, run_last, Progress, retry-Reach,
}

module _ (id : ℕ) where
  -- The setter of a stage behind the parse.
  record IsBehind (set : StageState → PaperRow → PaperRow) : Type 0 where
    same_path : (state : StageState) (row : PaperRow) → (set state row).pdf_path ≡ row.pdf_path
    same_fetch :
        (state : StageState) (row : PaperRow) → (set state row).fetch_state ≡ row.fetch_state
    same_parse :
        (state : StageState) (row : PaperRow) → (set state row).parse_state ≡ row.parse_state

  abbrev references_behind : IsBehind set_references
  references_behind = record {
    same_path = λ state row. refl;
    same_fetch = λ state row. refl;
    same_parse = λ state row. refl;
  }

  abbrev embed_behind : IsBehind set_embed
  embed_behind = record {
    same_path = λ state row. refl;
    same_fetch = λ state row. refl;
    same_parse = λ state row. refl;
  }

  abbrev extract_behind : IsBehind set_extract
  extract_behind = record {
    same_path = λ state row. refl;
    same_fetch = λ state row. refl;
    same_parse = λ state row. refl;
  }

  module _ (set : StageState → PaperRow → PaperRow) (k : IsBehind set) where
    set-IsSound :
        (state : StageState) (s t : Library) (row : PaperRow)
        → IsSound id s row
        → t.papers ≡ change id (set state) s.papers
        → t.content ≡ s.content
        → IsSound id t (set state row)
    set-IsSound state s t row h papers content = record {
      found = ap (lookup id) papers ∙ lookup-change id (set state) s.papers row h.found;
      file = λ d.
          ap is_stored (k.same_path state row)
          ∙ h.file (sym (ap is_done (k.same_fetch state row)) ∙ d);
      texts = ap (is_in id) content ∙ h.texts ∙ sym (ap is_done (k.same_parse state row));
    }

    redrive-IsSound :
        (state : StageState) (kind : JobKind) (s : Library) (row : PaperRow)
        → IsSound id s row
        → IsSound id
            (redrive state set kind id s)
            (if is_terminal state then row else set queued row)
    redrive-IsSound state kind s row h = elim (Bool-cases (is_terminal state)) [
      | inl e ↦ rw e h
      | inr e ↦ rw e (set-IsSound queued s _ row h refl refl)
    ]

    -- A retry that enqueues the job of the stage last, and that job.
    last-Progress :
        (kind : JobKind) (s s2 : Library) (row : PaperRow)
        → IsSound id s2 row
        → reprocess_paper id s ≡ enqueue kind id (update id (set queued) s2)
        → ((u : Library)
            → begin (job id kind) u ≡ activate (job id kind) (update id (set running) u))
        → ((u : Library)
            → is_in id u.content ≡ true
            → ((finish (job id kind) answering u).papers ≡ change id (set done) u.papers)
              × ((finish (job id kind) answering u).content ≡ u.content))
        → is_done row.parse_state ≡ true
        → (left (set done (set running (set queued row))) < left row)
        → Progress id s row
    last-Progress kind s s2 row h r b f p less =
        let again = enqueue kind id (update id (set queued) s2) in
        let waiting = with_queue (s2.queue ++ []) again in
        let begun = update id (set running) waiting in
        let (papers, content) =
          f (with_active (begun.active ++ []) (activate (job id kind) begun)) (h.texts ∙ p) in
        (
          ran id kind begun,
          set done (set running (set queued row)),
          run_last id kind s again begun s2.queue (retry-Reach id s again r) refl (b waiting),
          set-IsSound done begun (ran id kind begun) (set running (set queued row))
              (set-IsSound running waiting begun (set queued row)
                (set-IsSound queued s2 waiting row h refl refl) refl refl)
              papers content,
          less,
        )

  module _ (s : Library) (row : PaperRow) (h : IsSound id s row)
      (f : is_terminal row.fetch_state ≡ true) (p : is_done row.parse_state ≡ true) where
    -- The branch behind the parse.
    behind :
        reprocess_paper id s
        ≡ redrive row.references_state set_references trace id (
            redrive row.embed_state set_embed embed id
              (redrive row.extract_state set_extract extract id s))
    unfolding reprocess_paper
    behind = elim (Bool-cases (is_done row.fetch_state)) [
      | inl d ↦ rw (h.found, f, done_terminal row.parse_state p, p, d) refl
      | inr d ↦ rw (h.found, f, done_terminal row.parse_state p, p, d) refl
    ]

    pub trace-Progress : is_terminal row.references_state ≡ false → Progress id s row
    unfolding begin finish
    trace-Progress e =
        let row1 = if is_terminal row.extract_state then row else set_extract queued row in
        let s1 = redrive row.extract_state set_extract extract id s in
        let row2 = if is_terminal row.embed_state then row1 else set_embed queued row1 in
        let s2 = redrive row.embed_state set_embed embed id s1 in
        let (t, later, reached, sound, less) =
          last-Progress set_references references_behind trace s s2 row2
            (redrive-IsSound set_embed embed_behind row.embed_state embed s1 row1
              (redrive-IsSound set_extract extract_behind row.extract_state extract s row h))
            (behind ∙ rw e refl) (λ u. refl) (λ u d. rw d (refl, refl)) (ground (arith, p))
            (ground (arith, e)) in
        (t, later, reached, sound, ground (arith, less))

    module _ (g : is_terminal row.references_state ≡ true) where
      pub embed-Progress : is_terminal row.embed_state ≡ false → Progress id s row
      unfolding begin finish
      embed-Progress e =
          let row1 = if is_terminal row.extract_state then row else set_extract queued row in
          let s1 = redrive row.extract_state set_extract extract id s in
          let (t, later, reached, sound, less) =
            last-Progress set_embed embed_behind embed s s1 row1
              (redrive-IsSound set_extract extract_behind row.extract_state extract s row h)
              (behind ∙ rw (g, e) refl) (λ u. refl) (λ u d. (refl, refl)) (ground (arith, p))
              (ground (arith, e)) in
          (t, later, reached, sound, ground (arith, less))

      pub extract-Progress :
          is_terminal row.embed_state ≡ true
          → is_terminal row.extract_state ≡ false
          → Progress id s row
      unfolding begin finish
      extract-Progress d e =
          last-Progress set_extract extract_behind extract s s row h (behind ∙ rw (g, d, e) refl)
            (λ u. refl) (λ u d. rw d (refl, refl)) p (ground (arith, e))
