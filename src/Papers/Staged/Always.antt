-- ===== src/Papers/Staged/Always.antt =====
-- What every succession of steps of backend/papers/__init__.py keeps of the stages.
use ai_powered_research_work.Prelude.{
  ℕ, ◌≡◌, refl, sym, subst, Bool, true, false, Option, none, some, List, [], ◌∷◌, ◌++◌, Text, any,
  All, if◌then◌else◌,
}
use ai_powered_research_work.Prelude.Assoc.{Assoc}
use ai_powered_research_work.Papers.CanonicalId.{SourceIds}
use ai_powered_research_work.Papers.Pipeline.{
  running, done, failed, degraded, JobKind, fetch, parse, extract, embed, trace, enrich, Job,
  Library, enqueue, update, set_fetch, set_parse, set_embed, set_extract, set_references,
}
use ai_powered_research_work.Papers.Jobs.{
  FetchEnd, fetched, unavailable, fetch_raised, JobEnv, is_in, begin_kind, begin, set_fetched,
  with_content, with_cards, finish_kind, finish, add_stubs, finish_fetch, finish_parse,
  finish_extract, finish_trace, after_card, has_field, with_queue, with_active,
}
use ai_powered_research_work.Papers.Steps.{
  Step, added, retried, opened, began, finished, lost, Reach, here, next, empty,
}
use ai_powered_research_work.Papers.Staged.{
  Extra, plain, KindOk, JobOk, IsStaged, if_keeps, update-IsStaged, enqueue-IsStaged,
  activate-IsStaged, with_content-IsStaged, is_in_added,
}
use ai_powered_research_work.Papers.Staged.Requests.{
  set_fetch-Keeps, set_parse-Keeps, set_embed-Keeps, set_extract-Keeps, set_references-Keeps,
  set_fetched-Keeps, parsed-Keeps, reprocess-IsStaged, opened-IsStaged, add_paper-IsStaged,
  add_stubs-IsStaged, add_stubs-content,
}

module _ (extra : Extra) where
  -- Without one of the jobs of a list.
  without_one :
      (content : Assoc Text) (before : List Job) (job : Job) (later : List Job)
      → All (JobOk content) (before ++ (job ∷ later))
      → JobOk content job × All (JobOk content) (before ++ later)
  without_one content [] job later h = h
  without_one content (b ∷ before) job later h =
      let rest = without_one content before job later h.1 in (rest.0, (h.0, rest.1))

  begin-IsStaged :
      (job : Job) (s : Library)
      → JobOk s.content job
      → IsStaged extra s
      → IsStaged extra (begin job s)
  unfolding begin
  begin-IsStaged job s ok h = begin_kind-IsStaged job.kind ok
    where
      begin_kind-IsStaged :
          (kind : JobKind)
          → KindOk s.content kind job.paper_id
          → IsStaged extra (begin_kind kind job job.paper_id s)
      begin_kind-IsStaged fetch k =
          if_keeps (IsStaged extra) _ _ s (λ _. activate-IsStaged extra job s ok h) (λ _. h)
      begin_kind-IsStaged parse k =
          if_keeps (IsStaged extra) _ _ s
            (λ _. activate-IsStaged extra job _ ok (
              update-IsStaged extra job.paper_id _ s
                (set_parse-Keeps extra s.content job.paper_id running refl) h))
            (λ _. h)
      begin_kind-IsStaged embed k = activate-IsStaged extra job _ ok (
          update-IsStaged extra job.paper_id _ s
            (set_embed-Keeps extra s.content job.paper_id running (λ d. cc)) h)
      begin_kind-IsStaged extract k = activate-IsStaged extra job _ ok (
          update-IsStaged extra job.paper_id _ s
            (set_extract-Keeps extra s.content job.paper_id running (λ d. cc)) h)
      begin_kind-IsStaged trace k = activate-IsStaged extra job _ ok (
          update-IsStaged extra job.paper_id _ s
            (set_references-Keeps extra s.content job.paper_id running (λ d. cc)) h)
      begin_kind-IsStaged enrich k = activate-IsStaged extra job s ok h

  module _ (id : ℕ) (s : Library) (h : IsStaged extra s) where
    finish_fetch-IsStaged : (end : FetchEnd) → IsStaged extra (finish_fetch end id s)
    finish_fetch-IsStaged (fetched path) =
        enqueue-IsStaged extra parse id (update id (set_fetched path) s) tt (
          update-IsStaged extra id (set_fetched path) s (set_fetched-Keeps extra s.content id path)
            h)
    finish_fetch-IsStaged unavailable =
        update-IsStaged extra id (set_fetch degraded) s
          (set_fetch-Keeps extra s.content id degraded refl) h
    finish_fetch-IsStaged fetch_raised = h

    finish_parse-IsStaged : (parsed : Option Text) → IsStaged extra (finish_parse parsed id s)
    finish_parse-IsStaged none = h
    finish_parse-IsStaged (some text) =
        let stored = with_content id text s in
        let there = is_in_added id text s.content in
        let written = update id (set_parse done) stored in
        if_keeps (IsStaged extra) (is_in id s.content) s _ (λ _. h)
          (λ absent.
            enqueue-IsStaged extra trace id (enqueue embed id (enqueue extract id written)) tt (
              enqueue-IsStaged extra embed id (enqueue extract id written) there (
                enqueue-IsStaged extra extract id written there (
                  update-IsStaged extra id (set_parse done) stored
                    (parsed-Keeps extra stored.content s.content id there h.texts absent)
                    (with_content-IsStaged extra id text s h)))))

    module _ (there : is_in id s.content ≡ true) where
      finish_extract-IsStaged :
          (card : Option (List Text)) (edges_written : Bool)
          → IsStaged extra (finish_extract card edges_written id s)
      finish_extract-IsStaged none edges_written =
          update-IsStaged extra id (set_extract failed) s
            (set_extract-Keeps extra s.content id failed (λ d. cc)) h
      finish_extract-IsStaged (some fields) edges_written =
          if_keeps (IsStaged extra) (any (has_field id s.cards) fields) s _ (λ _. h)
            (λ _. after edges_written (
              update-IsStaged extra id (set_extract done) (with_cards id fields s)
                (set_extract-Keeps extra s.content id done (λ _. there)) carded))
        where
          carded : IsStaged extra (with_cards id fields s)
          carded = record {
            rows = h.rows;
            queued_jobs = h.queued_jobs;
            active_jobs = h.active_jobs;
            others = h.others;
            texts = h.texts;
            distinct = h.distinct;
          }

          after :
              (b : Bool)
              → IsStaged extra (update id (set_extract done) (with_cards id fields s))
              → IsStaged extra
                  (after_card b id (update id (set_extract done) (with_cards id fields s)))
          after true k = enqueue-IsStaged extra enrich id _ there k
          after false k = k

      finish_trace-IsStaged :
          (references : Option (List (SourceIds × Text × ℕ)))
          → IsStaged extra (finish_trace references id s)
      finish_trace-IsStaged none =
          update-IsStaged extra id (set_references failed) s
            (set_references-Keeps extra s.content id failed (λ d. cc)) h
      finish_trace-IsStaged (some references) =
          let stubbed = add_stubs references s in
          update-IsStaged extra id (set_references done) stubbed
            (set_references-Keeps extra stubbed.content id done (λ _.
              subst (λ c. is_in id c ≡ true) (sym (add_stubs-content extra references s)) there))
            (add_stubs-IsStaged extra references s h)

  finish_kind-IsStaged :
      (kind : JobKind) (env : JobEnv) (id : ℕ) (s : Library)
      → KindOk s.content kind id
      → IsStaged extra s
      → IsStaged extra (finish_kind kind env id s)
  finish_kind-IsStaged fetch env id s k h = finish_fetch-IsStaged id s h env.fetch_end
  finish_kind-IsStaged parse env id s k h = finish_parse-IsStaged id s h env.parsed
  finish_kind-IsStaged embed env id s k h =
      update-IsStaged extra id (set_embed (if env.embedded then done else failed)) s
        (set_embed-Keeps extra s.content id _ (λ _. k)) h
  finish_kind-IsStaged extract env id s k h =
      if_keeps (IsStaged extra) (is_in id s.content) _ s
        (λ there. finish_extract-IsStaged id s h there env.card env.edges_written) (λ _. h)
  finish_kind-IsStaged trace env id s k h =
      if_keeps (IsStaged extra) (is_in id s.content) _ s
        (λ there. finish_trace-IsStaged id s h there env.references) (λ _. h)
  finish_kind-IsStaged enrich env id s k h = h

  with_queue-IsStaged :
      (queue : List Job) (s : Library)
      → All (JobOk s.content) queue
      → IsStaged extra s
      → IsStaged extra (with_queue queue s)
  with_queue-IsStaged queue s q h = record {
    rows = h.rows;
    queued_jobs = q;
    active_jobs = h.active_jobs;
    others = h.others;
    texts = h.texts;
    distinct = h.distinct;
  }

  with_active-IsStaged :
      (active : List Job) (s : Library)
      → All (JobOk s.content) active
      → IsStaged extra s
      → IsStaged extra (with_active active s)
  with_active-IsStaged active s a h = record {
    rows = h.rows;
    queued_jobs = h.queued_jobs;
    active_jobs = a;
    others = h.others;
    texts = h.texts;
    distinct = h.distinct;
  }

  Step-IsStaged : {s t : Library} → Step s t → IsStaged extra s → IsStaged extra t
  unfolding finish
  Step-IsStaged {s} (added ids title new_id made) h =
      add_paper-IsStaged extra ids title new_id s h made
  Step-IsStaged {s} (retried id) h = reprocess-IsStaged extra id s h
  Step-IsStaged {s} (opened id) h = opened-IsStaged extra id s h
  Step-IsStaged {s} (began before job later e) h =
      let (ok, rest) =
        without_one s.content before job later (subst (All (JobOk s.content)) e h.queued_jobs) in
      begin-IsStaged job (with_queue (before ++ later) s) ok
        (with_queue-IsStaged (before ++ later) s rest h)
  Step-IsStaged {s} (finished before job later env e) h =
      let (ok, rest) =
        without_one s.content before job later (subst (All (JobOk s.content)) e h.active_jobs) in
      finish_kind-IsStaged job.kind env job.paper_id (with_active (before ++ later) s) ok
        (with_active-IsStaged (before ++ later) s rest h)
  Step-IsStaged {s} (lost before job later e) h =
      with_active-IsStaged (before ++ later) s
        (without_one s.content before job later (subst (All (JobOk s.content)) e h.active_jobs)).1 h

  pub Reach-Kept : {s t : Library} → Reach s t → IsStaged extra s → IsStaged extra t
  Reach-Kept here h = h
  Reach-Kept (next r step) h = Step-IsStaged step (Reach-Kept r h)

-- Whatever requests come and however the jobs interleave, fail or are lost, from an empty library
-- on: a paper whose fetch is done has its PDF; one whose parse, chunks, card or references are
-- done has its text; the jobs that need the text are made only when it is there; and no two papers
-- have the same canonical id.
pub Reach-IsStaged : {s : Library} → Reach empty s → IsStaged plain s
Reach-IsStaged r = Reach-Kept plain r (record {
  rows = tt;
  queued_jobs = tt;
  active_jobs = tt;
  others = tt;
  texts = tt;
  distinct = tt;
})
