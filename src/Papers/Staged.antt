-- ===== src/Papers/Staged.antt =====
-- What is stated of the stages of a paper, and the writes that keep it: lemmas about
-- backend/papers/__init__.py.
pub mod Requests
pub mod Always
use ai_powered_research_work.Prelude.{
  ℕ, ◌≡◌, refl, sym, ap, ◌∙◌, subst, inl, inr, Bool, true, false, not, ◌&&◌, ◌||◌, Option, none,
  some, List, [], ◌∷◌, ◌++◌, map, arith, Text, text_eq, any, find_first, All, All-append, All-map,
  ◌==◌, ==_iff, if◌then◌else◌, Bool-cases, Option-cases,
}
use ai_powered_research_work.Prelude.Assoc.{Assoc, lookup}
use ai_powered_research_work.Prelude.Fresh.{mem_text, Distinct}
use ai_powered_research_work.Papers.Pipeline.{
  StageState, queued, running, done, failed, degraded, skipped, PaperRow, JobKind, fetch, parse,
  extract, embed, trace, enrich, Job, Library, enqueue, with_papers, change, update, is_done,
  is_terminal, has_canonical, find_or_add, add_paper, add_reference_stub, set_fetch, set_parse,
  set_embed, set_extract, set_references, redrive, reprocess_row, reprocess_paper, get_paper,
}
use ai_powered_research_work.Papers.Jobs.{
  JobEnv, activate, is_stored, has_pdf, is_in, begin_kind, begin, set_fetched, with_content,
  with_cards, finish_kind, finish, add_stubs, with_queue, with_active,
}
use ai_powered_research_work.Papers.Steps.{
  Step, added, retried, opened, began, finished, lost, Reach, here, next, empty,
}

-- A fetched paper has its PDF; a paper whose parse, card, chunks or references are done has its
-- text in the table.
abbrev pub RowOk : Assoc Text → ℕ × PaperRow → Type 0
RowOk content (id, row) =
    (is_done row.fetch_state ≡ true → is_stored row.pdf_path ≡ true)
    × (is_done row.parse_state ≡ true → is_in id content ≡ true)
    × (is_done row.embed_state ≡ true → is_in id content ≡ true)
    × (is_done row.extract_state ≡ true → is_in id content ≡ true)
    × (is_done row.references_state ≡ true → is_in id content ≡ true)

-- The jobs that use the text of a paper are made when it is there; the tracing looks for it.
abbrev pub KindOk : Assoc Text → JobKind → ℕ → Type 0
KindOk content fetch id = Unit
KindOk content parse id = Unit
KindOk content extract id = is_in id content ≡ true
KindOk content embed id = is_in id content ≡ true
KindOk content trace id = Unit
KindOk content enrich id = is_in id content ≡ true

abbrev pub JobOk : Assoc Text → Job → Type 0
JobOk content job = KindOk content job.kind job.paper_id

abbrev pub canonical_ids : Assoc PaperRow → List Text
canonical_ids papers = map (λ entry. PaperRow.canonical_id entry.1) papers

-- What a branch keeps.
pub if_keeps :
    (P : Library → Type 0) (b : Bool) (x y : Library)
    → (b ≡ true → P x)
    → (b ≡ false → P y)
    → P (if b then x else y)
if_keeps P true x y f g = f refl
if_keeps P false x y f g = g refl

pub change-All :
    (P : ℕ × PaperRow → Type 0) (id : ℕ) (f : PaperRow → PaperRow) (papers : Assoc PaperRow)
    → ((row : PaperRow) → P (id, row) → P (id, f row))
    → All P papers
    → All P (change id f papers)
change-All P id f [] k h = tt
change-All P id f ((j, row) ∷ rest) k h = elim (Bool-cases (id == j)) [
  | inl e ↦
      let same : id ≡ j = (==_iff id j).0 e in
      rw e (
        subst (λ i. P (i, f row)) same (k row (subst (λ i. P (i, row)) (sym same) h.0)),
        change-All P id f rest k h.1,
      )
  | inr e ↦ rw e (h.0, change-All P id f rest k h.1)
]

pub is_in-append :
    (i : ℕ) (content : Assoc Text) (entry : ℕ × Text)
    → is_in i content ≡ true
    → is_in i (content ++ entry ∷ []) ≡ true
is_in-append i [] entry h = cc
is_in-append i (e ∷ content) entry h = ground (arith, is_in-append i content entry)

pub is_in_added :
    (id : ℕ) (text : Text) (content : Assoc Text) → is_in id (content ++ (id, text) ∷ []) ≡ true
is_in_added id text [] = ground arith
is_in_added id text (e ∷ content) = ground (arith, is_in_added id text content)

RowOk-append :
    (content : Assoc Text) (more : ℕ × Text) (entry : ℕ × PaperRow)
    → RowOk content entry
    → RowOk (content ++ more ∷ []) entry
RowOk-append content more (id, row) h = (
  h.0,
  λ d. is_in-append id content more (h.1 d),
  λ d. is_in-append id content more (h.2 d),
  λ d. is_in-append id content more (h.3 d),
  λ d. is_in-append id content more (h.4 d),
)

KindOk-append :
    (content : Assoc Text) (more : ℕ × Text) (kind : JobKind) (id : ℕ)
    → KindOk content kind id
    → KindOk (content ++ more ∷ []) kind id
KindOk-append content more fetch id h = tt
KindOk-append content more parse id h = tt
KindOk-append content more extract id h = is_in-append id content more h
KindOk-append content more embed id h = is_in-append id content more h
KindOk-append content more trace id h = tt
KindOk-append content more enrich id h = is_in-append id content more h

-- A further statement about rows that only the end of a parse can touch, and one about the texts.
pub record Extra : Type 1 where
  pub Row : ℕ × PaperRow → Type 0
  pub Texts : Assoc Text → Type 0
  pub unparsed : (id : ℕ) (row : PaperRow) → is_done row.parse_state ≡ false → Row (id, row)
  pub same_parse :
      (id : ℕ) (row changed : PaperRow)
      → changed.parse_state ≡ row.parse_state
      → Row (id, row)
      → Row (id, changed)
  pub just_parsed :
      (id : ℕ) (content : Assoc Text) (row : PaperRow)
      → Texts content
      → is_in id content ≡ false
      → Row (id, row)
  pub more_texts :
      (content : Assoc Text) (entry : ℕ × Text) → Texts content → Texts (content ++ entry ∷ [])

abbrev pub plain : Extra
plain = record {
  Row = λ entry. Unit;
  Texts = λ content. Unit;
  unparsed = λ id row e. tt;
  same_parse = λ id row changed e r. tt;
  just_parsed = λ id content row texts absent. tt;
  more_texts = λ content entry texts. tt;
}

module _ (extra : Extra) where
  pub record IsStaged (s : Library) : Type 0 where
    pub rows : All (RowOk s.content) s.papers
    pub queued_jobs : All (JobOk s.content) s.queue
    pub active_jobs : All (JobOk s.content) s.active
    pub others : All extra.Row s.papers
    pub texts : extra.Texts s.content
    pub distinct : Distinct (canonical_ids s.papers)

  -- A write that keeps what is stated of a row, and its canonical id.
  pub record Keeps (content : Assoc Text) (id : ℕ) (f : PaperRow → PaperRow) : Type 0 where
    pub same : (row : PaperRow) → PaperRow.canonical_id (f row) ≡ row.canonical_id
    pub others : (row : PaperRow) → extra.Row (id, row) → extra.Row (id, f row)
    pub keeps : (row : PaperRow) → RowOk content (id, row) → RowOk content (id, f row)

  change-canonical_ids :
      (content : Assoc Text) (id : ℕ) (f : PaperRow → PaperRow) (papers : Assoc PaperRow)
      → Keeps content id f
      → canonical_ids (change id f papers) ≡ canonical_ids papers
  change-canonical_ids content id f [] k = refl
  change-canonical_ids content id f ((j, row) ∷ rest) k =
      ground (arith, k.same row, change-canonical_ids content id f rest k)

  pub update-IsStaged :
      (id : ℕ) (f : PaperRow → PaperRow) (s : Library)
      → Keeps s.content id f
      → IsStaged s
      → IsStaged (update id f s)
  update-IsStaged id f s k h = record {
    rows = change-All (RowOk s.content) id f s.papers k.keeps h.rows;
    queued_jobs = h.queued_jobs;
    active_jobs = h.active_jobs;
    others = change-All extra.Row id f s.papers k.others h.others;
    texts = h.texts;
    distinct = subst Distinct (sym (change-canonical_ids s.content id f s.papers k)) h.distinct;
  }

  pub enqueue-IsStaged :
      (kind : JobKind) (id : ℕ) (s : Library)
      → KindOk s.content kind id
      → IsStaged s
      → IsStaged (enqueue kind id s)
  enqueue-IsStaged kind id s ok h = record {
    rows = h.rows;
    queued_jobs = All-append _ s.queue _ h.queued_jobs (ok, tt);
    active_jobs = h.active_jobs;
    others = h.others;
    texts = h.texts;
    distinct = h.distinct;
  }

  pub activate-IsStaged :
      (job : Job) (s : Library) → JobOk s.content job → IsStaged s → IsStaged (activate job s)
  activate-IsStaged job s ok h = record {
    rows = h.rows;
    queued_jobs = h.queued_jobs;
    active_jobs = All-append _ s.active _ h.active_jobs (ok, tt);
    others = h.others;
    texts = h.texts;
    distinct = h.distinct;
  }

  pub with_content-IsStaged :
      (id : ℕ) (text : Text) (s : Library) → IsStaged s → IsStaged (with_content id text s)
  with_content-IsStaged id text s h =
      let more : (job : Job) → JobOk s.content job → JobOk (s.content ++ (id, text) ∷ []) job =
        λ job ok. KindOk-append s.content (id, text) job.kind job.paper_id ok in
      record {
        rows = All-map s.papers (RowOk-append s.content (id, text)) h.rows;
        queued_jobs = All-map s.queue more h.queued_jobs;
        active_jobs = All-map s.active more h.active_jobs;
        others = h.others;
        texts = extra.more_texts s.content (id, text) h.texts;
        distinct = h.distinct;
      }
