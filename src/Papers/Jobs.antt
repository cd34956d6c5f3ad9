-- ===== src/Papers/Jobs.antt =====
-- The jobs of backend/papers/__init__.py: `begin` is what a worker does up to the long call of a
-- job, and `finish` the rest. An exception ends a job; what it had committed stays.
use ai_powered_research_work.Prelude.{
  ℕ, Bool, true, false, ◌&&◌, Option, none, some, List, [], ◌∷◌, ◌++◌, map, Text, any, text_eq,
  ◌==◌, if◌then◌else◌,
}
use ai_powered_research_work.Prelude.Assoc.{Assoc, lookup}
use ai_powered_research_work.Papers.CanonicalId.{SourceIds}
use ai_powered_research_work.Papers.Pipeline.{
  running, done, failed, degraded, PaperRow, JobKind, fetch, parse, extract, embed, trace, enrich,
  Job, Library, enqueue, update, set_fetch, set_parse, set_embed, set_extract, set_references,
  add_reference_stub,
}

-- `_fetch_pdf`: the path of the stored bytes, no open copy or an HTTP error, or another exception.
pub data FetchEnd : Type 0 where
  fetched : Text → FetchEnd
  unavailable fetch_raised : FetchEnd

-- What the job meets; `none` is an exception, and for the card that every window failed.
pub record JobEnv : Type 0 where
  pub fetch_end : FetchEnd
  pub parsed : Option Text
  pub embedded : Bool
  -- the keys of the fields that were stated and anchored
  pub card : Option (List Text)
  pub edges_written : Bool
  -- the references, each with an id for a new row
  pub references : Option (List (SourceIds × Text × ℕ))

abbrev pub activate : Job → Library → Library
activate job s = record {
  papers = s.papers;
  content = s.content;
  cards = s.cards;
  queue = s.queue;
  active = s.active ++ job ∷ [];
}

abbrev pub is_stored : Option Text → Bool
is_stored none = false
is_stored (some path) = true

abbrev pub exists : Option PaperRow → Bool
exists none = false
exists (some row) = true

-- Whether there is a row, with the path of a PDF.
abbrev pub has_pdf : Option PaperRow → Bool
has_pdf none = false
has_pdf (some row) = is_stored row.pdf_path

abbrev pub is_in : ℕ → Assoc Text → Bool
is_in id content = any (λ entry. entry.0 == id) content

abbrev pub begin_kind : JobKind → Job → ℕ → Library → Library
begin_kind fetch job id s = if exists (lookup id s.papers) then activate job s else s
begin_kind parse job id s =
    if has_pdf (lookup id s.papers) then activate job (update id (set_parse running) s) else s
begin_kind embed job id s = activate job (update id (set_embed running) s)
begin_kind extract job id s = activate job (update id (set_extract running) s)
begin_kind trace job id s = activate job (update id (set_references running) s)
begin_kind enrich job id s = activate job s

unfoldable pub begin : Job → Library → Library
begin job s = begin_kind job.kind job job.paper_id s

abbrev pub set_fetched : Text → PaperRow → PaperRow
set_fetched path row = record row { pdf_path = some path; fetch_state = done }

abbrev pub finish_fetch : FetchEnd → ℕ → Library → Library
finish_fetch (fetched path) id s = enqueue parse id (update id (set_fetched path) s)
finish_fetch unavailable id s = update id (set_fetch degraded) s
finish_fetch fetch_raised id s = s

abbrev pub with_content : ℕ → Text → Library → Library
with_content id text s = record {
  papers = s.papers;
  content = s.content ++ (id, text) ∷ [];
  cards = s.cards;
  queue = s.queue;
  active = s.active;
}

-- `paper_id` is the primary key of `paper_content`: a second row is an IntegrityError.
abbrev pub finish_parse : Option Text → ℕ → Library → Library
finish_parse none id s = s
finish_parse (some text) id s =
    if is_in id s.content
    then s
    else enqueue trace id (
        enqueue embed id (enqueue extract id (update id (set_parse done) (with_content id text s))))

abbrev pub finish_embed : Bool → ℕ → Library → Library
finish_embed embedded id s = update id (set_embed (if embedded then done else failed)) s

abbrev pub has_field : ℕ → List (ℕ × Text) → Text → Bool
has_field id cards field = any (λ card. (card.0 == id) && text_eq card.1 field) cards

abbrev pub with_cards : ℕ → List Text → Library → Library
with_cards id fields s = record {
  papers = s.papers;
  content = s.content;
  cards = s.cards ++ map (λ field. (id, field)) fields;
  queue = s.queue;
  active = s.active;
}

abbrev pub after_card : Bool → ℕ → Library → Library
after_card true id s = enqueue enrich id s
after_card false id s = s

-- A second card of a field is an IntegrityError, which the job does not catch.
abbrev pub finish_extract : Option (List Text) → Bool → ℕ → Library → Library
finish_extract none edges_written id s = update id (set_extract failed) s
finish_extract (some fields) edges_written id s =
    if any (has_field id s.cards) fields
    then s
    else after_card edges_written id (update id (set_extract done) (with_cards id fields s))

abbrev pub or_same : Library → Option (ℕ × Library) → Library
or_same s none = s
or_same s (some added) = added.1

abbrev pub add_stubs : List (SourceIds × Text × ℕ) → Library → Library
add_stubs [] s = s
add_stubs ((ids, title, new_id) ∷ rest) s =
    add_stubs rest (or_same s (add_reference_stub ids title new_id s))

abbrev pub finish_trace : Option (List (SourceIds × Text × ℕ)) → ℕ → Library → Library
finish_trace none id s = update id (set_references failed) s
finish_trace (some references) id s = update id (set_references done) (add_stubs references s)

-- Extraction and tracing return early without the content of the paper.
abbrev pub finish_kind : JobKind → JobEnv → ℕ → Library → Library
finish_kind fetch env id s = finish_fetch env.fetch_end id s
finish_kind parse env id s = finish_parse env.parsed id s
finish_kind embed env id s = finish_embed env.embedded id s
finish_kind extract env id s =
    if is_in id s.content then finish_extract env.card env.edges_written id s else s
finish_kind trace env id s = if is_in id s.content then finish_trace env.references id s else s
finish_kind enrich env id s = s

unfoldable pub finish : Job → JobEnv → Library → Library
unfolding add_reference_stub
finish job env s = finish_kind job.kind env job.paper_id s

abbrev pub with_queue : List Job → Library → Library
with_queue queue s = record {
  papers = s.papers;
  content = s.content;
  cards = s.cards;
  queue = queue;
  active = s.active;
}

abbrev pub with_active : List Job → Library → Library
with_active active s = record {
  papers = s.papers;
  content = s.content;
  cards = s.cards;
  queue = s.queue;
  active = active;
}
