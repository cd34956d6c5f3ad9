-- ===== src/Papers/Pipeline.antt =====
-- The stages of a paper: `add_paper`, `add_reference_stub`, `reprocess_paper`, `get_paper` and the
-- jobs of backend/papers/__init__.py. A job is two steps, since others run while it awaits: `begin`
-- is its first transaction and `finish` the rest; the fetch has one transaction, at its end. What
-- the network, the parser, the models and the vault give is an argument, and so are new ids.
use ai_powered_research_work.Prelude.{
  ℕ, Bool, true, false, not, ◌&&◌, Option, none, some, List, [], ◌∷◌, ◌++◌, Text, is_empty, any,
  find_first, text_eq, ◌==◌, if◌then◌else◌,
}
use ai_powered_research_work.Prelude.Assoc.{Assoc, lookup}
use ai_powered_research_work.Papers.CanonicalId.{SourceIds, resolve_canonical_id}

pub data StageState : Type 0 where
  queued running done failed degraded skipped : StageState

-- A row of `papers`, without its id, abstract and URLs.
pub record PaperRow : Type 0 where
  pub canonical_id : Text
  pub title : Text
  pub pdf_path : Option Text
  pub fetch_state : StageState
  pub parse_state : StageState
  pub embed_state : StageState
  pub extract_state : StageState
  pub references_state : StageState

pub data JobKind : Type 0 where
  fetch parse extract embed trace enrich : JobKind

pub record Job : Type 0 where
  pub kind : JobKind
  pub paper_id : ℕ

-- The tables, the queue, and the jobs between their first transaction and their end; `content` has
-- the text of a paper, `cards` the keys of its fields.
pub record Library : Type 0 where
  pub papers : Assoc PaperRow
  pub content : Assoc Text
  pub cards : List (ℕ × Text)
  pub queue : List Job
  pub active : List Job

abbrev pub enqueue : JobKind → ℕ → Library → Library
enqueue kind id s = record {
  papers = s.papers;
  content = s.content;
  cards = s.cards;
  queue = s.queue ++ record { kind = kind; paper_id = id } ∷ [];
  active = s.active;
}

abbrev pub with_papers : Assoc PaperRow → Library → Library
with_papers papers s = record {
  papers = papers;
  content = s.content;
  cards = s.cards;
  queue = s.queue;
  active = s.active;
}

abbrev pub change : ℕ → (PaperRow → PaperRow) → Assoc PaperRow → Assoc PaperRow
change id f [] = []
change id f ((j, row) ∷ rest) = (if id == j then (j, f row) else (j, row)) ∷ change id f rest

-- A write to the row of a paper.
abbrev pub update : ℕ → (PaperRow → PaperRow) → Library → Library
update id f s = with_papers (change id f s.papers) s

abbrev pub is_done : StageState → Bool
is_done done = true
is_done _ = false

-- `_TERMINAL_STAGE_STATES`
abbrev pub is_terminal : StageState → Bool
is_terminal done = true
is_terminal degraded = true
is_terminal _ = false

abbrev pub has_canonical : Text → ℕ × PaperRow → Bool
has_canonical canonical_id (id, row) = text_eq canonical_id row.canonical_id

abbrev new_row : Text → Text → StageState → PaperRow
new_row canonical_id title fetch_state = record {
  canonical_id = canonical_id;
  title = if is_empty title then canonical_id else title;
  pdf_path = none;
  fetch_state = fetch_state;
  parse_state = queued;
  embed_state = queued;
  extract_state = queued;
  references_state = queued;
}

abbrev pub added : Text → PaperRow → ℕ → Library → Option (ℕ × PaperRow) → ℕ × Library
added canonical_id row new_id s (some existing) = (existing.0, s)
added canonical_id row new_id s none = (new_id, with_papers (s.papers ++ (new_id, row) ∷ []) s)

-- The row of a canonical id, which is made when there is none; the first is its id.
abbrev pub find_or_add : Text → Text → StageState → ℕ → Library → ℕ × Library
find_or_add canonical_id title fetch_state new_id s =
    added canonical_id (new_row canonical_id title fetch_state) new_id s
      (find_first (has_canonical canonical_id) s.papers)

abbrev pub fetch_when_new : Bool → ℕ × Library → ℕ × Library
fetch_when_new true (id, s) = (id, s)
fetch_when_new false (id, s) = (id, enqueue fetch id s)

abbrev pub add_with : Text → ℕ → Library → Option Text → Option (ℕ × Library)
add_with title new_id s none = none
add_with title new_id s (some canonical_id) = some (
    fetch_when_new (any (has_canonical canonical_id) s.papers)
      (find_or_add canonical_id title queued new_id s))

-- `add_paper`; `none` is the ValueError.
unfoldable pub add_paper : SourceIds → Text → ℕ → Library → Option (ℕ × Library)
unfolding resolve_canonical_id
add_paper ids title new_id s = add_with title new_id s (resolve_canonical_id ids)

abbrev pub stub_with : Text → ℕ → Library → Option Text → Option (ℕ × Library)
stub_with title new_id s none = none
stub_with title new_id s (some canonical_id) =
    some (find_or_add canonical_id title skipped new_id s)

unfoldable pub add_reference_stub : SourceIds → Text → ℕ → Library → Option (ℕ × Library)
unfolding resolve_canonical_id
add_reference_stub ids title new_id s = stub_with title new_id s (resolve_canonical_id ids)

-- The setters of the five columns.
abbrev pub set_fetch : StageState → PaperRow → PaperRow
set_fetch state row = record row { fetch_state = state }

abbrev pub set_parse : StageState → PaperRow → PaperRow
set_parse state row = record row { parse_state = state }

abbrev pub set_embed : StageState → PaperRow → PaperRow
set_embed state row = record row { embed_state = state }

abbrev pub set_extract : StageState → PaperRow → PaperRow
set_extract state row = record row { extract_state = state }

abbrev pub set_references : StageState → PaperRow → PaperRow
set_references state row = record row { references_state = state }

-- A stage is reset and its job enqueued, unless its state is terminal.
abbrev pub redrive :
    StageState → (StageState → PaperRow → PaperRow) → JobKind → ℕ → Library → Library
redrive state set kind id s =
    if is_terminal state then s else enqueue kind id (update id (set queued) s)

abbrev pub reprocess_row : ℕ → Library → Option PaperRow → Library
reprocess_row id s none = s
reprocess_row id s (some row) =
    if not (is_terminal row.fetch_state)
    then redrive row.fetch_state set_fetch fetch id s
    else if is_done row.fetch_state && not (is_terminal row.parse_state)
    then redrive row.parse_state set_parse parse id s
    else if is_done row.parse_state
    then redrive row.references_state set_references trace id (
        redrive row.embed_state set_embed embed id
          (redrive row.extract_state set_extract extract id s))
    else s

-- `reprocess_paper`, without the row that it returns.
unfoldable pub reprocess_paper : ℕ → Library → Library
reprocess_paper id s = reprocess_row id s (lookup id s.papers)

abbrev is_queued : StageState → Bool
is_queued queued = true
is_queued _ = false

abbrev pub heal_row : ℕ → Library → Option PaperRow → Library
heal_row id s none = s
heal_row id s (some row) = if is_queued row.references_state then enqueue trace id s else s

-- `get_paper` with `heal=True`.
unfoldable pub get_paper : ℕ → Library → Library
get_paper id s = heal_row id s (lookup id s.papers)
