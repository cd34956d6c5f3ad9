-- ===== src/Memory/Index.antt =====
-- The chunks that `chunk_and_embed_job` of backend/memory/__init__.py writes. The embedder is an
-- argument with vectors of any type. A transaction is a function on the tables.
use ai_powered_research_work.Prelude.{
  ℕ, ◌+◌, ◌-◌, Bool, false, not, ◌&&◌, Option, none, some, List, [], ◌∷◌, ◌++◌, map, Text, codes,
  is_empty, text_eq, take, drop, keep, find_first, ◌==◌, if◌then◌else◌,
}
use ai_powered_research_work.Prelude.Assoc.{Assoc, lookup}
use ai_powered_research_work.Papers.CanonicalId.{lower, strip}
use ai_powered_research_work.Memory.Chunking.{split_span}
use ai_powered_research_work.Memory.Selection.{
  SourceType, paper_section, abstract_, note, experiment, conversation_summary, same_type,
}

pub record Note : Type 0 where
  pub project_id : ℕ
  pub body : Text

pub record Conversation : Type 0 where
  pub project_id : ℕ
  pub summary : Option Text

pub record Section : Type 0 where
  pub section_id : Text
  pub heading : Option Text
  pub char_start : ℕ
  pub char_end : ℕ

pub record PaperContent : Type 0 where
  pub full_text : Text
  pub sections : List Section

pub record ProjectChunk (V : Type 0) : Type 0 where
  pub project_id : ℕ
  pub source_type : SourceType
  pub source_id : ℕ
  pub char_start : ℕ
  pub char_end : ℕ
  pub text_ : Text
  pub embedding : V

pub record PaperChunk (V : Type 0) : Type 0 where
  pub paper_id : ℕ
  pub source_type : SourceType
  pub source_id : Text
  pub char_start : ℕ
  pub char_end : ℕ
  pub section_heading : Option Text
  pub text_ : Text
  pub embedding : V

pub record Tables (V : Type 0) : Type 0 where
  pub notes : Assoc Note
  pub conversations : Assoc Conversation
  pub contents : Assoc PaperContent
  -- `papers.abstract`
  pub abstracts : Assoc Text
  pub project_chunks : List (ProjectChunk V)
  pub paper_chunks : List (PaperChunk V)

-- `text[start:end]`
abbrev pub slice : Text → ℕ × ℕ → Text
slice text span = take (span.1 - span.0) (drop span.0 text)

abbrev pub or_none : Option (List (ℕ × ℕ)) → List (ℕ × ℕ)
or_none none = []
or_none (some spans) = spans

-- `split_span(text)`, which always returns.
unfoldable pub spans_of : Text → List (ℕ × ℕ)
unfolding split_span
spans_of text = or_none (split_span text 1600 200)

-- The headings `"abstract"` in any case and with white space around.
unfoldable pub is_abstract : Option Text → Bool
unfolding lower strip
is_abstract none = false
is_abstract (some heading) = text_eq (lower (strip heading)) (codes "abstract")

-- `content.full_text[section["char_start"] : section["char_end"]]`
abbrev pub section_text : PaperContent → Section → Text
section_text content section = slice content.full_text (section.char_start, section.char_end)

module _ {V : Type 0} where
  -- One row for each span with its vector: the `zip` of both.
  abbrev pub rows_of : {R : Type 0} → (ℕ × ℕ → V → R) → List (ℕ × ℕ) → List V → List R
  rows_of row [] vectors = []
  rows_of row (span ∷ spans) [] = []
  rows_of row (span ∷ spans) (v ∷ vectors) = row span v ∷ rows_of row spans vectors

  abbrev pub is_from : SourceType → ℕ → ProjectChunk V → Bool
  is_from t id chunk = same_type chunk.source_type t && chunk.source_id == id

  abbrev pub project_row : ℕ → SourceType → ℕ → Text → ℕ × ℕ → V → ProjectChunk V
  project_row project_id t id text span v = record {
    project_id = project_id;
    source_type = t;
    source_id = id;
    char_start = span.0;
    char_end = span.1;
    text_ = slice text span;
    embedding = v;
  }

  -- The row of a span of a text that starts at `base` in the source.
  abbrev pub paper_row : ℕ → SourceType → Text → Option Text → ℕ → Text → ℕ × ℕ → V → PaperChunk V
  paper_row paper_id t source_id heading base text span v = record {
    paper_id = paper_id;
    source_type = t;
    source_id = source_id;
    char_start = base + span.0;
    char_end = base + span.1;
    section_heading = heading;
    text_ = slice text span;
    embedding = v;
  }

module _ {V : Type 0} (embed : List Text → List V) where
  -- Delete the rows of a source, then insert those of its text.
  abbrev pub replace_chunks :
      ℕ → SourceType → ℕ → Text → List (ProjectChunk V) → List (ProjectChunk V)
  replace_chunks project_id t id text chunks =
      let spans = spans_of text in
      keep (λ chunk. not (is_from t id chunk)) chunks
      ++ rows_of (project_row project_id t id text) spans (embed (map (slice text) spans))

  abbrev pub note_chunks : ℕ → Option Note → List (ProjectChunk V) → List (ProjectChunk V)
  note_chunks id none chunks = chunks
  note_chunks id (some n) chunks =
      if is_empty n.body then chunks else replace_chunks n.project_id note id n.body chunks

  unfoldable pub chunk_note : ℕ → Tables V → Tables V
  unfolding spans_of
  chunk_note id tables = record tables {
    project_chunks = note_chunks id (lookup id tables.notes) tables.project_chunks;
  }

  abbrev summary_chunks : ℕ → ℕ → Option Text → List (ProjectChunk V) → List (ProjectChunk V)
  summary_chunks id project_id none chunks =
      keep (λ chunk. not (is_from conversation_summary id chunk)) chunks
  summary_chunks id project_id (some summary) chunks =
      replace_chunks project_id conversation_summary id summary chunks

  abbrev pub conversation_chunks :
      ℕ → Option Conversation → List (ProjectChunk V) → List (ProjectChunk V)
  conversation_chunks id none chunks =
      keep (λ chunk. not (is_from conversation_summary id chunk)) chunks
  conversation_chunks id (some c) chunks = summary_chunks id c.project_id c.summary chunks

  unfoldable pub chunk_conversation_summary : ℕ → Tables V → Tables V
  unfolding spans_of
  chunk_conversation_summary id tables = record tables {
    project_chunks = conversation_chunks id (lookup id tables.conversations) tables.project_chunks;
  }

  -- `next(...)`: the first section with the heading of an abstract.
  abbrev abstract_section : Option PaperContent → Option (PaperContent × Section)
  abstract_section none = none
  abstract_section (some content) =
      elim (find_first (λ s. is_abstract (Section.heading s)) content.sections) [
        | none ↦ none
        | some section ↦ some (content, section)
      ]

  -- The vectors of the texts with the heading before each.
  abbrev pub prefixed : Text → Text → List (ℕ × ℕ) → List V
  prefixed prefix text spans = embed (map (λ span. prefix ++ slice text span) spans)

  abbrev pub abstract_rows : ℕ → Text → ℕ → List (PaperChunk V)
  abstract_rows paper_id text base =
      let spans = spans_of text in
      rows_of (paper_row paper_id abstract_ (codes "abstract") (some (codes "Abstract")) base text)
        spans (prefixed (codes "Abstract: ") text spans)

  abbrev fallback_rows : ℕ → Option Text → List (PaperChunk V)
  fallback_rows paper_id none = []
  fallback_rows paper_id (some text) = abstract_rows paper_id text 0

  abbrev pub abstract_chunks :
      ℕ → Option (PaperContent × Section) → Option Text → List (PaperChunk V)
  abstract_chunks paper_id none paper = fallback_rows paper_id paper
  abstract_chunks paper_id (some found) paper =
      abstract_rows paper_id (section_text found.0 found.1) (Section.char_start found.1)

  unfoldable pub chunk_abstract : ℕ → Tables V → Tables V
  unfolding spans_of is_abstract
  chunk_abstract paper_id tables = record tables {
    paper_chunks =
        tables.paper_chunks
        ++ abstract_chunks paper_id (abstract_section (lookup paper_id tables.contents))
            (lookup paper_id tables.abstracts);
  }

  -- `f"{heading}: " if heading else ""`
  abbrev heading_prefix : Option Text → Text
  heading_prefix none = []
  heading_prefix (some []) = []
  heading_prefix (some (c ∷ heading)) = (c ∷ heading) ++ codes ": "

  abbrev pub section_rows : ℕ → PaperContent → Section → List (PaperChunk V)
  section_rows paper_id content sec =
      let text = section_text content sec in
      let spans = spans_of text in
      rows_of (paper_row paper_id paper_section sec.section_id sec.heading sec.char_start text)
        spans (prefixed (heading_prefix sec.heading) text spans)

  abbrev pub sections_rows : ℕ → PaperContent → List Section → List (PaperChunk V)
  sections_rows paper_id content [] = []
  sections_rows paper_id content (sec ∷ sections) =
      let rest = sections_rows paper_id content sections in
      if is_abstract sec.heading then rest else section_rows paper_id content sec ++ rest

  abbrev pub content_rows : ℕ → Option PaperContent → List (PaperChunk V)
  content_rows paper_id none = []
  content_rows paper_id (some content) = sections_rows paper_id content content.sections

  unfoldable pub chunk_paper_sections : ℕ → Tables V → Tables V
  unfolding spans_of is_abstract
  chunk_paper_sections paper_id tables = record tables {
    paper_chunks = tables.paper_chunks ++ content_rows paper_id (lookup paper_id tables.contents);
  }

  -- `none` is the NotImplementedError of an experiment.
  unfoldable pub chunk_and_embed_job : SourceType → ℕ → Tables V → Option (Tables V)
  unfolding chunk_abstract chunk_paper_sections chunk_note chunk_conversation_summary
  chunk_and_embed_job abstract_ id tables = some (chunk_abstract id tables)
  chunk_and_embed_job paper_section id tables = some (chunk_paper_sections id tables)
  chunk_and_embed_job note id tables = some (chunk_note id tables)
  chunk_and_embed_job conversation_summary id tables = some (chunk_conversation_summary id tables)
  chunk_and_embed_job experiment id tables = none
