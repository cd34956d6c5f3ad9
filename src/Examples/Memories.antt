-- ===== src/Examples/Memories.antt =====
-- Runs of the memory index on concrete rows and tables.
use ai_powered_research_work.Prelude.{
  ℕ, ◌≤◌, ◌≡◌, refl, none, some, List, [], ◌∷◌, map, arith, Text, codes, length, ltb,
}
use ai_powered_research_work.Prelude.Assoc.{lookup}
use ai_powered_research_work.Provenance.Normalize.{is_space}
use ai_powered_research_work.Memory.Selection.{
  SourceType, paper_section, note, CitedRow, ranked_candidates, query_memory,
  query_memory_with_diagnostics,
}
use ai_powered_research_work.Memory.TopK.{
  of_type, types_of, IsOrder, Descending, best, query_memory_lem,
}
use ai_powered_research_work.Memory.Index.{
  Note, PaperContent, Tables, chunk_note, chunk_and_embed_job,
}
use ai_powered_research_work.Memory.Rechunk.{Replaced, text_rows, chunk_note-Replaced}

ltb-IsOrder : IsOrder ltb
ltb-IsOrder = record { asym = λ a b h. ground arith; ge_trans = λ a b c h k. ground arith }

abbrev row : SourceType → Text → CitedRow
row t text = record {
  id = 0;
  source_type = t;
  source_id = codes "s";
  paper_id = none;
  text = text;
  section_heading = none;
  char_start = 0;
  char_end = 1;
}

abbrev section_row : Text → CitedRow
section_row text = row paper_section text

-- Longer texts score higher.
abbrev by_length : List Text → List ℕ
by_length texts = map (λ t. length t) texts

abbrev candidates : List CitedRow
candidates =
    section_row (codes "a")
    ∷ section_row (codes "bcd")
    ∷ section_row (codes "ef")
    ∷ section_row (codes "ghij")
    ∷ row note (codes "kl")
    ∷ []

abbrev chosen : List CitedRow
chosen =
    section_row (codes "ghij")
    ∷ section_row (codes "bcd")
    ∷ section_row (codes "ef")
    ∷ row note (codes "kl")
    ∷ []

query_memory_test : query_memory ltb 2 by_length candidates ≡ chosen
unfolding query_memory
query_memory_test = refl

diagnostics_test :
    (query_memory_with_diagnostics ltb 2 by_length (codes "q") candidates).1
    ≡ record { query = codes "q"; candidates = 5; returned = 4; top_score = some 4 }
unfolding query_memory_with_diagnostics
diagnostics_test = refl

query_memory_example :
    (ranked : List (CitedRow × ℕ)) × (ranked ≡ (ranked_candidates ltb by_length candidates).0)
    × Descending ltb ranked
    × (query_memory ltb 2 by_length candidates ≡ map (λ p. p.0) (best ltb 6 2 3 ranked))
    × ((t : SourceType) → of_type t (types_of (best ltb 6 2 3 ranked)) ≤ 3)
query_memory_example = query_memory_lem ltb ltb-IsOrder 2 by_length candidates

abbrev a_note : Note
a_note = record { project_id = 1; body = codes "new body" }

abbrev a_paper : PaperContent
a_paper = record {
  full_text = codes "We show it.";
  sections =
      record {
        section_id = codes "1";
        heading = some (codes "Intro");
        char_start = 3;
        char_end = 7;
      }
      ∷ [];
}

abbrev tables : Tables ℕ
tables = record {
  notes = (5, a_note) ∷ [];
  conversations = [];
  contents = (8, a_paper) ∷ [];
  abstracts = [];
  project_chunks =
      record {
        project_id = 1;
        source_type = note;
        source_id = 5;
        char_start = 0;
        char_end = 3;
        text_ = codes "old";
        embedding = 0;
      }
      ∷ [];
  paper_chunks = [];
}

chunk_note_example :
    Replaced note 5
      (text_rows by_length 1 note 5 a_note.body)
      tables.project_chunks
      (Tables.project_chunks (chunk_note by_length 5 tables))
unfolding lookup
chunk_note_example = chunk_note-Replaced by_length tables 5 a_note refl refl

job_test :
    chunk_and_embed_job by_length paper_section 8 tables
    ≡ some (record tables {
      paper_chunks =
          record {
            paper_id = 8;
            source_type = paper_section;
            source_id = codes "1";
            char_start = 3;
            char_end = 7;
            section_heading = some (codes "Intro");
            text_ = codes "show";
            embedding = 11;
          }
          ∷ [];
    })
unfolding chunk_and_embed_job lookup is_space
job_test = refl
