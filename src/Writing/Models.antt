-- ===== src/Writing/Models.antt =====
-- `Reference` and `CitationFinding` of backend/writing/models.py, and of backend/db/models.py the
-- columns of a paper that the references read.
use ai_powered_research_work.Prelude.{ℕ, Option, List, Text}

-- A row of `papers`, with the authors and the year of its metadata.
pub record Paper : Type 0 where
  pub id : ℕ
  pub title : Text
  pub authors : List Text
  pub year : Option ℕ
  pub source_url : Option Text

pub record Reference : Type 0 where
  pub paper_id : ℕ
  pub cite_key : Text
  pub title : Text
  pub authors : List Text
  pub year : Option ℕ

pub data FindingKind : Type 0 where
  missing : FindingKind
  unsupported : FindingKind

pub record CitationFinding : Type 0 where
  pub kind : FindingKind
  pub span : Text
  pub note : Option Text
