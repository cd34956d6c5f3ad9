-- ===== src/Search/Models.antt =====
-- backend/search/models.py
use ai_powered_research_work.Prelude.{ℕ, Bool, Option, List, Text}
use ai_powered_research_work.Papers.CanonicalId.{SourceIds}

pub record SearchFilters : Type 0 where
  pub year_min : Option ℕ
  pub year_max : Option ℕ
  pub venue : Option Text
  pub has_code : Option Bool
  pub author : Option Text

pub record RawHit : Type 0 where
  pub source_ids : SourceIds
  pub title : Text
  pub abstract : Option Text
  pub authors : List Text
  pub year : Option ℕ
  pub venue : Option Text
  pub citation_count : Option ℕ
  pub source_url : Option Text
  pub pdf_url : Option Text

pub record PaperSummary : Type 0 where
  pub canonical_id : Text
  pub hit : RawHit

pub record ResultSet : Type 0 where
  pub result_id : Text
  pub query : Text
  pub results : List PaperSummary
  pub sources_failed : List Text
  pub has_more : Bool
  pub pool_size : ℕ
