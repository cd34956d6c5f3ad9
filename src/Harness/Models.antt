-- ===== src/Harness/Models.antt =====
-- backend/harness/models.py, and `Message` and `ToolCall` of backend/llm. Ids are numbers.
use ai_powered_research_work.Prelude.{ℕ, Option, List, Text}

pub data Role : Type 0 where
  system user assistant tool : Role

pub record ToolCall : Type 0 where
  pub id : Text
  pub name : Text
  pub arguments : Text

pub record Message : Type 0 where
  pub role : Role
  pub content : Text
  pub tool_calls : List ToolCall
  pub tool_call_id : Option Text

pub data RefKind : Type 0 where
  paper note experiment search_result : RefKind

pub record Ref : Type 0 where
  pub kind : RefKind
  pub id : Text
  pub title : Text

-- `QuoteAnchorInput` of backend/vault/models.py, without its hint of a section.
pub record QuoteAnchorInput : Type 0 where
  pub quote : Text
  pub prefix : Text
  pub suffix : Text

pub record SelectionState : Type 0 where
  pub paper_id : ℕ
  pub anchor : QuoteAnchorInput

pub record UiState : Type 0 where
  pub selection : Option SelectionState
  pub open_paper_ids : List ℕ
  pub active_view : Option Text
  pub active_id : Option ℕ
  pub open_panes : List Text
  pub working_set : List Ref

pub record SkillSpec : Type 0 where
  pub name : Text
  pub description : Text
  pub tools : List Text
  pub body : Text
