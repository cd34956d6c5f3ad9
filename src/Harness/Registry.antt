-- ===== src/Harness/Registry.antt =====
-- The tool registry of backend/harness/registry.py: registration, and the schemas of one iteration.
-- A tool's handler and its arguments model are left out; `parameters` is the schema that pydantic
-- generates from the arguments model. `tool` starts where the signature of the handler was checked.
pub mod Visible
use ai_powered_research_work.Prelude.{
  ℕ, Bool, true, false, not, ◌||◌, Option, none, some, List, [], ◌∷◌, ◌++◌, map, Text, is_empty,
  keep, if◌then◌else◌,
}
use ai_powered_research_work.Prelude.Dict.{Dict, get, put}
use ai_powered_research_work.Prelude.Fresh.{mem_text}
use ai_powered_research_work.Harness.Resume.{Tier}

pub data Kind : Type 0 where
  query action : Kind

pub record ToolSpec : Type 0 where
  pub name : Text
  pub group : Text
  pub kind : Kind
  pub description : Text
  pub parameters : Text
  pub tier : Tier
  pub core : Bool
  pub per_turn_budget : Option ℕ

pub record Schema : Type 0 where
  pub name : Text
  pub description : Text
  pub parameters : Text

abbrev pub Registry : Type 0
Registry = Dict ToolSpec

abbrev pub schema : ToolSpec → Schema
schema spec = record {
  name = spec.name;
  description = spec.description;
  parameters = spec.parameters;
}

abbrev pub is_taken : Option ToolSpec → Bool
is_taken none = false
is_taken (some spec) = true

-- `tool`; `none` is its ValueError.
unfoldable pub tool : ToolSpec → Registry → Option Registry
unfolding get put
tool spec registry =
    if is_empty spec.description
    then none
    else if is_taken (get spec.name registry)
    then none
    else some (put spec.name spec registry)

unfoldable pub register_dynamic : ToolSpec → Registry → Registry
unfolding put
register_dynamic spec registry = put spec.name spec registry

abbrev pub all_specs : Registry → List ToolSpec
all_specs registry = map (λ entry. entry.1) registry

unfoldable pub core_schemas : Registry → List Schema
core_schemas registry = map schema (keep ToolSpec.core (all_specs registry))

unfoldable pub schemas_for : List Text → Registry → List Schema
schemas_for names registry =
    map schema (keep (λ spec. mem_text (ToolSpec.name spec) names) (all_specs registry))

abbrev pub names_of : List Schema → List Text
names_of schemas = map Schema.name schemas

abbrev pub with_skill : List Schema → List Schema → List Schema
with_skill schemas extra =
    schemas ++ keep (λ s. not (mem_text (Schema.name s) (names_of schemas))) extra

-- `schemas_for_turn`; no loaded skill and one without tools are the same to it.
unfoldable pub schemas_for_turn : Option (List Text) → Registry → List Schema
unfolding core_schemas schemas_for
schemas_for_turn none registry = core_schemas registry
schemas_for_turn (some []) registry = core_schemas registry
schemas_for_turn (some (name ∷ names)) registry =
    with_skill (core_schemas registry) (schemas_for (name ∷ names) registry)
