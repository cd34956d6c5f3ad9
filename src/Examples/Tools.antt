-- ===== src/Examples/Tools.antt =====
-- Three tools, one registered twice, and a skill that names two of them.
use ai_powered_research_work.Prelude.{
  ◌≡◌, refl, Bool, true, false, Option, none, some, List, [], ◌∷◌, Text, codes,
}
use ai_powered_research_work.Prelude.Dict.{get, put}
use ai_powered_research_work.Search.Dedupe.{occurrences}
use ai_powered_research_work.Harness.Resume.{Tier}
use ai_powered_research_work.Harness.Registry.{
  query, ToolSpec, tool, register_dynamic, core_schemas, schemas_for, names_of, schemas_for_turn,
}
use ai_powered_research_work.Harness.Registry.Visible.{
  Registration, declared, dynamic, registered, is_visible, count_if, registered-schemas_for_turn,
}

abbrev spec_of : Text → Bool → ToolSpec
spec_of name core = record {
  name = name;
  group = codes "papers";
  kind = query;
  description = codes "Reads.";
  parameters = codes "{}";
  tier = Tier.auto;
  core = core;
  per_turn_budget = none;
}

abbrev registrations : List Registration
registrations =
    declared (spec_of (codes "get") true)
    ∷ declared (spec_of (codes "get") false)
    ∷ dynamic (spec_of (codes "fetch") false)
    ∷ dynamic (spec_of (codes "hidden") false)
    ∷ []

abbrev skill : Option (List Text)
skill = some (codes "fetch" ∷ codes "get" ∷ [])

names_test :
    names_of (schemas_for_turn skill (registered registrations []))
    ≡ codes "get" ∷ codes "fetch" ∷ []
unfolding schemas_for_turn core_schemas schemas_for tool register_dynamic get put
names_test = refl

registered_example :
    occurrences (codes "get") (names_of (schemas_for_turn skill (registered registrations [])))
    ≡ count_if (get (codes "get") (registered registrations [])) (is_visible skill)
registered_example = registered-schemas_for_turn registrations (codes "get") skill
