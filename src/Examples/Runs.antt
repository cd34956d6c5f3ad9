-- ===== src/Examples/Runs.antt =====
-- Experiments with a run that is eligible, and a token for it.
use ai_powered_research_work.Prelude.{
  ◌≤◌, ◌≡◌, refl, true, false, none, some, List, [], ◌∷◌, Text, codes,
}
use ai_powered_research_work.Prelude.Assoc.{lookup, insert}
use ai_powered_research_work.Prelude.Fresh.{first_free}
use ai_powered_research_work.Experiments.Models.{
  Status, RunKind, MetricSource, ExperimentInput, Experiment, ExperimentRun, MetricInput,
  ExperimentMetric, Tables,
}
use ai_powered_research_work.Experiments.Record.{
  ok, project_slugs, unique_slug, create_experiment, is_measured_eligible, metric_constraints,
  metric_row, record_metric, check_metric, record_run, slug_base, slug_candidate,
}
use ai_powered_research_work.Experiments.Gate.{IsGated}
use ai_powered_research_work.Experiments.Slugs.{HasDistinctSlugs}
use ai_powered_research_work.Experiments.History.{
  Reach, start, next, created, ran, measured_or_noted, Reach-safe,
}
use ai_powered_research_work.Sandbox.Confirmation.{
  RunSpec, StoredToken, build_run_spec, consumed, mint_confirmation, consume_stored, consume_token,
}
use ai_powered_research_work.Sandbox.Consent.{
  Minting, Action, mint, consume, attempt, tokens_after, uses, DrawsFresh, WasApproved, uses-le_one,
  consumed-WasApproved,
}

abbrev plain_slug : Text → Text
plain_slug title = title

abbrev baseline : Experiment
baseline = record {
  project_id = 1;
  slug = codes "base";
  title = codes "base";
  hypothesis = none;
  setup = codes "{}";
  notes = none;
  status = Status.planned;
  notebook_path = none;
  network_optin = false;
  gpu_optin = false;
}

abbrev clean_run : ExperimentRun
clean_run = record {
  id = 7;
  experiment_id = 3;
  started_at = 10;
  finished_at = some 20;
  exit_code = some 0;
  image = codes "i";
  reqs_hash = codes "r";
  notebook_hash = codes "n";
  stdout_ref = codes "o";
  artifacts = [];
  run_kind = RunKind.clean_run_all;
  network_enabled = false;
  gpu_enabled = false;
  approved_at = some 9;
}

abbrev failed_run : ExperimentRun
failed_run = record clean_run { exit_code = some 1 }

abbrev with_run : ExperimentRun → Tables
with_run run = record {
  projects = (1, codes "p") ∷ [];
  experiments = (3, baseline) ∷ [];
  runs = (7, run) ∷ [];
  metrics = [];
}

abbrev accuracy : MetricInput
accuracy = record {
  name = codes "acc";
  value = codes "0.9";
  unit = none;
  source = MetricSource.measured;
  run_id = some 7;
}

abbrev accuracy_row : ExperimentMetric
accuracy_row = metric_row 5 3 accuracy

abbrev with_accuracy : Tables
with_accuracy = record (with_run clean_run) { metrics = accuracy_row ∷ [] }

recorded : record_metric 5 (with_run clean_run) 3 accuracy ≡ ok (with_accuracy, accuracy_row)
unfolding record_metric lookup is_measured_eligible check_metric metric_constraints
recorded = refl

abbrev no_experiments : Tables
no_experiments = record {
  projects = (1, codes "p") ∷ [];
  experiments = [];
  runs = [];
  metrics = [];
}

abbrev without_run : Tables
without_run = record no_experiments { experiments = (3, baseline) ∷ [] }

abbrev base_fields : ExperimentInput
base_fields = record {
  title = some (codes "base");
  hypothesis = none;
  setup = none;
  notes = none;
  status = none;
  network_optin = none;
  gpu_optin = none;
}

created_base :
    create_experiment plain_slug 3 no_experiments 1 base_fields ≡ ok (without_run, baseline)
unfolding create_experiment unique_slug slug_base slug_candidate project_slugs first_free lookup
    insert
created_base = refl

absent_base : lookup 3 no_experiments.experiments ≡ none
unfolding lookup
absent_base = refl

ran_clean : record_run without_run 3 clean_run ≡ ok (with_run clean_run, clean_run)
unfolding record_run lookup insert
ran_clean = refl

reached : Reach plain_slug with_accuracy
reached =
    next
      (next
        (next (start ((1, codes "p") ∷ []))
          (created 3 1 base_fields baseline absent_base created_base))
        (ran 3 clean_run clean_run ran_clean))
      (measured_or_noted 5 3 accuracy accuracy_row recorded)

Reach-safe_example : IsGated with_accuracy × HasDistinctSlugs with_accuracy
Reach-safe_example = Reach-safe reached

is_clean : is_measured_eligible clean_run ≡ true
unfolding is_measured_eligible
is_clean = refl

is_failed : is_measured_eligible failed_run ≡ false
unfolding is_measured_eligible
is_failed = refl

abbrev image_of : RunSpec → Text
image_of spec = spec.image

abbrev shown_spec : Minting
shown_spec = record {
  now = 100;
  token = 4;
  experiment_id = 3;
  spec = build_run_spec baseline (codes "p");
}

abbrev approved_run : Minting
approved_run = record shown_spec { now = 150 }

abbrev one_run : List Action
one_run = consume approved_run ∷ mint shown_spec ∷ []

fresh_draw : DrawsFresh image_of one_run
unfolding tokens_after lookup
fresh_draw = (refl, tt)

abbrev used_token : StoredToken
used_token = record {
  experiment_id = 3;
  spec_hash = image_of shown_spec.spec;
  expires_at = 400;
  used = true;
}

consumes :
    attempt image_of approved_run (tokens_after image_of (mint shown_spec ∷ []))
    ≡ consumed ((4, used_token) ∷ [])
unfolding tokens_after lookup insert consume_token consume_stored mint_confirmation build_run_spec
consumes = refl

uses_example : uses image_of 4 one_run ≤ 1
uses_example = uses-le_one image_of 4 one_run fresh_draw

consumed_example : WasApproved image_of (mint shown_spec ∷ []) approved_run
consumed_example = consumed-WasApproved image_of (mint shown_spec ∷ []) approved_run consumes
