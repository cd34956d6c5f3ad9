-- ===== src/Experiments/Record.antt =====
-- backend/experiments/__init__.py. A `ValueError` is a constructor of `Error`; what the database
-- generates (a new row's id) and what a package computes (`slugify`) are arguments.
use ai_powered_research_work.Prelude.{
  ℕ, suc, Bool, true, false, not, ◌&&◌, ◌||◌, Option, none, some, List, [], ◌∷◌, ◌++◌, Text, codes,
  text_eq, length, ◌==◌, if◌then◌else◌,
}
use ai_powered_research_work.Prelude.Assoc.{Assoc, lookup, insert}
use ai_powered_research_work.Prelude.Fresh.{first_free}
use ai_powered_research_work.Prelude.Decimal.{decimal}
use ai_powered_research_work.Experiments.Models.{
  planned, RunKind, clean_run_all, interactive, MetricSource, user, measured, ExperimentInput,
  Experiment, ExperimentRun, MetricInput, ExperimentMetric, Tables,
}

pub data Error : Type 0 where
  title_required : Error
  project_not_found : Error
  experiment_not_found : Error
  measured_requires_run : Error
  run_not_found : Error
  run_of_other_experiment : Error
  run_not_eligible : Error
  -- a row that a constraint of the table refuses
  constraint_violated : Error
  -- the search for a free slug ran out of fuel
  out_of_fuel : Error

-- What a function returns, or the error that it raises.
pub data Result {κ} (Value : Type κ) : Type κ where
  err : (raised : Error) → Result Value
  ok : (returned : Value) → Result Value

infixl 4 ◌>>=◌
abbrev pub ◌>>=◌ {κ μ} :
    {Value : Type κ} {Next : Type μ}
    → (result : Result Value) → (then_do : Value → Result Next) → Result Next
err raised >>= then_do = err raised
ok returned >>= then_do = then_do returned

-- A row that must be there.
abbrev pub expect {κ} : {Row : Type κ} → Error → Option Row → Result Row
expect raised (some row) = ok row
expect raised none = err raised

abbrev pub or_else {κ} : {Value : Type κ} → Option Value → Value → Value
or_else (some value) default = value
or_else none default = default

-- The slugs of a project's experiments, which `_unique_slug` queries one at a time.
unfoldable pub project_slugs : ℕ → Assoc Experiment → List Text
project_slugs project_id [] = []
project_slugs project_id ((_, e) ∷ rest) =
    let more = project_slugs project_id rest in
    if e.project_id == project_id then e.slug ∷ more else more

-- `slugify(title) or "experiment"`
unfoldable pub slug_base : (Text → Text) → Text → Text
slug_base slugify title = if text_eq (slugify title) [] then codes "experiment" else slugify title

-- The candidate of a round: the base, then base-2, base-3, ...
unfoldable pub slug_candidate : Text → ℕ → Text
slug_candidate base suffix = if suffix == 1 then base else base ++ (codes "-" ++ decimal suffix)

-- The loop of `_unique_slug`, with one round of fuel more than there are slugs.
unfoldable pub unique_slug : (Text → Text) → Tables → ℕ → Text → Result Text
unique_slug slugify tables project_id title =
    let used = project_slugs project_id tables.experiments in
    expect out_of_fuel
      (first_free (suc (length used)) (slug_candidate (slug_base slugify title)) used 1)

abbrev pub new_experiment : ℕ → Text → Text → ExperimentInput → Experiment
new_experiment project_id slug title fields = record {
  project_id = project_id;
  slug = slug;
  title = title;
  hypothesis = fields.hypothesis;
  setup = or_else fields.setup (codes "{}");
  notes = fields.notes;
  status = or_else fields.status planned;
  notebook_path = none;
  network_optin = or_else fields.network_optin false;
  gpu_optin = or_else fields.gpu_optin false;
}

unfoldable pub create_experiment :
    (Text → Text) → ℕ → Tables → ℕ → ExperimentInput → Result (Tables × Experiment)
create_experiment slugify new_id tables project_id fields = do
  title ← expect title_required fields.title
  project ← expect project_not_found (lookup project_id tables.projects)
  slug ← unique_slug slugify tables project_id title
  let row = new_experiment project_id slug title fields
  ok (record tables { experiments = insert new_id row tables.experiments }, row)

-- The patch loop of `update_experiment`: a field that is `None` is left alone.
unfoldable pub patch : Experiment → ExperimentInput → Experiment
patch row fields = record row {
  title = or_else fields.title row.title;
  hypothesis = elim fields.hypothesis [ none ↦ row.hypothesis | some h ↦ some h ];
  setup = or_else fields.setup row.setup;
  notes = elim fields.notes [ none ↦ row.notes | some n ↦ some n ];
  status = or_else fields.status row.status;
  network_optin = or_else fields.network_optin row.network_optin;
  gpu_optin = or_else fields.gpu_optin row.gpu_optin;
}

unfoldable pub update_experiment : Tables → ℕ → ExperimentInput → Result (Tables × Experiment)
update_experiment tables experiment_id fields = do
  row ← expect experiment_not_found (lookup experiment_id tables.experiments)
  let row' = patch row fields
  ok (record tables { experiments = insert experiment_id row' tables.experiments }, row')

abbrev pub is_some {ℓ} : {A : Type ℓ} → Option A → Bool
is_some none = false
is_some (some _) = true

-- The foreign key of `experiment_runs`, and the primary key.
unfoldable pub record_run : Tables → ℕ → ExperimentRun → Result (Tables × ExperimentRun)
record_run tables experiment_id run =
    let row = record run { experiment_id = experiment_id } in
    if is_some (lookup experiment_id tables.experiments)
      && not (is_some (lookup run.id tables.runs))
    then ok (record tables { runs = insert run.id row tables.runs }, row)
    else err constraint_violated

unfoldable pub get_run : Tables → ℕ → Option ExperimentRun
get_run tables run_id = lookup run_id tables.runs

abbrev pub run_kind_eq : RunKind → RunKind → Bool
run_kind_eq clean_run_all clean_run_all = true
run_kind_eq interactive interactive = true
run_kind_eq _ _ = false

abbrev pub exited_zero : Option ℕ → Bool
exited_zero none = false
exited_zero (some code) = code == 0

-- `bool(run.id)` is true of every UUID; `bool(text)` is true of every text but "".
unfoldable pub is_measured_eligible : ExperimentRun → Bool
is_measured_eligible run =
    run_kind_eq run.run_kind clean_run_all
    && exited_zero run.exit_code
    && not (text_eq run.image [])
    && not (text_eq run.reqs_hash [])
    && not (text_eq run.notebook_hash [])
    && is_some run.approved_at

abbrev pub guard : Bool → Error → Result (Unit {0})
guard false raised = err raised
guard true raised = ok tt

-- The checks that `record_metric` makes before it touches the table.
unfoldable pub check_metric : Tables → ℕ → MetricSource → Option ℕ → Result (Unit {0})
unfolding get_run
check_metric tables experiment_id user run_id = ok tt
check_metric tables experiment_id measured none = err measured_requires_run
check_metric tables experiment_id measured (some run_id) = do
  run ← expect run_not_found (get_run tables run_id)
  _ ← guard (run.experiment_id == experiment_id) run_of_other_experiment
  guard (is_measured_eligible run) run_not_eligible

abbrev pub is_measured : MetricSource → Bool
is_measured measured = true
is_measured user = false

-- `run_id` is null or names a run.
abbrev pub run_exists : Tables → Option ℕ → Bool
run_exists tables none = true
run_exists tables (some run_id) = is_some (lookup run_id tables.runs)

-- The constraints of the table `experiment_metrics`: the measured CHECK and the two foreign keys.
unfoldable pub metric_constraints : Tables → ExperimentMetric → Bool
metric_constraints tables row =
    (not (is_measured row.source) || is_some row.run_id)
    && is_some (lookup row.experiment_id tables.experiments)
    && run_exists tables row.run_id

abbrev pub metric_row : ℕ → ℕ → MetricInput → ExperimentMetric
metric_row new_id experiment_id metric = record {
  id = new_id;
  experiment_id = experiment_id;
  name = metric.name;
  value = metric.value;
  unit = metric.unit;
  source = metric.source;
  run_id = metric.run_id;
}

unfoldable pub record_metric : ℕ → Tables → ℕ → MetricInput → Result (Tables × ExperimentMetric)
record_metric new_id tables experiment_id metric = do
  _ ← check_metric tables experiment_id metric.source metric.run_id
  let row = metric_row new_id experiment_id metric
  _ ← guard (metric_constraints tables row) constraint_violated
  ok (record tables { metrics = row ∷ tables.metrics }, row)
