-- ===== src/Experiments/Gate.antt =====
-- The measured gate: which runs may stand behind a metric that claims to be measured.
use mathlib.Core.Option.{some-injective}
use ai_powered_research_work.Prelude.{
  ℕ, ◌≡◌, refl, sym, ap, ◌∙◌, subst, inl, inr, true, not, Option, none, some, [], ◌∷◌, arith, All,
  All-map, Text, text_eq, ◌==◌, Bool-cases, Option-cases,
}
use ai_powered_research_work.Prelude.Assoc.{lookup, insert, lookup-insert}
use ai_powered_research_work.Experiments.Models.{
  RunKind, clean_run_all, interactive, MetricSource, user, measured, Experiment, ExperimentRun,
  MetricInput, ExperimentMetric, Tables,
}
use ai_powered_research_work.Experiments.Record.{
  ok, is_some, run_kind_eq, exited_zero, record_run, is_measured_eligible, check_metric,
  metric_constraints, metric_row, record_metric,
}

-- A clean run of the whole notebook that exited with 0, was approved, and has its image and hashes.
pub record IsEligible (run : ExperimentRun) : Type 0 where
  pub clean : run.run_kind ≡ clean_run_all
  pub exited : run.exit_code ≡ some 0
  pub has_image : ¬ (run.image ≡ [])
  pub has_reqs_hash : ¬ (run.reqs_hash ≡ [])
  pub has_notebook_hash : ¬ (run.notebook_hash ≡ [])
  pub approved : (at : ℕ) × (run.approved_at ≡ some at)

run_kind_eq_sound : (k : RunKind) → run_kind_eq k clean_run_all ≡ true → k ≡ clean_run_all
run_kind_eq_sound clean_run_all h = refl
run_kind_eq_sound interactive h = cc h

exited_zero_sound : (code : Option ℕ) → exited_zero code ≡ true → code ≡ some 0
exited_zero_sound none h = cc h
exited_zero_sound (some n) h = ap (λ m. some m) (ground (arith, h))

is_some_sound : (o : Option ℕ) → is_some o ≡ true → (n : ℕ) × (o ≡ some n)
is_some_sound none h = cc h
is_some_sound (some n) h = (n, refl)

not_empty : (text : Text) → not (text_eq text []) ≡ true → ¬ (text ≡ [])
not_empty text h e = cc (subst (λ t. not (text_eq t []) ≡ true) e h)

is_measured_eligible-IsEligible :
    (run : ExperimentRun) → is_measured_eligible run ≡ true → IsEligible run
unfolding is_measured_eligible
is_measured_eligible-IsEligible run h = record {
  clean = run_kind_eq_sound run.run_kind (ground arith);
  exited = exited_zero_sound run.exit_code (ground arith);
  has_image = not_empty run.image (ground arith);
  has_reqs_hash = not_empty run.reqs_hash (ground arith);
  has_notebook_hash = not_empty run.notebook_hash (ground arith);
  approved = is_some_sound run.approved_at (ground arith);
}

-- A run of the metric's own experiment that is eligible stands behind it.
pub record Backing (tables : Tables) (m : ExperimentMetric) : Type 0 where
  pub run_id : ℕ
  pub run : ExperimentRun
  pub named : m.run_id ≡ some run_id
  pub found : lookup run_id tables.runs ≡ some run
  pub own : run.experiment_id ≡ m.experiment_id
  pub eligible : IsEligible run

abbrev pub Backed : Tables → ExperimentMetric → Type 0
Backed tables m = m.source ≡ measured → Backing tables m

-- Every measured metric of the tables is backed.
abbrev pub IsGated : Tables → Type 0
IsGated tables = All (Backed tables) tables.metrics

check_metric-Backing :
    (tables : Tables) (experiment_id : ℕ) (source : MetricSource) (run_id : Option ℕ)
    (m : ExperimentMetric)
    → m.run_id ≡ run_id
    → m.experiment_id ≡ experiment_id
    → source ≡ measured
    → check_metric tables experiment_id source run_id ≡ ok tt
    → Backing tables m
unfolding check_metric
check_metric-Backing tables experiment_id user run_id m r e s h = cc
check_metric-Backing tables experiment_id measured none m r e s h = cc
check_metric-Backing tables experiment_id measured (some run_id) m r e s h =
    elim (Option-cases (lookup run_id tables.runs)) [
      | inl absent ↦ absurd (ground arith)
      | inr (run, found) ↦ record {
        run_id = run_id;
        run = run;
        named = r;
        found = found;
        own = ground arith;
        eligible = is_measured_eligible-IsEligible run (ground arith);
      }
    ]

pub record_metric-cases :
    (new_id : ℕ) (tables : Tables) (experiment_id : ℕ) (metric : MetricInput) {tables' : Tables}
    {row : ExperimentMetric}
    → record_metric new_id tables experiment_id metric ≡ ok (tables', row)
    → (check_metric tables experiment_id metric.source metric.run_id ≡ ok tt)
      × (metric_constraints tables (metric_row new_id experiment_id metric) ≡ true)
      × (row ≡ metric_row new_id experiment_id metric)
      × (tables' ≡ record tables { metrics = row ∷ tables.metrics })
unfolding record_metric
record_metric-cases new_id tables experiment_id metric h = ground arith

-- Backing looks at the runs alone.
pub Backing-runs :
    (tables tables' : Tables) (m : ExperimentMetric)
    → tables'.runs ≡ tables.runs
    → Backing tables m
    → Backing tables' m
Backing-runs tables tables' m e b = record {
  run_id = b.run_id;
  run = b.run;
  named = b.named;
  found = rw e b.found;
  own = b.own;
  eligible = b.eligible;
}

-- A measured metric is recorded only with an eligible run of its own experiment behind it, and
-- nothing but the new row is added to the tables.
pub record_metric-Backing :
    (new_id : ℕ) (tables : Tables) (experiment_id : ℕ) (metric : MetricInput) {tables' : Tables}
    {row : ExperimentMetric}
    → record_metric new_id tables experiment_id metric ≡ ok (tables', row)
    → metric.source ≡ measured
    → Backing tables row
      × (row.experiment_id ≡ experiment_id)
      × (tables' ≡ record tables { metrics = row ∷ tables.metrics })
record_metric-Backing new_id tables experiment_id metric {row = row} h s =
    let (checked, _, is_row, after) = record_metric-cases new_id tables experiment_id metric h in
    (
      rw is_row (
          check_metric-Backing tables experiment_id metric.source metric.run_id
            (metric_row new_id experiment_id metric) refl refl s checked),
      rw is_row,
      after,
    )

-- A measured metric that names an eligible run of its experiment, which exists, is accepted.
pub record_metric-accepts :
    (new_id : ℕ) (tables : Tables) (experiment_id : ℕ) (metric : MetricInput) (run_id : ℕ)
    (run : ExperimentRun) (experiment : Experiment)
    → metric.source ≡ measured
    → metric.run_id ≡ some run_id
    → lookup run_id tables.runs ≡ some run
    → lookup experiment_id tables.experiments ≡ some experiment
    → run.experiment_id ≡ experiment_id
    → is_measured_eligible run ≡ true
    → (row : ExperimentMetric) × (record_metric new_id tables experiment_id metric
        ≡ ok (record tables { metrics = row ∷ tables.metrics }, row))
unfolding record_metric check_metric metric_constraints
record_metric-accepts new_id tables experiment_id metric run_id run experiment s r found exists own
      eligible =
    (metric_row new_id experiment_id metric, ground arith)

pub record_metric-IsGated :
    (new_id : ℕ) (tables : Tables) (experiment_id : ℕ) (metric : MetricInput) {tables' : Tables}
    {row : ExperimentMetric}
    → record_metric new_id tables experiment_id metric ≡ ok (tables', row)
    → IsGated tables
    → IsGated tables'
record_metric-IsGated new_id tables experiment_id metric {row = row} h gated =
    let (checked, _, is_row, after) = record_metric-cases new_id tables experiment_id metric h in
    let t = record tables { metrics = row ∷ tables.metrics } in
    rw after (
      λ s.
          Backing-runs tables t row refl
            (record_metric-Backing new_id tables experiment_id metric h
              (rw (← ap (λ (m : ExperimentMetric). m.source) is_row) s)).0,
      All-map tables.metrics (λ m b s. Backing-runs tables t m refl (b s)) gated,
    )

pub record_run-cases :
    (tables : Tables) (experiment_id : ℕ) (run : ExperimentRun) {tables' : Tables}
    {row : ExperimentRun}
    → record_run tables experiment_id run ≡ ok (tables', row)
    → (lookup run.id tables.runs ≡ none)
      × (tables' ≡ record tables {
        runs = insert run.id (record run { experiment_id = experiment_id }) tables.runs;
      })
unfolding record_run
record_run-cases tables experiment_id run h = elim (Option-cases (lookup run.id tables.runs)) [
  | inl absent ↦ (absent, ground arith)
  | inr (old, found) ↦ absurd (ground arith)
]

-- A new run keeps what stands behind the metrics that are there.
Backing-insert :
    (tables : Tables) (id : ℕ) (run : ExperimentRun) (m : ExperimentMetric)
    → lookup id tables.runs ≡ none
    → Backing tables m
    → Backing (record tables { runs = insert id run tables.runs }) m
Backing-insert tables id run m absent b =
    let found : lookup b.run_id (insert id run tables.runs) ≡ some b.run =
      rw (lookup-insert id b.run_id run tables.runs) (elim (Bool-cases (id == b.run_id)) [
        | inl e ↦ absurd (clash (ground arith))
        | inr e ↦ rw e b.found
      ]) in
    record {
      run_id = b.run_id;
      run = b.run;
      named = b.named;
      found = found;
      own = b.own;
      eligible = b.eligible;
    }
  where
    clash : id ≡ b.run_id → ⊥
    clash e = cc (b.found, absent, e)

pub record_run-IsGated :
    (tables : Tables) (experiment_id : ℕ) (run : ExperimentRun) {tables' : Tables}
    {row : ExperimentRun}
    → record_run tables experiment_id run ≡ ok (tables', row)
    → IsGated tables
    → IsGated tables'
record_run-IsGated tables experiment_id run h gated =
    let (absent, after) = record_run-cases tables experiment_id run h in
    rw after (All-map tables.metrics (λ m b s. Backing-insert tables run.id _ m absent (b s)) gated)

-- The CHECK and the foreign keys of the table let every measured row through that names a run and
-- an experiment that exist, when the run is not eligible: such a row has no backing.
pub metric_constraints-admits :
    (tables : Tables) (row : ExperimentMetric) (run_id : ℕ) (run : ExperimentRun)
    (experiment : Experiment)
    → row.source ≡ measured
    → row.run_id ≡ some run_id
    → lookup run_id tables.runs ≡ some run
    → lookup row.experiment_id tables.experiments ≡ some experiment
    → ¬ IsEligible run
    → (metric_constraints tables row ≡ true) × ¬ Backing tables row
unfolding metric_constraints
metric_constraints-admits tables row run_id run experiment s r found exists bad =
    (ground arith, λ b. refute b)
  where
    same : (b : Backing tables row) → b.run ≡ run
    same b = some-injective _ _ (
        sym b.found
        ∙ (ap (λ i. lookup i tables.runs) (some-injective _ _ (sym b.named ∙ r)) ∙ found))

    refute : Backing tables row → ⊥
    refute b = bad (subst IsEligible (same b) b.eligible)
