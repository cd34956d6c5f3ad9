-- ===== src/Experiments/History.antt =====
-- Every sequence of the module's operations, from tables without metrics and experiments.
use ai_powered_research_work.Prelude.{ℕ, ◌≡◌, ap, sym, subst, none, [], Text, All, All-map}
use ai_powered_research_work.Prelude.Assoc.{Assoc, lookup}
use ai_powered_research_work.Experiments.Models.{
  ExperimentInput, Experiment, ExperimentRun, MetricInput, ExperimentMetric, Tables,
}
use ai_powered_research_work.Experiments.Record.{
  ok, create_experiment, update_experiment, record_run, record_metric, project_slugs,
}
use ai_powered_research_work.Experiments.Gate.{
  Backed, Backing-runs, IsGated, record_metric-IsGated, record_metric-cases, record_run-IsGated,
  record_run-cases,
}
use ai_powered_research_work.Experiments.Slugs.{
  HasDistinctSlugs, create_experiment-cases, create_experiment-HasDistinctSlugs,
  update_experiment-cases, update_experiment-slugs,
}

-- One successful operation. The database gives a new experiment an id of its own.
pub data Step (slugify : Text → Text) : Tables → Tables → Type 0 where
  created :
      {t u : Tables} (id project_id : ℕ) (fields : ExperimentInput) (row : Experiment)
      → lookup id t.experiments ≡ none
      → create_experiment slugify id t project_id fields ≡ ok (u, row)
      → Step slugify t u
  updated :
      {t u : Tables} (id : ℕ) (fields : ExperimentInput) (row : Experiment)
      → update_experiment t id fields ≡ ok (u, row)
      → Step slugify t u
  ran :
      {t u : Tables} (experiment_id : ℕ) (run row : ExperimentRun)
      → record_run t experiment_id run ≡ ok (u, row)
      → Step slugify t u
  measured_or_noted :
      {t u : Tables} (id experiment_id : ℕ) (metric : MetricInput) (row : ExperimentMetric)
      → record_metric id t experiment_id metric ≡ ok (u, row)
      → Step slugify t u

pub data Reach (slugify : Text → Text) : Tables → Type 0 where
  start :
      (projects : Assoc Text)
      → Reach slugify (record { projects = projects; experiments = []; runs = []; metrics = [] })
  next : {t u : Tables} → Reach slugify t → Step slugify t u → Reach slugify u

keep_gate : (t u : Tables) → u.runs ≡ t.runs → u.metrics ≡ t.metrics → IsGated t → IsGated u
keep_gate t u r m g =
    subst (All (Backed u)) (sym m) (All-map t.metrics (λ x b s. Backing-runs t u x r (b s)) g)

Step-IsGated : {slugify : Text → Text} {t u : Tables} → Step slugify t u → IsGated t → IsGated u
Step-IsGated {slugify} {t = t} {u = u} (created id project_id fields row fresh e) g =
    let (_, _, after) = create_experiment-cases slugify id t project_id fields e in
    keep_gate t u (ap (λ (x : Tables). x.runs) after) (ap (λ (x : Tables). x.metrics) after) g
Step-IsGated {t = t} {u = u} (updated id fields row e) g =
    let (_, _, _, after) = update_experiment-cases t id fields e in
    keep_gate t u (ap (λ (x : Tables). x.runs) after) (ap (λ (x : Tables). x.metrics) after) g
Step-IsGated {t = t} (ran experiment_id run row e) g = record_run-IsGated t experiment_id run e g
Step-IsGated {t = t} (measured_or_noted id experiment_id metric row e) g =
    record_metric-IsGated id t experiment_id metric e g

same_slugs :
    (t u : Tables) → u.experiments ≡ t.experiments → HasDistinctSlugs t → HasDistinctSlugs u
same_slugs t u e d p = rw e (d p)

Step-HasDistinctSlugs :
    {slugify : Text → Text} {t u : Tables}
    → Step slugify t u
    → HasDistinctSlugs t
    → HasDistinctSlugs u
Step-HasDistinctSlugs {slugify} {t = t} (created id project_id fields row fresh e) d =
    create_experiment-HasDistinctSlugs slugify id t project_id fields e fresh d
Step-HasDistinctSlugs {t = t} (updated id fields row e) d =
    λ p. rw (update_experiment-slugs t id fields p e) (d p)
Step-HasDistinctSlugs {t = t} {u = u} (ran experiment_id run row e) d =
    same_slugs t u (ap (λ (x : Tables). x.experiments) (record_run-cases t experiment_id run e).1) d
Step-HasDistinctSlugs {t = t} {u = u} (measured_or_noted id experiment_id metric row e) d =
    same_slugs t u
      (ap (λ (x : Tables). x.experiments) (record_metric-cases id t experiment_id metric e).3) d

-- After every succession of successful creates, updates, runs and metrics, from tables without
-- experiments, runs and metrics, in which each experiment is created under a new id: every measured
-- metric has a run of its own experiment behind it, which is a clean run of the whole notebook,
-- exited with 0, was approved, and has its image and hashes; and no project has two experiments
-- with one slug.
pub Reach-safe :
    {slugify : Text → Text} {t : Tables} → Reach slugify t → IsGated t × HasDistinctSlugs t
unfolding project_slugs
Reach-safe (start projects) = (tt, λ p. tt)
Reach-safe (next r s) = let (g, d) = Reach-safe r in (Step-IsGated s g, Step-HasDistinctSlugs s d)
