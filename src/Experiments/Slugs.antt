-- ===== src/Experiments/Slugs.antt =====
-- The slugs of a project under the operations of backend/experiments/__init__.py.
use ai_powered_research_work.Prelude.{
  ℕ, suc, ◌≡◌, sym, ◌∙◌, inl, inr, false, none, some, [], ◌∷◌, ◌++◌, arith, Text, codes, ==_iff,
  length, ◌==◌, if◌then◌else◌, Bool-cases, Option-cases,
}
use ai_powered_research_work.Prelude.Assoc.{Assoc, lookup, insert}
use ai_powered_research_work.Prelude.Fresh.{
  mem_text, Distinct, Distinct-snoc, append-cancel, longer, first_free-total,
}
use ai_powered_research_work.Prelude.Decimal.{decimal, decimal-injective}
use ai_powered_research_work.Experiments.Models.{ExperimentInput, Experiment, Tables}
use ai_powered_research_work.Experiments.Record.{
  ok, project_slugs, slug_base, slug_candidate, unique_slug, create_experiment, patch,
  update_experiment,
}

slug_candidate-injective :
    (base : Text) (i j : ℕ) → slug_candidate base i ≡ slug_candidate base j → i ≡ j
unfolding slug_candidate
slug_candidate-injective base i j h = elim (Bool-cases (i == 1)) [
  | inl e ↦ elim (Bool-cases (j == 1)) [
    | inl f ↦ ground arith
    | inr f ↦ absurd (longer base (decimal j) 45 (rw (e, f) at h))
  ]
  | inr e ↦ elim (Bool-cases (j == 1)) [
    | inl f ↦ absurd (longer base (decimal i) 45 (sym (rw (e, f) at h)))
    | inr f ↦
        decimal-injective i j
          (append-cancel (codes "-") _ _ (append-cancel base _ _ (rw (e, f) at h)))
  ]
]

-- The loop of `_unique_slug` ends, and its slug is none of the project's.
pub unique_slug_lem :
    (slugify : Text → Text) (tables : Tables) (project_id : ℕ) (title : Text)
    → (slug : Text) × (unique_slug slugify tables project_id title ≡ ok slug)
      × (mem_text slug (project_slugs project_id tables.experiments) ≡ false)
unfolding unique_slug
unique_slug_lem slugify tables project_id title =
    let base = slug_base slugify title in
    let used = project_slugs project_id tables.experiments in
    let (j, e, free) =
      first_free-total (slug_candidate base) (slug_candidate-injective base) used
        (suc (length used)) 1 (omega arith) in
    (slug_candidate base j, rw e, free)

-- `UniqueConstraint("project_id", "slug")`
abbrev pub HasDistinctSlugs : Tables → Type 0
HasDistinctSlugs tables = (project_id : ℕ) → Distinct (project_slugs project_id tables.experiments)

-- A row under a new id stands behind the others.
slugs-insert_new :
    (project_id id : ℕ) (e : Experiment) (m : Assoc Experiment)
    → lookup id m ≡ none
    → project_slugs project_id (insert id e m) ≡ (
        if e.project_id == project_id
        then project_slugs project_id m ++ e.slug ∷ []
        else project_slugs project_id m)
unfolding lookup insert project_slugs
slugs-insert_new project_id id e [] h = ground arith
slugs-insert_new project_id id e ((j, f) ∷ m) h = ground (arith, slugs-insert_new project_id id e m)

-- A row that keeps its project and its slug changes no project's slugs.
slugs-insert_old :
    (project_id id : ℕ) (e f : Experiment) (m : Assoc Experiment)
    → lookup id m ≡ some f
    → e.project_id ≡ f.project_id
    → e.slug ≡ f.slug
    → project_slugs project_id (insert id e m) ≡ project_slugs project_id m
unfolding lookup insert project_slugs
slugs-insert_old project_id id e f [] h p s = cc
slugs-insert_old project_id id e f ((j, g) ∷ m) h p s =
    ground (arith, slugs-insert_old project_id id e f m)

pub create_experiment-cases :
    (slugify : Text → Text) (id : ℕ) (tables : Tables) (project_id : ℕ) (fields : ExperimentInput)
    {tables' : Tables} {row : Experiment}
    → create_experiment slugify id tables project_id fields ≡ ok (tables', row)
    → (row.project_id ≡ project_id)
      × (mem_text row.slug (project_slugs project_id tables.experiments) ≡ false)
      × (tables' ≡ record tables { experiments = insert id row tables.experiments })
unfolding create_experiment
create_experiment-cases slugify id tables project_id fields h = elim (Option-cases fields.title) [
  | inl e ↦ absurd (ground arith)
  | inr (title, e) ↦ elim (Option-cases (lookup project_id tables.projects)) [
    | inl g ↦ absurd (ground arith)
    | inr (project, g) ↦
        let (slug, made, free) = unique_slug_lem slugify tables project_id title in
        (ground arith, ground arith, ground arith)
  ]
]

-- Creating an experiment under a new id keeps the slugs of every project distinct.
pub create_experiment-HasDistinctSlugs :
    (slugify : Text → Text) (id : ℕ) (tables : Tables) (project_id : ℕ) (fields : ExperimentInput)
    {tables' : Tables} {row : Experiment}
    → create_experiment slugify id tables project_id fields ≡ ok (tables', row)
    → lookup id tables.experiments ≡ none
    → HasDistinctSlugs tables
    → HasDistinctSlugs tables'
create_experiment-HasDistinctSlugs slugify id tables project_id fields {row = row} h absent d p =
    let (own, free, after) = create_experiment-cases slugify id tables project_id fields h in
    rw (after, slugs-insert_new p id row tables.experiments absent)
      (elim (Bool-cases (row.project_id == p)) [
        | inr other ↦ rw other (d p)
        | inl same ↦ rw same (
            Distinct-snoc row.slug _ (rw (sym own ∙ (==_iff row.project_id p).0 same) at free)
              (d p))
      ])

pub update_experiment-cases :
    (tables : Tables) (id : ℕ) (fields : ExperimentInput) {tables' : Tables} {row : Experiment}
    → update_experiment tables id fields ≡ ok (tables', row)
    → (old : Experiment) × (lookup id tables.experiments ≡ some old)
      × (row ≡ patch old fields)
      × (tables' ≡ record tables { experiments = insert id row tables.experiments })
unfolding update_experiment
update_experiment-cases tables id fields h = elim (Option-cases (lookup id tables.experiments)) [
  | inl e ↦ absurd (ground arith)
  | inr (old, e) ↦ (old, e, ground arith, ground arith)
]

-- An update changes the slug of no experiment of any project.
pub update_experiment-slugs :
    (tables : Tables) (id : ℕ) (fields : ExperimentInput) {tables' : Tables} {row : Experiment}
    (project_id : ℕ)
    → update_experiment tables id fields ≡ ok (tables', row)
    → project_slugs project_id tables'.experiments ≡ project_slugs project_id tables.experiments
unfolding patch
update_experiment-slugs tables id fields {row = row} project_id h =
    let (old, found, is_row, after) = update_experiment-cases tables id fields h in
    rw after
      (slugs-insert_old project_id id row old tables.experiments found (rw is_row) (rw is_row))
