-- ===== src/Experiments/Models.antt =====
-- backend/experiments/models.py, and the tables of backend/db/models.py that hold its rows.
-- An id is a number; a JSON object is its text; a timestamp is a number.
use ai_powered_research_work.Prelude.{ℕ, Bool, Option, List, Text}
use ai_powered_research_work.Prelude.Assoc.{Assoc}

pub data Status : Type 0 where
  planned remaining in_progress finished : Status

pub data RunKind : Type 0 where
  clean_run_all interactive : RunKind

pub data MetricSource : Type 0 where
  user measured : MetricSource

pub record ExperimentInput : Type 0 where
  pub title : Option Text
  pub hypothesis : Option Text
  pub setup : Option Text
  pub notes : Option Text
  pub status : Option Status
  pub network_optin : Option Bool
  pub gpu_optin : Option Bool

pub record Experiment : Type 0 where
  pub project_id : ℕ
  pub slug : Text
  pub title : Text
  pub hypothesis : Option Text
  pub setup : Text
  pub notes : Option Text
  pub status : Status
  pub notebook_path : Option Text
  pub network_optin : Bool
  pub gpu_optin : Bool

-- `approved_at` is optional here, since `is_measured_eligible` tests it for `None`.
pub record ExperimentRun : Type 0 where
  pub id : ℕ
  pub experiment_id : ℕ
  pub started_at : ℕ
  pub finished_at : Option ℕ
  pub exit_code : Option ℕ
  pub image : Text
  pub reqs_hash : Text
  pub notebook_hash : Text
  pub stdout_ref : Text
  pub artifacts : List Text
  pub run_kind : RunKind
  pub network_enabled : Bool
  pub gpu_enabled : Bool
  pub approved_at : Option ℕ

pub record MetricInput : Type 0 where
  pub name : Text
  pub value : Text
  pub unit : Option Text
  pub source : MetricSource
  pub run_id : Option ℕ

pub record ExperimentMetric : Type 0 where
  pub id : ℕ
  pub experiment_id : ℕ
  pub name : Text
  pub value : Text
  pub unit : Option Text
  pub source : MetricSource
  pub run_id : Option ℕ

-- The tables that the module reads and writes, each by its primary key.
pub record Tables : Type 0 where
  pub projects : Assoc Text
  pub experiments : Assoc Experiment
  pub runs : Assoc ExperimentRun
  pub metrics : List ExperimentMetric
