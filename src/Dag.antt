-- ===== src/Dag.antt =====
-- src/rtlfarm/expand/dag.py: a manifest and a selection become the job's tasks.
--
-- A parameter map with fixed keys is a record: `TaskParams`, with the keys that only a targeted task
-- has in `TargetParams`.
pub mod Valid
pub mod Select
pub mod StageOrder
pub mod Tasks
pub mod Expand
pub mod Chosen
pub mod Discard
pub mod Ready
pub mod Sorted
pub mod Wiring
pub mod Building
pub mod Wired
pub mod Plan
pub mod Shapes
pub mod Running
pub mod Keys
pub mod Expansion
pub mod Guarantees
pub mod Rows
pub mod Settings
mod Examples
pub mod Samples
use rtlfarm.Prelude.{
  ℕ, zero, suc, String, Bool, true, false, not, ◌&&◌, ◌||◌, List, [], ◌∷◌, ◌++◌, map, ◌==◌,
  contains, lookup, insert, merge, keys, length, all, take, Option, none, some, if◌then◌else◌,
  Result, ok, raise, key_error, stop_iteration, out_of_fuel, no_such_target, no_targets_matched,
  ◌>>=◌, string_eq,
}
use rtlfarm.Ids.{whole_design_target, task_id}
use rtlfarm.Models.{Role, rtl, include, tb, data', Tool, Scalars, Target, Stage, Pipeline}
use rtlfarm.Json.{str, num, arr, obj, Fields, end, field, strs, optional_num, Codec}
use rtlfarm.Manifest.{Manifest, digest, paths}
use rtlfarm.Pipeline.{Stages, discard}
use rtlfarm.Pipeline.Rules.{is_empty, is_given}

pub record Selection : Type 0 where
  pub tags : List String
  pub targets : List String
  pub seeds : Option ℕ
  pub seed : Option ℕ

pub record TargetParams : Type 0 where
  pub top : String
  pub tb : List String
  pub data_files : List String
  pub plusargs : Scalars
  pub timeout_sim : String
  pub allow_zero_time : Bool

pub record TaskParams : Type 0 where
  pub defines : Scalars
  pub params : Scalars
  pub timescale : Option String
  pub include_dirs : List String
  pub consumes : List Role
  pub inputs : List String
  pub of_target : Option TargetParams

pub record TaskSpec : Type 0 where
  pub task_id : String
  pub stage_kind : String
  pub target : String
  pub seed : ℕ
  pub tool : Tool
  pub params : TaskParams
  pub timeout_s : ℕ
  pub cacheable : Bool
  pub bypass_cache : Bool
  pub affects_verdict : Bool
  pub toolchain_digest : String
  pub priority : ℕ
  pub max_infra : ℕ
  pub max_timeout : ℕ
  pub max_tool_error : ℕ
  pub consumes_artifacts : List String
  pub depends_on : List String

pub record ExpandedJob : Type 0 where
  pub job_id : String
  pub design : String
  pub submission_hash : String
  pub toolchain_digest : String
  pub tasks : List TaskSpec
