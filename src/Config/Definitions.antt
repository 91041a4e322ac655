-- ===== src/Config/Definitions.antt =====
-- internal/config/definitions.go: the configuration as a file declares it.
use eirctl.Prelude.{ℕ, Bool, false, List, [], Option, none, Text, Map}
use eirctl.Variables.{Any}
use eirctl.Envfile.{Envfile}
use eirctl.Task.{Artifact, RequiredInput}
use eirctl.Context.{Binary}
use eirctl.Config.Pipeline.{PipelineDefinition}

-- internal/schema/schema.go: an import, of a configuration or of a file with its destination.
pub record ImportEntry : Type 0 where
  pub src : Text
  pub hash : Text
  pub dest : Text

-- internal/utils/binary.go
pub record Container : Type 0 where
  pub name : Text
  pub entrypoint : List Text
  pub enable_din_d : Bool
  pub enable_bind_mount : Bool
  pub container_args : List Text
  pub shell : Text
  pub shell_args : List Text

pub record ContextDefinition : Type 0 where
  pub source_file : Text
  pub dir : Text
  pub up : List Text
  pub down : List Text
  pub before : List Text
  pub after : List Text
  pub env : Map Text
  pub envfile : Option Envfile
  pub variables : Map Text
  pub executable : Option Binary
  pub quote : Text
  pub container : Option Container

pub record TaskDefinition : Type 0 where
  pub source_file : Text
  pub name : Text
  pub description : Text
  pub condition : Text
  pub command : List Text
  pub after : List Text
  pub before : List Text
  pub context : Text
  pub variations : List (Map Text)
  pub dir : Text
  pub timeout : Option ℕ
  pub allow_failure : Bool
  pub interactive : Bool
  pub artifacts : Option Artifact
  pub env : Map Text
  pub envfile : Option Envfile
  pub variables : Map Any
  pub reset_context : Bool
  pub generator : Map Any
  pub required : Option RequiredInput

pub record WatcherDefinition : Type 0 where
  pub events : List Text
  pub watch : List Text
  pub exclude : List Text
  pub task : Text
  pub variables : Map Text

pub record Generator : Type 0 where
  pub version : Text
  pub target_options : Map Any

pub record ConfigDefinition : Type 0 where
  pub imports : List ImportEntry
  pub contexts : Map ContextDefinition
  pub pipelines : Map (List PipelineDefinition)
  pub tasks : Map TaskDefinition
  pub watchers : Map WatcherDefinition
  pub debug : Bool
  pub dry_run : Bool
  pub summary : Bool
  pub verbose : Bool
  pub output : Text
  pub variables : Map Text
  pub generator : Option Generator

-- `&ConfigDefinition{}`
abbrev pub no_config : ConfigDefinition
no_config = record {
  imports = [];
  contexts = [];
  pipelines = [];
  tasks = [];
  watchers = [];
  debug = false;
  dry_run = false;
  summary = false;
  verbose = false;
  output = [];
  variables = [];
  generator = none;
}
