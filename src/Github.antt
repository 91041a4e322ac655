-- ===== src/Github.antt =====
-- internal/schema/github.go: a GitHub workflow as the file declares it. A set of names that Go
-- keeps as a map to empty structs is a list.
pub mod Values
use eirctl.Prelude.{
  ℕ, Bool, true, false, List, [], ◌∷◌, ◌++◌, Option, none, some, Text, Map, Result, ok, err, elem,
  insert, lookup,
}
use eirctl.Variables.{Any}

pub record GithubInput : Type 0 where
  pub description : Text
  pub required : Bool
  pub default : Text
  pub type : Text

pub record GithubPushEvent : Type 0 where
  pub branches : List Text
  pub tags : List Text
  pub paths : List Text
  pub paths_ignore : List Text
  pub branches_ignore : List Text
  pub tags_ignore : List Text

pub record GithubPullRequestEvent : Type 0 where
  pub branches : List Text
  pub paths : List Text
  pub branches_ignore : List Text
  pub paths_ignore : List Text
  pub types : List Text

pub record GithubWorkflowOutput : Type 0 where
  pub description : Text
  pub value : Text

pub record GithubWorkflowCallEvent : Type 0 where
  pub inputs : Map GithubInput
  pub outputs : Map GithubWorkflowOutput
  pub secrets : Map Any

pub record GithubWorkflowRunEvent : Type 0 where
  pub workflows : List Text
  pub types : List Text
  pub branches : List Text

-- Events that only filter by types, or take inputs, are these lists and maps themselves.
pub record GithubTriggerEvents : Type 0 where
  pub push : GithubPushEvent
  pub pull_request : GithubPullRequestEvent
  pub pull_request_target : GithubPullRequestEvent
  pub issue_comment : List Text
  pub repository_dispatch : List Text
  pub schedule : List Text
  pub workflow_call : GithubWorkflowCallEvent
  pub workflow_dispatch : Map GithubInput
  pub workflow_run : GithubWorkflowRunEvent
  pub configured : List Text

-- `Has` on events that may be a nil pointer.
unfoldable pub has_event : Option GithubTriggerEvents → Text → Bool
has_event none name = false
has_event (some events) name = elem name events.configured

unfoldable pub configured_names : Option GithubTriggerEvents → List Text
configured_names none = []
configured_names (some events) = events.configured

pub record GithubConcurrency : Type 0 where
  pub group : Text
  pub cancel_in_progress : Any

pub record GithubContainerCredentials : Type 0 where
  pub username : Text
  pub password : Text

pub record GithubContainer : Type 0 where
  pub image : Text
  pub credentials : Option GithubContainerCredentials
  pub env : Map Text
  pub ports : List Any
  pub volumes : List Text
  pub options : Text

pub record GithubStep : Type 0 where
  pub name : Text
  pub id : Text
  pub uses : Text
  pub run : Text
  pub with : Map Text
  pub env : Map Any
  pub shell : Text
  pub continue_on_error : Bool
  pub timeout_minutes : ℕ
  pub condition : Text

pub record GithubStrategy : Type 0 where
  pub matrix : Map Any
  pub max_parallel : ℕ
  pub fail_fast : Bool

pub record GithubJob : Type 0 where
  pub name : Text
  pub needs : List Text
  pub uses : Text
  pub with : Map Text
  pub secrets : Any
  pub outputs : Map Text
  pub runs_on : List Text
  pub container : Option GithubContainer
  pub services : Map GithubContainer
  pub steps : List GithubStep
  pub condition : Text
  pub env : Map Any
  pub environment : Text
  pub permissions : Map Text
  pub concurrency : Option GithubConcurrency
  pub timeout_minutes : ℕ
  pub strategy : Option GithubStrategy
  pub configured : List Text

-- `Has` of a job.
unfoldable pub job_has : GithubJob → Text → Bool
job_has job name = elem name job.configured

-- `ErrMustIncludeSubComponents`
pub data GithubFault : Type 0 where
  must_include_sub_components : GithubFault

unfoldable pub add_step : GithubJob → Option GithubStep → Result GithubFault GithubJob
add_step job none = err must_include_sub_components
add_step job (some step) = ok (record job { steps = job.steps ++ step ∷ [] })

-- Jobs in the order in which they were added.
pub record OrderedMap : Type 0 where
  pub ordered : List Text
  pub values : Map GithubJob

unfoldable pub new_ordered_map : OrderedMap
new_ordered_map = record { ordered = []; values = [] }

unfoldable pub add : OrderedMap → Text → GithubJob → OrderedMap
add om key val = record { ordered = om.ordered ++ key ∷ []; values = insert key val om.values }

pub record GithubWorkflow : Type 0 where
  pub name : Text
  pub on : Option GithubTriggerEvents
  pub jobs : OrderedMap
  pub defaults : Option (Text × Text)
  pub env : Map Any
  pub permissions : Map Text
  pub concurrency : Option GithubConcurrency
