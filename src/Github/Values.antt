-- ===== src/Github/Values.antt =====
-- The zero values of Go for jobs, steps and events, which a lookup gives on a missing key.
use eirctl.Prelude.{false, [], none, Text, List}
use eirctl.Variables.{null}
use eirctl.Github.{
  GithubPushEvent, GithubPullRequestEvent, GithubTriggerEvents, GithubStep, GithubJob, GithubInput,
}

abbrev pub no_input : GithubInput
no_input = record { description = []; required = false; default = []; type = [] }

abbrev pub no_push : GithubPushEvent
no_push = record {
  branches = [];
  tags = [];
  paths = [];
  paths_ignore = [];
  branches_ignore = [];
  tags_ignore = [];
}

abbrev pub no_pull_request : GithubPullRequestEvent
no_pull_request = record {
  branches = [];
  paths = [];
  branches_ignore = [];
  paths_ignore = [];
  types = [];
}

-- The names of events, with no options.
abbrev pub events_of : List Text → GithubTriggerEvents
events_of names = record {
  push = no_push;
  pull_request = no_pull_request;
  pull_request_target = no_pull_request;
  issue_comment = [];
  repository_dispatch = [];
  schedule = [];
  workflow_call = record { inputs = []; outputs = []; secrets = [] };
  workflow_dispatch = [];
  workflow_run = record { workflows = []; types = []; branches = [] };
  configured = names;
}

abbrev pub no_step : GithubStep
no_step = record {
  name = [];
  id = [];
  uses = [];
  run = [];
  with = [];
  env = [];
  shell = [];
  continue_on_error = false;
  timeout_minutes = 0;
  condition = [];
}

abbrev pub no_job : GithubJob
no_job = record {
  name = [];
  needs = [];
  uses = [];
  with = [];
  secrets = null;
  outputs = [];
  runs_on = [];
  container = none;
  services = [];
  steps = [];
  condition = [];
  env = [];
  environment = [];
  permissions = [];
  concurrency = none;
  timeout_minutes = 0;
  strategy = none;
  configured = [];
}
