-- ===== src/Scheduler.antt =====
-- lunagentic_research_swarm/runtime/scheduler.py: which effects may start, and the counters of what
-- is running.
pub mod Arrivals
pub mod Cancellation
pub mod Counters
pub mod Priorities
pub mod Queues
pub mod Steps
pub mod Taken
use maibot_lunagentic_resear.Prelude.{
  ltb, leb, nat_eq, max_ℕ, if◌then◌else◌, or_default, ℕ, suc, ◌-◌, String, Bool, true, false, not,
  ◌&&◌, ◌||◌, Option, none, some, List, [], ◌∷◌, ◌++◌, ◌==◌,
}
use maibot_lunagentic_resear.Dict.{Dict, lookup, insert}

-- The values of `_resource_kind`, which reads them from an effect's kind.
pub data Resource : Type 0 where
  agent summarizer procedure other : Resource

-- A queued effect, with the resource of its kind.
pub record Job : Type 0 where
  pub task_id : String
  pub generation : ℕ
  pub resource : Resource

pub record Limits : Type 0 where
  pub global_llm : ℕ
  pub per_task_llm : ℕ
  pub per_task_procedure : ℕ

pub record SchedulerState : Type 0 where
  pub limits : Limits
  pub paused : List String
  pub cancelled_through : Dict ℕ
  pub active : List (ℕ × Job)
  pub next_active_id : ℕ
  pub global_llm_active : ℕ
  pub task_llm_active : Dict ℕ
  pub task_procedure_active : Dict ℕ

abbrev pub is_agent : Resource → Bool
is_agent agent = true
is_agent _ = false

abbrev pub is_procedure : Resource → Bool
is_procedure procedure = true
is_procedure _ = false

-- `resource in {"agent", "summarizer"}`
abbrev pub uses_llm : Resource → Bool
uses_llm agent = true
uses_llm summarizer = true
uses_llm _ = false

-- `counter[task_id]`
abbrev pub count_of : String → Dict ℕ → ℕ
count_of task_id counter = or_default (lookup task_id counter) 0

-- `_is_generation_cancelled`; no number is at most the default of -1.
abbrev pub is_generation_cancelled : SchedulerState → String → ℕ → Bool
is_generation_cancelled state task_id generation = elim (lookup task_id state.cancelled_through) [
  | none ↦ false
  | some through ↦ leb generation through
]

unfoldable pub is_paused_task : String → List String → Bool
is_paused_task task_id [] = false
is_paused_task task_id (name ∷ paused) = name == task_id || is_paused_task task_id paused

-- `_is_pause_permitted`
abbrev pub is_pause_permitted : Job → Bool
is_pause_permitted job = not (uses_llm job.resource)

abbrev pub has_capacity : SchedulerState → Job → Bool
has_capacity state job = elim job.resource [
  | agent ↦
      ltb state.global_llm_active state.limits.global_llm
      && ltb (count_of job.task_id state.task_llm_active) state.limits.per_task_llm
  | summarizer ↦ ltb state.global_llm_active state.limits.global_llm
  | procedure ↦
      ltb (count_of job.task_id state.task_procedure_active) state.limits.per_task_procedure
  | other ↦ true
]

-- `_can_start`
unfoldable pub can_start : SchedulerState → Job → Bool
can_start state job =
    if is_generation_cancelled state job.task_id job.generation
    then false
    else if is_paused_task job.task_id state.paused && not (is_pause_permitted job)
    then false
    else has_capacity state job

-- `_reserve`
unfoldable pub reserve : SchedulerState → Job → SchedulerState
reserve state job = record state {
  global_llm_active =
      if uses_llm job.resource then suc state.global_llm_active else state.global_llm_active;
  task_llm_active =
      if is_agent job.resource
      then insert job.task_id (suc (count_of job.task_id state.task_llm_active))
          state.task_llm_active
      else state.task_llm_active;
  task_procedure_active =
      if is_procedure job.resource
      then insert job.task_id (suc (count_of job.task_id state.task_procedure_active))
          state.task_procedure_active
      else state.task_procedure_active;
}

-- `_release`; the subtraction stops at zero.
unfoldable pub release : SchedulerState → Job → SchedulerState
release state job = record state {
  global_llm_active =
      if uses_llm job.resource then state.global_llm_active - 1 else state.global_llm_active;
  task_llm_active =
      if is_agent job.resource
      then insert job.task_id (count_of job.task_id state.task_llm_active - 1) state.task_llm_active
      else state.task_llm_active;
  task_procedure_active =
      if is_procedure job.resource
      then insert job.task_id (count_of job.task_id state.task_procedure_active - 1)
          state.task_procedure_active
      else state.task_procedure_active;
}

-- `_launch`
unfoldable pub launch : SchedulerState → Job → SchedulerState
launch state job = record (reserve state job) {
  active = state.active ++ (state.next_active_id, job) ∷ [];
  next_active_id = suc state.next_active_id;
}

-- The first active entry under an id, and the list without it.
unfoldable pub find_active : ℕ → List (ℕ × Job) → Option Job
find_active id [] = none
find_active id ((key, job) ∷ active) = if nat_eq key id then some job else find_active id active

unfoldable pub drop_active : ℕ → List (ℕ × Job) → List (ℕ × Job)
drop_active id [] = []
drop_active id ((key, job) ∷ active) =
    if nat_eq key id then active else (key, job) ∷ drop_active id active

-- The `finally` of `_run_entry`.
unfoldable pub finish : SchedulerState → ℕ → Job → SchedulerState
finish state id job = release (record state { active = drop_active id state.active }) job

-- `pause_task` and `resume_task`
unfoldable pub pause_task : SchedulerState → String → SchedulerState
pause_task state task_id = record state {
  paused =
      if is_paused_task task_id state.paused then state.paused else state.paused ++ task_id ∷ [];
}

unfoldable pub without : String → List String → List String
without task_id [] = []
without task_id (name ∷ paused) =
    if name == task_id then without task_id paused else name ∷ without task_id paused

unfoldable pub resume_task : SchedulerState → String → SchedulerState
resume_task state task_id = record state { paused = without task_id state.paused }

-- What `cancel_generation` does to the state besides emptying queues.
unfoldable pub cancel_generation : SchedulerState → String → ℕ → SchedulerState
cancel_generation state task_id generation = record state {
  cancelled_through =
      insert task_id (max_ℕ (count_of task_id state.cancelled_through) generation)
        state.cancelled_through;
}

-- `update_limits`; a value that is not given stays.
unfoldable pub update_limits : SchedulerState → Option ℕ → Option ℕ → Option ℕ → SchedulerState
update_limits state global_llm per_task_llm per_task_procedure = record state {
  limits = record {
    global_llm = or_default global_llm state.limits.global_llm;
    per_task_llm = or_default per_task_llm state.limits.per_task_llm;
    per_task_procedure = or_default per_task_procedure state.limits.per_task_procedure;
  };
}

-- `__init__`
abbrev pub new_scheduler : Limits → SchedulerState
new_scheduler limits = record {
  limits = limits;
  paused = [];
  cancelled_through = [];
  active = [];
  next_active_id = 0;
  global_llm_active = 0;
  task_llm_active = [];
  task_procedure_active = [];
}
