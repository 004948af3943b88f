-- ===== src/Scheduler/Steps.antt =====
-- Runs of the scheduler: starts and ends of effects, pauses, cancellations and changes of limits, in
-- any order.
use maibot_lunagentic_resear.Prelude.{
  ℕ, suc, ◌-◌, ◌≤◌, String, ◌≡◌, refl, true, Option, some, arith, eq_iff,
}
use maibot_lunagentic_resear.Dict.{lookup}
use maibot_lunagentic_resear.Dict.Totals.{lookup-insert}
use maibot_lunagentic_resear.Scheduler.{
  Job, Limits, SchedulerState, count_of, has_capacity, can_start, reserve, release, launch,
  find_active, finish, pause_task, resume_task, cancel_generation, update_limits, new_scheduler,
}
use maibot_lunagentic_resear.Scheduler.Counters.{
  count, IsCounted, launch-IsCounted, finish-IsCounted,
}

-- `Allows` says which changes of the limits a run may make.
pub data SchedulerStep (Allows : Limits → Limits → Type 0) (state : SchedulerState)
    : SchedulerState → Type 0 where
  launches :
      (job : Job) → can_start state job ≡ true → SchedulerStep Allows state (launch state job)
  finishes :
      (id : ℕ) (job : Job)
      → find_active id state.active ≡ some job
      → SchedulerStep Allows state (finish state id job)
  pauses : (task_id : String) → SchedulerStep Allows state (pause_task state task_id)
  resumes : (task_id : String) → SchedulerStep Allows state (resume_task state task_id)
  cancels :
      (task_id : String) (generation : ℕ)
      → SchedulerStep Allows state (cancel_generation state task_id generation)
  adjusts :
      (llm agents procedures : Option ℕ)
      → Allows state.limits (update_limits state llm agents procedures).limits
      → SchedulerStep Allows state (update_limits state llm agents procedures)

pub data SchedulerRun (Allows : Limits → Limits → Type 0) (first : SchedulerState)
    : SchedulerState → Type 0 where
  begun : SchedulerRun Allows first first
  then_step :
      {last next : SchedulerState}
      → SchedulerRun Allows first last
      → SchedulerStep Allows last next
      → SchedulerRun Allows first next

step-IsCounted :
    {Allows : Limits → Limits → Type 0} {state next : SchedulerState}
    → SchedulerStep Allows state next
    → IsCounted state
    → IsCounted next
unfolding pause_task resume_task cancel_generation update_limits
step-IsCounted {state} (launches job h) c = launch-IsCounted state job c
step-IsCounted {state} (finishes id job h) c = finish-IsCounted state job id h c
step-IsCounted (pauses task_id) c = record {
  global = c.global;
  llm = c.llm;
  procedures = c.procedures;
}
step-IsCounted (resumes task_id) c = record {
  global = c.global;
  llm = c.llm;
  procedures = c.procedures;
}
step-IsCounted (cancels task_id generation) c = record {
  global = c.global;
  llm = c.llm;
  procedures = c.procedures;
}
step-IsCounted (adjusts g l p h) c = record {
  global = c.global;
  llm = c.llm;
  procedures = c.procedures;
}

abbrev pub AnyChange : Limits → Limits → Type 0
AnyChange old new = Unit {0}

-- In every state that a new scheduler reaches the counters count what is active: the LLM calls, and
-- for each task its agent calls and its procedures. So no capacity is lost or handed out twice,
-- whatever the order of starts, ends, pauses, cancellations and changes of the limits.
pub SchedulerRun-IsCounted :
    (limits : Limits) {state : SchedulerState}
    → SchedulerRun AnyChange (new_scheduler limits) state
    → IsCounted state
unfolding lookup count
SchedulerRun-IsCounted limits begun = record {
  global = refl;
  llm = λ task_id. refl;
  procedures = λ task_id. refl;
}
SchedulerRun-IsCounted limits (then_step run next) =
    step-IsCounted next (SchedulerRun-IsCounted limits run)

-- What is active keeps to the limits.
pub record IsWithinLimits (state : SchedulerState) : Type 0 where
  pub global : state.global_llm_active ≤ state.limits.global_llm
  pub llm : (task_id : String) → count_of task_id state.task_llm_active ≤ state.limits.per_task_llm
  pub procedures :
      (task_id : String)
      → count_of task_id state.task_procedure_active ≤ state.limits.per_task_procedure

-- No limit is lowered.
pub record Raises (old new : Limits) : Type 0 where
  pub global : old.global_llm ≤ new.global_llm
  pub llm : old.per_task_llm ≤ new.per_task_llm
  pub procedures : old.per_task_procedure ≤ new.per_task_procedure

can_start-capacity :
    (state : SchedulerState) (job : Job)
    → can_start state job ≡ true
    → has_capacity state job ≡ true
unfolding can_start
can_start-capacity state job h = ground arith

launch-IsWithinLimits :
    (state : SchedulerState) (job : Job)
    → has_capacity state job ≡ true
    → IsWithinLimits state
    → IsWithinLimits (launch state job)
unfolding launch reserve
launch-IsWithinLimits state job room w = record {
  global = ground (arith, w.global);
  llm = λ task_id. ground (
    arith,
    w.llm task_id,
    lookup-insert job.task_id task_id (suc (count_of job.task_id state.task_llm_active))
        state.task_llm_active,
    eq_iff job.task_id task_id,
  );
  procedures = λ task_id. ground (
    arith,
    w.procedures task_id,
    lookup-insert job.task_id task_id (suc (count_of job.task_id state.task_procedure_active))
        state.task_procedure_active,
    eq_iff job.task_id task_id,
  );
}

finish-IsWithinLimits :
    (state : SchedulerState) (id : ℕ) (job : Job)
    → IsWithinLimits state
    → IsWithinLimits (finish state id job)
unfolding finish release
finish-IsWithinLimits state id job w = record {
  global = ground (arith, w.global);
  llm = λ task_id. ground (
    arith,
    w.llm task_id,
    lookup-insert job.task_id task_id (count_of job.task_id state.task_llm_active - 1)
        state.task_llm_active,
    eq_iff job.task_id task_id,
  );
  procedures = λ task_id. ground (
    arith,
    w.procedures task_id,
    lookup-insert job.task_id task_id (count_of job.task_id state.task_procedure_active - 1)
        state.task_procedure_active,
    eq_iff job.task_id task_id,
  );
}

step-IsWithinLimits :
    {state next : SchedulerState}
    → SchedulerStep Raises state next
    → IsWithinLimits state
    → IsWithinLimits next
unfolding pause_task resume_task cancel_generation update_limits
step-IsWithinLimits {state} (launches job h) w =
    launch-IsWithinLimits state job (can_start-capacity state job h) w
step-IsWithinLimits {state} (finishes id job h) w = finish-IsWithinLimits state id job w
step-IsWithinLimits (pauses task_id) w = record {
  global = w.global;
  llm = w.llm;
  procedures = w.procedures;
}
step-IsWithinLimits (resumes task_id) w = record {
  global = w.global;
  llm = w.llm;
  procedures = w.procedures;
}
step-IsWithinLimits (cancels task_id generation) w = record {
  global = w.global;
  llm = w.llm;
  procedures = w.procedures;
}
step-IsWithinLimits (adjusts g l p up) w = record {
  global = omega (arith, w.global, up.global);
  llm = λ task_id. omega (arith, w.llm task_id, up.llm);
  procedures = λ task_id. omega (arith, w.procedures task_id, up.procedures);
}

-- While no limit is lowered, no more LLM calls are active than the global limit, and for each task no
-- more agent calls and procedures than the limits of a task, in every state that a new scheduler
-- reaches.
pub SchedulerRun-IsWithinLimits :
    (limits : Limits) {state : SchedulerState}
    → SchedulerRun Raises (new_scheduler limits) state
    → IsWithinLimits state
unfolding lookup
SchedulerRun-IsWithinLimits limits begun = record {
  global = omega arith;
  llm = λ task_id. omega arith;
  procedures = λ task_id. omega arith;
}
SchedulerRun-IsWithinLimits limits (then_step run next) =
    step-IsWithinLimits next (SchedulerRun-IsWithinLimits limits run)
