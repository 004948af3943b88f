-- ===== src/Scheduler/Cancellation.antt =====
-- What is cancelled stays so.
use maibot_lunagentic_resear.Prelude.{max_ℕ, ℕ, ◌≤◌, String, ◌≡◌, true, false, arith, eq_iff}
use maibot_lunagentic_resear.Dict.Totals.{lookup-insert}
use maibot_lunagentic_resear.Scheduler.{
  Job, Limits, SchedulerState, count_of, is_generation_cancelled, can_start, reserve, release,
  launch, finish, pause_task, resume_task, cancel_generation, update_limits,
}
use maibot_lunagentic_resear.Scheduler.Steps.{
  SchedulerStep, launches, finishes, pauses, resumes, cancels, adjusts, SchedulerRun, begun,
  then_step, AnyChange,
}

cancel-covers :
    (state : SchedulerState) (task_id other_task : String) (generation other_generation : ℕ)
    → is_generation_cancelled state task_id generation ≡ true
    → is_generation_cancelled
        (cancel_generation state other_task other_generation)
        task_id
        generation
      ≡ true
unfolding cancel_generation
cancel-covers state task_id other_task generation other_generation h = ground (
  arith,
  h,
  lookup-insert other_task task_id
      (max_ℕ (count_of other_task state.cancelled_through) other_generation)
      state.cancelled_through,
  eq_iff other_task task_id,
)

cancel_generation-cancels :
    (state : SchedulerState) (task_id : String) (generation : ℕ)
    → is_generation_cancelled (cancel_generation state task_id generation) task_id generation ≡ true
unfolding cancel_generation
cancel_generation-cancels state task_id generation = ground (
  arith,
  lookup-insert task_id task_id (max_ℕ (count_of task_id state.cancelled_through) generation)
      state.cancelled_through,
  eq_iff task_id task_id,
)

step-stays_cancelled :
    {Allows : Limits → Limits → Type 0} {state later : SchedulerState} (task_id : String)
    (generation : ℕ)
    → SchedulerStep Allows state later
    → is_generation_cancelled state task_id generation ≡ true
    → is_generation_cancelled later task_id generation ≡ true
unfolding launch reserve finish release pause_task resume_task update_limits
step-stays_cancelled task_id generation (launches job _) h = h
step-stays_cancelled task_id generation (finishes id job _) h = h
step-stays_cancelled task_id generation (pauses _) h = h
step-stays_cancelled task_id generation (resumes _) h = h
step-stays_cancelled {state} task_id generation (cancels other_task other_generation) h =
    cancel-covers state task_id other_task generation other_generation h
step-stays_cancelled task_id generation (adjusts _ _ _ _) h = h

SchedulerRun-stays_cancelled :
    {first last : SchedulerState} (task_id : String) (generation : ℕ)
    → SchedulerRun AnyChange first last
    → is_generation_cancelled first task_id generation ≡ true
    → is_generation_cancelled last task_id generation ≡ true
SchedulerRun-stays_cancelled task_id generation begun h = h
SchedulerRun-stays_cancelled task_id generation (then_step run later) h =
    step-stays_cancelled task_id generation later
      (SchedulerRun-stays_cancelled task_id generation run h)

cancelled-cannot_start :
    (state : SchedulerState) (job : Job) (generation : ℕ)
    → is_generation_cancelled state job.task_id generation ≡ true
    → job.generation ≤ generation
    → can_start state job ≡ false
unfolding can_start
cancelled-cannot_start state job generation h old = ground arith

-- Once a generation of a task is cancelled, no effect of it or of an earlier one starts again,
-- whatever starts, ends, pauses, further cancellations and changes of the limits follow.
pub cancel_generation-no_start :
    (state : SchedulerState) {last : SchedulerState} (generation : ℕ) (job : Job)
    → SchedulerRun AnyChange (cancel_generation state job.task_id generation) last
    → job.generation ≤ generation
    → can_start last job ≡ false
cancel_generation-no_start state {last} generation job run old =
    cancelled-cannot_start last job generation
      (SchedulerRun-stays_cancelled job.task_id generation run
        (cancel_generation-cancels state job.task_id generation))
      old
