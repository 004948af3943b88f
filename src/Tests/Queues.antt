-- ===== src/Tests/Queues.antt =====
-- A short run of the scheduler.
use maibot_lunagentic_resear.Prelude.{
  String, ◌≡◌, refl, true, false, not, ◌&&◌, some, [], ◌∷◌, arith,
}
use maibot_lunagentic_resear.Dict.{lookup, insert, erase}
use maibot_lunagentic_resear.Scheduler.{
  agent, procedure, other, Job, Limits, SchedulerState, is_paused_task, can_start, reserve, launch,
  pause_task, cancel_generation, new_scheduler,
}
use maibot_lunagentic_resear.Scheduler.Arrivals.{
  enqueue, is_cancelled, discard_cancelled_queued, discard_cancelled_queued_lem,
}
use maibot_lunagentic_resear.Scheduler.Cancellation.{cancel_generation-no_start}
use maibot_lunagentic_resear.Scheduler.Counters.{is_llm, IsCounted}
use maibot_lunagentic_resear.Scheduler.Priorities.{Priorities}
use maibot_lunagentic_resear.Scheduler.Queues.{
  PriorityQueue, take_first, keys, turn_order, choose, key_after, take_from_priority,
}
use maibot_lunagentic_resear.Scheduler.Steps.{
  launches, pauses, begun, then_step, SchedulerRun-IsCounted, IsWithinLimits,
  SchedulerRun-IsWithinLimits,
}
use maibot_lunagentic_resear.Scheduler.Taken.{queued, TakeOutcome, take_from_priority-TakeOutcome}

abbrev two_slots : Limits
two_slots = record { global_llm = 2; per_task_llm = 1; per_task_procedure = 4 }

abbrev agent_job : Job
agent_job = record { task_id = "t1"; generation = 1; resource = agent }

abbrev begun_job : SchedulerState
begun_job = launch (new_scheduler two_slots) agent_job

agent_can_start : can_start (new_scheduler two_slots) agent_job ≡ true
unfolding can_start lookup is_paused_task
agent_can_start = refl

SchedulerRun-IsCounted_example : IsCounted (pause_task begun_job "t1")
SchedulerRun-IsCounted_example =
    SchedulerRun-IsCounted two_slots
      (then_step (then_step begun (launches agent_job agent_can_start)) (pauses "t1"))

SchedulerRun-IsWithinLimits_example : IsWithinLimits begun_job
SchedulerRun-IsWithinLimits_example =
    SchedulerRun-IsWithinLimits two_slots (then_step begun (launches agent_job agent_can_start))

cancel_generation-no_start_example :
    can_start (pause_task (cancel_generation begun_job "t1" 2) "t2") agent_job ≡ false
cancel_generation-no_start_example =
    cancel_generation-no_start begun_job 2 agent_job (then_step begun (pauses "t2")) (omega arith)

abbrev procedure_job : Job
procedure_job = record { task_id = "t1"; generation = 1; resource = procedure }

-- The only agent slot of the task is taken, so the procedure behind goes first.
abbrev full_queue : PriorityQueue
full_queue = record {
  tasks = ("t1", agent_job ∷ procedure_job ∷ []) ∷ [];
  cursor = some "t1";
  dispatched = true;
}

take_from_priority-TakeOutcome_example :
    TakeOutcome
      (can_start begun_job)
      full_queue
      (take_from_priority (can_start begun_job) full_queue)
take_from_priority-TakeOutcome_example =
    take_from_priority-TakeOutcome (can_start begun_job) full_queue

full_queue_takes_procedure : take_from_priority (can_start begun_job) full_queue ≡ (
  some procedure_job,
  record { tasks = ("t1", agent_job ∷ []) ∷ []; cursor = some "t1"; dispatched = true },
)
unfolding take_from_priority choose turn_order keys key_after take_first can_start launch reserve
    lookup insert is_paused_task
full_queue_takes_procedure = refl

discard_cancelled_queued_lem_example :
    queued is_llm (discard_cancelled_queued (cancel_generation begun_job "t1" 1) full_queue).tasks
    ≡ queued
        (λ job. is_llm job && not (is_cancelled (cancel_generation begun_job "t1" 1) job))
        full_queue.tasks
discard_cancelled_queued_lem_example =
    discard_cancelled_queued_lem (cancel_generation begun_job "t1" 1) is_llm full_queue

abbrev other_job : String → Job
other_job task_id = record { task_id = task_id; generation = 1; resource = other }

-- Two tasks, of which "t1" had its turn and "t2" is next, when "t3" arrives.
abbrev turn_of_t2 : PriorityQueue
turn_of_t2 = record {
  tasks = ("t1", other_job "t1" ∷ []) ∷ ("t2", other_job "t2" ∷ []) ∷ [];
  cursor = some "t2";
  dispatched = true;
}

-- Once "t3" is done "t1" has another turn before "t2".
newcomer_moves_turn :
    (take_from_priority (λ _. true) (enqueue (other_job "t3") turn_of_t2)).1.cursor ≡ some "t1"
unfolding take_from_priority enqueue choose turn_order keys key_after take_first lookup insert erase
newcomer_moves_turn = refl

abbrev both_priorities : Priorities
both_priorities = ("barrier", full_queue) ∷ ("normal", turn_of_t2) ∷ []
