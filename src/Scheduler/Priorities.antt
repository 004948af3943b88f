-- ===== src/Scheduler/Priorities.antt =====
-- lunagentic_research_swarm/runtime/scheduler.py: the next effect over all priorities.
use maibot_lunagentic_resear.Prelude.{
  if◌then◌else◌, ℕ, ◌+◌, String, ◌≡◌, Bool, true, false, Option, none, some, List, [], ◌∷◌, ◌==◌,
}
use maibot_lunagentic_resear.Dict.{Dict}
use maibot_lunagentic_resear.Scheduler.{Job, SchedulerState, can_start}
use maibot_lunagentic_resear.Scheduler.Arrivals.{discard_cancelled_queued}
use maibot_lunagentic_resear.Scheduler.Counters.{one_if}
use maibot_lunagentic_resear.Scheduler.Queues.{PriorityQueue, take_from_priority}
use maibot_lunagentic_resear.Scheduler.Taken.{queued}

-- `_queues`, in the order of `sorted(self._queues, key=self._priority_rank, reverse=True)`
abbrev pub Priorities : Type 0
Priorities = List (String × PriorityQueue)

unfoldable pub discard_all : SchedulerState → Priorities → Priorities
discard_all state [] = []
discard_all state ((priority, queue) ∷ queues) =
    (priority, discard_cancelled_queued state queue) ∷ discard_all state queues

-- `priority == "barrier" and task_queues`
abbrev is_blocking : String → Dict (List Job) → Bool
is_blocking priority [] = false
is_blocking priority (_ ∷ _) = priority == "barrier"

-- One turn of the loop, with the outcome of the later turns.
abbrev take_turn :
    String
    → Option Job × PriorityQueue
    → Priorities
    → Option Job × Priorities
    → Option Job × Priorities
take_turn priority (some job, queue) queues later = (some job, (priority, queue) ∷ queues)
take_turn priority (none, queue) queues later =
    if is_blocking priority queue.tasks
    then (none, (priority, queue) ∷ queues)
    else (later.0, (priority, queue) ∷ later.1)

unfoldable pub take_in_order : (Job → Bool) → Priorities → Option Job × Priorities
take_in_order can [] = (none, [])
take_in_order can ((priority, queue) ∷ queues) =
    take_turn priority (take_from_priority can queue) queues (take_in_order can queues)

-- `_take_runnable`
unfoldable pub take_runnable : SchedulerState → Priorities → Option Job × Priorities
take_runnable state queues = take_in_order (can_start state) (discard_all state queues)

unfoldable pub queued_in_all : (Job → Bool) → Priorities → ℕ
queued_in_all p [] = 0
queued_in_all p ((_, queue) ∷ queues) = queued p queue.tasks + queued_in_all p queues

-- What is taken can start, and it and what is left are what was there.
pub RunOutcome : (Job → Bool) → ((Job → Bool) → ℕ) → Option Job × Priorities → Type 0
RunOutcome can before (none, left) = (p : Job → Bool) → before p ≡ queued_in_all p left
RunOutcome can before (some job, left) =
    (can job ≡ true) × ((p : Job → Bool) → before p ≡ one_if (p job) + queued_in_all p left)
