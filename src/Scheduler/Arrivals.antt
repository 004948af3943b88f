-- ===== src/Scheduler/Arrivals.antt =====
-- lunagentic_research_swarm/runtime/scheduler.py: how an effect joins the queues of its priority, and
-- how those of cancelled generations leave them.
use maibot_lunagentic_resear.Prelude.{
  if◌then◌else◌, Option-cases, ◌+◌, String, ◌≡◌, refl, sym, ap, ◌∙◌, inl, inr, Bool, false, not,
  ◌&&◌, none, some, List, [], ◌∷◌, ◌++◌, arith, ◌==◌,
}
use maibot_lunagentic_resear.Dict.{Dict, lookup, contains, insert}
use maibot_lunagentic_resear.Scheduler.{Job, SchedulerState, is_generation_cancelled}
use maibot_lunagentic_resear.Scheduler.Counters.{one_if}
use maibot_lunagentic_resear.Scheduler.Queues.{PriorityQueue}
use maibot_lunagentic_resear.Scheduler.Taken.{jobs_of, queued, queued-insert}

-- `cursor in task_queues`, where the new task is in already, and `cursor != task_id`.
abbrev goes_first : String → PriorityQueue → String → Bool
goes_first task_id queue cursor =
    queue.dispatched && contains cursor queue.tasks && not (cursor == task_id)

-- A task that has no queue yet.
abbrev pub add_task : String → List Job → PriorityQueue → PriorityQueue
add_task task_id jobs queue = elim queue.cursor [
  | none ↦ record queue { tasks = queue.tasks ++ (task_id, jobs) ∷ []; cursor = some task_id }
  | some cursor ↦
      if goes_first task_id queue cursor
      then record queue { tasks = (task_id, jobs) ∷ queue.tasks; cursor = some task_id }
      else record queue { tasks = queue.tasks ++ (task_id, jobs) ∷ [] }
]

-- The part of `enqueue` that is about a priority.
unfoldable pub enqueue : Job → PriorityQueue → PriorityQueue
enqueue job queue = elim (lookup job.task_id queue.tasks) [
  | none ↦ add_task job.task_id (job ∷ []) queue
  | some jobs ↦ record queue { tasks = insert job.task_id (jobs ++ job ∷ []) queue.tasks }
]

abbrev pub is_cancelled : SchedulerState → Job → Bool
is_cancelled state job = is_generation_cancelled state job.task_id job.generation

unfoldable pub not_cancelled : SchedulerState → List Job → List Job
not_cancelled state [] = []
not_cancelled state (job ∷ jobs) =
    if is_cancelled state job then not_cancelled state jobs else job ∷ not_cancelled state jobs

abbrev pub keep_task : String → List Job → Dict (List Job) → Dict (List Job)
keep_task task_id [] tasks = tasks
keep_task task_id (job ∷ jobs) tasks = (task_id, job ∷ jobs) ∷ tasks

unfoldable pub kept_tasks : SchedulerState → Dict (List Job) → Dict (List Job)
kept_tasks state [] = []
kept_tasks state ((task_id, jobs) ∷ tasks) =
    keep_task task_id (not_cancelled state jobs) (kept_tasks state tasks)

-- `_cleanup_priority`
abbrev cleaned : Dict (List Job) → PriorityQueue → PriorityQueue
cleaned [] queue = record { tasks = []; cursor = none; dispatched = false }
cleaned ((first, _) ∷ _) queue = record queue {
  cursor = elim queue.cursor [
    | none ↦ some first
    | some cursor ↦ if contains cursor queue.tasks then some cursor else some first
  ];
}

unfoldable pub cleanup_priority : PriorityQueue → PriorityQueue
cleanup_priority queue = cleaned queue.tasks queue

-- `_discard_cancelled_queued`, for a priority
unfoldable pub discard_cancelled_queued : SchedulerState → PriorityQueue → PriorityQueue
discard_cancelled_queued state queue =
    cleanup_priority (record queue { tasks = kept_tasks state queue.tasks })

jobs_of-append :
    (p : Job → Bool) (jobs more : List Job)
    → jobs_of p (jobs ++ more) ≡ jobs_of p jobs + jobs_of p more
unfolding jobs_of
jobs_of-append p [] more = omega arith
jobs_of-append p (job ∷ jobs) more = omega (arith, jobs_of-append p jobs more)

queued-append :
    (p : Job → Bool) (tasks more : Dict (List Job))
    → queued p (tasks ++ more) ≡ queued p tasks + queued p more
unfolding queued
queued-append p [] more = omega arith
queued-append p ((key, jobs) ∷ tasks) more = omega (arith, queued-append p tasks more)

queued-add_task :
    (p : Job → Bool) (task_id : String) (jobs : List Job) (queue : PriorityQueue)
    → queued p (add_task task_id jobs queue).tasks ≡ jobs_of p jobs + queued p queue.tasks
unfolding queued
queued-add_task p task_id jobs queue =
    ground (arith, queued-append p queue.tasks ((task_id, jobs) ∷ []))

-- An effect that is enqueued joins the queues of its priority once and takes no other out: by any
-- test, what is queued then is what was, and the effect.
pub enqueue-queued :
    (p : Job → Bool) (job : Job) (queue : PriorityQueue)
    → queued p (enqueue job queue).tasks ≡ one_if (p job) + queued p queue.tasks
unfolding enqueue jobs_of
enqueue-queued p job queue = elim (Option-cases (lookup job.task_id queue.tasks)) [
  | inl e ↦ rw (e, enqueue) (omega (arith, queued-add_task p job.task_id (job ∷ []) queue))
  | inr (jobs, e) ↦ ground (
    arith,
    e,
    queued-insert p job.task_id (jobs ++ job ∷ []) queue.tasks,
    jobs_of-append p jobs (job ∷ []),
  )
]

jobs_of-not_cancelled :
    (state : SchedulerState) (p : Job → Bool) (jobs : List Job)
    → jobs_of p (not_cancelled state jobs)
      ≡ jobs_of (λ job. p job && not (is_cancelled state job)) jobs
unfolding jobs_of not_cancelled
jobs_of-not_cancelled state p [] = refl
jobs_of-not_cancelled state p (job ∷ jobs) = ground (arith, jobs_of-not_cancelled state p jobs)

queued-keep_task :
    (p : Job → Bool) (task_id : String) (jobs : List Job) (tasks : Dict (List Job))
    → queued p (keep_task task_id jobs tasks) ≡ jobs_of p jobs + queued p tasks
unfolding queued jobs_of
queued-keep_task p task_id [] tasks = omega arith
queued-keep_task p task_id (job ∷ jobs) tasks = refl

queued-kept_tasks :
    (state : SchedulerState) (p : Job → Bool) (tasks : Dict (List Job))
    → queued p (kept_tasks state tasks)
      ≡ queued (λ job. p job && not (is_cancelled state job)) tasks
unfolding queued kept_tasks
queued-kept_tasks state p [] = refl
queued-kept_tasks state p ((task_id, jobs) ∷ tasks) = omega (
  arith,
  queued-keep_task p task_id (not_cancelled state jobs) (kept_tasks state tasks),
  jobs_of-not_cancelled state p jobs,
  queued-kept_tasks state p tasks,
)

cleaned-tasks :
    (tasks : Dict (List Job)) (queue : PriorityQueue)
    → queue.tasks ≡ tasks
    → (cleaned tasks queue).tasks ≡ queue.tasks
cleaned-tasks [] queue e = sym e
cleaned-tasks ((_, _) ∷ _) queue e = refl

cleanup_priority-tasks : (queue : PriorityQueue) → (cleanup_priority queue).tasks ≡ queue.tasks
unfolding cleanup_priority
cleanup_priority-tasks queue = cleaned-tasks queue.tasks queue refl

-- The effects of cancelled generations leave the queues of a priority and all others stay: by any
-- test, what is queued then is what was queued and is not cancelled.
pub discard_cancelled_queued_lem :
    (state : SchedulerState) (p : Job → Bool) (queue : PriorityQueue)
    → queued p (discard_cancelled_queued state queue).tasks
      ≡ queued (λ job. p job && not (is_cancelled state job)) queue.tasks
unfolding discard_cancelled_queued
discard_cancelled_queued_lem state p queue =
    ap (queued p) (cleanup_priority-tasks (record queue { tasks = kept_tasks state queue.tasks }))
    ∙ queued-kept_tasks state p queue.tasks
