-- ===== src/Scheduler/Queues.antt =====
-- lunagentic_research_swarm/runtime/scheduler.py: the queues of one priority and which of their
-- effects is taken next.
use maibot_lunagentic_resear.Prelude.{
  if◌then◌else◌, or_default, String, Bool, true, false, Option, none, some, List, [], ◌∷◌, ◌++◌,
  reverse, ◌==◌,
}
use maibot_lunagentic_resear.Dict.{Dict, lookup, insert, erase}
use maibot_lunagentic_resear.Scheduler.{Job}

-- `_queues[priority]`, `_cursor.get(priority)` and `_dispatched.get(priority, False)`. A priority
-- that the code has removed has no tasks here.
pub record PriorityQueue : Type 0 where
  pub tasks : Dict (List Job)
  pub cursor : Option String
  pub dispatched : Bool

-- The first effect that can start, and the queue without it: the loop over `enumerate(queue)`, then
-- `rotate(-i)`, `popleft()` and `rotate(i)`.
abbrev pub keep_ahead : Job → Option (Job × List Job) → Option (Job × List Job)
keep_ahead job none = none
keep_ahead job (some (found, queue)) = some (found, job ∷ queue)

unfoldable pub take_first : (Job → Bool) → List Job → Option (Job × List Job)
take_first can [] = none
take_first can (job ∷ queue) =
    if can job then some (job, queue) else keep_ahead job (take_first can queue)

-- `list(task_queues)`
unfoldable pub keys : Dict (List Job) → List String
keys [] = []
keys ((key, _) ∷ tasks) = key ∷ keys tasks

-- The keys from `start` on, then those before it: `keys[(start + offset) % len(keys)]`.
unfoldable pub turn_order : Option String → List String → List String → List String
turn_order none before [] = reverse before
turn_order none before (key ∷ rest) = reverse before ++ key ∷ rest
turn_order (some cursor) before [] = reverse before
turn_order (some cursor) before (key ∷ rest) =
    if key == cursor
    then key ∷ rest ++ reverse before
    else turn_order (some cursor) (key ∷ before) rest

abbrev pub taken_from : (Job → Bool) → Dict (List Job) → String → Option (Job × List Job)
taken_from can tasks key = take_first can (or_default (lookup key tasks) [])

-- The first task of the order with an effect that can start, the effect, and what is left.
unfoldable pub choose :
    (Job → Bool) → Dict (List Job) → List String → Option (String × (Job × List Job))
choose can tasks [] = none
choose can tasks (key ∷ order) = elim (taken_from can tasks key) [
  | some found ↦ some (key, found)
  | none ↦ choose can tasks order
]

-- An emptied queue is popped.
abbrev pub put_back : String → List Job → Dict (List Job) → Dict (List Job)
put_back task_id [] tasks = erase task_id tasks
put_back task_id (job ∷ queue) tasks = insert task_id (job ∷ queue) tasks

abbrev first_of : List String → Option String
first_of [] = none
first_of (key ∷ _) = some key

-- The task after one in the turn, which is the first after the last.
unfoldable pub key_after : String → List String → List String → Option String
key_after task_id all_keys [] = none
key_after task_id all_keys (key ∷ rest) =
    if key == task_id then first_of (rest ++ all_keys) else key_after task_id all_keys rest

-- The cursor, which is unset once no task is left; `before` are the keys before the effect is taken.
abbrev next_cursor : String → Dict (List Job) → Dict (List Job) → Option String
next_cursor task_id before [] = none
next_cursor task_id before (task ∷ tasks) = key_after task_id (keys (task ∷ tasks)) (keys before)

abbrev pub settle_choice :
    PriorityQueue → Option (String × (Job × List Job)) → Option Job × PriorityQueue
settle_choice queue none = (none, queue)
settle_choice queue (some (task_id, (job, rest))) = (
  some job,
  record {
    tasks = put_back task_id rest queue.tasks;
    cursor = next_cursor task_id queue.tasks (put_back task_id rest queue.tasks);
    dispatched = true;
  },
)

-- `_take_from_priority`; without tasks `_cleanup_priority` removes the priority.
unfoldable pub take_from_priority : (Job → Bool) → PriorityQueue → Option Job × PriorityQueue
take_from_priority can queue = elim queue.tasks [
  | [] ↦ (none, record { tasks = []; cursor = none; dispatched = false })
  | _ ∷ _ ↦
      settle_choice queue (choose can queue.tasks (turn_order queue.cursor [] (keys queue.tasks)))
]
