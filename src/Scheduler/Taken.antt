-- ===== src/Scheduler/Taken.antt =====
-- What is taken from the queues of a priority can start, and nothing else leaves them.
use mathlib.Core.List.{reverse-cons}
use mathlib.Core.Path.{subst}
use maibot_lunagentic_resear.Prelude.{
  if◌then◌else◌, Option-cases, or_default, All, All-split, ℕ, ◌+◌, String, ◌≡◌, refl, sym, inl, inr,
  Bool, true, false, Option, none, some, List, [], ◌∷◌, ◌++◌, reverse, arith, ◌==◌, eq_iff,
}
use maibot_lunagentic_resear.Dict.{Dict, lookup, insert, erase}
use maibot_lunagentic_resear.Scheduler.{Job}
use maibot_lunagentic_resear.Scheduler.Counters.{one_if}
use maibot_lunagentic_resear.Scheduler.Queues.{
  PriorityQueue, keep_ahead, take_first, keys, turn_order, taken_from, choose, put_back,
  settle_choice, take_from_priority,
}

-- How many jobs of a list, and of all queues, pass a test.
unfoldable pub jobs_of : (Job → Bool) → List Job → ℕ
jobs_of p [] = 0
jobs_of p (job ∷ queue) = one_if (p job) + jobs_of p queue

unfoldable pub queued : (Job → Bool) → Dict (List Job) → ℕ
queued p [] = 0
queued p ((_, queue) ∷ tasks) = jobs_of p queue + queued p tasks

pub queued-insert :
    (p : Job → Bool) (key : String) (queue : List Job) (tasks : Dict (List Job))
    → queued p (insert key queue tasks) + jobs_of p (or_default (lookup key tasks) [])
      ≡ queued p tasks + jobs_of p queue
unfolding queued insert lookup jobs_of
queued-insert p key queue [] = omega arith
queued-insert p key queue ((j, w) ∷ tasks) = ground (arith, queued-insert p key queue tasks)

queued-erase :
    (p : Job → Bool) (key : String) (tasks : Dict (List Job))
    → queued p (erase key tasks) + jobs_of p (or_default (lookup key tasks) []) ≡ queued p tasks
unfolding queued erase lookup jobs_of
queued-erase p key [] = omega arith
queued-erase p key ((j, w) ∷ tasks) = ground (arith, queued-erase p key tasks)

queued-put_back :
    (p : Job → Bool) (key : String) (queue : List Job) (tasks : Dict (List Job))
    → queued p (put_back key queue tasks) + jobs_of p (or_default (lookup key tasks) [])
      ≡ queued p tasks + jobs_of p queue
unfolding jobs_of
queued-put_back p key [] tasks = omega (arith, queued-erase p key tasks)
queued-put_back p key (job ∷ queue) tasks = queued-insert p key (job ∷ queue) tasks

-- `queue` without one `job`, which can start.
IsTaken : (Job → Bool) → List Job → Option (Job × List Job) → Type 0
IsTaken can queue none = jobs_of can queue ≡ 0
IsTaken can queue (some (job, rest)) =
    (can job ≡ true) × ((p : Job → Bool) → jobs_of p queue ≡ one_if (p job) + jobs_of p rest)

take_first-IsTaken :
    (can : Job → Bool) (queue : List Job) → IsTaken can queue (take_first can queue)
unfolding take_first IsTaken jobs_of
take_first-IsTaken can [] = refl
take_first-IsTaken can (job ∷ queue) =
    go (can job) refl (take_first can queue) (take_first-IsTaken can queue)
  where
    go :
        (now : Bool)
        → can job ≡ now
        → (later : Option (Job × List Job)) → IsTaken can queue later
        → IsTaken can (job ∷ queue) (if now then some (job, queue) else keep_ahead job later)
    go true h later t = (h, λ p. refl)
    go false h none t = ground (arith, h, t)
    go false h (some (found, rest)) t = (t.0, λ p. omega (arith, t.1 p))

-- The effect that a round chooses, for the tasks of an order.
IsChosen :
    (Job → Bool) → Dict (List Job) → List String → Option (String × (Job × List Job)) → Type 0
IsChosen can tasks order none =
    All (λ key. jobs_of can (or_default (lookup key tasks) []) ≡ 0) order
IsChosen can tasks order (some (key, found)) =
    IsTaken can (or_default (lookup key tasks) []) (some found)

choose-IsChosen :
    (can : Job → Bool) (tasks : Dict (List Job)) (order : List String)
    → IsChosen can tasks order (choose can tasks order)
unfolding choose IsChosen IsTaken
choose-IsChosen can tasks [] = tt
choose-IsChosen can tasks (key ∷ order) =
    go (taken_from can tasks key) (take_first-IsTaken can (or_default (lookup key tasks) []))
      (choose can tasks order) (choose-IsChosen can tasks order)
  where
    go :
        (here : Option (Job × List Job))
        → IsTaken can (or_default (lookup key tasks) []) here
        → (later : Option (String × (Job × List Job))) → IsChosen can tasks order later
        → IsChosen can tasks
            (key ∷ order)
            (elim here [ some found ↦ some (key, found) | none ↦ later ])
    go (some found) t later c = t
    go none t none c = (t, c)
    go none t (some found) c = c

All-turn_order :
    (P : String → Type 0) (cursor : Option String) (before names : List String)
    → All P (turn_order cursor before names)
    → All P (reverse before) × All P names
unfolding turn_order
All-turn_order P none before [] h = (h, tt)
All-turn_order P none before (key ∷ rest) h = All-split P (reverse before) (key ∷ rest) h
All-turn_order P (some cursor) before [] h = (h, tt)
All-turn_order P (some cursor) before (key ∷ rest) h =
    go (key == cursor) h (All-turn_order P (some cursor) (key ∷ before) rest)
  where
    go :
        (here : Bool)
        → All P (
            if here
            then key ∷ rest ++ reverse before
            else turn_order (some cursor) (key ∷ before) rest)
        → (All P (turn_order (some cursor) (key ∷ before) rest)
            → All P (reverse (key ∷ before)) × All P rest)
        → All P (reverse before) × All P (key ∷ rest)
    go true k later = (
      (All-split P rest (reverse before) k.1).1,
      (k.0, (All-split P rest (reverse before) k.1).0),
    )
    go false k later =
        let both =
          All-split P (reverse before) (key ∷ [])
            (subst (All P) (reverse-cons key before) (later k).0) in
        (both.0, (both.1.0, (later k).1))

All-keys :
    (P : String → Type 0) (tasks : Dict (List Job)) (key : String) {queue : List Job}
    → All P (keys tasks)
    → lookup key tasks ≡ some queue
    → P key
unfolding keys lookup
All-keys P [] key h found = ground (arith, found)
All-keys P ((j, w) ∷ tasks) key {queue} h found =
    go (j == key) refl found (All-keys P tasks key h.1)
  where
    go :
        (here : Bool)
        → (j == key) ≡ here
        → (if here then some w else lookup key tasks) ≡ some queue
        → (lookup key tasks ≡ some queue → P key)
        → P key
    go true same found rest = subst P ((eq_iff j key).0 same) h.0
    go false same found rest = rest found

abbrev pub queue_of : String → PriorityQueue → List Job
queue_of key queue = or_default (lookup key queue.tasks) []

-- Nothing that can start is queued and the queues stay, or one effect that can start leaves them.
unfoldable pub TakeOutcome : (Job → Bool) → PriorityQueue → Option Job × PriorityQueue → Type 0
TakeOutcome can queue (none, next) =
    ((key : String) → jobs_of can (queue_of key queue) ≡ 0) × (next.tasks ≡ queue.tasks)
TakeOutcome can queue (some job, next) =
    (can job ≡ true)
    × ((p : Job → Bool) → queued p queue.tasks ≡ one_if (p job) + queued p next.tasks)

settle_choice-TakeOutcome :
    (can : Job → Bool) (queue : PriorityQueue) (choice : Option (String × (Job × List Job)))
    → IsChosen can queue.tasks (turn_order queue.cursor [] (keys queue.tasks)) choice
    → TakeOutcome can queue (settle_choice queue choice)
unfolding IsChosen IsTaken TakeOutcome jobs_of
settle_choice-TakeOutcome can queue none c = (
  λ key. elim (Option-cases (lookup key queue.tasks)) [
    | inl e ↦ ground (arith, e)
    | inr (found, e) ↦
        All-keys (λ name. jobs_of can (or_default (lookup name queue.tasks) []) ≡ 0) queue.tasks key
          (All-turn_order _ queue.cursor [] (keys queue.tasks) c).1 e
  ],
  refl,
)
settle_choice-TakeOutcome can queue (some (key, (job, rest))) c =
    (c.0, λ p. omega (arith, c.1 p, queued-put_back p key rest queue.tasks))

-- When no queued effect of a priority can start, `_take_from_priority` takes none and the queues
-- stay. Otherwise it takes one that can start, wherever the cursor stands, and every other effect
-- stays queued: by any test, what was queued is what is taken and what is left.
pub take_from_priority-TakeOutcome :
    (can : Job → Bool) (queue : PriorityQueue)
    → TakeOutcome can queue (take_from_priority can queue)
unfolding take_from_priority TakeOutcome lookup jobs_of
take_from_priority-TakeOutcome can queue = go queue.tasks refl
  where
    go :
        (tasks : Dict (List Job))
        → queue.tasks ≡ tasks
        → TakeOutcome can queue (elim tasks [
          | [] ↦ (none, record { tasks = []; cursor = none; dispatched = false })
          | _ ∷ _ ↦
              settle_choice queue
                (choose can queue.tasks (turn_order queue.cursor [] (keys queue.tasks)))
        ])
    go [] e = (λ key. rw e refl, sym e)
    go (_ ∷ _) e =
        settle_choice-TakeOutcome can queue
          (choose can queue.tasks (turn_order queue.cursor [] (keys queue.tasks)))
          (choose-IsChosen can queue.tasks (turn_order queue.cursor [] (keys queue.tasks)))
