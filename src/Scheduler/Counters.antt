-- ===== src/Scheduler/Counters.antt =====
-- The counters of the scheduler count what is active.
use maibot_lunagentic_resear.Prelude.{
  nat_eq, if◌then◌else◌, some_injective, ℕ, suc, ◌+◌, ◌-◌, String, ◌≡◌, ap, Bool, true, false, ◌&&◌,
  some, List, [], ◌∷◌, ◌++◌, arith, ◌==◌, eq_iff,
}
use maibot_lunagentic_resear.Dict.Totals.{lookup-insert}
use maibot_lunagentic_resear.Scheduler.{
  Job, SchedulerState, is_agent, is_procedure, uses_llm, count_of, reserve, release, launch,
  find_active, drop_active, finish,
}

unfoldable pub count : (Job → Bool) → List (ℕ × Job) → ℕ
count p [] = 0
count p ((_, job) ∷ active) = if p job then suc (count p active) else count p active

-- `task`'s agent calls, and its procedures
abbrev pub is_agent_of : String → Job → Bool
is_agent_of task_id job = is_agent job.resource && (job.task_id == task_id)

abbrev pub is_procedure_of : String → Job → Bool
is_procedure_of task_id job = is_procedure job.resource && (job.task_id == task_id)

abbrev pub is_llm : Job → Bool
is_llm job = uses_llm job.resource

pub record IsCounted (state : SchedulerState) : Type 0 where
  pub global : state.global_llm_active ≡ count is_llm state.active
  pub llm :
      (task_id : String)
      → count_of task_id state.task_llm_active ≡ count (is_agent_of task_id) state.active
  pub procedures :
      (task_id : String)
      → count_of task_id state.task_procedure_active ≡ count (is_procedure_of task_id) state.active

-- One more or one less.
abbrev pub one_if : Bool → ℕ
one_if b = if b then 1 else 0

count-snoc :
    (p : Job → Bool) (active : List (ℕ × Job)) (id : ℕ) (job : Job)
    → count p (active ++ (id, job) ∷ []) ≡ count p active + one_if (p job)
unfolding count
count-snoc p [] id job = ground arith
count-snoc p ((key, running_job) ∷ active) id job = ground (arith, count-snoc p active id job)

count-drop_active :
    (p : Job → Bool) (id : ℕ) (active : List (ℕ × Job)) {job : Job}
    → find_active id active ≡ some job
    → count p (drop_active id active) + one_if (p job) ≡ count p active
unfolding count find_active drop_active
count-drop_active p id [] h = cc
count-drop_active p id ((key, running_job) ∷ active) {job} h =
    go (nat_eq key id) h (count-drop_active p id active)
  where
    go :
        (here : Bool)
        → (if here then some running_job else find_active id active) ≡ some job
        → (find_active id active ≡ some job
            → count p (drop_active id active) + one_if (p job) ≡ count p active)
        → count p (if here then active else (key, running_job) ∷ drop_active id active)
            + one_if (p job)
          ≡ (if p running_job then suc (count p active) else count p active)
    go true h rest = ground (arith, ap p (some_injective h))
    go false h rest = ground (arith, rest h)

module _ (state : SchedulerState) (job : Job) where
  pub launch-IsCounted : IsCounted state → IsCounted (launch state job)
  unfolding launch reserve
  launch-IsCounted c = record {
    global = ground (arith, c.global, count-snoc is_llm state.active state.next_active_id job);
    llm = λ task_id. ground (
      arith,
      c.llm task_id,
      count-snoc (is_agent_of task_id) state.active state.next_active_id job,
      lookup-insert job.task_id task_id (suc (count_of job.task_id state.task_llm_active))
          state.task_llm_active,
      eq_iff job.task_id task_id,
    );
    procedures = λ task_id. ground (
      arith,
      c.procedures task_id,
      count-snoc (is_procedure_of task_id) state.active state.next_active_id job,
      lookup-insert job.task_id task_id (suc (count_of job.task_id state.task_procedure_active))
          state.task_procedure_active,
      eq_iff job.task_id task_id,
    );
  }

  pub finish-IsCounted :
      (id : ℕ)
      → find_active id state.active ≡ some job
      → IsCounted state
      → IsCounted (finish state id job)
  unfolding finish release
  finish-IsCounted id found c = record {
    global = ground (arith, c.global, count-drop_active is_llm id state.active found);
    llm = λ task_id. ground (
      arith,
      c.llm task_id,
      count-drop_active (is_agent_of task_id) id state.active found,
      lookup-insert job.task_id task_id (count_of job.task_id state.task_llm_active - 1)
          state.task_llm_active,
      eq_iff job.task_id task_id,
    );
    procedures = λ task_id. ground (
      arith,
      c.procedures task_id,
      count-drop_active (is_procedure_of task_id) id state.active found,
      lookup-insert job.task_id task_id (count_of job.task_id state.task_procedure_active - 1)
          state.task_procedure_active,
      eq_iff job.task_id task_id,
    );
  }
