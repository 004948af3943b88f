-- ===== src/Epochs/Sound/Kept.antt =====
-- Opening an epoch and settling an entry keep the coordinator sound.
use mathlib.Core.Path.{subst}
use maibot_lunagentic_resear.Prelude.{
  Bool-cases, or_default, All, All-append, ℕ, String, ◌≡◌, refl, sym, inl, inr, Bool, true, false,
  ◌&&◌, Option, none, some, [], ◌∷◌, arith,
}
use maibot_lunagentic_resear.Dict.{Dict, insert}
use maibot_lunagentic_resear.Epochs.{
  FrontierEntry, is_ready, ReportEpoch, Coordinator, all_ready, maybe_start_synthesis,
}
use maibot_lunagentic_resear.Epochs.Opening.{is_open, next_number, with_past, new_epoch, open_epoch}
use maibot_lunagentic_resear.Epochs.Turns.{
  no_branch_is_active, with_entry, terminal_entry, open_if_done, settle_changed, settle_entry,
}
use maibot_lunagentic_resear.Epochs.Sound.{
  IsSoundEpoch, HasProgress, IsSoundCurrent, IsHonest, AreFinished, IsSound, Frame,
  release_held-Frame, IsSoundRest, maybe_start_synthesis-IsSound,
}

pub rest_of : {c : Coordinator} → IsSound c → IsSoundRest c
rest_of s = record { rest_past = s.past; rest_honest = s.honest }

pub Frame-rest : {c after : Coordinator} → Frame c after → IsSoundRest c → IsSoundRest after
Frame-rest f r = record {
  rest_past = subst AreFinished (sym f.same_past) r.rest_past;
  rest_honest = subst (All IsHonest) (sym f.same_reports) r.rest_honest;
}

pub Frame-IsSound : {c after : Coordinator} → Frame c after → IsSound c → IsSound after
Frame-IsSound {c} {after} f s = record {
  current =
      subst (λ tasks. IsSoundCurrent after.current_epoch tasks) (sym f.same_tasks)
        (subst (λ e. IsSoundCurrent e c.tasks) (sym f.same_epoch) s.current);
  past = subst AreFinished (sym f.same_past) s.past;
  honest = subst (All IsHonest) (sym f.same_reports) s.honest;
}

pub Frame-epoch :
    {c after : Coordinator} (epoch : ReportEpoch)
    → Frame c after
    → IsSoundEpoch epoch c.tasks
    → IsSoundEpoch epoch after.tasks
Frame-epoch epoch f s = subst (IsSoundEpoch epoch) (sym f.same_tasks) s

-- The current epoch with what is known of it.
pub current_of :
    {c : Coordinator} (epoch : ReportEpoch)
    → c.current_epoch ≡ some epoch
    → IsSound c
    → IsSoundEpoch epoch c.tasks × HasProgress epoch
current_of {c} epoch e s = subst (λ o. IsSoundCurrent o c.tasks) e s.current

pub start-IsSound :
    {c after : Coordinator} (epoch : ReportEpoch)
    → Frame c after
    → IsSoundEpoch epoch c.tasks
    → IsSoundRest c
    → IsSound (maybe_start_synthesis epoch after)
start-IsSound {after = after} epoch f s rest =
    maybe_start_synthesis-IsSound epoch after (Frame-epoch epoch f s) (Frame-rest f rest)

pub open_epoch-IsSound :
    (given : Option ℕ) (now : ℕ) (c : Coordinator) → IsSound c → IsSound (open_epoch given now c)
unfolding open_epoch
open_epoch-IsSound given now c s = elim (Bool-cases (is_open c.current_epoch)) [
  | inl e ↦ rw e s
  | inr e ↦
      let epoch = new_epoch (or_default given (next_number c.current_epoch)) now c in
      let opened = record c {
        current_epoch = some epoch;
        past_epochs = with_past c.current_epoch c.past_epochs;
      } in
      rw e (
        start-IsSound epoch (release_held-Frame opened) (fresh c.current_epoch s.current e)
          (record { rest_past = closed c.current_epoch e; rest_honest = s.honest }))
]
  where
    fresh :
        (current : Option ReportEpoch)
        → IsSoundCurrent current c.tasks
        → is_open current ≡ false
        → IsSoundEpoch (new_epoch (or_default given (next_number current)) now c) c.tasks
    fresh none h e = record {
      finished_started = λ k. absurd (ground (arith, k));
      started_ready = λ k. absurd (ground (arith, k));
      one_task = h;
      attempted = λ k. absurd (ground (arith, k));
      bounded = omega arith;
      final_covers = λ k. absurd (ground (arith, k));
    }
    fresh (some epoch) h e = record {
      finished_started = λ k. absurd (ground (arith, k));
      started_ready = λ k. absurd (ground (arith, k));
      one_task = ground (arith, h.0.one_task, e);
      attempted = λ k. absurd (ground (arith, k));
      bounded = omega arith;
      final_covers = λ k. absurd (ground (arith, k));
    }

    closed :
        (current : Option ReportEpoch)
        → is_open current ≡ false
        → AreFinished (with_past current c.past_epochs)
    closed none e = s.past
    closed (some epoch) e = All-append _ c.past_epochs (epoch ∷ []) s.past (ground (arith, e), tt)

-- An entry that is ready keeps a ready frontier ready.
all_ready-insert :
    (branch_id : String) (entry : FrontierEntry) (frontier : Dict FrontierEntry)
    → is_ready entry ≡ true
    → all_ready frontier ≡ true
    → all_ready (insert branch_id entry frontier) ≡ true
unfolding all_ready insert
all_ready-insert branch_id entry [] r h = ground (arith, r)
all_ready-insert branch_id entry ((k, old) ∷ frontier) r h =
    ground (arith, r, h, all_ready-insert branch_id entry frontier)

pub with_entry-IsSoundEpoch :
    (branch_id : String) (entry : FrontierEntry) (epoch : ReportEpoch) (tasks : ℕ)
    → is_ready entry ≡ true
    → IsSoundEpoch epoch tasks
    → IsSoundEpoch (with_entry branch_id entry epoch) tasks
with_entry-IsSoundEpoch branch_id entry epoch tasks r s = record {
  finished_started = s.finished_started;
  started_ready = λ h. all_ready-insert branch_id entry epoch.frontier r (s.started_ready h);
  one_task = s.one_task;
  attempted = s.attempted;
  bounded = s.bounded;
  final_covers = s.final_covers;
}

-- A finished epoch makes progress whatever its entries become.
finished-HasProgress :
    (epoch : ReportEpoch) (tasks : ℕ)
    → IsSoundEpoch epoch tasks
    → epoch.synthesis_finished ≡ true
    → HasProgress epoch
finished-HasProgress epoch tasks s done h k = absurd (ground (arith, s.finished_started done, k))

open_if_done-IsSound :
    (now : ℕ) (epoch : ReportEpoch) (c : Coordinator)
    → IsSound c
    → IsSound (open_if_done now epoch c)
open_if_done-IsSound now epoch c s =
    elim (Bool-cases (epoch.synthesis_finished && no_branch_is_active c)) [
      | inl e ↦ rw e (open_epoch-IsSound none now c s)
      | inr e ↦ rw e s
    ]

pub settle_entry-IsSound :
    {c after : Coordinator} (now : ℕ) (branch_id : String) (id : Option String)
    (epoch : ReportEpoch) (entry : Option FrontierEntry)
    → Frame c after
    → c.current_epoch ≡ some epoch
    → IsSound c
    → IsSound (settle_entry now branch_id id epoch entry after)
settle_entry-IsSound {c} {after} now branch_id id epoch none f e s =
    open_if_done-IsSound now epoch after (Frame-IsSound f s)
settle_entry-IsSound {c} {after} now branch_id id epoch (some entry) f e s =
    go epoch.synthesis_finished refl
  where
    changed : ReportEpoch
    changed = with_entry branch_id (terminal_entry id entry) epoch

    settled : IsSoundEpoch changed c.tasks
    settled =
        with_entry-IsSoundEpoch branch_id (terminal_entry id entry) epoch c.tasks (ground arith)
          (current_of epoch e s).0

    go :
        (done : Bool)
        → epoch.synthesis_finished ≡ done
        → IsSound (settle_changed done now changed after)
    go true done =
        open_if_done-IsSound now changed (record after { current_epoch = some changed })
          (record {
            current =
                (Frame-epoch changed f settled, finished-HasProgress changed c.tasks settled done);
            past = (Frame-rest f (rest_of s)).rest_past;
            honest = (Frame-rest f (rest_of s)).rest_honest;
          })
    go false going = start-IsSound changed f settled (rest_of s)
