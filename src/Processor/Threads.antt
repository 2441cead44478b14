-- ===== src/Processor/Threads.antt =====
-- The two threads of src/mccr-gtk/mui-processor.c that share the queue, as a step relation: one pushes
-- tasks and calls for callbacks in the schedule functions, the other runs them. Their steps may follow
-- one another in any order.
use mccr.Prelude.{
  ℕ, suc, ◌+◌, append-nil, ◌≡◌, refl, sym, ap, ◌∙◌, true, List, [], ◌∷◌, ◌++◌, map, append_assoc,
  ok, IfReturns, value, IfReturns-bind, IfReturns-ok, if_cases, arith, length, length-append, ◌<◌,
  ◌≤◌, subst,
}
use mathlib.Core.List.{map-append}
use mccr.Environment.{Environment}
use mccr.Processor.{Processor}
use mccr.Processor.Queue.{
  Task, Completion, Thread, Action, push, notify, pushed_by, perform_action, schedule_operation,
  operation_available_cb, run_task, run_operation,
}

-- The thread of the processor, what the other thread has still to do in a schedule function, and all that
-- has been pushed.
pub record Shared (D : Type 0) : Type 0 where
  pub thread : Thread D
  pub rest : List Action
  pub scheduled : List Task

abbrev pub names : List Task → List ℕ
names tasks = map (λ (task : Task). task.name) tasks

abbrev pub completed_names : List Completion → List ℕ
completed_names completions = map (λ (completion : Completion). completion.name) completions

module _ {D : Type 0} (env : Environment D) where
  pub data Step : Shared D → Shared D → Type 0 where
    -- the other thread calls a schedule function
    call :
        (s : Shared D) (task : Task)
        → s.rest ≡ []
        → Step s (record s { rest = schedule_operation task })
    -- and goes on in it
    act :
        (s : Shared D) (action : Action) (actions : List Action)
        → s.rest ≡ action ∷ actions
        → Step s (record {
          thread = perform_action s.thread action;
          rest = actions;
          scheduled = s.scheduled ++ pushed_by action;
        })
    -- a callback, while the loop of the thread runs, that comes to its end
    callback :
        (s : Shared D) (n : ℕ) (thread' : Thread D)
        → s.thread.processor.runs ≡ true
        → s.thread.pending ≡ suc n
        → operation_available_cb env s.thread.thread_queue (record s.thread { pending = n })
          ≡ ok thread'
        → Step s (record s { thread = thread' })

  pub data Reach (s : Shared D) : Shared D → Type 0 where
    here : Reach s s
    next : {t u : Shared D} → Reach s t → Step t u → Reach s u

-- how many pushes and how many calls for a callback are still to be made
abbrev pub pushes : List Action → ℕ
pushes [] = 0
pushes (push task ∷ actions) = 1 + pushes actions
pushes (notify ∷ actions) = pushes actions

abbrev pub notifies : List Action → ℕ
notifies [] = 0
notifies (push task ∷ actions) = notifies actions
notifies (notify ∷ actions) = 1 + notifies actions

-- Every push that is still to be made has a call for a callback of its own after it.
abbrev pub Covered : List Action → Type 0
Covered [] = Unit
Covered (push task ∷ actions) = (pushes actions < notifies actions) × Covered actions
Covered (notify ∷ actions) = Covered actions

pushes-Covered : (actions : List Action) → Covered actions → pushes actions ≤ notifies actions
pushes-Covered [] c = omega arith
pushes-Covered (push task ∷ actions) c = omega (arith, c.0)
pushes-Covered (notify ∷ actions) c = omega (arith, pushes-Covered actions c)

-- What has been pushed is what has come to its end, in the same order, and what is in the queue. There are
-- as many callbacks to come as tasks in the queue, where the pushes and the calls for a callback that the
-- schedule function has still to make are counted; where no schedule function is under way there are none
-- of these, and no callback finds the queue empty.
pub record IsInOrder {D : Type 0} (s : Shared D) : Type 0 where
  pub in_order :
      names s.scheduled ≡ completed_names s.thread.completed ++ names s.thread.thread_queue
  pub called_for : length s.thread.thread_queue + pushes s.rest ≡ s.thread.pending + notifies s.rest
  pub covered : Covered s.rest

module _ {D : Type 0} (env : Environment D) where
  -- What a popped task comes to has the name of the task.
  pub run_task-name :
      (self : Processor D) (task : Task)
      → IfReturns (λ result. result.0.name ≡ task.name) (run_task env self task)
  unfolding run_task
  run_task-name self task =
      if_cases (IfReturns (λ result. result.0.name ≡ task.name)) task.is_cancelled _ _
        (λ e. value refl)
        (λ e. IfReturns-bind (run_operation env self task.operation) _ (λ result e'. value refl))

  callback-IsInOrder :
      (s : Shared D) (queue : List Task) (n : ℕ)
      → IsInOrder s
      → s.thread.thread_queue ≡ queue
      → s.thread.pending ≡ suc n
      → IfReturns
          (λ thread'. IsInOrder (record s { thread = thread' }))
          (operation_available_cb env queue (record s.thread { pending = n }))
  unfolding operation_available_cb
  callback-IsInOrder s [] n v q p =
      absurd (omega (arith, v.called_for, ap length q, pushes-Covered s.rest v.covered))
  callback-IsInOrder s (task ∷ tasks) n v q p =
      IfReturns-bind (run_task env s.thread.processor task) _ (λ (completion, self') e.
        let same = IfReturns-ok (run_task-name s.thread.processor task) e in
        value (record {
          in_order =
              v.in_order
              ∙ ap (λ (t : List Task). completed_names s.thread.completed ++ names t) q
              ∙ ap (λ (k : ℕ). completed_names s.thread.completed ++ k ∷ names tasks) (sym same)
              ∙ sym (
                  append_assoc (completed_names s.thread.completed) (completion.name ∷ [])
                    (names tasks))
              ∙ ap (λ (t : List ℕ). t ++ names tasks)
                  (sym
                    (map-append (λ (c : Completion). c.name) s.thread.completed (completion ∷ [])));
          called_for = omega (arith, v.called_for, ap length q);
          covered = v.covered;
        }))

  Step-IsInOrder : {s t : Shared D} → Step env s t → IsInOrder s → IsInOrder t
  Step-IsInOrder (call s task free) v = record {
    in_order = v.in_order;
    called_for = omega (arith, v.called_for, ap pushes free, ap notifies free);
    covered = (omega arith, tt);
  }
  Step-IsInOrder (act s (push task) actions doing) v = record {
    in_order =
        map-append (λ (t : Task). t.name) s.scheduled (task ∷ [])
        ∙ ap (λ (t : List ℕ). t ++ task.name ∷ []) v.in_order
        ∙ append_assoc (completed_names s.thread.completed) (names s.thread.thread_queue)
            (task.name ∷ [])
        ∙ ap (λ (t : List ℕ). completed_names s.thread.completed ++ t)
            (sym (map-append (λ (t : Task). t.name) s.thread.thread_queue (task ∷ [])));
    called_for = omega (
      arith,
      v.called_for,
      length-append s.thread.thread_queue (task ∷ []),
      ap pushes doing,
      ap notifies doing,
    );
    covered = (subst Covered doing v.covered).1;
  }
  Step-IsInOrder (act s notify actions doing) v = record {
    in_order = ap names (append-nil s.scheduled) ∙ v.in_order;
    called_for = omega (arith, v.called_for, ap pushes doing, ap notifies doing);
    covered = subst Covered doing v.covered;
  }
  Step-IsInOrder (callback s n thread' running p e) v =
      IfReturns-ok (callback-IsInOrder s s.thread.thread_queue n v refl p) e

  -- However the steps of the two threads follow one another, from a queue in order: the tasks that have
  -- come to an end are those pushed first, each of them once and in the order of the pushes, and the others
  -- are in the queue; and where the other thread is in no schedule function there are just as many
  -- callbacks to come as tasks in the queue. Inside one the push and the call for a callback that it has
  -- still to make are counted with them.
  pub Reach-IsInOrder : {s t : Shared D} → IsInOrder s → Reach env s t → IsInOrder t
  Reach-IsInOrder v here = v
  Reach-IsInOrder v (next r step) = Step-IsInOrder step (Reach-IsInOrder v r)
