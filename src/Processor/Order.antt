-- ===== src/Processor/Order.antt =====
-- The order in which the thread of src/mccr-gtk/mui-processor.c runs what has been scheduled: a step
-- relation for the two threads, and the callbacks that are run one after another.
use mccr.Prelude.{
  ℕ, zero, suc, ◌-◌, ◌≤◌, ◌≡◌, refl, sym, ap, ◌∙◌, List, [], ◌∷◌, ◌++◌, append_assoc, append-nil,
  Run, ok, ◌>>=◌, >>=_assoc, >>=_ext, arith, length, take, drop,
}
use mccr.Environment.{Environment}
use mccr.Processor.{Processor}
use mccr.Processor.Queue.{Task, Completion, Thread, operation_available_cb, run_task}

module _ {D : Type 0} (env : Environment D) where
  -- The loop of the thread runs `n` callbacks.
  unfoldable pub dispatch : ℕ → Thread D → Run (Thread D)
  unfolding operation_available_cb
  dispatch zero thread = ok thread
  dispatch (suc n) thread = do
    thread' ←
        operation_available_cb env thread.thread_queue
          (record thread { pending = thread.pending - 1 })
    dispatch n thread'

  -- The operations of tasks one after another, with no queue: what they come to, in their order.
  unfoldable pub run_tasks : Processor D → List Task → Run (List Completion × Processor D)
  run_tasks self [] = ok ([], self)
  run_tasks self (task ∷ tasks) = do
    (completion, self') ← run_task env self task
    (completions, self'') ← run_tasks self' tasks
    ok (completion ∷ completions, self'')

  -- the thread after it has run tasks
  abbrev pub served : Thread D → List Task → ℕ → List Completion × Processor D → Thread D
  served thread tasks n (completions, self) = record {
    processor = self;
    thread_queue = tasks;
    pending = thread.pending - n;
    completed = thread.completed ++ completions;
  }

  abbrev thread_of : Processor D → List Task → ℕ → List Completion → Thread D
  thread_of self queue pending completed = record {
    processor = self;
    thread_queue = queue;
    pending = pending;
    completed = completed;
  }

  served-next :
      (self : Processor D) (queue tasks : List Task) (p n : ℕ) (c : List Completion)
      (completion : Completion) (result : List Completion × Processor D) (self' : Processor D)
      → served (thread_of self' tasks (p - 1) (c ++ completion ∷ [])) (drop n tasks) n result
        ≡ served (thread_of self queue p c) (drop n tasks) (suc n) (completion ∷ result.0, result.1)
  served-next self queue tasks p n c completion (completions, self'') self' =
      let less : p - 1 - n ≡ p - suc n = omega arith in
      rw less (
        ap (thread_of self'' (drop n tasks) (p - suc n))
          (append_assoc c (completion ∷ []) completions))

  dispatch-walk :
      (n : ℕ) (self : Processor D) (queue : List Task) (p : ℕ) (c : List Completion)
      → n ≤ length queue
      → dispatch n (thread_of self queue p c) ≡ (
          run_tasks self (take n queue) >>= λ result.
          ok (served (thread_of self queue p c) (drop n queue) n result))
  unfolding dispatch run_tasks operation_available_cb
  dispatch-walk zero self queue p c h =
      let less : p - 0 ≡ p = omega arith in rw less (rw (append-nil c) refl)
  dispatch-walk (suc n) self [] p c h = absurd (omega arith)
  dispatch-walk (suc n) self (task ∷ tasks) p c h =
      >>=_assoc (run_task env self task) _ (λ thread. dispatch n thread)
      ∙ >>=_ext (run_task env self task) _ _ (λ (completion, self') e.
        dispatch-walk n self' tasks (p - 1) (c ++ completion ∷ []) (omega arith)
        ∙ >>=_ext (run_tasks self' (take n tasks)) _ _ (λ result e'.
          ap ok (served-next self (task ∷ tasks) tasks p n c completion result self'))
        ∙ sym (>>=_assoc (run_tasks self' (take n tasks)) _ _))
      ∙ sym (>>=_assoc (run_task env self task) _ _)

  -- Callbacks of the thread, no more of them than tasks in the queue, do what the operations of as
  -- many tasks do one after another in the order in which they were scheduled: each task comes to an
  -- end once, in this order, and the others stay in the queue.
  pub dispatch-run_tasks :
      (n : ℕ) (thread : Thread D)
      → n ≤ length thread.thread_queue
      → dispatch n thread ≡ (
          run_tasks thread.processor (take n thread.thread_queue) >>= λ result.
          ok (served thread (drop n thread.thread_queue) n result))
  dispatch-run_tasks n thread =
      dispatch-walk n thread.processor thread.thread_queue thread.pending thread.completed
