-- ===== src/Processor/Queue.antt =====
-- The operations of src/mccr-gtk/mui-processor.c: they are pushed to a queue by the thread that schedules
-- them, and each of them calls for one round of operation_available_cb in the thread of the processor.
use mccr.Prelude.{
  ℕ, ◌+◌, Bool, false, List, [], ◌∷◌, ◌++◌, Option, none, some, Run, ok, ◌>>=◌, ◌>>◌, assert,
  if◌then◌else◌,
}
use mccr.Prelude.Text.{literal}
use mccr.Hid.Usages.{is_null}
use mccr.Device.{mccr_device_unref}
use mccr.Device.Enumerate.{mccr_device_new}
use mccr.Device.Commands.{mccr_device_reset}
use mccr.Environment.{Environment}
use mccr.Processor.{Processor, with_device, grants_from, device_at}
use mccr.Processor.Properties.{load_device_properties}
use mccr.Processor.Swipe.{GError, cancelled, run_wait_swipe}
use mccr.Processor.Command.{CommandInfo, run_command}

-- `OperationType`, with the command that only one of them has
pub data Operation : Type 0 where
  start reset load_properties wait_swipe stop : Operation
  run : CommandInfo → Operation

-- a `GTask` with its data: what it is known by, the operation, and whether it has been cancelled
pub record Task : Type 0 where
  pub name : ℕ
  pub operation : Operation
  pub is_cancelled : Bool

-- what a task comes to: its error, or none and, after a command, its information
pub record Completion : Type 0 where
  pub name : ℕ
  pub error : Option GError
  pub info : Option CommandInfo

abbrev pub complete : Task → Option GError → Option CommandInfo → Completion
complete task error info = record { name = task.name; error = error; info = info }

module _ {D : Type 0} (env : Environment D) where
  -- the operation that a task asks for
  unfoldable pub run_operation :
      Processor D → Operation → Run (Option GError × Option CommandInfo × Processor D)
  run_operation self start = do
    assert (is_null self.device)
    (device, calls) ← mccr_device_new (grants_from env self) env.hid_enumerate self.path 0
    ok (none, none, record self { device = device; calls = self.calls + calls })
  run_operation self load_properties = do
    self' ← load_device_properties env self
    ok (none, none, self')
  run_operation self reset = do
    device ← device_at self
    (st, device') ← mccr_device_reset env.hidapi device
    ok (none, none, with_device self device')
  run_operation self wait_swipe = do
    (error, self') ← run_wait_swipe env self
    ok (error, none, self')
  run_operation self (run info) = do
    (error, info', self') ← run_command env self info
    ok (error, some info', self')
  run_operation self stop = elim self.device [
    | none ↦ ok (none, none, record self { runs = false })
    | some device ↦ (do
      left ← mccr_device_unref device
      ok (none, none, record self { device = none; runs = false }))
  ]

  -- A task that has been popped: a cancelled one comes to its error at once.
  unfoldable pub run_task : Processor D → Task → Run (Completion × Processor D)
  unfolding run_operation
  run_task self task =
      if task.is_cancelled
      then ok (complete task (some (cancelled, literal "Operation was cancelled" ∷ [])) none, self)
      else do
        (error, info, self') ← run_operation self task.operation
        ok (complete task error info, self')

-- the two statements of which the schedule functions are made
pub data Action : Type 0 where
  push : Task → Action
  notify : Action

-- schedule_operation_start, …_load_properties, …_reset, …_wait_swipe, …_run_command and …_stop: the thread
-- of the processor may run between the two statements
abbrev pub schedule_operation : Task → List Action
schedule_operation task = push task ∷ notify ∷ []

-- what a statement pushes
abbrev pub pushed_by : Action → List Task
pushed_by (push task) = task ∷ []
pushed_by notify = []

-- The processor with its queue, the tasks that have come to an end, and the callbacks that
-- `g_main_context_invoke` has yet to call.
pub record Thread (D : Type 0) : Type 0 where
  pub processor : Processor D
  pub thread_queue : List Task
  pub pending : ℕ
  pub completed : List Completion

module _ {D : Type 0} where
  -- the two steps of the schedule_operation_… functions: the push to the queue, and
  -- notify_operation_available
  abbrev pub push_operation : Thread D → Task → Thread D
  push_operation thread task = record thread { thread_queue = thread.thread_queue ++ task ∷ [] }

  abbrev pub notify_operation_available : Thread D → Thread D
  notify_operation_available thread = record thread { pending = thread.pending + 1 }

  abbrev pub perform_action : Thread D → Action → Thread D
  perform_action thread (push task) = push_operation thread task
  perform_action thread notify = notify_operation_available thread

module _ {D : Type 0} (env : Environment D) where
  -- operation_available_cb
  unfoldable pub operation_available_cb : List Task → Thread D → Run (Thread D)
  unfolding run_task
  operation_available_cb [] thread = ok thread
  operation_available_cb (task ∷ tasks) thread = do
    (completion, processor') ← run_task env thread.processor task
    ok (record thread {
      processor = processor';
      thread_queue = tasks;
      completed = thread.completed ++ completion ∷ [];
    })
