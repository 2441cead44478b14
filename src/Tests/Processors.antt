-- ===== src/Tests/Processors.antt =====
-- Operations of src/mccr-gtk/mui-processor.c on an open reader and on one that cannot be opened.
use mccr.Prelude.{
  ℕ, ◌≡◌, refl, Bool, true, false, List, [], ◌∷◌, ◌++◌, none, some, ok, aborted, ◌>>=◌, arith,
  length,
}
use mccr.Status.{Status}
use mccr.Hid.Tests.{always}
use mccr.Environment.{Environment}
use mccr.Processor.{Processor, track_encrypted_data_length, track_encrypted_data}
use mccr.Processor.Swipe.{track_data_items}
use mccr.Processor.Shown.{track_data_items-shown}
use mccr.SwipeReport.{SwipeReport}
use mccr.Prelude.Text.{literal, chars, unsigned}
use mccr.Processor.Command.{command_info_new, send_command, run_command}
use mccr.Processor.Queue.{reset, run, Task, Thread, push, notify}
use mccr.Processor.Sent.{command_text, run_command-send_command, run_command_without_data}
use mccr.Processor.Order.{dispatch, run_tasks, served, dispatch-run_tasks}
use mccr.Processor.Threads.{Shared, call, act, here, next, IsInOrder, Reach-IsInOrder}
use mccr.Tests.Readers.{reader, open_device}

abbrev pub machine : Environment ℕ
machine = record {
  hidapi = reader;
  hid_enumerate = λ vid. [];
  grants = always;
  parse_grants = always;
  log_is_enabled = false;
  mccr_read_report_descriptor = λ path. (Status.failed, []);
  g_convert = λ wstr. some (wstr ++ 0 ∷ []);
  isprint = λ b. true;
  strtoull = length;
  uninitialised = 7;
}

abbrev ready : Processor ℕ
ready = record {
  path = some (b'p' ∷ []);
  device = some open_device;
  heap = λ p. none;
  fresh = 4;
  calls = 0;
  reported = [];
  val = 0;
  runs = true;
}

-- "0103:09" without the colon: the command 1 with the data 9
run_command-send_command_example :
    run_command machine ready (command_info_new (command_text [] 1 (9 ∷ [])) true)
    ≡ send_command machine
        (record ready { calls = 1 })
        (command_info_new (command_text [] 1 (9 ∷ [])) true)
        1
        (some (9 ∷ []))
run_command-send_command_example =
    run_command-send_command machine ready 1 9 [] [] true (λ n size. refl)
      (omega arith, (omega arith, (omega arith, tt))) tt

-- "14:00"
run_command_without_data_example :
    run_command machine ready (command_info_new (command_text (b':' ∷ []) 0x14 []) false) ≡ aborted
run_command_without_data_example =
    run_command_without_data machine ready 0x14 (b':' ∷ []) false (omega arith) (refl, tt)

abbrev reset_task : ℕ → Bool → Task
reset_task name is_cancelled = record {
  name = name;
  operation = reset;
  is_cancelled = is_cancelled;
}

abbrev set_task : Task
set_task = record {
  name = 12;
  operation = run (command_info_new (command_text [] 1 (9 ∷ [])) false);
  is_cancelled = false;
}

abbrev three_tasks : List Task
three_tasks = reset_task 10 false ∷ reset_task 11 true ∷ set_task ∷ []

abbrev busy : Thread ℕ
busy = record { processor = ready; thread_queue = three_tasks; pending = 3; completed = [] }

dispatch-run_tasks_example : dispatch machine 2 busy ≡ (
    run_tasks machine ready (reset_task 10 false ∷ reset_task 11 true ∷ []) >>= λ result.
    ok (served machine busy (set_task ∷ []) 2 result))
dispatch-run_tasks_example = dispatch-run_tasks machine 2 busy (omega arith)

abbrev idle : Shared ℕ
idle = record {
  thread = record { processor = ready; thread_queue = []; pending = 0; completed = [] };
  rest = [];
  scheduled = [];
}

-- the other thread is in a schedule function
abbrev called : Shared ℕ
called = record idle { rest = push set_task ∷ notify ∷ [] }

abbrev pushed : Shared ℕ
pushed = record {
  thread = record { processor = ready; thread_queue = set_task ∷ []; pending = 0; completed = [] };
  rest = notify ∷ [];
  scheduled = set_task ∷ [];
}

-- and has come back from it
abbrev scheduled_one : Shared ℕ
scheduled_one = record {
  thread = record { processor = ready; thread_queue = set_task ∷ []; pending = 1; completed = [] };
  rest = [];
  scheduled = set_task ∷ [];
}

Reach-IsInOrder_example : IsInOrder scheduled_one
Reach-IsInOrder_example =
    Reach-IsInOrder machine {s = idle} (record { in_order = refl; called_for = refl; covered = tt })
      (next
        (next (next here (call idle set_task refl)) (act called (push set_task) (notify ∷ []) refl))
        (act pushed notify [] refl))

-- a report of three bytes
abbrev swipe : SwipeReport
swipe = record {
  input_report = record { report_data = 0 ∷ 0xAB ∷ 0x12 ∷ []; report_size = 3 };
  desc = 0;
}

track_data_items-shown_example :
    track_data_items machine ready swipe
      (track_encrypted_data_length 1)
      (track_encrypted_data 1)
      (ok (Status.ok, some 2))
      (λ _. ok (Status.ok, some 1))
    ≡ ok (
        (track_encrypted_data_length 1, some (unsigned 2 ∷ literal " bytes" ∷ []))
        ∷ (track_encrypted_data 1, some (chars (b'A' ∷ b'B' ∷ b' ' ∷ b'1' ∷ b'2' ∷ []) ∷ []))
        ∷ [])
track_data_items-shown_example =
    track_data_items-shown machine ready swipe (track_encrypted_data_length 1)
      (track_encrypted_data 1) 2 1 (λ n size. refl) (omega arith)
