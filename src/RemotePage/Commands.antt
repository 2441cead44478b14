-- ===== src/RemotePage/Commands.antt =====
-- The commands of src/mccr-gtk/mui-page-remote-services.c: their list, and the run of one of them.
use mccr.Prelude.{
  ◌+◌, ◌%◌, ◌^◌, Bool, true, false, ◌||◌, ℕ, List, [], ◌∷◌, Option, none, some, Run, ok, fault,
  ◌>>=◌, ◌>>◌, assert, not, if◌then◌else◌, length,
}
use mccr.Prelude.Bytes.{Bytes}
use mccr.Prelude.Text.{Text, literal, unsigned}
use mccr.Hid.Usages.{is_null}
use mccr.RemoteService.Response.Infos.{KeyInfo, CommandInfo}
use mccr.RemoteService.Response.Parse.{Parsed}
use mccr.RemotePage.{
  PageEnvironment, result_command, Job, command_list_ready, command_by_mut_ready,
  command_by_ksn_ready, current_key_list_ready, generic_command_ready, user_error, get_key_list,
  get_command_list, get_command_by_mut, get_command_by_ksn, RemotePage, ask, await, ksi_matches_ksn,
  known_ksn, update_footer, results_init, set_sensitivity, select_current, with_row, ask_processor,
  set_fields, begin_operation, end_operation, start_main_operation, stop_main_operation, append_row,
}
use mccr.RemotePage.Privileged.{build_test_privileged_command}
use mccr.RemotePage.Keys.{shown_text, is_named, hex_of, mut_size}

-- GENERIC_COMMAND_ERROR_PREFIX
abbrev pub generic_command_failed : RemotePage → Text → RemotePage
generic_command_failed self text =
    ask self (user_error (literal "Generic command operation failed: " ∷ text) ∷ [])

-- test_key_ksi: "9010010"
abbrev pub test_key_ksi : Bytes
test_key_ksi = b'9' ∷ b'0' ∷ b'1' ∷ b'0' ∷ b'0' ∷ b'1' ∷ b'0' ∷ []

-- "KSN" and "MUT"
abbrev pub ksn_name : Bytes
ksn_name = b'K' ∷ b'S' ∷ b'N' ∷ []

abbrev pub mut_name : Bytes
mut_name = b'M' ∷ b'U' ∷ b'T' ∷ []

-- one command more, of which the footer tells
abbrev pub count_command : RemotePage → RemotePage
count_command self =
    update_footer (record self { n_commands_executed = (self.n_commands_executed + 1) % 2 ^ 32 })

module _ (env : PageEnvironment) where
  -- generic_command_finished
  unfoldable pub generic_command_finished : RemotePage → Job → Bool → Run RemotePage
  generic_command_finished self job success = do
    hidden ← with_row self job.row (λ row. record row {
      spinner_shown = false;
      status_shown = false;
      check_shown = row.check_shown || success;
    })
    let counted = if success then count_command hidden else hidden
    ok (set_sensitivity (end_operation counted) none)

  -- processor_generic_command_ready
  unfoldable pub processor_generic_command_ready : RemotePage → Job → Option Text → Run RemotePage
  processor_generic_command_ready self job (some error) =
      generic_command_finished (generic_command_failed self error) job false
  processor_generic_command_ready self job none = generic_command_finished self job true

  -- run_command_received on another number of commands
  abbrev pub wrong_number_received : RemotePage → Job → ℕ → Run RemotePage
  wrong_number_received self job n =
      generic_command_finished
        (generic_command_failed self
          (literal "Invalid number of commands received: " ∷ unsigned n ∷ []))
        job false

  -- the text of the label and the command for the processor
  abbrev pub run_on_processor : RemotePage → Job → Option Bytes → Run RemotePage
  run_on_processor self job command = do
    running ← with_row self job.row (λ row. record row { status = "Running command..." })
    ask_processor running command false (generic_command_ready job)

  -- run_command_received
  unfoldable pub run_command_received : RemotePage → Job → List CommandInfo → Run RemotePage
  run_command_received self job [] = wrong_number_received self job 0
  run_command_received self job (info ∷ []) =
      if env.no_device
      then generic_command_finished self job true
      else run_on_processor self job info.value
  run_command_received self job (info ∷ other ∷ others) =
      wrong_number_received self job (2 + length others)

  -- get_command_by_mut_ready and get_command_by_ksn_ready
  unfoldable pub get_command_ready : RemotePage → Job → Parsed CommandInfo → Run RemotePage
  get_command_ready self job answer = elim answer.array [
    | some commands ↦ run_command_received self job commands
    | none ↦ elim answer.error [
      | none ↦ fault
      | some error ↦ generic_command_finished (generic_command_failed self error) job false
    ]
  ]

  -- get_command_by_mut
  abbrev pub ask_command_by_mut : RemotePage → Job → RemotePage
  ask_command_by_mut self job =
      await (ask self (get_command_by_mut job.id job.ksn job.mut ∷ [])) (command_by_mut_ready job)

  -- The branch of get_command_by_ksn for a reader with a test key: a command in hexadecimal is followed.
  unfoldable pub run_privileged : RemotePage → Job → Run RemotePage
  run_privileged self job = elim job.command [
    | none ↦ fault
    | some command ↦ (do
      privileged ← build_test_privileged_command env.dukpt env.granted command self.ksn
      if is_null privileged
          then generic_command_finished
              (generic_command_failed self
                (literal "Couldn't generate privileged command from: " ∷ shown_text job.command))
              job false
          else run_on_processor self job privileged)
  ]

  -- get_command_by_ksn
  unfoldable pub ask_command_by_ksn : RemotePage → Job → Run RemotePage
  unfolding run_privileged
  ask_command_by_ksn self job =
      if not (is_null self.key_id)
      then ok (
          await (ask self (get_command_by_ksn job.id job.ksn self.key_id ∷ []))
            (command_by_ksn_ready job))
      else (do
        is_test ← ksi_matches_ksn env (known_ksn self) (some test_key_ksi)
        if is_test
            then run_privileged self job
            else ok (await (ask self (get_key_list ∷ [])) (current_key_list_ready job)))

  -- the loop of command_by_ksn_get_key_list_ready: the first key for the serial number
  unfoldable pub find_key : Option Bytes → List KeyInfo → Run (Option KeyInfo)
  find_key ksn [] = ok none
  find_key ksn (info ∷ infos) = do
    matches ← ksi_matches_ksn env ksn info.ksi
    elim matches [ true ↦ ok (some info) | false ↦ find_key ksn infos ]

  -- command_by_ksn_get_key_list_ready behind the loop
  unfoldable pub current_key_found : RemotePage → Job → Option KeyInfo → Run RemotePage
  current_key_found self job none =
      generic_command_finished
        (generic_command_failed self (literal "Couldn't find current key ID" ∷ [])) job false
  current_key_found self job (some info) = do
    assert (not (is_null info.id))
    ask_command_by_ksn (record self { key_id = info.id }) job

  -- command_by_ksn_get_key_list_ready
  unfoldable pub current_key_list_received : RemotePage → Job → Parsed KeyInfo → Run RemotePage
  current_key_list_received self job answer = elim answer.array [
    | some keys ↦ (do found ← find_key (known_ksn self) keys; current_key_found self job found)
    | none ↦ elim answer.error [
      | none ↦ fault
      | some error ↦
          generic_command_finished
            (generic_command_failed self (literal "Couldn't get key list: " ∷ error)) job false
    ]
  ]

  -- The end of run_generic_command, by the type of the execution.
  unfoldable pub execute : RemotePage → Job → Option Bytes → Run RemotePage
  execute self job execution_type =
      if is_named execution_type ksn_name
      then ask_command_by_ksn self job
      else if is_named execution_type mut_name
      then (do
        mut ← hex_of env self.mut mut_size
        ok (ask_command_by_mut self (record job { mut = some mut })))
      else generic_command_finished
          (generic_command_failed self
            (literal "Invalid execution type received: " ∷ shown_text execution_type))
          job false

  -- run_generic_command
  unfoldable pub run_generic_command :
      RemotePage → ℕ → Option Bytes → Option Bytes → Option Bytes → Run RemotePage
  unfolding execute
  run_generic_command self row id execution_type command = if env.no_device then ok self else (do
    unselected ← select_current env self none
    started ← with_row (set_sensitivity unselected (some row)) row (λ r. record r {
      status_shown = true;
      status = "Downloading command...";
      spinner_shown = true;
    })
    begun ← begin_operation started
    let prepared = set_fields env begun
    ksn ← hex_of env prepared.ksn env.dukpt.sizeof_ksn
    let job : Job = record {
      row = row;
      id = id;
      ksn = some ksn;
      mut = none;
      command = command;
      kcv = none;
    }
    execute prepared job execution_type)

  abbrev pub append_commands : RemotePage → List CommandInfo → RemotePage
  append_commands self [] = self
  append_commands self (info ∷ infos) =
      append_commands
        (append_row self result_command info.id info.name info.description none info.execution_type
          info.value)
        infos

  -- get_command_list_ready behind the end of the operation
  unfoldable pub show_commands : RemotePage → List CommandInfo → Run RemotePage
  show_commands self commands = do
    initialised ← results_init (record self { results_shown = true })
    select_current env (append_commands initialised commands) none

  -- get_command_list_ready
  unfoldable pub get_command_list_ready : RemotePage → Parsed CommandInfo → Run RemotePage
  unfolding show_commands
  get_command_list_ready self answer = elim answer.array [
    | some commands ↦ show_commands (stop_main_operation self) commands
    | none ↦ elim answer.error [
      | none ↦ fault
      | some error ↦ ok (
          stop_main_operation
            (ask self (user_error (literal "Couldn't get command list: " ∷ error) ∷ [])))
    ]
  ]

  -- remote_service_get_command_list_button_clicked
  unfoldable pub get_command_list_button_clicked : RemotePage → Run RemotePage
  get_command_list_button_clicked self = do
    started ← start_main_operation env self "Downloading commands..."
    ok (await (ask started (get_command_list ∷ [])) command_list_ready)
