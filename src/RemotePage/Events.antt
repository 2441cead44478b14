-- ===== src/RemotePage/Events.antt =====
-- What happens to the page of src/mccr-gtk/mui-page-remote-services.c: the user, the answers that it waits
-- for, the items of the processor, and the resets of the window.
pub mod Core
pub mod Busy
pub mod ByKsn
pub mod Lists
pub mod Clicks
pub mod Answers
pub mod Steps
use mccr.Prelude.{
  ◌+◌, Bool, true, false, not, ◌&&◌, ◌||◌, ℕ, List, [], ◌∷◌, Option, none, some, Run, ok, fault,
  ◌>>=◌, length, memcpy, if◌then◌else◌,
}
use mccr.Prelude.Bytes.{Bytes, same_bytes}
use mccr.Prelude.Text.{Text}
use mccr.Common.{is_count, strbin}
use mccr.Hid.Usages.{is_null}
use mccr.Processor.{Item, dukpt_ksn_and_counter, magtek_update_token}
use mccr.BasicPage.{value_at}
use mccr.RemoteService.Response.Infos.{KeyInfo, CommandInfo}
use mccr.RemoteService.Response.Parse.{Parsed}
use mccr.RemotePage.{
  PageEnvironment, ResultType, result_key, result_command, Row, Job, Awaited, key_list_ready,
  command_list_ready, key_load_command_ready, key_update_command_ready, command_by_mut_ready,
  command_by_ksn_ready, current_key_list_ready, generic_command_ready, reset_reader, RemotePage,
  ask, update_footer, results_clear, select_current, row_at,
}
use mccr.RemotePage.Keys.{
  is_named, run_key_update_command_ready, get_key_load_command_ready, run_key_update, mut_size,
  get_key_list_ready, get_key_list_button_clicked,
}
use mccr.RemotePage.Commands.{
  processor_generic_command_ready, get_command_ready, current_key_list_received,
  run_generic_command, get_command_list_ready, get_command_list_button_clicked,
}

-- the names in `command_settings`, each of which has a warning or a message
abbrev pub asks_confirmation : Option Bytes → Bool
asks_confirmation name =
    is_named name (b'M' ∷ b'O' ∷ b'D' ∷ b'E' ∷ b'_' ∷ b'H' ∷ b'I' ∷ b'D' ∷ [])
    || is_named name (b'M' ∷ b'O' ∷ b'D' ∷ b'E' ∷ b'_' ∷ b'K' ∷ b'B' ∷ b'E' ∷ [])
    || is_named name (b'S' ∷ b'E' ∷ b'C' ∷ b'L' ∷ b'E' ∷ b'V' ∷ b'_' ∷ b'3' ∷ [])
    || is_named name (b'S' ∷ b'E' ∷ b'C' ∷ b'L' ∷ b'E' ∷ b'V' ∷ b'_' ∷ b'4' ∷ [])

-- The answer to what the page waits for.
pub data Answer : Type 0 where
  keys : Parsed KeyInfo → Answer
  commands : Parsed CommandInfo → Answer
  -- of the processor: an error, or the text of the response if one is expected
  ran : Option Text → Option Bytes → Answer

pub data Event : Type 0 where
  key_list_clicked command_list_clicked reset_clicked : Event
  row_activated : ℕ → Event
  dialog_answered : Bool → Event
  -- the oldest call that the page waits for is answered
  answered : Answer → Event
  reported : Item → Option Bytes → Event
  -- the window resets the page, and has a processor afterwards or not
  page_reset : Bool → Event

module _ (env : PageEnvironment) where
  -- what a row does, once it is confirmed
  unfoldable pub run_row : RemotePage → Row → ResultType → Run RemotePage
  run_row self row result_key = run_key_update env self row.number row.id
  run_row self row result_command =
      run_generic_command env self row.number row.id row.execution_type row.command

  -- the branches of common_result_row_activated, down to the dialog if there is one
  unfoldable pub activate : RemotePage → ℕ → Row → ResultType → Run RemotePage
  activate self n row result_key = ok (record self { dialog = some n })
  activate self n row result_command =
      if asks_confirmation row.name
      then ok (record self { dialog = some n })
      else run_row self row result_command

  -- common_result_row_activated
  unfoldable pub common_result_row_activated : RemotePage → ℕ → Run RemotePage
  unfolding activate
  common_result_row_activated self n =
      if self.ongoing
      then ok self
      else (do row ← row_at self n; activate self n row row.result_type)

  -- result_row_activated_key and result_row_activated_command behind the dialog
  unfoldable pub dialog_closed : RemotePage → ℕ → Bool → Run RemotePage
  unfolding run_row
  dialog_closed self n confirmed =
      if not confirmed then ok self else (do row ← row_at self n; run_row self row row.result_type)

  -- dukpt_ksn_and_counter_updated
  unfoldable pub ksn_updated : RemotePage → Bytes → Run RemotePage
  ksn_updated self value = do
    (converted, written) ← strbin value env.dukpt.sizeof_ksn
    let ksn = memcpy self.ksn 0 written
    if not (is_count converted env.dukpt.sizeof_ksn)
        then ok (record self { ksn = ksn; ksn_set = false })
        else select_current env (record self { ksn = ksn; ksn_set = true }) (some ksn)

  -- mut_updated
  unfoldable pub mut_updated : RemotePage → Bytes → Run RemotePage
  mut_updated self value = do
    (converted, written) ← strbin value mut_size
    ok (record self { mut = memcpy self.mut 0 written; mut_set = is_count converted mut_size })

  -- report_item
  unfoldable pub report_item : RemotePage → Item → Option Bytes → Run RemotePage
  unfolding ksn_updated mut_updated
  report_item self dukpt_ksn_and_counter value = do text ← value_at value; ksn_updated self text
  report_item self magtek_update_token value = do text ← value_at value; mut_updated self text
  report_item self item value = ok self

  -- reset
  unfoldable pub reset_page : RemotePage → RemotePage
  reset_page self =
      record (update_footer (record (results_clear self) { n_commands_executed = 0 })) {
        key_id = none;
        ksn_set = false;
        mut_set = false;
      }

  -- The callback for an answer. An answer of another kind than the call's does not occur.
  unfoldable pub callback : RemotePage → Awaited → Answer → Run RemotePage
  callback self key_list_ready (keys answer) = get_key_list_ready env self answer
  callback self command_list_ready (commands answer) = get_command_list_ready env self answer
  callback self (key_load_command_ready job) (commands answer) =
      get_key_load_command_ready env self job answer
  callback self (key_update_command_ready job) (ran error response) =
      run_key_update_command_ready env self job error response
  callback self (command_by_mut_ready job) (commands answer) = get_command_ready env self job answer
  callback self (command_by_ksn_ready job) (commands answer) = get_command_ready env self job answer
  callback self (current_key_list_ready job) (keys answer) =
      current_key_list_received env self job answer
  callback self (generic_command_ready job) (ran error response) =
      processor_generic_command_ready env self job error
  callback self call answer = fault

  -- The box with the two buttons is sensitive while no operation is ongoing; while a dialog is open, the
  -- window takes no other input.
  abbrev pub takes_clicks : RemotePage → Bool
  takes_clicks self = not self.ongoing && is_null self.dialog

  -- The main loop goes on behind the dialog that is open, if one is.
  unfoldable pub dialog_step : RemotePage → Option ℕ → Bool → Run RemotePage
  dialog_step self none confirmed = ok self
  dialog_step self (some n) confirmed = dialog_closed (record self { dialog = none }) n confirmed

  -- The oldest call that is waited for is answered, if there is one.
  unfoldable pub answer_step : RemotePage → List Awaited → Answer → Run RemotePage
  answer_step self [] answer = ok self
  answer_step self (call ∷ rest) answer = callback (record self { awaited = rest }) call answer

  unfoldable pub step : RemotePage → Event → Run RemotePage
  step self key_list_clicked =
      if takes_clicks self then get_key_list_button_clicked env self else ok self
  step self command_list_clicked =
      if takes_clicks self then get_command_list_button_clicked env self else ok self
  -- remote_service_reset_button_clicked
  step self reset_clicked =
      if not (is_null self.dialog)
      then ok self
      else if self.has_processor
      then ok (ask self (reset_reader ∷ []))
      else fault
  step self (row_activated n) =
      if is_null self.dialog then common_result_row_activated self n else ok self
  step self (dialog_answered confirmed) = dialog_step self self.dialog confirmed
  step self (answered answer) = answer_step self self.awaited answer
  step self (reported item value) = report_item self item value
  step self (page_reset has_processor) =
      ok (record (reset_page self) { has_processor = has_processor })

  unfoldable pub steps : RemotePage → List Event → Run RemotePage
  steps self [] = ok self
  steps self (event ∷ events) = do self' ← step self event; steps self' events
