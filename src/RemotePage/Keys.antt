-- ===== src/RemotePage/Keys.antt =====
-- The keys of src/mccr-gtk/mui-page-remote-services.c: their list, and the update of the reader to one.
use mccr.Prelude.{
  ◌+◌, ◌-◌, Bool, true, false, not, ◌&&◌, ◌||◌, ℕ, List, [], ◌∷◌, Option, none, some, Run, ok,
  fault, ◌>>=◌, leb, if◌then◌else◌, length, drop,
}
use mccr.Prelude.Bytes.{Bytes, same_bytes}
use mccr.Prelude.Int.{lt_int}
use mccr.Prelude.Text.{Text, literal, unsigned, chars, c_string}
use mccr.Common.{strhex}
use mccr.RemoteService.Response.Infos.{KeyInfo, CommandInfo}
use mccr.RemoteService.Response.Parse.{Parsed}
use mccr.RemotePage.{
  PageEnvironment, result_key, Job, key_list_ready, key_load_command_ready,
  key_update_command_ready, user_error, get_key_list, get_key_load_command, RemotePage, ask, await,
  known_ksn, results_init, set_sensitivity, select_current, with_row, ask_processor, set_fields,
  begin_operation, end_operation, start_main_operation, stop_main_operation, append_row,
}

-- KEY_UPDATE_ERROR_PREFIX
abbrev pub key_update_failed : RemotePage → Text → RemotePage
key_update_failed self text =
    ask self (user_error (literal "Key update operation failed: " ∷ text) ∷ [])

-- "%s" of a text
abbrev pub shown_text : Option Bytes → Text
shown_text none = literal "(null)" ∷ []
shown_text (some text) = chars text ∷ []

-- "ChangeKey" and "KCV"
abbrev pub change_key_name : Bytes
change_key_name = b'C' ∷ b'h' ∷ b'a' ∷ b'n' ∷ b'g' ∷ b'e' ∷ b'K' ∷ b'e' ∷ b'y' ∷ []

abbrev pub kcv_name : Bytes
kcv_name = b'K' ∷ b'C' ∷ b'V' ∷ []

-- `g_strcmp0 (text, name) == 0`
abbrev pub is_named : Option Bytes → Bytes → Bool
is_named none name = false
is_named (some text) name = same_bytes text name

-- g_str_has_suffix, which is false without one of the two texts
abbrev pub has_suffix : Option Bytes → Option Bytes → Bool
has_suffix none suffix = false
has_suffix (some text) none = false
has_suffix (some text) (some suffix) =
    leb (length suffix) (length text) && same_bytes (drop (length text - length suffix) text) suffix

-- strhex of a serial number or a token, without a delimiter
abbrev pub hex_of : PageEnvironment → Bytes → ℕ → Run Bytes
hex_of env bytes size = do text ← strhex env.granted bytes size none; ok (c_string text)

-- MUT_SIZE
abbrev pub mut_size : ℕ
mut_size = 36

module _ (env : PageEnvironment) where
  -- The end of key_update_finished, after what depends on the success.
  abbrev pub key_update_settled : RemotePage → Job → Bool → Run RemotePage
  key_update_settled self job true = ok (record self { key_id = job.id })
  key_update_settled self job false = select_current env self (known_ksn self)

  -- key_update_finished
  unfoldable pub key_update_finished : RemotePage → Job → Bool → Run RemotePage
  key_update_finished self job success = do
    hidden ← with_row self job.row (λ row. record row {
      spinner_shown = false;
      status_shown = false;
      check_shown = row.check_shown || success;
    })
    settled ← key_update_settled (end_operation hidden) job success
    ok (set_sensitivity settled none)

  -- run_key_update_command_ready: an error, or the text of the response
  unfoldable pub run_key_update_command_ready :
      RemotePage → Job → Option Text → Option Bytes → Run RemotePage
  run_key_update_command_ready self job (some error) response =
      key_update_finished (key_update_failed self error) job false
  run_key_update_command_ready self job none response =
      if not (has_suffix response job.kcv)
      then key_update_finished (key_update_failed self (literal "Key validation check failed" ∷ []))
          job false
      else key_update_finished self job true

  -- get_key_load_command_ready on the two commands that have come
  unfoldable pub load_commands_received :
      RemotePage → Job → CommandInfo → CommandInfo → Run RemotePage
  load_commands_received self job to_scra kcv =
      if not (is_named to_scra.name change_key_name)
      then key_update_finished
          (key_update_failed self
            (literal "Invalid command received (expecting ChangeKey): " ∷ shown_text to_scra.name))
          job false
      else if not (is_named kcv.name kcv_name)
      then key_update_finished
          (key_update_failed self
            (literal "Invalid command received (expecting KCV): " ∷ shown_text kcv.name))
          (record job { command = to_scra.value }) false
      else let full : Job = record job { command = to_scra.value; kcv = kcv.value } in
        if env.no_device then key_update_finished self full true else (do
          updating ← with_row self job.row (λ row. record row { status = "Updating key..." })
          ask_processor updating full.command true (key_update_command_ready full))

  -- get_key_load_command_ready on another number of commands
  abbrev pub wrong_number : RemotePage → Job → ℕ → Run RemotePage
  wrong_number self job n =
      key_update_finished
        (key_update_failed self (literal "Invalid number of commands received: " ∷ unsigned n ∷ []))
        job false

  -- the test of get_key_load_command_ready on the number of commands
  unfoldable pub load_commands : RemotePage → Job → List CommandInfo → Run RemotePage
  unfolding load_commands_received
  load_commands self job [] = wrong_number self job 0
  load_commands self job (info ∷ []) = wrong_number self job 1
  load_commands self job (to_scra ∷ kcv ∷ []) = load_commands_received self job to_scra kcv
  load_commands self job (info ∷ other ∷ another ∷ others) =
      wrong_number self job (3 + length others)

  -- get_key_load_command_ready; without an array the message of the error is followed
  unfoldable pub get_key_load_command_ready : RemotePage → Job → Parsed CommandInfo → Run RemotePage
  unfolding load_commands
  get_key_load_command_ready self job answer = elim answer.array [
    | none ↦ elim answer.error [
      | none ↦ fault
      | some error ↦ key_update_finished (key_update_failed self error) job false
    ]
    | some commands ↦ load_commands self job commands
  ]

  -- run_key_update
  unfoldable pub run_key_update : RemotePage → ℕ → Option Bytes → Run RemotePage
  run_key_update self row id = if not env.no_device && not self.ksn_set then ok self else (do
    unselected ← select_current env self none
    started ← with_row (set_sensitivity unselected (some row)) row (λ r. record r {
      check_shown = false;
      status_shown = true;
      status = "Downloading key...";
      spinner_shown = true;
    })
    begun ← begin_operation started
    let prepared = set_fields env begun
    ksn ← hex_of env prepared.ksn env.dukpt.sizeof_ksn
    mut ← hex_of env prepared.mut mut_size
    let job : Job = record {
      row = row;
      id = id;
      ksn = some ksn;
      mut = some mut;
      command = none;
      kcv = none;
    }
    ok (
        await (ask prepared (get_key_load_command (some ksn) id (some mut) ∷ []))
          (key_load_command_ready job)))

  -- the rows for the keys, but for those with a negative id
  unfoldable pub append_keys : RemotePage → List KeyInfo → Run RemotePage
  append_keys self [] = ok self
  append_keys self (info ∷ infos) = elim info.id [
    | none ↦ fault
    | some id ↦
        append_keys
          (if lt_int (env.atoi id) 0
            then self
            else append_row self result_key info.id info.key_name info.description info.ksi none
                none)
          infos
  ]

  -- get_key_list_ready behind the end of the operation
  unfoldable pub show_keys : RemotePage → List KeyInfo → Run RemotePage
  unfolding append_keys
  show_keys self keys = do
    initialised ← results_init (record self { results_shown = true })
    filled ← append_keys initialised keys
    select_current env filled (known_ksn filled)

  -- get_key_list_ready
  unfoldable pub get_key_list_ready : RemotePage → Parsed KeyInfo → Run RemotePage
  unfolding show_keys
  get_key_list_ready self answer = elim answer.array [
    | some keys ↦ show_keys (stop_main_operation self) keys
    | none ↦ elim answer.error [
      | none ↦ fault
      | some error ↦ ok (
          stop_main_operation
            (ask self (user_error (literal "Couldn't get key list: " ∷ error) ∷ [])))
    ]
  ]

  -- remote_service_get_key_list_button_clicked
  unfoldable pub get_key_list_button_clicked : RemotePage → Run RemotePage
  get_key_list_button_clicked self = do
    started ← start_main_operation env self "Downloading keys..."
    ok (await (ask started (get_key_list ∷ [])) key_list_ready)
