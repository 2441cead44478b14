-- ===== src/RemotePage.antt =====
-- src/mccr-gtk/mui-page-remote-services.c: the page that asks the remote service for keys and commands and
-- has the processor run them. A widget is what it shows. What the page asks others for is a list, and so
-- is what it waits for.
pub mod Privileged
pub mod Keys
pub mod Commands
pub mod Settings
pub mod Events
use Prim.Native.String.{String}
use mccr.Prelude.{
  ℕ, zero, suc, ◌+◌, ◌%◌, ◌^◌, Bool, true, false, not, ◌&&◌, ◌||◌, List, [], ◌∷◌, ◌++◌, map, Option,
  none, some, Run, ok, fault, ◌>>=◌, ◌>>◌, assert, ltb, leb, ◌==◌, if◌then◌else◌, length, replicate,
}
use mccr.Prelude.Bytes.{Bytes}
use mccr.Prelude.Int.{ℤ}
use mccr.Prelude.Text.{Text, literal, unsigned, c_string}
use mccr.Common.{strhex}
use mccr.Dukpt.{Dukpt}
use mccr.RemoteService.Request.{Account}
use mccr.RemoteService.Service.{Service, set_common_request_fields}

-- What the page uses of other libraries and of the system: memory for texts, `atoi`, the comparison of
-- texts, and whether the variable MUI_TEST_NO_DEVICE is set.
pub record PageEnvironment : Type 0 where
  pub dukpt : Dukpt
  pub granted : Bool
  pub atoi : Bytes → ℤ
  pub same : Bytes → Bytes → Bool
  pub no_device : Bool

pub data ResultType : Type 0 where
  result_key result_command : ResultType

-- `RowContext`, with the number of the row and what its widgets show
pub record Row : Type 0 where
  pub number : ℕ
  pub result_type : ResultType
  pub id : Option Bytes
  pub name : Option Bytes
  pub description : Option Bytes
  pub ksi : Option Bytes
  pub execution_type : Option Bytes
  pub command : Option Bytes
  pub is_sensitive : Bool
  pub check_shown : Bool
  pub spinner_shown : Bool
  pub status_shown : Bool
  pub status : String

-- `KeyUpdateContext` and `GenericCommandContext`; the widgets are those of a row, which is not owned
pub record Job : Type 0 where
  pub row : ℕ
  pub id : Option Bytes
  pub ksn : Option Bytes
  pub mut : Option Bytes
  pub command : Option Bytes
  pub kcv : Option Bytes

-- `SettingsFieldId`
pub data SettingsField : Type 0 where
  url customer_code username password billing_label customer_trid : SettingsField

-- The calls that the page waits for, by their callback.
pub data Awaited : Type 0 where
  key_list_ready command_list_ready : Awaited
  key_load_command_ready key_update_command_ready : Job → Awaited
  command_by_mut_ready command_by_ksn_ready : Job → Awaited
  current_key_list_ready generic_command_ready : Job → Awaited

-- What the page asks for: signals, the processor, and the remote service.
pub data Asked : Type 0 where
  user_error : Text → Asked
  clear_user_error operation_ongoing_changed reset_reader : Asked
  run_command : Option Bytes → Bool → Asked
  get_key_list get_command_list : Asked
  get_key_load_command : Option Bytes → Option Bytes → Option Bytes → Asked
  get_command_by_mut : Option Bytes → Option Bytes → Option Bytes → Asked
  get_command_by_ksn : Option Bytes → Option Bytes → Option Bytes → Asked

-- `MuiPageRemoteServicesPrivate`, with the processor of the page
pub record RemotePage : Type 0 where
  pub ksn : Bytes
  pub ksn_set : Bool
  pub mut : Bytes
  pub mut_set : Bool
  pub key_id : Option Bytes
  pub service : Service
  -- whether there is a cancellable
  pub ongoing : Bool
  pub rows : List Row
  pub next_row : ℕ
  pub results_shown : Bool
  pub ongoing_shown : Bool
  pub ongoing_status : String
  pub group_center : Bool
  pub group_edges : Bool
  pub footer_shown : Bool
  pub footer : Text
  pub entries : SettingsField → Bytes
  pub n_commands_executed : ℕ
  pub has_processor : Bool
  -- the row whose dialog is open
  pub dialog : Option ℕ
  pub awaited : List Awaited
  pub asked : List Asked

abbrev pub ask : RemotePage → List Asked → RemotePage
ask self requests = record self { asked = self.asked ++ requests }

abbrev pub await : RemotePage → Awaited → RemotePage
await self call = record self { awaited = self.awaited ++ call ∷ [] }

-- g_ascii_tolower
abbrev pub lower : ℕ → ℕ
lower c = if leb b'A' c && leb c b'Z' then c + 32 else c

-- `g_ascii_strncasecmp (text, front, strlen (front)) == 0`
abbrev pub begins_with : Bytes → Bytes → Bool
begins_with text [] = true
begins_with [] (c ∷ front) = false
begins_with (d ∷ text) (c ∷ front) = (lower d == lower c) && begins_with text front

-- ksi_matches_ksn
unfoldable pub ksi_matches_ksn : PageEnvironment → Option Bytes → Option Bytes → Run Bool
ksi_matches_ksn env none ksi = ok false
ksi_matches_ksn env (some ksn) none = ok false
ksi_matches_ksn env (some ksn) (some ksi) = do
  hexksn ← strhex env.granted ksn env.dukpt.sizeof_ksn none
  ok (begins_with (c_string hexksn) ksi)

-- `priv->ksn_set ? &priv->ksn : NULL`
abbrev pub known_ksn : RemotePage → Option Bytes
known_ksn self = if self.ksn_set then some self.ksn else none

-- common_update_footer
unfoldable pub update_footer : RemotePage → RemotePage
update_footer self =
    if self.n_commands_executed == 0 then record self { footer_shown = false } else record self {
      footer_shown = true;
      footer =
          if self.n_commands_executed == 1
          then literal
              "There is 1 command applied, a RESET is required to start using the new settings"
            ∷ []
          else literal "There are "
            ∷ unsigned self.n_commands_executed
            ∷ literal " commands applied, a RESET is required to start using the new settings"
            ∷ [];
    }

-- common_results_listbox_clear
abbrev pub results_clear : RemotePage → RemotePage
results_clear self = record self { group_edges = false; group_center = false; rows = [] }

-- common_results_listbox_init
unfoldable pub results_init : RemotePage → Run RemotePage
results_init self = do
  assert (not self.group_center)
  assert (not self.group_edges)
  ok (record self { group_center = true; group_edges = true })

-- common_results_listbox_set_sensitivity
abbrev pub set_sensitivity : RemotePage → Option ℕ → RemotePage
set_sensitivity self none = record self {
  rows = map {A = Row} {B = Row} (λ row. record row { is_sensitive = true }) self.rows;
}
set_sensitivity self (some n) = record self {
  rows = map {A = Row} {B = Row} (λ row. record row { is_sensitive = row.number == n }) self.rows;
}

-- the loop of common_results_listbox_select_current
unfoldable pub select_rows : PageEnvironment → Option Bytes → List Row → Run (List Row)
unfolding ksi_matches_ksn
select_rows env ksn [] = ok []
select_rows env ksn (row ∷ rows) = do
  matches ← ksi_matches_ksn env ksn row.ksi
  rest ← select_rows env ksn rows
  ok (record row { check_shown = matches } ∷ rest)

-- common_results_listbox_select_current
unfoldable pub select_current : PageEnvironment → RemotePage → Option Bytes → Run RemotePage
unfolding select_rows
select_current env self ksn = do
  rows ← select_rows env ksn self.rows
  ok (record self { rows = rows })

abbrev pub find_row : List Row → ℕ → Option Row
find_row [] n = none
find_row (row ∷ rows) n = if row.number == n then some row else find_row rows n

-- the memory of a row, which is gone with the row
unfoldable pub row_at : RemotePage → ℕ → Run Row
row_at self n = elim (find_row self.rows n) [ none ↦ fault | some row ↦ ok row ]

-- Calls on the widgets of a row.
unfoldable pub with_row : RemotePage → ℕ → (Row → Row) → Run RemotePage
unfolding row_at
with_row self n f = do
  row ← row_at self n
  ok (record self { rows = map (λ r. if r.number == n then f r else r) self.rows })

-- mui_processor_run_command: a processor that is not there is followed
unfoldable pub ask_processor : RemotePage → Option Bytes → Bool → Awaited → Run RemotePage
ask_processor self command response_expected callback =
    if self.has_processor
    then ok (await (ask self (run_command command response_expected ∷ [])) callback)
    else fault

-- what the entries say, in the order of the arguments of mui_remote_service_set_common_request_fields
abbrev pub account_of : RemotePage → Account
account_of self = record {
  customer_code = some (self.entries customer_code);
  username = some (self.entries username);
  password = some (self.entries password);
  billing_label = some (self.entries billing_label);
  customer_transaction_id = some (self.entries customer_trid);
}

abbrev pub set_fields : PageEnvironment → RemotePage → RemotePage
set_fields env self = record self {
  service =
      set_common_request_fields env.same self.service (some (self.entries url)) (account_of self);
}

-- A cancellable for an operation, of which the property is notified.
unfoldable pub begin_operation : RemotePage → Run RemotePage
begin_operation self = do
  assert (not self.ongoing)
  ok (ask (record self { ongoing = true }) (operation_ongoing_changed ∷ []))

abbrev pub end_operation : RemotePage → RemotePage
end_operation self = ask (record self { ongoing = false }) (operation_ongoing_changed ∷ [])

-- start_main_operation
unfoldable pub start_main_operation : PageEnvironment → RemotePage → String → Run RemotePage
unfolding begin_operation
start_main_operation env self status = do
  begun ← begin_operation (results_clear (ask self (clear_user_error ∷ [])))
  ok (
      set_fields env
        (record begun { ongoing_status = status; results_shown = false; ongoing_shown = true }))

-- stop_main_operation
abbrev pub stop_main_operation : RemotePage → RemotePage
stop_main_operation self = record (end_operation self) {
  ongoing_status = "";
  ongoing_shown = false;
}

-- common_results_listbox_append_row, without the texts of its labels
abbrev pub append_row :
    RemotePage
    → ResultType
    → Option Bytes
    → Option Bytes
    → Option Bytes
    → Option Bytes
    → Option Bytes
    → Option Bytes
    → RemotePage
append_row self result_type id name description ksi execution_type command = record self {
  next_row = self.next_row + 1;
  rows =
      self.rows
      ++ record {
        number = self.next_row;
        result_type = result_type;
        id = id;
        name = name;
        description = description;
        ksi = ksi;
        execution_type = execution_type;
        command = command;
        is_sensitive = true;
        check_shown = false;
        spinner_shown = false;
        status_shown = false;
        status = "Status...";
      }
        ∷ [];
}
