-- ===== src/RemoteService/Response/Infos.antt =====
-- The structures that the responses of src/mccr-gtk/mui-remote-service-utils.c are read into, and what an
-- element of a response is for.
use Prim.Native.String.{String}
use mccr.Prelude.{Bool, true, false, Option, none, some, if◌then◌else◌}
use mccr.Prelude.Bytes.{Bytes}
use mccr.Prelude.Text.{same_string}
use mccr.RemoteService.Response.{Members}

-- `MuiKeyInfo`
pub record KeyInfo : Type 0 where
  pub id : Option Bytes
  pub key_name : Option Bytes
  pub description : Option Bytes
  pub ksi : Option Bytes
  pub key_slot_name_prefix : Option Bytes

abbrev pub no_key : KeyInfo
no_key = record {
  id = none;
  key_name = none;
  description = none;
  ksi = none;
  key_slot_name_prefix = none;
}

-- the members of the structure, in the order of the tests on the name
pub data KeyField : Type 0 where
  id_field description_field ksi_field key_name_field key_slot_name_prefix_field : KeyField

-- the member that an element is for
abbrev pub key_target : String → Option KeyField
key_target name =
    if same_string name "ID"
    then some id_field
    else if same_string name "Description"
    then some description_field
    else if same_string name "KSI"
    then some ksi_field
    else if same_string name "KeyName"
    then some key_name_field
    else if same_string name "KeySlotNamePrefix"
    then some key_slot_name_prefix_field
    else none

abbrev pub key_get : KeyInfo → KeyField → Option Bytes
key_get info id_field = info.id
key_get info description_field = info.description
key_get info ksi_field = info.ksi
key_get info key_name_field = info.key_name
key_get info key_slot_name_prefix_field = info.key_slot_name_prefix

abbrev pub key_set : KeyInfo → KeyField → Option Bytes → KeyInfo
key_set info id_field text = record info { id = text }
key_set info description_field text = record info { description = text }
key_set info ksi_field text = record info { ksi = text }
key_set info key_name_field text = record info { key_name = text }
key_set info key_slot_name_prefix_field text = record info { key_slot_name_prefix = text }

abbrev pub same_key : KeyField → KeyField → Bool
same_key id_field id_field = true
same_key description_field description_field = true
same_key ksi_field ksi_field = true
same_key key_name_field key_name_field = true
same_key key_slot_name_prefix_field key_slot_name_prefix_field = true
same_key _ _ = false

abbrev pub key_members : Members KeyInfo KeyField
key_members = record {
  target = key_target;
  get = key_get;
  set = key_set;
  same = same_key;
  nothing = no_key;
}

-- `MuiCommandInfo`
pub record CommandInfo : Type 0 where
  pub id : Option Bytes
  pub command_type : Option Bytes
  pub description : Option Bytes
  pub execution_type : Option Bytes
  pub name : Option Bytes
  pub value : Option Bytes

abbrev pub no_command : CommandInfo
no_command = record {
  id = none;
  command_type = none;
  description = none;
  execution_type = none;
  name = none;
  value = none;
}

-- the members of the structure, in the order of the tests on the name
pub data CommandField : Type 0 where
  id_field command_type_field description_field execution_type_field name_field value_field :
      CommandField

-- the member that an element is for
abbrev pub command_target : String → Option CommandField
command_target name =
    if same_string name "ID"
    then some id_field
    else if same_string name "CommandType"
    then some command_type_field
    else if same_string name "Description"
    then some description_field
    else if same_string name "ExecutionTypeEnum"
    then some execution_type_field
    else if same_string name "Name"
    then some name_field
    else if same_string name "Value"
    then some value_field
    else none

abbrev pub command_get : CommandInfo → CommandField → Option Bytes
command_get info id_field = info.id
command_get info command_type_field = info.command_type
command_get info description_field = info.description
command_get info execution_type_field = info.execution_type
command_get info name_field = info.name
command_get info value_field = info.value

abbrev pub command_set : CommandInfo → CommandField → Option Bytes → CommandInfo
command_set info id_field text = record info { id = text }
command_set info command_type_field text = record info { command_type = text }
command_set info description_field text = record info { description = text }
command_set info execution_type_field text = record info { execution_type = text }
command_set info name_field text = record info { name = text }
command_set info value_field text = record info { value = text }

abbrev pub same_command : CommandField → CommandField → Bool
same_command id_field id_field = true
same_command command_type_field command_type_field = true
same_command description_field description_field = true
same_command execution_type_field execution_type_field = true
same_command name_field name_field = true
same_command value_field value_field = true
same_command _ _ = false

abbrev pub command_members : Members CommandInfo CommandField
command_members = record {
  target = command_target;
  get = command_get;
  set = command_set;
  same = same_command;
  nothing = no_command;
}
