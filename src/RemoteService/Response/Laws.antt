-- ===== src/RemoteService/Response/Laws.antt =====
-- The structures of src/mccr-gtk/mui-remote-service-utils.c keep what is written to their members.
use mccr.Prelude.{◌≡◌, refl, true, Option, none, if◌then◌else◌}
use mccr.Prelude.Bytes.{Bytes}
use mccr.RemoteService.Response.{IsMembers}
use mccr.RemoteService.Response.Infos.{
  KeyInfo, no_key, KeyField, key_get, key_set, same_key, key_members, CommandInfo, no_command,
  CommandField, command_get, command_set, same_command, command_members, command_type_field,
  description_field, execution_type_field, id_field, key_name_field, key_slot_name_prefix_field,
  ksi_field, name_field, value_field,
}

key_get-set :
    (info : KeyInfo) (f g : KeyField) (text : Option Bytes)
    → key_get (key_set info f text) g ≡ (if same_key f g then text else key_get info g)
key_get-set info id_field id_field text = refl
key_get-set info id_field description_field text = refl
key_get-set info id_field ksi_field text = refl
key_get-set info id_field key_name_field text = refl
key_get-set info id_field key_slot_name_prefix_field text = refl
key_get-set info description_field id_field text = refl
key_get-set info description_field description_field text = refl
key_get-set info description_field ksi_field text = refl
key_get-set info description_field key_name_field text = refl
key_get-set info description_field key_slot_name_prefix_field text = refl
key_get-set info ksi_field id_field text = refl
key_get-set info ksi_field description_field text = refl
key_get-set info ksi_field ksi_field text = refl
key_get-set info ksi_field key_name_field text = refl
key_get-set info ksi_field key_slot_name_prefix_field text = refl
key_get-set info key_name_field id_field text = refl
key_get-set info key_name_field description_field text = refl
key_get-set info key_name_field ksi_field text = refl
key_get-set info key_name_field key_name_field text = refl
key_get-set info key_name_field key_slot_name_prefix_field text = refl
key_get-set info key_slot_name_prefix_field id_field text = refl
key_get-set info key_slot_name_prefix_field description_field text = refl
key_get-set info key_slot_name_prefix_field ksi_field text = refl
key_get-set info key_slot_name_prefix_field key_name_field text = refl
key_get-set info key_slot_name_prefix_field key_slot_name_prefix_field text = refl

key_same : (info : KeyInfo) (f g : KeyField) → same_key f g ≡ true → key_get info f ≡ key_get info g
key_same info id_field id_field e = refl
key_same info id_field description_field e = absurd (cc (e))
key_same info id_field ksi_field e = absurd (cc (e))
key_same info id_field key_name_field e = absurd (cc (e))
key_same info id_field key_slot_name_prefix_field e = absurd (cc (e))
key_same info description_field id_field e = absurd (cc (e))
key_same info description_field description_field e = refl
key_same info description_field ksi_field e = absurd (cc (e))
key_same info description_field key_name_field e = absurd (cc (e))
key_same info description_field key_slot_name_prefix_field e = absurd (cc (e))
key_same info ksi_field id_field e = absurd (cc (e))
key_same info ksi_field description_field e = absurd (cc (e))
key_same info ksi_field ksi_field e = refl
key_same info ksi_field key_name_field e = absurd (cc (e))
key_same info ksi_field key_slot_name_prefix_field e = absurd (cc (e))
key_same info key_name_field id_field e = absurd (cc (e))
key_same info key_name_field description_field e = absurd (cc (e))
key_same info key_name_field ksi_field e = absurd (cc (e))
key_same info key_name_field key_name_field e = refl
key_same info key_name_field key_slot_name_prefix_field e = absurd (cc (e))
key_same info key_slot_name_prefix_field id_field e = absurd (cc (e))
key_same info key_slot_name_prefix_field description_field e = absurd (cc (e))
key_same info key_slot_name_prefix_field ksi_field e = absurd (cc (e))
key_same info key_slot_name_prefix_field key_name_field e = absurd (cc (e))
key_same info key_slot_name_prefix_field key_slot_name_prefix_field e = refl

pub key_members-IsMembers : IsMembers key_members
key_members-IsMembers = record {
  get_set = key_get-set;
  same_get = key_same;
  nothing_set = key_nothing;
}
  where
    key_nothing : (f : KeyField) → key_get no_key f ≡ none
    key_nothing id_field = refl
    key_nothing description_field = refl
    key_nothing ksi_field = refl
    key_nothing key_name_field = refl
    key_nothing key_slot_name_prefix_field = refl

command_get-set :
    (info : CommandInfo) (f g : CommandField) (text : Option Bytes)
    → command_get (command_set info f text) g
      ≡ (if same_command f g then text else command_get info g)
command_get-set info id_field id_field text = refl
command_get-set info id_field command_type_field text = refl
command_get-set info id_field description_field text = refl
command_get-set info id_field execution_type_field text = refl
command_get-set info id_field name_field text = refl
command_get-set info id_field value_field text = refl
command_get-set info command_type_field id_field text = refl
command_get-set info command_type_field command_type_field text = refl
command_get-set info command_type_field description_field text = refl
command_get-set info command_type_field execution_type_field text = refl
command_get-set info command_type_field name_field text = refl
command_get-set info command_type_field value_field text = refl
command_get-set info description_field id_field text = refl
command_get-set info description_field command_type_field text = refl
command_get-set info description_field description_field text = refl
command_get-set info description_field execution_type_field text = refl
command_get-set info description_field name_field text = refl
command_get-set info description_field value_field text = refl
command_get-set info execution_type_field id_field text = refl
command_get-set info execution_type_field command_type_field text = refl
command_get-set info execution_type_field description_field text = refl
command_get-set info execution_type_field execution_type_field text = refl
command_get-set info execution_type_field name_field text = refl
command_get-set info execution_type_field value_field text = refl
command_get-set info name_field id_field text = refl
command_get-set info name_field command_type_field text = refl
command_get-set info name_field description_field text = refl
command_get-set info name_field execution_type_field text = refl
command_get-set info name_field name_field text = refl
command_get-set info name_field value_field text = refl
command_get-set info value_field id_field text = refl
command_get-set info value_field command_type_field text = refl
command_get-set info value_field description_field text = refl
command_get-set info value_field execution_type_field text = refl
command_get-set info value_field name_field text = refl
command_get-set info value_field value_field text = refl

command_same :
    (info : CommandInfo) (f g : CommandField)
    → same_command f g ≡ true
    → command_get info f ≡ command_get info g
command_same info id_field id_field e = refl
command_same info id_field command_type_field e = absurd (cc (e))
command_same info id_field description_field e = absurd (cc (e))
command_same info id_field execution_type_field e = absurd (cc (e))
command_same info id_field name_field e = absurd (cc (e))
command_same info id_field value_field e = absurd (cc (e))
command_same info command_type_field id_field e = absurd (cc (e))
command_same info command_type_field command_type_field e = refl
command_same info command_type_field description_field e = absurd (cc (e))
command_same info command_type_field execution_type_field e = absurd (cc (e))
command_same info command_type_field name_field e = absurd (cc (e))
command_same info command_type_field value_field e = absurd (cc (e))
command_same info description_field id_field e = absurd (cc (e))
command_same info description_field command_type_field e = absurd (cc (e))
command_same info description_field description_field e = refl
command_same info description_field execution_type_field e = absurd (cc (e))
command_same info description_field name_field e = absurd (cc (e))
command_same info description_field value_field e = absurd (cc (e))
command_same info execution_type_field id_field e = absurd (cc (e))
command_same info execution_type_field command_type_field e = absurd (cc (e))
command_same info execution_type_field description_field e = absurd (cc (e))
command_same info execution_type_field execution_type_field e = refl
command_same info execution_type_field name_field e = absurd (cc (e))
command_same info execution_type_field value_field e = absurd (cc (e))
command_same info name_field id_field e = absurd (cc (e))
command_same info name_field command_type_field e = absurd (cc (e))
command_same info name_field description_field e = absurd (cc (e))
command_same info name_field execution_type_field e = absurd (cc (e))
command_same info name_field name_field e = refl
command_same info name_field value_field e = absurd (cc (e))
command_same info value_field id_field e = absurd (cc (e))
command_same info value_field command_type_field e = absurd (cc (e))
command_same info value_field description_field e = absurd (cc (e))
command_same info value_field execution_type_field e = absurd (cc (e))
command_same info value_field name_field e = absurd (cc (e))
command_same info value_field value_field e = refl

pub command_members-IsMembers : IsMembers command_members
command_members-IsMembers = record {
  get_set = command_get-set;
  same_get = command_same;
  nothing_set = command_nothing;
}
  where
    command_nothing : (f : CommandField) → command_get no_command f ≡ none
    command_nothing id_field = refl
    command_nothing command_type_field = refl
    command_nothing description_field = refl
    command_nothing execution_type_field = refl
    command_nothing name_field = refl
    command_nothing value_field = refl
