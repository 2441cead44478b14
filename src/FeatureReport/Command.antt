-- ===== src/FeatureReport/Command.antt =====
-- The command numbers `MCCR_FEATURE_REPORT_COMMAND_…` of src/libmccr/mccr-feature-report.h.
use mccr.Prelude.{ℕ}

abbrev pub get_property : ℕ
get_property = 0x00

abbrev pub set_property : ℕ
set_property = 0x01

abbrev pub reset_device : ℕ
reset_device = 0x02

abbrev pub get_dukpt_ksn_and_counter : ℕ
get_dukpt_ksn_and_counter = 0x09

abbrev pub set_session_id : ℕ
set_session_id = 0x0A

abbrev pub get_reader_state : ℕ
get_reader_state = 0x14

abbrev pub set_security_level : ℕ
set_security_level = 0x15

abbrev pub get_encryption_counter : ℕ
get_encryption_counter = 0x1C

abbrev pub get_magtek_update_token : ℕ
get_magtek_update_token = 0x19

abbrev pub update_encryption_key : ℕ
update_encryption_key = 0x22
