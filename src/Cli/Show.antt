-- ===== src/Cli/Show.antt =====
-- run_show of src/mccr-cli/mccr-cli.c: every property of an open device, a line for what can be read and one
-- on `stderr` for what cannot.
use Prim.Native.String.{String}
use mccr.Prelude.{
  ℕ, true, List, [], ◌∷◌, ◌++◌, Option, none, some, Run, ok, ◌>>=◌, if◌then◌else◌, length,
  replicate,
}
use mccr.Prelude.Bytes.{Bytes}
use mccr.Prelude.Text.{literal, chars, unsigned, c_string}
use mccr.Environment.{Environment}
use mccr.Status.{Status, is_ok}
use mccr.Device.{Device}
use mccr.Device.Commands.{
  mccr_device_read_track_id_enable, mccr_device_read_max_packet_size,
  mccr_device_read_polling_interval, mccr_device_get_reader_state, mccr_device_get_security_level,
}
use mccr.Device.Commands.Copied.{
  mccr_device_read_software_id, mccr_device_read_usb_serial_number,
  mccr_device_read_device_serial_number, mccr_device_read_magnesafe_version_number,
  mccr_device_read_iso_track_mask, mccr_device_read_aamva_track_mask,
  mccr_device_get_dukpt_ksn_and_counter, mccr_device_get_encryption_counter,
  mccr_device_get_magtek_update_token,
}
use mccr.Common.{strhex, strhex_multiline, strhex_length, multiline_length}
use mccr.Cli.Lines.{
  rule, about_device, track_lines, reader_state_lines, counter_line, written, text_lines, hex_lines,
}
use mccr.Cli.{Line, out, Exit, exit_success, Session, print, after_command, grants_from, failure}

module _ {D : Type 0} where
  -- One property: its lines if the command succeeds, the error if not. The lines are made of what
  -- the command returned.
  unfoldable pub show :
      {A : Type 0}
      → (Device D → Run (Status × A × Device D))
      → (A → Run (List Line))
      → String
      → Session D
      → Run (Session D)
  show command lines error s = do
    (st, value, device') ← command s.device
    if is_ok st
        then (do printed ← lines value; ok (print (after_command s device') printed))
        else ok (print (after_command s device') (failure error st ∷ []))

  -- A property that is a number: what the variable `val` holds in the end is printed, which is what
  -- it held before if the answer has another length.
  unfoldable pub show_number :
      (Device D → Run (Status × Option ℕ × Device D))
      → String
      → String
      → String
      → ℕ
      → Session D
      → Run (ℕ × Session D)
  show_number command label unit error val s = do
    (st, value, device') ← command s.device
    let val' : ℕ = elim value [ none ↦ val | some v ↦ v ]
    let s' : Session D = after_command s device'
    ok (
      val',
      print s' (
          if is_ok st
          then out (literal label ∷ unsigned val' ∷ literal unit ∷ []) ∷ []
          else failure error st ∷ []),
    )

module _ {D : Type 0} (env : Environment D) where
  -- the encryption counter and, after it, the serial number
  abbrev counter_lines : Option Bytes × Option ℕ → Run (List Line)
  counter_lines (serial, counter) = do
    val32 ← written counter
    mem ← written serial
    ok (
        counter_line val32
        ∷ out (literal "\tdevice serial number: " ∷ chars (c_string mem) ∷ [])
        ∷ [])

  abbrev encryption_counter :
      Session D → Device D → Run (Status × (Option Bytes × Option ℕ) × Device D)
  encryption_counter s device = do
    (st, serial, counter, device') ←
        mccr_device_get_encryption_counter env.hidapi (grants_from env s) device true true 0
    ok (st, (serial, counter), device')

  -- the text of the key serial number and counter, and of the update token, with the memory that
  -- they ask for
  abbrev ksn_text : Session D → Bytes → Run Bytes
  ksn_text s bytes =
      strhex (grants_from env s 1 (strhex_length (length bytes) (b':' ∷ []))) bytes (length bytes)
        (some (b':' ∷ []))

  -- a tab and 21 spaces
  abbrev token_prefix : Bytes
  token_prefix = b'\t' ∷ replicate 21 b' '

  abbrev token_text : Session D → Bytes → Run Bytes
  token_text s bytes =
      let size = length bytes in
      strhex_multiline (grants_from env s 1 (multiline_length size 10 token_prefix (b':' ∷ [])))
        bytes size 10 (some token_prefix) (some (b':' ∷ []))

  -- the properties, down to the first rule
  unfoldable pub show_properties : Session D → Run (Session D)
  unfolding show show_number
  show_properties s0 = do
    let hidapi = env.hidapi
    s1 ←
        show (λ d. mccr_device_read_software_id hidapi (grants_from env s0) d true 0)
          (text_lines "\t\tsoftware id:              ") "error: cannot read software id: " s0
    s2 ←
        show (λ d. mccr_device_read_usb_serial_number hidapi (grants_from env s1) d true 0)
          (text_lines "\t\tusb serial number:        ") "error: cannot read usb serial number: " s1
    (val, s3) ←
        show_number (mccr_device_read_polling_interval hidapi) "\t\tpolling interval:         "
          " ms" "error: cannot read polling interval: " env.uninitialised s2
    s4 ←
        show (λ d. mccr_device_read_device_serial_number hidapi (grants_from env s3) d true 0)
          (text_lines "\t\tdevice serial number:     ") "error: cannot read device serial number: "
          s3
    s5 ←
        show (λ d. mccr_device_read_magnesafe_version_number hidapi (grants_from env s4) d true 0)
          (text_lines "\t\tmagnesafe version number: ")
          "error: cannot read magnesafe version number: " s4
    s6 ←
        show (λ d. mccr_device_read_track_id_enable hidapi d env.uninitialised)
          (λ read. do fields ← written read; ok (track_lines fields))
          "error: cannot read track id enable fields: " s5
    s7 ←
        show (λ d. mccr_device_read_iso_track_mask hidapi (grants_from env s6) d true 0)
          (text_lines "\t\tISO track mask:           ") "error: cannot read ISO track mask: " s6
    s8 ←
        show (λ d. mccr_device_read_aamva_track_mask hidapi (grants_from env s7) d true 0)
          (text_lines "\t\tAAMVA track mask:         ") "error: cannot read AAMVA track mask: " s7
    (_val, s9) ←
        show_number (mccr_device_read_max_packet_size hidapi) "\t\tmax packet size:          "
          " bytes" "error: cannot read max packet size: " val s8
    ok s9

  -- the commands that follow, with a rule before each of them
  unfoldable pub show_state : Session D → Run (Session D)
  unfolding show
  show_state s0 = do
    let hidapi = env.hidapi
    s1 ←
        show (λ d. mccr_device_get_dukpt_ksn_and_counter hidapi (grants_from env s0) d true 0)
          (hex_lines (ksn_text s0) "\tDUKPT KSN and counter: ")
          "error: cannot get DUKPT KSN and counter: " (print s0 rule)
    s2 ←
        show (mccr_device_get_reader_state hidapi)
          (λ read. do states ← written read; ok (reader_state_lines states))
          "error: cannot get reader state: " (print s1 rule)
    s3 ←
        show (mccr_device_get_security_level hidapi)
          (λ read. do
            level ← written read
            ok (out (literal "\tsecurity level: " ∷ unsigned level ∷ []) ∷ []))
          "error: cannot get security level: " (print s2 rule)
    s4 ←
        show (encryption_counter s3) counter_lines "error: cannot get encryption counter: "
          (print s3 rule)
    show (λ d. mccr_device_get_magtek_update_token hidapi (grants_from env s4) d true 0)
        (hex_lines (token_text s4) "\tMagtek Update Token: ")
        "error: cannot get Magtek Update Token: " (print s4 rule)

  -- run_show
  unfoldable pub run_show : Session D → Run (Exit × Session D)
  unfolding show_properties show_state
  run_show s = do
    properties ←
        show_properties
          (print s (about_device s.device ++ (rule ++ out (literal "\tproperties:" ∷ []) ∷ [])))
    state ← show_state properties
    ok (exit_success, state)
