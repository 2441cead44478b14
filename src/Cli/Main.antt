-- ===== src/Cli/Main.antt =====
-- main of src/mccr-cli/mccr-cli.c: the choice of one action, and the device that the action is for, from its
-- creation to its disposal.
use mccr.Prelude.{
  ℕ, ◌+◌, not, ◌&&◌, List, [], ◌∷◌, ◌++◌, Option, none, some, Run, ok, fault, aborted, ◌>>=◌, ◌==◌,
  if◌then◌else◌,
}
use mccr.Prelude.Bytes.{Bytes}
use mccr.Prelude.Text.{literal, chars, unsigned, hex_4}
use mccr.Prelude.Int.{ℤ}
use mccr.Environment.{Environment}
use mccr.Hid.Usages.{is_null}
use mccr.Status.{is_ok}
use mccr.Device.{Device, Contexts, mccr_device_open, mccr_device_close, mccr_device_unref}
use mccr.Device.Names.{mccr_init}
use mccr.Device.Enumerate.{mccr_device_new, mccr_enumerate_devices}
use mccr.Cli.{
  Line, out, err, Exit, exit_success, exit_failure, Session, print, failure, run_reset,
  run_set_session_id,
}
use mccr.Cli.Options.{
  Arg, Options, no_options, read_options, n_device_actions, actions_error, ascii_warning,
}
use mccr.Cli.Lines.{path_text}
use mccr.Cli.Show.{run_show}
use mccr.Cli.Swipe.{run_wait_swipe}

-- what the program comes to: its exit code, what it has printed, the device that it has not disposed
-- of, if there is one, and the contexts
pub record Ended (D : Type 0) : Type 0 where
  pub exit : Exit
  pub printed : List Line
  pub left : Option (Device D)
  pub heap : Contexts

abbrev no_contexts : Contexts
no_contexts p = none

module _ {D : Type 0} where
  abbrev pub stop : List Line → Ended D
  stop printed = record { exit = exit_failure; printed = printed; left = none; heap = no_contexts }

  -- the lines of the first loop of run_list, from a number on
  abbrev pub list_lines : ℕ → List (Option (Device D)) → List Line
  list_lines i [] = []
  list_lines i (none ∷ devices) = []
  list_lines i (some device ∷ devices) =
      out (
        literal "["
        ∷ unsigned i
        ∷ literal "] device ("
        ∷ hex_4 device.vid
        ∷ literal ":"
        ∷ hex_4 device.pid
        ∷ literal ") at path '"
        ∷ path_text device.path
        ∷ literal "'"
        ∷ [])
      ∷ list_lines (i + 1) devices

  -- the second loop of run_list: the devices that are still there after it
  unfoldable pub unref_devices : List (Option (Device D)) → Run (List (Device D))
  unref_devices [] = ok []
  unref_devices (none ∷ devices) = ok []
  unref_devices (some device ∷ devices) = do
    left ← mccr_device_unref device
    rest ← unref_devices devices
    ok (elim left [ none ↦ rest | some d ↦ d ∷ rest ])

  -- The end of main for a device: the pointer is followed again after mccr_device_close, so a device
  -- that this has freed is a fault.
  unfoldable pub clean_exit : Device D → Contexts → Run (Option (Device D) × Contexts)
  clean_exit device heap = do
    (closed, heap') ← mccr_device_close device heap
    elim closed [ none ↦ fault | some d ↦ (do left ← mccr_device_unref d; ok (left, heap')) ]

module _ {D : Type 0} (env : Environment D) where
  -- run_list
  unfoldable pub run_list : ℕ → Run (List Line)
  unfolding unref_devices
  run_list calls =
      elim ((mccr_enumerate_devices {D = D} (λ n. env.grants (calls + n)) env.hid_enumerate 0).0) [
        | none ↦ ok (out (literal "no devices found" ∷ []) ∷ [])
        | some devices ↦ (do _left ← unref_devices devices; ok (list_lines 0 devices))
      ]

  -- the action on a device; no action is the `assert (0)`
  unfoldable pub run_action : Options → Session D → Run (Exit × Session D)
  unfolding run_list
  run_action o s =
      if o.action_list
      then (do lines ← run_list s.calls; ok (exit_success, print s lines))
      else if o.action_show
      then run_show env s
      else if o.action_reset
      then run_reset env s
      else elim o.action_set_session_id [
        | some session_id ↦ run_set_session_id env s session_id
        | none ↦ if o.action_wait_swipe then run_wait_swipe env s o.ascii else aborted
      ]

  -- main from the opening of the device on
  unfoldable pub run_opened : Options → List Line → Device D → ℕ → Run (Ended D)
  unfolding run_action clean_exit
  run_opened o printed device calls = do
    (st, opened, heap) ←
        mccr_device_open env.hidapi (λ n. env.grants (calls + n)) env.parse_grants o.debug
          env.mccr_read_report_descriptor device no_contexts 0
    if not (is_ok st)
        then ok (record {
          exit = exit_failure;
          printed = printed ++ failure "error: mccr device open failed: " st ∷ [];
          left = some opened;
          heap = heap;
        })
        else do
          (exit, s) ←
              run_action o
                (record { device = opened; heap = heap; calls = calls + 3; printed = printed })
          (left, heap') ← clean_exit s.device s.heap
          ok (record { exit = exit; printed = s.printed; left = left; heap = heap' })

  -- the error where no device is found
  abbrev not_found_line : Option Bytes → Line
  not_found_line none = err (literal "error: no device found" ∷ [])
  not_found_line (some wanted) =
      err (literal "error: couldn't find device at path '" ∷ chars wanted ∷ literal "'" ∷ [])

  -- main where there is an action on a device
  unfoldable pub run_on_device : Options → List Line → Run (Ended D)
  unfolding run_opened
  run_on_device o printed =
      if is_null o.path && not o.first
      then ok (
          stop (
            printed
            ++ err (literal "error: operation requires a device to be specified" ∷ []) ∷ []))
      else do
        (device, calls) ← mccr_device_new env.grants env.hid_enumerate o.path 0
        elim device [
          | none ↦ ok (stop (printed ++ not_found_line o.path ∷ []))
          | some d ↦ run_opened o printed d calls
        ]

  -- main from the initialisation of the library on
  unfoldable pub run_options : ℤ → Options → List Line → Run (Ended D)
  unfolding run_list run_on_device
  run_options hid_init o printed =
      if not (is_ok (mccr_init hid_init))
      then ok (
          stop (
            printed
            ++ failure "error: mccr library initialization failed: " (mccr_init hid_init) ∷ []))
      else if not (n_device_actions o == 0)
      then run_on_device o printed
      else if o.action_list
      then (do
        lines ← run_list 0
        ok (record {
          exit = exit_success;
          printed = printed ++ lines;
          left = none;
          heap = no_contexts;
        }))
      else aborted

  -- main with the options that have been read
  unfoldable pub check_options : ℤ → Options → List Line → Run (Ended D)
  unfolding run_options
  check_options hid_init o printed = elim (actions_error o) [
    | some error ↦ ok (stop (printed ++ err error ∷ []))
    | none ↦
        let warned = printed ++ ascii_warning o in
        if not (is_null o.path) && o.first
        then ok (
            stop (
              warned
              ++ err (literal "error: multiple device selection operations requested" ∷ []) ∷ []))
        else run_options hid_init o warned
  ]

  -- main; the texts of the help and of the version are left out
  unfoldable pub main : ℤ → List Arg → Run (Ended D)
  unfolding check_options
  main hid_init args =
      let (o, printed) = read_options no_options [] args in
      elim o [
        | none ↦
            ok (record { exit = exit_success; printed = printed; left = none; heap = no_contexts })
        | some options ↦ check_options hid_init options printed
      ]
