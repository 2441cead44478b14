-- ===== src/Cli.antt =====
-- src/mccr-cli/mccr-cli.c: the command line tool. What it prints is a list of lines, each for one of the two
-- streams.
pub mod Lines
pub mod Show
pub mod Swipe
pub mod Options
pub mod Main
pub mod Choice
pub mod Reading
pub mod Ending
use mccr.Prelude.{
  ℕ, ◌+◌, ◌*◌, ◌-◌, Bool, true, false, not, List, [], ◌∷◌, ◌++◌, Option, none, some, Run, ok, ◌>>=◌,
  if◌then◌else◌, ◌==◌, length,
}
use Prim.Native.String.{String}
use mccr.Prelude.Bytes.{Bytes}
use mccr.Prelude.Text.{Text, literal, chars, unsigned, hex, c_string}
use mccr.Environment.{Environment}
use mccr.Hid.Usages.{Allocator}
use mccr.Status.{Status, is_ok, mccr_status_to_string}
use mccr.Device.{Device, Contexts}
use mccr.Device.Commands.{mccr_device_reset, mccr_device_set_session_id}

-- a line on `stdout` or on `stderr`
pub data Line : Type 0 where
  out err : Text → Line

pub data Exit : Type 0 where
  exit_success exit_failure : Exit

-- A device that is open, the contexts of the library, and what has been printed.
pub record Session (D : Type 0) : Type 0 where
  pub device : Device D
  pub heap : Contexts
  -- requests for memory so far, or more
  pub calls : ℕ
  pub printed : List Line

module _ {D : Type 0} where
  abbrev pub print : Session D → List Line → Session D
  print s lines = record s { printed = s.printed ++ lines }

  -- the state after a command, which asks for memory three times at most
  abbrev pub after_command : Session D → Device D → Session D
  after_command s device = record s { device = device; calls = s.calls + 3 }

  -- the memory that is granted from now on
  abbrev pub grants_from : Environment D → Session D → Allocator
  grants_from env s n = env.grants (s.calls + n)

-- "error: … : %s" of a status
abbrev pub failure : String → Status → Line
failure text st = err (literal text ∷ literal (mccr_status_to_string st) ∷ [])

module _ {D : Type 0} (env : Environment D) where
  -- run_reset
  unfoldable pub run_reset : Session D → Run (Exit × Session D)
  run_reset s = do
    (st, device') ← mccr_device_reset env.hidapi s.device
    let s' : Session D = after_command s device'
    ok (
        if is_ok st
        then (exit_success, print s' (out (literal "requested device reset" ∷ []) ∷ []))
        else (exit_failure, print s' (failure "error: cannot reset device: " st ∷ [])))

  -- run_set_session_id: the id 0 stands for a text that is no number, and is refused
  unfoldable pub run_set_session_id : Session D → Bytes → Run (Exit × Session D)
  run_set_session_id s session_id_str =
      if env.strtoull session_id_str == 0
      then ok (
        exit_failure,
        print s
            (err (literal "error: invalid session id value: " ∷ chars session_id_str ∷ []) ∷ []),
      )
      else do
        (st, device') ← mccr_device_set_session_id env.hidapi s.device (env.strtoull session_id_str)
        let s' : Session D = after_command s device'
        ok (
            if is_ok st
            then (exit_success, print s' (out (literal "session id set" ∷ []) ∷ []))
            else (exit_failure, print s' (failure "error: cannot set session id: " st ∷ [])))
