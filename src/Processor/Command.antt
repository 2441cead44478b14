-- ===== src/Processor/Command.antt =====
-- run_command of src/mccr-gtk/mui-processor.c: a command that is written in hexadecimal, as its id, the
-- length of its data and the data, is sent to the reader.
use mccr.Prelude.{
  ℕ, ◌+◌, ◌-◌, Bool, true, not, [], ◌∷◌, ◌++◌, Option, none, some, Run, ok, fault, ◌>>=◌, ◌>>◌,
  assert, ltb, ◌==◌, if◌then◌else◌, length, replicate, read, read_block, drop,
}
use mccr.Prelude.Bytes.{Bytes}
use mccr.Prelude.Text.{literal, chars, unsigned, hex}
use mccr.Hid.Usages.{is_null}
use mccr.Status.{Status, is_ok, mccr_status_to_string}
use mccr.Device.Commands.Copied.{mccr_device_run_generic}
use mccr.Common.{Ssize, count, minus, strbin}
use mccr.Environment.{Environment}
use mccr.Processor.{Processor, with_device, grants_from, device_at, strhex_from}
use mccr.Processor.Swipe.{GError, invalid_argument, failed}

-- `CommandInfo`; `response` is the hexadecimal text in memory.
pub record CommandInfo : Type 0 where
  pub command : Bytes
  pub response_expected : Bool
  pub response : Option Bytes

-- command_info_new
abbrev pub command_info_new : Bytes → Bool → CommandInfo
command_info_new command response_expected = record {
  command = command;
  response_expected = response_expected;
  response = none;
}

-- what run_command returns: its error if there is one, and what it changed
abbrev pub Ran : Type 0 → Type 0
Ran D = Option GError × CommandInfo × Processor D

abbrev pub command_failed : ℕ → Status → GError
command_failed command_id st = (
  failed,
  literal "Cannot run generic command '0x"
      ∷ hex command_id
      ∷ literal "': "
      ∷ literal (mccr_status_to_string st)
      ∷ [],
)

-- `!response || !response_size`
abbrev pub no_response : Option Bytes → Option ℕ → Bool
no_response none size = true
no_response (some response) none = true
no_response (some response) (some size) = size == 0

-- mui_processor_run_command_finish: the error, the text that the caller takes over if it wants one, and
-- the information that is left
unfoldable pub mui_processor_run_command_finish :
    Option GError → CommandInfo → Bool → Run (Option GError × Option Bytes × CommandInfo)
mui_processor_run_command_finish (some error) info wanted = ok (some error, none, info)
mui_processor_run_command_finish none info wanted =
    if not info.response_expected then ok (none, none, info) else do
      assert (not (is_null info.response))
      ok (
          if wanted
          then (none, info.response, record info { response = none })
          else (none, none, info))

module _ {D : Type 0} (env : Environment D) where
  -- The response is kept as text; without a response the command has failed.
  unfoldable pub keep_response :
      Processor D → CommandInfo → ℕ → Option Bytes → Option ℕ → Run (Ran D)
  keep_response self info command_id response response_size =
      if no_response response response_size
      then ok (
        some (
          failed,
          literal "No response received for command '0x" ∷ hex command_id ∷ literal "'" ∷ [],
        ),
        info,
        self,
      )
      else elim response [
        | none ↦ fault
        | some bytes ↦ (do
          text ← strhex_from (grants_from env self) 1 bytes (length bytes) none
          ok (none, record info { response = some text }, self))
      ]

  -- The command is sent, with or without asking for a response.
  unfoldable pub send_command : Processor D → CommandInfo → ℕ → Option Bytes → Run (Ran D)
  unfolding keep_response
  send_command self info command_id payload = do
    device ← device_at self
    let wanted = info.response_expected
    (st, response, response_size, device') ←
        mccr_device_run_generic env.hidapi (grants_from env self) device command_id payload wanted
          wanted 0
    let ran : Processor D = with_device self device'
    if not (is_ok st)
        then ok (some (command_failed command_id st), info, ran)
        else if wanted
        then keep_response ran info command_id response response_size
        else ok (none, info, ran)

  -- The parts of the command, from the buffer in which so many bytes are written. The text that is
  -- logged is made of the data whether or not there is any.
  unfoldable pub split_command : Processor D → CommandInfo → ℕ → Bytes → Run (Ran D)
  unfolding send_command
  split_command self info bin_size buffer =
      if ltb bin_size 1
      then ok (
        some (
          invalid_argument,
          literal "Command id not given, too short: " ∷ unsigned bin_size ∷ literal " < 2" ∷ [],
        ),
        info,
        self,
      )
      else do
        command_id ← read buffer 0
        data_size ← read buffer 1
        if not (data_size + 2 == bin_size)
            then ok (
              some (
                invalid_argument,
                literal "Command data size invalid: "
                    ∷ unsigned data_size
                    ∷ literal " != ("
                    ∷ unsigned bin_size
                    ∷ literal " - 2)"
                    ∷ [],
              ),
              info,
              self,
            )
            else do
              _logged ←
                  strhex_from (grants_from env self) 0 (drop 2 buffer) data_size (some (b':' ∷ []))
              payload ← read_block buffer 2 data_size
              send_command (record self { calls = self.calls + 1 }) info command_id
                  (if ltb 0 data_size then some payload else none)

  -- what follows the conversion of the text
  unfoldable pub converted : Processor D → CommandInfo → Ssize × Bytes → Run (Ran D)
  unfolding split_command
  converted self info (minus n, written) = ok (
    some (
      invalid_argument,
      literal "Couldn't convert hex string '" ∷ chars info.command ∷ literal "' to binary" ∷ [],
    ),
    info,
    self,
  )
  converted self info (count bin_size, written) =
      split_command self info bin_size
        (written ++ replicate (length info.command - length written) 0)

  -- run_command
  unfoldable pub run_command : Processor D → CommandInfo → Run (Ran D)
  unfolding converted
  run_command self info = do
    result ← strbin info.command (length info.command)
    converted self info result
