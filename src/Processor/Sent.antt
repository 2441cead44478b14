-- ===== src/Processor/Sent.antt =====
-- What run_command of src/mccr-gtk/mui-processor.c sends for a command in hexadecimal.
use mccr.Prelude.{
  ℕ, suc, ◌+◌, ◌-◌, ◌<◌, ◌≡◌, refl, Bool, true, [], ◌∷◌, ◌++◌, some, ok, aborted, arith, lt→ltb,
  le→ltb, ◌==◌, length, length-append, replicate, take-append, read_block_inside,
}
use mccr.Prelude.Bytes.{Bytes, AllBytes}
use mccr.Common.{count, strhex, strbin}
use mccr.Common.Hex.{hex_text, strhex-front, length-hex_text}
use mccr.Common.Binary.{AllSeparators, strbin-hex_text}
use mccr.Hid.Usages.{Allocator}
use mccr.Environment.{Environment}
use mccr.Processor.{Processor}
use mccr.Processor.Command.{
  CommandInfo, command_info_new, send_command, split_command, converted, run_command,
}

-- Memory is never refused.
abbrev pub AlwaysGrants : Allocator → Type 0
AlwaysGrants grants = (n size : ℕ) → grants n size ≡ true

-- The command text of an id and data: the id, the length and the data in hexadecimal.
abbrev pub command_text : Bytes → ℕ → Bytes → Bytes
command_text delimiter command_id payload =
    hex_text delimiter (command_id ∷ length payload ∷ payload)

command_text-strbin :
    (delimiter : Bytes) (command_id : ℕ) (payload : Bytes)
    → AllBytes (command_id ∷ length payload ∷ payload)
    → AllSeparators delimiter
    → strbin
        (command_text delimiter command_id payload)
        (length (command_text delimiter command_id payload))
      ≡ ok (count (suc (suc (length payload))), command_id ∷ length payload ∷ payload)
command_text-strbin delimiter command_id payload bytes separators =
    strbin-hex_text (command_id ∷ length payload ∷ payload) delimiter _ bytes separators
      (omega (arith, length-hex_text delimiter command_id (length payload ∷ payload)))

module _ {D : Type 0} (env : Environment D) where
  -- The bytes behind the written ones are not part of the data.
  pub split_command-send :
      (self : Processor D) (info : CommandInfo) (command_id b : ℕ) (bs rest : Bytes)
      → AlwaysGrants env.grants
      → length (b ∷ bs) < 256
      → split_command env self info
          (suc (suc (suc (length bs))))
          (command_id ∷ suc (length bs) ∷ b ∷ (bs ++ rest))
        ≡ send_command env (record self { calls = self.calls + 1 }) info command_id (some (b ∷ bs))
  unfolding split_command
  split_command-send self info command_id b bs rest granted byte =
      let whole : (suc (length bs) + 2 == suc (suc (suc (length bs)))) ≡ true = ground arith in
      let long : length (command_id ∷ suc (length bs) ∷ b ∷ (bs ++ rest))
          ≡ suc (suc (suc (length bs))) + length rest =
        omega (arith, length-append bs rest) in
      let block =
        read_block_inside (command_id ∷ suc (length bs) ∷ b ∷ (bs ++ rest)) 2 (suc (length bs))
          (omega (arith, long)) in
      let front = take-append (suc (length bs)) (b ∷ bs) rest refl in
      rw (le→ltb (suc (suc (suc (length bs)))) 1 (omega arith)) (
        rw whole (
          rw (granted (self.calls + 0) _) (
            rw (strhex-front b bs rest (some (b':' ∷ [])) (omega arith))
              (rw block (rw front (rw (lt→ltb 0 (suc (length bs)) (omega arith)) refl))))))

  -- While memory is granted, the hexadecimal text of an id, of the length of some data and of the
  -- data, with separators between the bytes, makes run_command send exactly this command with this
  -- data to the reader.
  pub run_command-send_command :
      (self : Processor D) (command_id b : ℕ) (bs delimiter : Bytes) (response_expected : Bool)
      → AlwaysGrants env.grants
      → AllBytes (command_id ∷ length (b ∷ bs) ∷ b ∷ bs)
      → AllSeparators delimiter
      → run_command env self
          (command_info_new (command_text delimiter command_id (b ∷ bs)) response_expected)
        ≡ send_command env
            (record self { calls = self.calls + 1 })
            (command_info_new (command_text delimiter command_id (b ∷ bs)) response_expected)
            command_id
            (some (b ∷ bs))
  unfolding run_command converted
  run_command-send_command self command_id b bs delimiter expected granted bytes separators =
      let text = command_text delimiter command_id (b ∷ bs) in
      rw (command_text-strbin delimiter command_id (b ∷ bs) bytes separators) (
        split_command-send self (command_info_new text expected) command_id b bs
          (replicate (length text - suc (suc (length (b ∷ bs)))) 0) granted bytes.1.0)

  -- A command without data, an id and the length 0 in hexadecimal with separators between the two,
  -- stops the process: an assert fails when the text to be logged is made of no bytes. Nothing is
  -- sent, whatever the device and whatever memory is granted.
  pub run_command_without_data :
      (self : Processor D) (command_id : ℕ) (delimiter : Bytes) (response_expected : Bool)
      → command_id < 256
      → AllSeparators delimiter
      → run_command env self
          (command_info_new (command_text delimiter command_id []) response_expected)
        ≡ aborted
  unfolding run_command converted split_command strhex
  run_command_without_data self command_id delimiter expected byte separators =
      rw (command_text-strbin delimiter command_id [] (byte, (omega arith, tt)) separators) refl
