-- ===== src/Processor/Progress.antt =====
-- The progress of the thread of src/mccr-gtk/mui-processor.c on an open device: resets and commands that
-- want no response.
use mccr.Prelude.{ℕ, ◌+◌, ◌≤◌, ◌≡◌, ◌⊎◌, true, false, List, [], ◌∷◌, some, length}
use mccr.Prelude.Bytes.{Bytes, AllBytes}
use mccr.Device.{Device}
use mccr.Device.Commands.Transact.{IsOpen}
use mccr.Common.Binary.{AllSeparators}
use mccr.Environment.{Environment}
use mccr.Processor.{Processor}
use mccr.Processor.Command.{command_info_new}
use mccr.Processor.Queue.{Operation, reset, run, Task}
use mccr.Processor.Sent.{command_text}

-- An operation for which a reader with a feature report of this size has room: a reset, or a command
-- in hexadecimal that has data and wants no response.
pub data IsFitting (size : ℕ) : Operation → Type 0 where
  reset_fits : IsFitting size reset
  command_fits :
      (command_id b : ℕ) (bs delimiter : Bytes)
      → AllBytes (command_id ∷ length (b ∷ bs) ∷ b ∷ bs)
      → AllSeparators delimiter
      → length (b ∷ bs) + 3 ≤ size
      → IsFitting size (run (command_info_new (command_text delimiter command_id (b ∷ bs)) false))

abbrev pub AllFitting : ℕ → List Task → Type 0
AllFitting size [] = Unit
AllFitting size (task ∷ tasks) =
    ((task.is_cancelled ≡ true) ⊎ IsFitting size task.operation) × AllFitting size tasks

-- The processor has a device, which is open.
pub record IsReady {D : Type 0} (size : ℕ) (self : Processor D) : Type 0 where
  pub opened : Device D
  pub has_device : self.device ≡ some opened
  pub is_open : IsOpen size opened
