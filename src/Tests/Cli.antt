-- ===== src/Tests/Cli.antt =====
-- Options of src/mccr-cli/mccr-cli.c, and the end of its actions on a device.
use mccr.Prelude.{ℕ, ◌≡◌, refl, true, List, [], ◌∷◌, none, some, ok, ◌>>=◌, ◌==◌, if◌then◌else◌}
use mccr.Prelude.Int.{pos}
use mccr.Hid.Usages.{empty_array}
use mccr.Hid.Context.{DescriptorContext, context_unref}
use mccr.Device.{Contexts, update}
use mccr.Cli.{Session, exit_failure}
use mccr.Cli.Options.{Arg, reset, path, show, no_options, read_options}
use mccr.Cli.Main.{clean_exit, main}
use mccr.Cli.Choice.{Performs, run_action-perform}
use mccr.Cli.Reading.{options_of, read_options-options_of}
use mccr.Cli.Ending.{clean_exit-dispose}
use mccr.Tests.Readers.{open_device}
use mccr.Tests.Processors.{machine}

abbrev reset_at_path : List Arg
reset_at_path = path (b'a' ∷ []) ∷ reset ∷ path (b'b' ∷ []) ∷ []

read_options-options_of_example :
    (read_options no_options [] reset_at_path).0
    ≡ some (record no_options { action_reset = true; path = some (b'a' ∷ []) })
read_options-options_of_example = read_options-options_of reset_at_path refl

abbrev context : DescriptorContext
context = record {
  refcount = 1;
  input = record { usages = empty_array; size = 0 };
  feature = record { usages = empty_array; size = 0 };
}

abbrev one_context : Contexts
one_context p = if p == 3 then some context else none

abbrev session : Session ℕ
session = record { device = open_device; heap = one_context; calls = 0; printed = [] }

run_action-perform_example : Performs machine (options_of reset_at_path) session
run_action-perform_example = run_action-perform machine (options_of reset_at_path) session refl

clean_exit-dispose_example :
    clean_exit open_device one_context ≡ ok (none, update one_context 3 (context_unref context))
clean_exit-dispose_example = clean_exit-dispose open_device one_context 3 context refl refl refl

-- two actions are refused before the library is initialised
two_actions :
    (main machine (pos 0) (reset ∷ show ∷ []) >>= λ ended. ok ended.exit) ≡ ok exit_failure
unfolding main read_options
two_actions = refl
