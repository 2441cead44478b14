-- ===== src/RemotePage/Events/Busy.antt =====
-- The jobs of src/mccr-gtk/mui-page-remote-services.c keep the page consistent: an operation is ongoing
-- just while one call is waited for.
use mccr.Prelude.{
  ◌<◌, ◌≡◌, refl, ap, ◌∙◌, Bool, true, false, not, List, [], ◌∷◌, Option, none, some, if◌then◌else◌,
  Keeps, keeps, faults, Keeps-bind, Keeps-if, Keeps-option, Keeps-mono,
}
use mccr.Prelude.Bytes.{Bytes}
use mccr.Prelude.Text.{Text}
use mccr.RemoteService.Response.Infos.{CommandInfo}
use mccr.RemoteService.Response.Parse.{Parsed}
use mccr.RemotePage.{PageEnvironment, Job, RemotePage, known_ksn, end_operation}
use mccr.RemotePage.Keys.{
  key_update_settled, key_update_finished, run_key_update_command_ready, load_commands_received,
  load_commands, get_key_load_command_ready, is_named, change_key_name, kcv_name, has_suffix,
}
use mccr.RemotePage.Commands.{
  generic_command_finished, count_command, processor_generic_command_ready, run_on_processor,
  run_command_received, get_command_ready,
}
use mccr.RemotePage.Events.Core.{
  Core, core, Same, with_row-Same, core-update_footer, core-set_sensitivity, select_current-Same,
  IsConsistent, resting, ask_processor-Waits,
}

-- a page that works, with no call that it waits for yet
abbrev pub Works : Bool → RemotePage → Type 0
Works groups = Same (true, [], none, groups, groups)

module _ (env : PageEnvironment) (sized : 0 < env.dukpt.sizeof_ksn) where
  settled-Same :
      (self : RemotePage) (job : Job) (success groups : Bool)
      → Same (false, [], none, groups, groups) self
      → Keeps (Same (false, [], none, groups, groups)) (key_update_settled env self job success)
  settled-Same self job true groups same = keeps same
  settled-Same self job false groups same =
      Keeps-mono (select_current-Same env sized self (known_ksn self)) (λ s e. e ∙ same)

  pub key_update_finished-IsConsistent :
      (self : RemotePage) (job : Job) (success groups : Bool)
      → Works groups self
      → Keeps IsConsistent (key_update_finished env self job success)
  unfolding key_update_finished
  key_update_finished-IsConsistent self job success groups works =
      Keeps-bind _ (with_row-Same self job.row _) (λ hidden same.
        Keeps-bind _
          (settled-Same (end_operation hidden) job success groups
            (ap (λ (c : Core). (false, c.1, c.2, c.3, c.4)) (same ∙ works)))
          (λ settled e. keeps (resting none groups (core-set_sensitivity settled none ∙ e))))

  pub key_update_ready-IsConsistent :
      (self : RemotePage) (job : Job) (error : Option Text) (response : Option Bytes)
      (groups : Bool)
      → Works groups self
      → Keeps IsConsistent (run_key_update_command_ready env self job error response)
  unfolding run_key_update_command_ready
  key_update_ready-IsConsistent self job (some error) response groups works =
      key_update_finished-IsConsistent _ job false groups works
  key_update_ready-IsConsistent self job none response groups works =
      Keeps-if (not (has_suffix response job.kcv)) _ _
        (λ _. key_update_finished-IsConsistent _ job false groups works)
        (λ _. key_update_finished-IsConsistent self job true groups works)

  load_commands-IsConsistent :
      (self : RemotePage) (job : Job) (commands : List CommandInfo) (groups : Bool)
      → Works groups self
      → Keeps IsConsistent (load_commands env self job commands)
  unfolding load_commands load_commands_received
  load_commands-IsConsistent self job [] groups works =
      key_update_finished-IsConsistent _ job false groups works
  load_commands-IsConsistent self job (info ∷ []) groups works =
      key_update_finished-IsConsistent _ job false groups works
  load_commands-IsConsistent self job (to_scra ∷ kcv ∷ []) groups works =
      Keeps-if (not (is_named to_scra.name change_key_name)) _ _
        (λ _. key_update_finished-IsConsistent _ job false groups works)
        (λ _.
          Keeps-if (not (is_named kcv.name kcv_name)) _ _
            (λ _. key_update_finished-IsConsistent _ _ false groups works)
            (λ _.
              Keeps-if env.no_device _ _
                (λ _. key_update_finished-IsConsistent self _ true groups works)
                (λ _. Keeps-bind _ (with_row-Same self job.row _) (λ updating same.
                  ask_processor-Waits updating to_scra.value true _ groups refl (same ∙ works)))))
  load_commands-IsConsistent self job (info ∷ other ∷ another ∷ others) groups works =
      key_update_finished-IsConsistent _ job false groups works

  pub get_key_load_command_ready-IsConsistent :
      (self : RemotePage) (job : Job) (answer : Parsed CommandInfo) (groups : Bool)
      → Works groups self
      → Keeps IsConsistent (get_key_load_command_ready env self job answer)
  unfolding get_key_load_command_ready
  get_key_load_command_ready-IsConsistent self job answer groups works =
      Keeps-option answer.array _ _
        (Keeps-option answer.error _ _ faults
          (λ error. key_update_finished-IsConsistent _ job false groups works))
        (λ commands. load_commands-IsConsistent self job commands groups works)

  pub generic_command_finished-IsConsistent :
      (self : RemotePage) (job : Job) (success groups : Bool)
      → Works groups self
      → Keeps IsConsistent (generic_command_finished env self job success)
  unfolding generic_command_finished
  generic_command_finished-IsConsistent self job success groups works =
      Keeps-bind _ (with_row-Same self job.row _) (λ hidden same. keeps (
        resting none groups (
          ap (λ (c : Core). (false, c.1, c.2, c.3, c.4))
            (core-counted success hidden ∙ same ∙ works))))
    where
      core-counted : (b : Bool) (s : RemotePage) → core (if b then count_command s else s) ≡ core s
      core-counted true s = core-update_footer _
      core-counted false s = refl

  pub run_on_processor-IsConsistent :
      (self : RemotePage) (job : Job) (command : Option Bytes) (groups : Bool)
      → Works groups self
      → Keeps IsConsistent (run_on_processor env self job command)
  run_on_processor-IsConsistent self job command groups works =
      Keeps-bind _ (with_row-Same self job.row _)
        (λ running same. ask_processor-Waits running command false _ groups refl (same ∙ works))

  pub generic_command_ready-IsConsistent :
      (self : RemotePage) (job : Job) (error : Option Text) (groups : Bool)
      → Works groups self
      → Keeps IsConsistent (processor_generic_command_ready env self job error)
  unfolding processor_generic_command_ready
  generic_command_ready-IsConsistent self job (some error) groups works =
      generic_command_finished-IsConsistent _ job false groups works
  generic_command_ready-IsConsistent self job none groups works =
      generic_command_finished-IsConsistent self job true groups works

  run_command_received-IsConsistent :
      (self : RemotePage) (job : Job) (commands : List CommandInfo) (groups : Bool)
      → Works groups self
      → Keeps IsConsistent (run_command_received env self job commands)
  unfolding run_command_received
  run_command_received-IsConsistent self job [] groups works =
      generic_command_finished-IsConsistent _ job false groups works
  run_command_received-IsConsistent self job (info ∷ []) groups works =
      Keeps-if env.no_device _ _
        (λ _. generic_command_finished-IsConsistent self job true groups works)
        (λ _. run_on_processor-IsConsistent self job info.value groups works)
  run_command_received-IsConsistent self job (info ∷ other ∷ others) groups works =
      generic_command_finished-IsConsistent _ job false groups works

  pub get_command_ready-IsConsistent :
      (self : RemotePage) (job : Job) (answer : Parsed CommandInfo) (groups : Bool)
      → Works groups self
      → Keeps IsConsistent (get_command_ready env self job answer)
  unfolding get_command_ready
  get_command_ready-IsConsistent self job answer groups works =
      Keeps-option answer.array _ _
        (Keeps-option answer.error _ _ faults
          (λ error. generic_command_finished-IsConsistent _ job false groups works))
        (λ commands. run_command_received-IsConsistent self job commands groups works)
