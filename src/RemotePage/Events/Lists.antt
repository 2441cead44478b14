-- ===== src/RemotePage/Events/Lists.antt =====
-- The lists of src/mccr-gtk/mui-page-remote-services.c, from the click on a button to the rows, keep the
-- page consistent.
use Prim.Native.String.{String}
use mccr.Prelude.{
  ℕ, ◌<◌, ◌≡◌, refl, ap, ◌∙◌, Bool, true, false, not, List, [], ◌∷◌, ◌++◌, Option, none, Keeps,
  keeps, faults, Keeps-bind, Keeps-option, Keeps-mono, Keeps-assert, if◌then◌else◌,
}
use mccr.Prelude.Int.{lt_int}
use mccr.RemoteService.Response.Infos.{KeyInfo, CommandInfo}
use mccr.RemoteService.Response.Parse.{Parsed}
use mccr.RemotePage.{
  PageEnvironment, key_list_ready, command_list_ready, RemotePage, known_ksn, results_init,
  start_main_operation, stop_main_operation, append_row, result_key, result_command,
}
use mccr.RemotePage.Keys.{append_keys, show_keys, get_key_list_ready, get_key_list_button_clicked}
use mccr.RemotePage.Commands.{
  append_commands, show_commands, get_command_list_ready, get_command_list_button_clicked,
}
use mccr.RemotePage.Events.Core.{
  Core, core, Same, select_current-Same, IsConsistent, resting, listing, begin_operation-Same,
}

results_init-Same :
    (self : RemotePage) (dialog : Option ℕ)
    → Same (false, [], dialog, false, false) self
    → Keeps (Same (false, [], dialog, true, true)) (results_init self)
unfolding results_init
results_init-Same self dialog same = Keeps-assert _ _ (ap (λ (c : Core). not c.3) same) (
    Keeps-assert _ _ (ap (λ (c : Core). not c.4) same)
      (keeps (ap (λ (c : Core). (c.0, c.1, c.2, true, true)) same)))

core-append_commands :
    (env : PageEnvironment) (self : RemotePage) (commands : List CommandInfo)
    → core (append_commands env self commands) ≡ core self
core-append_commands env self [] = refl
core-append_commands env self (info ∷ infos) =
    core-append_commands env
      (append_row self result_command info.id info.name info.description none info.execution_type
        info.value)
      infos

module _ (env : PageEnvironment) (sized : 0 < env.dukpt.sizeof_ksn) where
  append_keys-Same :
      (self : RemotePage) (keys : List KeyInfo)
      → Keeps (Same (core self)) (append_keys env self keys)
  unfolding append_keys
  append_keys-Same self [] = keeps refl
  append_keys-Same self (info ∷ infos) = Keeps-option info.id _ _ faults (λ id.
      Keeps-mono
        (append_keys-Same
          (if lt_int (env.atoi id) 0
            then self
            else append_row self result_key info.id info.key_name info.description info.ksi none
                none)
          infos)
        (λ s e. e ∙ appended (lt_int (env.atoi id) 0) _ refl))
    where
      appended :
          (skipped : Bool) (more : RemotePage)
          → core more ≡ core self
          → core (if skipped then self else more) ≡ core self
      appended true more e = refl
      appended false more e = e

  show_keys-IsConsistent :
      (self : RemotePage) (keys : List KeyInfo)
      → Same (false, [], none, false, false) self
      → Keeps IsConsistent (show_keys env self keys)
  unfolding show_keys
  show_keys-IsConsistent self keys rests =
      Keeps-bind _ (results_init-Same (record self { results_shown = true }) none rests)
        (λ initialised same. Keeps-bind _ (append_keys-Same initialised keys) (λ filled same'.
          Keeps-mono (select_current-Same env sized filled (known_ksn filled))
            (λ s e. resting none true (e ∙ same' ∙ same))))

  pub get_key_list_ready-IsConsistent :
      (self : RemotePage) (answer : Parsed KeyInfo)
      → Same (true, [], none, false, false) self
      → Keeps IsConsistent (get_key_list_ready env self answer)
  unfolding get_key_list_ready
  get_key_list_ready-IsConsistent self answer works =
      let stopped = ap (λ (c : Core). (false, c.1, c.2, c.3, c.4)) works in
      Keeps-option answer.array _ _
        (Keeps-option answer.error _ _ faults (λ error. keeps (resting none false stopped)))
        (λ keys. show_keys-IsConsistent (stop_main_operation self) keys stopped)

  show_commands-IsConsistent :
      (self : RemotePage) (commands : List CommandInfo)
      → Same (false, [], none, false, false) self
      → Keeps IsConsistent (show_commands env self commands)
  unfolding show_commands
  show_commands-IsConsistent self commands rests =
      Keeps-bind _ (results_init-Same (record self { results_shown = true }) none rests)
        (λ initialised same.
          Keeps-mono (select_current-Same env sized (append_commands env initialised commands) none)
            (λ s e. resting none true (e ∙ core-append_commands env initialised commands ∙ same)))

  pub get_command_list_ready-IsConsistent :
      (self : RemotePage) (answer : Parsed CommandInfo)
      → Same (true, [], none, false, false) self
      → Keeps IsConsistent (get_command_list_ready env self answer)
  unfolding get_command_list_ready
  get_command_list_ready-IsConsistent self answer works =
      let stopped = ap (λ (c : Core). (false, c.1, c.2, c.3, c.4)) works in
      Keeps-option answer.array _ _
        (Keeps-option answer.error _ _ faults (λ error. keeps (resting none false stopped)))
        (λ commands. show_commands-IsConsistent (stop_main_operation self) commands stopped)

  start-Same :
      (self : RemotePage) (status : String) (groups : Bool)
      → Same (false, [], none, groups, groups) self
      → Keeps (Same (true, [], none, false, false)) (start_main_operation env self status)
  unfolding start_main_operation
  start-Same self status groups rests =
      Keeps-bind _
        (begin_operation-Same _ none false (ap (λ (c : Core). (c.0, c.1, c.2, false, false)) rests))
        (λ begun works. keeps works)

  pub key_list_clicked-IsConsistent :
      (self : RemotePage) (groups : Bool)
      → Same (false, [], none, groups, groups) self
      → Keeps IsConsistent (get_key_list_button_clicked env self)
  unfolding get_key_list_button_clicked
  key_list_clicked-IsConsistent self groups rests =
      Keeps-bind _ (start-Same self _ groups rests) (λ started works. keeps (
        listing key_list_ready refl
          (ap (λ (c : Core). (c.0, c.1 ++ key_list_ready ∷ [], c.2, c.3, c.4)) works)))

  pub command_list_clicked-IsConsistent :
      (self : RemotePage) (groups : Bool)
      → Same (false, [], none, groups, groups) self
      → Keeps IsConsistent (get_command_list_button_clicked env self)
  unfolding get_command_list_button_clicked
  command_list_clicked-IsConsistent self groups rests =
      Keeps-bind _ (start-Same self _ groups rests) (λ started works. keeps (
        listing command_list_ready refl
          (ap (λ (c : Core). (c.0, c.1 ++ command_list_ready ∷ [], c.2, c.3, c.4)) works)))
