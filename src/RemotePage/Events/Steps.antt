-- ===== src/RemotePage/Events/Steps.antt =====
-- Whatever happens to the page of src/mccr-gtk/mui-page-remote-services.c, it stays consistent.
use mccr.Prelude.{
  ◌<◌, ◌≡◌, refl, ap, ◌∙◌, Bool, false, not, List, [], ◌∷◌, Option, none, some, Keeps, keeps,
  faults, Keeps-bind, Keeps-if, Keeps-mono,
}
use mccr.Prelude.Bytes.{Bytes}
use mccr.Hid.Usages.{is_null}
use mccr.Common.{is_count}
use mccr.Common.Stops.{Anything, strbin-Keeps}
use mccr.BasicPage.{value_at}
use mccr.Processor.{Item, dukpt_ksn_and_counter, magtek_update_token}
use mccr.RemotePage.{PageEnvironment, RemotePage, results_clear}
use mccr.RemotePage.Keys.{mut_size}
use mccr.RemotePage.Events.{
  Event, key_list_clicked, command_list_clicked, reset_clicked, row_activated, dialog_answered,
  answered, reported, page_reset, ksn_updated, mut_updated, report_item, reset_page, step, steps,
}
use mccr.RemotePage.Events.Core.{
  Core, core, core-update_footer, select_current-Same, IsConsistent, resting, working, listing,
}
use mccr.RemotePage.Events.Lists.{key_list_clicked-IsConsistent, command_list_clicked-IsConsistent}
use mccr.RemotePage.Events.Clicks.{
  row_activated-IsConsistent, dialog_step-IsConsistent, clicked-IsConsistent,
}
use mccr.RemotePage.Events.Answers.{IsAnswer, answer_step-IsConsistent}

abbrev pub IsEvent : Event → Type 0
IsEvent (answered answer) = IsAnswer answer
IsEvent event = Unit

abbrev pub AllEvents : List Event → Type 0
AllEvents [] = Unit
AllEvents (event ∷ events) = IsEvent event × AllEvents events

-- Another page with the same core, or with groups that have been cleared.
same-IsConsistent :
    {self : RemotePage} (self' : RemotePage)
    → IsConsistent self
    → core self' ≡ core self
    → IsConsistent self'
same-IsConsistent self' (resting dialog groups e) same = resting dialog groups (same ∙ e)
same-IsConsistent self' (working call groups job e) same = working call groups job (same ∙ e)
same-IsConsistent self' (listing call list e) same = listing call list (same ∙ e)

cleared-IsConsistent : {self : RemotePage} → IsConsistent self → IsConsistent (results_clear self)
cleared-IsConsistent (resting dialog groups e) =
    resting dialog false (ap (λ (c : Core). (c.0, c.1, c.2, false, false)) e)
cleared-IsConsistent (working call groups job e) =
    working call false job (ap (λ (c : Core). (c.0, c.1, c.2, false, false)) e)
cleared-IsConsistent (listing call list e) =
    listing call list (ap (λ (c : Core). (c.0, c.1, c.2, false, false)) e)

value_at-Keeps : (value : Option Bytes) → Keeps Anything (value_at value)
value_at-Keeps none = faults
value_at-Keeps (some text) = keeps tt

module _ (env : PageEnvironment) (sized : 0 < env.dukpt.sizeof_ksn) where
  report_item-IsConsistent :
      (self : RemotePage) (item : Item) (value : Option Bytes)
      → IsConsistent self
      → Keeps IsConsistent (report_item env self item value)
  unfolding report_item ksn_updated mut_updated
  report_item-IsConsistent self dukpt_ksn_and_counter value v =
      Keeps-bind _ (value_at-Keeps value) (λ text _.
        Keeps-bind _ (strbin-Keeps text env.dukpt.sizeof_ksn) (λ converted _.
          Keeps-if (not (is_count converted.0 env.dukpt.sizeof_ksn)) _ _
            (λ _. keeps (same-IsConsistent _ v refl))
            (λ _. Keeps-mono (select_current-Same env sized _ _) (λ s e. same-IsConsistent s v e))))
  report_item-IsConsistent self magtek_update_token value v =
      Keeps-bind _ (value_at-Keeps value) (λ text _.
        Keeps-bind _ (strbin-Keeps text mut_size)
          (λ converted _. keeps (same-IsConsistent _ v refl)))
  report_item-IsConsistent self item value v = keeps v

  reset_page-IsConsistent :
      (self : RemotePage) (has_processor : Bool)
      → IsConsistent self
      → IsConsistent (record (reset_page env self) { has_processor = has_processor })
  unfolding reset_page
  reset_page-IsConsistent self has_processor v =
      same-IsConsistent _ (cleared-IsConsistent v)
        (core-update_footer (record (results_clear self) { n_commands_executed = 0 }))

  step-IsConsistent :
      (self : RemotePage) (event : Event)
      → IsEvent event
      → IsConsistent self
      → Keeps IsConsistent (step env self event)
  unfolding step
  step-IsConsistent self key_list_clicked ok_event v =
      clicked-IsConsistent env sized self _ v (key_list_clicked-IsConsistent env sized self)
  step-IsConsistent self command_list_clicked ok_event v =
      clicked-IsConsistent env sized self _ v (command_list_clicked-IsConsistent env sized self)
  step-IsConsistent self reset_clicked ok_event v =
      Keeps-if (not (is_null self.dialog)) _ _ (λ _. keeps v)
        (λ _.
          Keeps-if self.has_processor _ _ (λ _. keeps (same-IsConsistent _ v refl)) (λ _. faults))
  step-IsConsistent self (row_activated n) ok_event v =
      Keeps-if (is_null self.dialog) _ _
        (λ calm. row_activated-IsConsistent env sized self n v calm) (λ _. keeps v)
  step-IsConsistent self (dialog_answered confirmed) ok_event v =
      dialog_step-IsConsistent env sized self self.dialog confirmed refl v
  step-IsConsistent self (answered answer) ok_event v =
      answer_step-IsConsistent env sized self self.awaited answer refl ok_event v
  step-IsConsistent self (reported item value) ok_event v =
      report_item-IsConsistent self item value v
  step-IsConsistent self (page_reset has_processor) ok_event v =
      keeps (reset_page-IsConsistent self has_processor v)

  -- A consistent page stays consistent, whatever the order of the clicks, the answers of the service and of
  -- the processor, the items and the resets: a call stops at no `assert`, and if every access is inside an
  -- object the page it returns either has no operation and awaits no call, or has one operation and awaits
  -- just one call, with no dialog, and with no groups while the call is for a list. The hypotheses: a serial
  -- number has a size, and the remote service answers with an error or with keys that have an id.
  pub steps-IsConsistent :
      (self : RemotePage) (events : List Event)
      → AllEvents events
      → IsConsistent self
      → Keeps IsConsistent (steps env self events)
  unfolding steps
  steps-IsConsistent self [] ok_events v = keeps v
  steps-IsConsistent self (event ∷ events) ok_events v =
      Keeps-bind _ (step-IsConsistent self event ok_events.0 v)
        (λ self' v'. steps-IsConsistent self' events ok_events.1 v')
