-- ===== src/RemotePage/Events/Clicks.antt =====
-- The clicks on the page of src/mccr-gtk/mui-page-remote-services.c, and the ends of its dialogs, keep the
-- page consistent.
use mccr.Prelude.{
  ℕ, ◌<◌, ◌≡◌, refl, ap, Bool, true, false, not, ◌&&◌, [], Option, none, some, Run, ok,
  if◌then◌else◌, Keeps, keeps, Keeps-bind, Keeps-if,
}
use mccr.Hid.Usages.{is_null}
use mccr.RemotePage.{PageEnvironment, Row, ResultType, result_key, result_command, RemotePage}
use mccr.RemotePage.Events.{
  run_row, activate, asks_confirmation, common_result_row_activated, dialog_closed, takes_clicks,
  dialog_step,
}
use mccr.RemotePage.Events.Core.{Core, Same, row_at-Keeps, IsConsistent, resting, working, listing}
use mccr.RemotePage.Events.ByKsn.{run_key_update-IsConsistent, run_generic_command-IsConsistent}

-- A page without an operation and without a dialog rests.
free :
    {self : RemotePage}
    → IsConsistent self
    → self.ongoing ≡ false
    → is_null self.dialog ≡ true
    → (groups : Bool) × Same (false, [], none, groups, groups) self
free (resting none groups e) idle calm = (groups, e)
free (resting (some n) groups e) idle calm = cc (calm, ap (λ (c : Core). is_null c.2) e)
free (working call groups job e) idle calm = cc (idle, ap (λ (c : Core). c.0) e)
free (listing call list e) idle calm = cc (idle, ap (λ (c : Core). c.0) e)

takes_lem : (ongoing calm : Bool) → (not ongoing && calm) ≡ true → (ongoing ≡ false) × (calm ≡ true)
takes_lem false true takes = (refl, refl)
takes_lem false false takes = cc (takes)
takes_lem true calm takes = cc (takes)

module _ (env : PageEnvironment) (sized : 0 < env.dukpt.sizeof_ksn) where
  run_row-IsConsistent :
      (self : RemotePage) (row : Row) (result_type : ResultType) (groups : Bool)
      → Same (false, [], none, groups, groups) self
      → Keeps IsConsistent (run_row env self row result_type)
  unfolding run_row
  run_row-IsConsistent self row result_key groups rests =
      run_key_update-IsConsistent env sized self row.number row.id groups rests
  run_row-IsConsistent self row result_command groups rests =
      run_generic_command-IsConsistent env sized self row.number row.id row.execution_type
        row.command groups rests

  activate-IsConsistent :
      (self : RemotePage) (n : ℕ) (row : Row) (result_type : ResultType) (groups : Bool)
      → Same (false, [], none, groups, groups) self
      → Keeps IsConsistent (activate env self n row result_type)
  unfolding activate
  activate-IsConsistent self n row result_key groups rests =
      keeps (resting (some n) groups (ap (λ (c : Core). (c.0, c.1, some n, c.3, c.4)) rests))
  activate-IsConsistent self n row result_command groups rests =
      Keeps-if (asks_confirmation row.name) _ _
        (λ _.
          keeps (resting (some n) groups (ap (λ (c : Core). (c.0, c.1, some n, c.3, c.4)) rests)))
        (λ _. run_row-IsConsistent self row result_command groups rests)

  pub row_activated-IsConsistent :
      (self : RemotePage) (n : ℕ)
      → IsConsistent self
      → is_null self.dialog ≡ true
      → Keeps IsConsistent (common_result_row_activated env self n)
  unfolding common_result_row_activated
  row_activated-IsConsistent self n v calm =
      Keeps-if self.ongoing _ _ (λ _. keeps v)
        (λ idle.
          let (groups, rests) = free v idle calm in
          Keeps-bind _ (row_at-Keeps self n)
            (λ row _. activate-IsConsistent self n row row.result_type groups rests))

  dialog_closed-IsConsistent :
      (self : RemotePage) (n : ℕ) (confirmed groups : Bool)
      → Same (false, [], none, groups, groups) self
      → Keeps IsConsistent (dialog_closed env self n confirmed)
  unfolding dialog_closed
  dialog_closed-IsConsistent self n confirmed groups rests =
      Keeps-if (not confirmed) _ _ (λ _. keeps (resting none groups rests))
        (λ _.
          Keeps-bind _ (row_at-Keeps self n)
            (λ row _. run_row-IsConsistent self row row.result_type groups rests))

  pub dialog_step-IsConsistent :
      (self : RemotePage) (dialog : Option ℕ) (confirmed : Bool)
      → self.dialog ≡ dialog
      → IsConsistent self
      → Keeps IsConsistent (dialog_step env self dialog confirmed)
  unfolding dialog_step
  dialog_step-IsConsistent self none confirmed is v = keeps v
  dialog_step-IsConsistent self (some n) confirmed is (resting dialog groups e) =
      dialog_closed-IsConsistent _ n confirmed groups
        (ap (λ (c : Core). (c.0, c.1, none, c.3, c.4)) e)
  dialog_step-IsConsistent self (some n) confirmed is (working call groups job e) =
      cc (is, ap (λ (c : Core). c.2) e)
  dialog_step-IsConsistent self (some n) confirmed is (listing call list e) =
      cc (is, ap (λ (c : Core). c.2) e)

  pub clicked-IsConsistent :
      (self : RemotePage) (m : Run RemotePage)
      → IsConsistent self
      → ((groups : Bool) → Same (false, [], none, groups, groups) self → Keeps IsConsistent m)
      → Keeps IsConsistent (if takes_clicks env self then m else ok self)
  clicked-IsConsistent self m v clicked =
      Keeps-if (takes_clicks env self) _ _
        (λ takes.
          let (idle, calm) = takes_lem self.ongoing (is_null self.dialog) takes in
          let (groups, rests) = free v idle calm in clicked groups rests)
        (λ _. keeps v)
