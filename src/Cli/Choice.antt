-- ===== src/Cli/Choice.antt =====
-- Which action main of src/mccr-cli/mccr-cli.c runs for which options.
use mccr.Prelude.{
  ℕ, ◌+◌, ◌≡◌, refl, sym, Bool, true, false, not, List, [], ◌∷◌, Option, none, some, Run, ok, ◌>>=◌,
  arith, ltb, ◌==◌, if◌then◌else◌,
}
use mathlib.Core.Option.{none-ne-some}
use mccr.Prelude.Bytes.{Bytes}
use mccr.Environment.{Environment}
use mccr.Hid.Usages.{is_null}
use mccr.Cli.{Exit, exit_success, Session, print, run_reset, run_set_session_id}
use mccr.Cli.Show.{run_show}
use mccr.Cli.Swipe.{run_wait_swipe}
use mccr.Cli.Options.{Options, one_if, n_global_actions, n_device_actions, actions_error}
use mccr.Cli.Main.{run_list, run_action}

-- what the program can be asked to do
pub data Action : Type 0 where
  listing showing resetting waiting : Action
  setting_session_id : Bytes → Action

abbrev if_asked : Bool → Action → List Action → List Action
if_asked true action rest = action ∷ rest
if_asked false action rest = rest

abbrev session_id_asked : Option Bytes → List Action → List Action
session_id_asked none rest = rest
session_id_asked (some session_id) rest = setting_session_id session_id ∷ rest

abbrev pub asked_for : Options → List Action
asked_for o = if_asked o.action_list listing (
    if_asked o.action_show showing (
      if_asked o.action_reset resetting
        (session_id_asked o.action_set_session_id (if_asked o.action_wait_swipe waiting []))))

neither :
    {A : Type 0} (more zero : Bool) (x y : A)
    → (if more then some x else if zero then some y else none) ≡ none
    → (more ≡ false) × (zero ≡ false)
neither true zero x y e = absurd (none-ne-some x (sym e))
neither false true x y e = absurd (none-ne-some y (sym e))
neither false false x y e = (refl, refl)

one_action : (o : Options) → actions_error o ≡ none → n_global_actions o + n_device_actions o ≡ 1
one_action o e =
    let n = n_global_actions o + n_device_actions o in
    let (few, many) = neither (ltb 1 n) (n == 0) _ _ e in one_of n few many
  where
    one_of : (n : ℕ) → ltb 1 n ≡ false → (n == 0) ≡ false → n ≡ 1
    one_of n few many = ground arith

module _ {D : Type 0} (env : Environment D) where
  -- what an action does, in a session with a device
  abbrev pub perform : Options → Session D → Action → Run (Exit × Session D)
  perform o s listing = do lines ← run_list env s.calls; ok (exit_success, print s lines)
  perform o s showing = run_show env s
  perform o s resetting = run_reset env s
  perform o s (setting_session_id session_id) = run_set_session_id env s session_id
  perform o s waiting = run_wait_swipe env s o.ascii

  -- what main does for the actions that are asked for, where there is one
  abbrev pub Performs : Options → Session D → Type 0
  Performs o s =
      (action : Action) × (asked_for o ≡ action ∷ []) × (run_action env o s ≡ perform o s action)

  performs :
      (l w r s : Bool) (i : Option Bytes) (o : Options) (session : Session D)
      → o.action_list ≡ l
      → o.action_wait_swipe ≡ w
      → o.action_reset ≡ r
      → o.action_show ≡ s
      → o.action_set_session_id ≡ i
      → one_if l + (one_if s + one_if r + one_if (not (is_null i)) + one_if w) ≡ 1
      → Performs o session
  unfolding run_action
  performs true false false false none o session el ew er es ei e =
      (listing, simp (el, ew, er, es, ei), simp (el, er, es, ei))
  performs false true false false none o session el ew er es ei e =
      (waiting, simp (el, ew, er, es, ei), simp (el, ew, er, es, ei))
  performs false false true false none o session el ew er es ei e =
      (resetting, simp (el, ew, er, es, ei), simp (el, er, es, ei))
  performs false false false true none o session el ew er es ei e =
      (showing, simp (el, ew, er, es, ei), simp (el, er, es, ei))
  performs false false false false (some id) o session el ew er es ei e =
      (setting_session_id id, simp (el, ew, er, es, ei), simp (el, er, es, ei))
  performs true true r s i o session el ew er es ei e = absurd (omega arith)
  performs true false true s i o session el ew er es ei e = absurd (omega arith)
  performs true false false true i o session el ew er es ei e = absurd (omega arith)
  performs true false false false (some id) o session el ew er es ei e = absurd (omega arith)
  performs false true true s i o session el ew er es ei e = absurd (omega arith)
  performs false true false true i o session el ew er es ei e = absurd (omega arith)
  performs false true false false (some id) o session el ew er es ei e = absurd (omega arith)
  performs false false true true i o session el ew er es ei e = absurd (omega arith)
  performs false false true false (some id) o session el ew er es ei e = absurd (omega arith)
  performs false false false true (some id) o session el ew er es ei e = absurd (omega arith)
  performs false false false false none o session el ew er es ei e = absurd (omega arith)

  -- For options that pass the check of the actions, exactly one action is asked for and this is the one
  -- that is run, so that the assert behind the last of the tests is never reached.
  pub run_action-perform :
      (o : Options) (session : Session D) → actions_error o ≡ none → Performs o session
  run_action-perform o session e =
      performs o.action_list o.action_wait_swipe o.action_reset o.action_show
        o.action_set_session_id o session refl refl refl refl refl (one_action o e)
