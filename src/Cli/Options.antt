-- ===== src/Cli/Options.antt =====
-- The options of src/mccr-cli/mccr-cli.c, as main reads them and checks them.
use mccr.Prelude.{
  ℕ, ◌+◌, Bool, true, false, not, ◌&&◌, List, [], ◌∷◌, ◌++◌, Option, none, some, ltb, ◌==◌,
  if◌then◌else◌,
}
use mccr.Prelude.Bytes.{Bytes}
use mccr.Prelude.Text.{Text, literal}
use mccr.Hid.Usages.{is_null}
use mccr.Cli.{Line, err}

-- what `getopt_long` returns, with the argument of the option; an option that it refuses is `unknown`
pub data Arg : Type 0 where
  list first show reset wait_swipe ascii debug help version unknown : Arg
  path set_session_id : Bytes → Arg

-- the variables that the options set
pub record Options : Type 0 where
  pub action_list : Bool
  pub action_show : Bool
  pub action_reset : Bool
  pub action_set_session_id : Option Bytes
  pub action_wait_swipe : Bool
  pub ascii : Bool
  pub debug : Bool
  pub first : Bool
  pub path : Option Bytes

abbrev pub no_options : Options
no_options = record {
  action_list = false;
  action_show = false;
  action_reset = false;
  action_set_session_id = none;
  action_wait_swipe = false;
  ascii = false;
  debug = false;
  first = false;
  path = none;
}

-- `strdup (optarg)`, unless there is one already
abbrev pub keep_first : Option Bytes → Bytes → Option Bytes
keep_first none arg = some arg
keep_first (some before) arg = some before

abbrev pub twice : Option Bytes → Text → List Line
twice none warning = []
twice (some before) warning = err warning ∷ []

-- The loop over the options: the options and the warnings, or `none` where the help or the version is
-- printed and the program is done.
unfoldable pub read_options : Options → List Line → List Arg → Option Options × List Line
read_options o printed [] = (some o, printed)
read_options o printed (list ∷ args) = read_options (record o { action_list = true }) printed args
read_options o printed (first ∷ args) = read_options (record o { first = true }) printed args
read_options o printed (path arg ∷ args) =
    read_options (record o { path = keep_first o.path arg })
      (printed ++ twice o.path (literal "warning: --path given multiple times" ∷ [])) args
read_options o printed (show ∷ args) = read_options (record o { action_show = true }) printed args
read_options o printed (reset ∷ args) = read_options (record o { action_reset = true }) printed args
read_options o printed (set_session_id arg ∷ args) =
    read_options (record o { action_set_session_id = keep_first o.action_set_session_id arg })
      (printed
        ++ twice o.action_set_session_id
            (literal "warning: --set-session-id given multiple times" ∷ []))
      args
read_options o printed (wait_swipe ∷ args) =
    read_options (record o { action_wait_swipe = true }) printed args
read_options o printed (ascii ∷ args) = read_options (record o { ascii = true }) printed args
read_options o printed (debug ∷ args) = read_options (record o { debug = true }) printed args
read_options o printed (help ∷ args) = (none, printed)
read_options o printed (version ∷ args) = (none, printed)
read_options o printed (unknown ∷ args) = read_options o printed args

abbrev pub one_if : Bool → ℕ
one_if true = 1
one_if false = 0

-- `n_global_actions` and `n_device_actions`
abbrev pub n_global_actions : Options → ℕ
n_global_actions o = one_if o.action_list

abbrev pub n_device_actions : Options → ℕ
n_device_actions o =
    one_if o.action_show
    + one_if o.action_reset
    + one_if (not (is_null o.action_set_session_id))
    + one_if o.action_wait_swipe

-- the error where there is not one action exactly
abbrev pub actions_error : Options → Option Text
actions_error o =
    if ltb 1 (n_global_actions o + n_device_actions o)
    then some (literal "error: too many actions requested" ∷ [])
    else if n_global_actions o + n_device_actions o == 0
    then some (literal "error: no actions requested" ∷ [])
    else none

abbrev pub ascii_warning : Options → List Line
ascii_warning o =
    if o.ascii && not o.action_wait_swipe
    then err (literal "warning: --ascii only applies when --wait-swipe action is requested" ∷ [])
      ∷ []
    else []
