-- ===== src/Cli/Reading.antt =====
-- What main of src/mccr-cli/mccr-cli.c makes of its options, whatever their order.
use mccr.Prelude.{◌≡◌, refl, ap, ◌∙◌, Bool, true, false, ◌||◌, List, [], ◌∷◌, Option, none, some}
use mccr.Prelude.Bytes.{Bytes}
use mccr.Cli.{Line}
use mccr.Cli.Options.{
  Arg, list, first, show, reset, wait_swipe, ascii, debug, help, version, unknown, path,
  set_session_id, Options, no_options, keep_first, read_options,
}

-- whether an option is among the arguments
abbrev pub among : (Arg → Bool) → List Arg → Bool
among test [] = false
among test (arg ∷ args) = test arg || among test args

-- the first argument of an option
abbrev pub first_of : (Arg → Option Bytes) → List Arg → Option Bytes
first_of take [] = none
first_of take (arg ∷ args) = elim (take arg) [ none ↦ first_of take args | some text ↦ some text ]

abbrev pub is_list : Arg → Bool
is_list list = true
is_list _ = false

abbrev pub is_show : Arg → Bool
is_show show = true
is_show _ = false

abbrev pub is_reset : Arg → Bool
is_reset reset = true
is_reset _ = false

abbrev pub is_wait_swipe : Arg → Bool
is_wait_swipe wait_swipe = true
is_wait_swipe _ = false

abbrev pub is_ascii : Arg → Bool
is_ascii ascii = true
is_ascii _ = false

abbrev pub is_debug : Arg → Bool
is_debug debug = true
is_debug _ = false

abbrev pub is_first : Arg → Bool
is_first first = true
is_first _ = false

-- the options after which the program is done
abbrev pub is_final : Arg → Bool
is_final help = true
is_final version = true
is_final _ = false

abbrev pub path_given : Arg → Option Bytes
path_given (path text) = some text
path_given _ = none

abbrev pub session_id_given : Arg → Option Bytes
session_id_given (set_session_id text) = some text
session_id_given _ = none

abbrev or_given : Option Bytes → Option Bytes → Option Bytes
or_given none given = given
or_given (some text) given = some text

-- what options and more arguments amount to
abbrev combined : Options → List Arg → Options
combined o args = record {
  action_list = o.action_list || among is_list args;
  action_show = o.action_show || among is_show args;
  action_reset = o.action_reset || among is_reset args;
  action_set_session_id = or_given o.action_set_session_id (first_of session_id_given args);
  action_wait_swipe = o.action_wait_swipe || among is_wait_swipe args;
  ascii = o.ascii || among is_ascii args;
  debug = o.debug || among is_debug args;
  first = o.first || among is_first args;
  path = or_given o.path (first_of path_given args);
}

-- The options that arguments describe: each is there or not, and of two texts for one option the first
-- counts.
abbrev pub options_of : List Arg → Options
options_of args = record {
  action_list = among is_list args;
  action_show = among is_show args;
  action_reset = among is_reset args;
  action_set_session_id = first_of session_id_given args;
  action_wait_swipe = among is_wait_swipe args;
  ascii = among is_ascii args;
  debug = among is_debug args;
  first = among is_first args;
  path = first_of path_given args;
}

or-true : (b : Bool) → (b || true) ≡ true
or-true true = refl
or-true false = refl

or-false : (b : Bool) → (b || false) ≡ b
or-false true = refl
or-false false = refl

or_given-none : (text : Option Bytes) → or_given text none ≡ text
or_given-none none = refl
or_given-none (some text) = refl

or_given-keep :
    (before : Option Bytes) (text : Bytes) (given : Option Bytes)
    → or_given (keep_first before text) given ≡ or_given before (some text)
or_given-keep none text given = refl
or_given-keep (some before) text given = refl

read-combined :
    (args : List Arg) (o : Options) (printed : List Line)
    → among is_final args ≡ false
    → (read_options o printed args).0 ≡ some (combined o args)
unfolding read_options
read-combined [] o printed e = simp (or-false, or_given-none)
read-combined (list ∷ args) o printed e = rw (or-true o.action_list) (read-combined args _ _ e)
read-combined (first ∷ args) o printed e = rw (or-true o.first) (read-combined args _ _ e)
read-combined (path text ∷ args) o printed e =
    read-combined args _ _ e
    ∙ ap (λ (p : Option Bytes). some (record (combined o args) { path = p }))
        (or_given-keep o.path text (first_of path_given args))
read-combined (show ∷ args) o printed e = rw (or-true o.action_show) (read-combined args _ _ e)
read-combined (reset ∷ args) o printed e = rw (or-true o.action_reset) (read-combined args _ _ e)
read-combined (set_session_id text ∷ args) o printed e =
    read-combined args _ _ e
    ∙ ap (λ (i : Option Bytes). some (record (combined o args) { action_set_session_id = i }))
        (or_given-keep o.action_set_session_id text (first_of session_id_given args))
read-combined (wait_swipe ∷ args) o printed e =
    rw (or-true o.action_wait_swipe) (read-combined args _ _ e)
read-combined (ascii ∷ args) o printed e = rw (or-true o.ascii) (read-combined args _ _ e)
read-combined (debug ∷ args) o printed e = rw (or-true o.debug) (read-combined args _ _ e)
read-combined (help ∷ args) o printed e = absurd cc
read-combined (version ∷ args) o printed e = absurd cc
read-combined (unknown ∷ args) o printed e = read-combined args o printed e

-- Arguments without the options for the help and the version amount to the options that they describe,
-- whatever their order: the switches that are among them, and the first of the texts that are given
-- for the path and for the session id.
pub read_options-options_of :
    (args : List Arg)
    → among is_final args ≡ false
    → (read_options no_options [] args).0 ≡ some (options_of args)
read_options-options_of args e = read-combined args no_options [] e
