-- ===== src/Log.antt =====
-- src/libmccr/mccr-log.c: a handler gets every message, once one has been set.
use Prim.Native.String.{String}
use mccr.Prelude.{
  ℕ, Bool, not, ◌||◌, List, [], ◌∷◌, ◌++◌, Option, none, some, Run, ok, ◌>>=◌, ◌==◌, if◌then◌else◌,
}
use mccr.Prelude.Bytes.{Bytes}
use mccr.Prelude.Text.{Text, literal, chars, unsigned, c_string}
use mccr.Hid.Usages.{Allocator}
use mccr.Common.{strhex, strhex_length}

-- Whether a handler is set, and the messages that it has been given with their threads.
pub record Log : Type 0 where
  pub default_handler : Bool
  pub messages : List (ℕ × Text)

-- mccr_log_is_enabled
abbrev pub mccr_log_is_enabled : Log → Bool
mccr_log_is_enabled log = log.default_handler

-- mccr_log_set_handler, with a handler or NULL
abbrev pub mccr_log_set_handler : Log → Bool → Log
mccr_log_set_handler log handler = record log { default_handler = handler }

-- mccr_log_full, with the message that `vasprintf` makes where it does not fail
unfoldable pub mccr_log_full : Log → ℕ → Option Text → Log
mccr_log_full log thread_id none = log
mccr_log_full log thread_id (some message) =
    if not log.default_handler
    then log
    else record log { messages = log.messages ++ (thread_id, message) ∷ [] }

-- mccr_log_raw_full
unfoldable pub mccr_log_raw_full : Allocator → Log → ℕ → String → Option Bytes → ℕ → Run Log
unfolding mccr_log_full
mccr_log_raw_full grants log thread_id prefix none size = ok log
mccr_log_raw_full grants log thread_id prefix (some mem) size =
    if not log.default_handler || size == 0 then ok log else do
      memstr ← strhex (grants 0 (strhex_length size (b':' ∷ []))) mem size (some (b':' ∷ []))
      ok (
          mccr_log_full log thread_id (
            some (
              literal prefix
              ∷ literal " ("
              ∷ unsigned size
              ∷ literal " bytes) "
              ∷ chars (c_string memstr)
              ∷ [])))
