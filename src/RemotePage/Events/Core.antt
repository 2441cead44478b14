-- ===== src/RemotePage/Events/Core.antt =====
-- What decides whether the page of src/mccr-gtk/mui-page-remote-services.c is busy: the operation, the
-- calls that are waited for, the dialog and the two groups; and the helpers that leave these alone.
use mccr.Prelude.{
  ℕ, ◌<◌, ◌≡◌, refl, ap, Bool, true, false, not, List, [], ◌∷◌, ◌++◌, Option, none, some, ◌==◌,
  Keeps, keeps, faults, Keeps-bind, Keeps-if, Keeps-option, Bool-cases, inl, inr,
}
use mccr.Prelude.Bytes.{Bytes}
use mccr.Common.Stops.{Anything, strhex-Keeps}
use mccr.RemotePage.{
  PageEnvironment, Row, Awaited, key_list_ready, command_list_ready, RemotePage, ksi_matches_ksn,
  update_footer, set_sensitivity, select_rows, select_current, row_at, with_row, ask_processor,
  begin_operation,
}
use mccr.RemotePage.Keys.{hex_of}

abbrev pub Core : Type 0
Core = Bool × List Awaited × Option ℕ × Bool × Bool

abbrev pub core : RemotePage → Core
core self = (self.ongoing, self.awaited, self.dialog, self.group_center, self.group_edges)

-- A change that leaves these alone.
abbrev pub Same : Core → RemotePage → Type 0
Same c self = core self ≡ c

pub row_at-Keeps : (self : RemotePage) (n : ℕ) → Keeps Anything (row_at self n)
unfolding row_at
row_at-Keeps self n = Keeps-option _ _ _ faults (λ row. keeps tt)

pub with_row-Same :
    (self : RemotePage) (n : ℕ) (f : Row → Row) → Keeps (Same (core self)) (with_row self n f)
unfolding with_row
with_row-Same self n f = Keeps-bind _ (row_at-Keeps self n) (λ row _. keeps refl)

pub core-update_footer : (self : RemotePage) → core (update_footer self) ≡ core self
unfolding update_footer
core-update_footer self = elim (Bool-cases (self.n_commands_executed == 0)) [
  | inl nothing ↦ rw nothing refl
  | inr something ↦ rw something refl
]

pub core-set_sensitivity :
    (self : RemotePage) (row : Option ℕ) → core (set_sensitivity self row) ≡ core self
core-set_sensitivity self none = refl
core-set_sensitivity self (some n) = refl

module _ (env : PageEnvironment) (sized : 0 < env.dukpt.sizeof_ksn) where
  pub ksi_matches_ksn-Keeps :
      (ksn ksi : Option Bytes) → Keeps Anything (ksi_matches_ksn env ksn ksi)
  unfolding ksi_matches_ksn
  ksi_matches_ksn-Keeps none ksi = keeps tt
  ksi_matches_ksn-Keeps (some ksn) none = keeps tt
  ksi_matches_ksn-Keeps (some ksn) (some ksi) =
      Keeps-bind _ (strhex-Keeps env.granted ksn env.dukpt.sizeof_ksn none sized)
        (λ hexksn _. keeps tt)

  select_rows-Keeps :
      (ksn : Option Bytes) (rows : List Row) → Keeps Anything (select_rows env ksn rows)
  unfolding select_rows
  select_rows-Keeps ksn [] = keeps tt
  select_rows-Keeps ksn (row ∷ rows) =
      Keeps-bind _ (ksi_matches_ksn-Keeps ksn row.ksi)
        (λ matches _. Keeps-bind _ (select_rows-Keeps ksn rows) (λ rest _. keeps tt))

  pub select_current-Same :
      (self : RemotePage) (ksn : Option Bytes)
      → Keeps (Same (core self)) (select_current env self ksn)
  unfolding select_current
  select_current-Same self ksn =
      Keeps-bind _ (select_rows-Keeps ksn self.rows) (λ rows _. keeps refl)

  pub hex_of-Keeps : (bytes : Bytes) (size : ℕ) → 0 < size → Keeps Anything (hex_of env bytes size)
  hex_of-Keeps bytes size more =
      Keeps-bind _ (strhex-Keeps env.granted bytes size none more) (λ text _. keeps tt)

-- the calls that are answered by the rows of a list
abbrev pub is_list : Awaited → Bool
is_list key_list_ready = true
is_list command_list_ready = true
is_list call = false

-- The page rests; it waits for one answer to a job; or it waits for a list, for which there are no groups
-- yet.
pub data IsConsistent (self : RemotePage) : Type 0 where
  resting :
      (dialog : Option ℕ) (groups : Bool)
      → Same (false, [], dialog, groups, groups) self
      → IsConsistent self
  working :
      (call : Awaited) (groups : Bool)
      → is_list call ≡ false
      → Same (true, call ∷ [], none, groups, groups) self
      → IsConsistent self
  listing :
      (call : Awaited)
      → is_list call ≡ true
      → Same (true, call ∷ [], none, false, false) self
      → IsConsistent self

pub ask_processor-Waits :
    (self : RemotePage) (command : Option Bytes) (expected : Bool) (call : Awaited) (groups : Bool)
    → is_list call ≡ false
    → Same (true, [], none, groups, groups) self
    → Keeps IsConsistent (ask_processor self command expected call)
unfolding ask_processor
ask_processor-Waits self command expected call groups job same =
    Keeps-if self.has_processor _ _
      (λ _.
        keeps (
          working call groups job (ap (λ (c : Core). (c.0, c.1 ++ call ∷ [], c.2, c.3, c.4)) same)))
      (λ _. faults)

-- an operation begins, where none is ongoing
pub begin_operation-Same :
    (self : RemotePage) (dialog : Option ℕ) (groups : Bool)
    → Same (false, [], dialog, groups, groups) self
    → Keeps (Same (true, [], dialog, groups, groups)) (begin_operation self)
unfolding begin_operation
begin_operation-Same self dialog groups same =
    let free : not self.ongoing ≡ true = ap (λ (c : Core). not c.0) same in
    rw free (keeps (ap (λ (c : Core). (true, c.1, c.2, c.3, c.4)) same))
