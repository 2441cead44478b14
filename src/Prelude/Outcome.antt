-- ===== src/Prelude/Outcome.antt =====
-- What a call of a C function comes to. `assert` may stop the process, and an access outside an
-- object is undefined behaviour; both are results of their own, so that a theorem can exclude them.
use mathlib.Core.Path.{◌≡◌, refl, sym, subst}
use mccr.Prelude.Tests.{if◌then◌else◌}
use mathlib.Core.Bool.{Bool, true, false}
use mathlib.Core.Option.{Option, none, some}

pub data Run {ℓ} (A : Type ℓ) : Type ℓ where
  ok : A → Run A
  -- `assert` failed
  aborted : Run A
  -- read or write outside an object
  fault : Run A
  -- the rounds given to a loop were not enough
  out_of_fuel : Run A

infixl 5 ◌>>=◌ ◌>>◌
abbrev pub ◌>>=◌ {ℓ κ} : {A : Type ℓ} {B : Type κ} → Run A → (A → Run B) → Run B
ok a >>= f = f a
aborted >>= f = aborted
fault >>= f = fault
out_of_fuel >>= f = out_of_fuel

abbrev pub ◌>>◌ {ℓ} : {B : Type ℓ} → Run (Unit {0}) → Run B → Run B
m >> k = m >>= λ _. k

-- `assert (test)`
abbrev pub assert : Bool → Run (Unit {0})
assert true = ok tt
assert false = aborted

-- An access that is defined only where the test holds.
abbrev pub within : Bool → Run (Unit {0})
within true = ok tt
within false = fault

module _ {ℓ κ μ} {A : Type ℓ} {B : Type κ} {C : Type μ} where
  pub >>=_assoc :
      (m : Run A) (f : A → Run B) (g : B → Run C) → (m >>= f >>= g) ≡ (m >>= λ a. f a >>= g)
  >>=_assoc (ok a) f g = refl
  >>=_assoc aborted f g = refl
  >>=_assoc fault f g = refl
  >>=_assoc out_of_fuel f g = refl

module _ {ℓ κ} {A : Type ℓ} {B : Type κ} where
  -- Two binds of one call agree where their rests agree on what it can return.
  pub >>=_ext :
      (m : Run A) (f g : A → Run B) → ((a : A) → m ≡ ok a → f a ≡ g a) → (m >>= f) ≡ (m >>= g)
  >>=_ext (ok a) f g h = h a refl
  >>=_ext aborted f g h = refl
  >>=_ext fault f g h = refl
  >>=_ext out_of_fuel f g h = refl

-- A call that reads and writes only inside objects and comes to an end: it returns a value with `P`,
-- or an `assert` stops it.
pub data Ends {ℓ κ} {A : Type ℓ} (P : A → Type κ) : Run A → Type (ℓ ⊔ κ) where
  returns : {a : A} → P a → Ends P (ok a)
  aborts : Ends P aborted

module _ {ℓ κ μ ν} {A : Type ℓ} {B : Type κ} {P : A → Type μ} {Q : B → Type ν} where
  pub Ends-bind :
      {m : Run A} (f : A → Run B) → Ends P m → ((a : A) → P a → Ends Q (f a)) → Ends Q (m >>= f)
  Ends-bind f (returns p) next = next _ p
  Ends-bind f aborts next = aborts

module _ {ℓ κ} {A : Type ℓ} {P : A → Type κ} where
  pub Ends-if :
      (b : Bool) (m n : Run A)
      → (b ≡ true → Ends P m)
      → (b ≡ false → Ends P n)
      → Ends P (if b then m else n)
  Ends-if true m n km kn = km refl
  Ends-if false m n km kn = kn refl

module _ {ℓ κ μ} {A : Type ℓ} {P : A → Type κ} {Q : A → Type μ} where
  pub Ends-mono : {m : Run A} → Ends P m → ((a : A) → P a → Q a) → Ends Q m
  Ends-mono (returns p) weaken = returns (weaken _ p)
  Ends-mono aborts weaken = aborts

-- A call that returns a value with `P`: no `assert` stops it, no access is outside an object.
pub data Returns {ℓ κ} {A : Type ℓ} (P : A → Type κ) : Run A → Type (ℓ ⊔ κ) where
  returned : {a : A} → P a → Returns P (ok a)

module _ {ℓ κ μ ν} {A : Type ℓ} {B : Type κ} {P : A → Type μ} {Q : B → Type ν} where
  pub Returns-bind :
      {m : Run A} (f : A → Run B)
      → Returns P m
      → ((a : A) → P a → Returns Q (f a))
      → Returns Q (m >>= f)
  Returns-bind f (returned p) next = next _ p

  pub Returns-bind_eq :
      {m : Run A} (f : A → Run B)
      → Returns P m
      → ((a : A) → m ≡ ok a → P a → Returns Q (f a))
      → Returns Q (m >>= f)
  Returns-bind_eq f (returned p) next = next _ refl p

module _ {ℓ κ} {A : Type ℓ} {P : A → Type κ} where
  pub Returns-if :
      (b : Bool) (m n : Run A)
      → (b ≡ true → Returns P m)
      → (b ≡ false → Returns P n)
      → Returns P (if b then m else n)
  Returns-if true m n km kn = km refl
  Returns-if false m n km kn = kn refl

  -- A call with a known result returns it.
  pub Returns-of_ok : {m : Run A} {a : A} → m ≡ ok a → P a → Returns P m
  Returns-of_ok {m} {a} e p = subst (Returns P) (sym e) (returned p)

module _ {ℓ κ} {A : Type ℓ} {B : Type κ} where
  -- The rest of a call that is defined only where a test holds.
  pub >>=-if :
      (t : Bool) (a : A) (f : A → Run B)
      → ((if t then ok a else fault) >>= f) ≡ (if t then f a else fault)
  >>=-if true a f = refl
  >>=-if false a f = refl

module _ {ℓ κ μ} {A : Type ℓ} {P : A → Type κ} {Q : A → Type μ} where
  pub Returns-mono : {m : Run A} → Returns P m → ((a : A) → P a → Q a) → Returns Q m
  Returns-mono (returned p) weaken = returned (weaken _ p)

-- What holds of the value of a call whenever it returns one.
pub data IfReturns {ℓ κ} {A : Type ℓ} (P : A → Type κ) : Run A → Type (ℓ ⊔ κ) where
  value : {a : A} → P a → IfReturns P (ok a)
  no_value_aborted : IfReturns P aborted
  no_value_fault : IfReturns P fault
  no_value_out_of_fuel : IfReturns P out_of_fuel

module _ {ℓ κ μ} {A : Type ℓ} {B : Type κ} {Q : B → Type μ} where
  pub IfReturns-bind :
      (m : Run A) (f : A → Run B) → ((a : A) → m ≡ ok a → IfReturns Q (f a)) → IfReturns Q (m >>= f)
  IfReturns-bind (ok a) f next = next a refl
  IfReturns-bind aborted f next = no_value_aborted
  IfReturns-bind fault f next = no_value_fault
  IfReturns-bind out_of_fuel f next = no_value_out_of_fuel

module _ {ℓ κ} {A : Type ℓ} {P : A → Type κ} where
  pub IfReturns-if :
      (b : Bool) (m n : Run A)
      → (b ≡ true → IfReturns P m)
      → (b ≡ false → IfReturns P n)
      → IfReturns P (if b then m else n)
  IfReturns-if true m n km kn = km refl
  IfReturns-if false m n km kn = kn refl

module _ {ℓ κ μ} {A : Type ℓ} {B : Type κ} {P : A → Type μ} {Q : B → Type μ} where
  pub IfReturns-then :
      {m : Run A} (f : A → Run B)
      → IfReturns P m
      → ((a : A) → P a → IfReturns Q (f a))
      → IfReturns Q (m >>= f)
  IfReturns-then f (value p) next = next _ p
  IfReturns-then f no_value_aborted next = no_value_aborted
  IfReturns-then f no_value_fault next = no_value_fault
  IfReturns-then f no_value_out_of_fuel next = no_value_out_of_fuel

module _ {ℓ κ μ} {A : Type ℓ} {B : Type κ} {Q : B → Type μ} where
  pub IfReturns-option :
      (o : Option A) (m : Run B) (f : A → Run B)
      → IfReturns Q m
      → ((a : A) → IfReturns Q (f a))
      → IfReturns Q (elim o [ none ↦ m | some a ↦ f a ])
  IfReturns-option none m f nothing something = nothing
  IfReturns-option (some a) m f nothing something = something a

  -- A call whose value is put into what is returned.
  pub IfReturns-map :
      (m : Run A) (f : A → B) → ((a : A) → Q (f a)) → IfReturns Q (m >>= λ a. ok (f a))
  IfReturns-map (ok a) f holds = value (holds a)
  IfReturns-map aborted f holds = no_value_aborted
  IfReturns-map fault f holds = no_value_fault
  IfReturns-map out_of_fuel f holds = no_value_out_of_fuel

module _ {ℓ κ} {A : Type ℓ} {P : A → Type κ} where
  value_of : {a : A} → IfReturns P (ok a) → P a
  value_of (value p) = p

  pub IfReturns-ok : {m : Run A} {a : A} → IfReturns P m → m ≡ ok a → P a
  IfReturns-ok holds e = value_of (subst (IfReturns P) e holds)

module _ {ℓ κ μ} {A : Type ℓ} {P : A → Type κ} {Q : A → Type μ} where
  pub IfReturns-mono : {m : Run A} → IfReturns P m → ((a : A) → P a → Q a) → IfReturns Q m
  IfReturns-mono (value p) weaken = value (weaken _ p)
  IfReturns-mono no_value_aborted weaken = no_value_aborted
  IfReturns-mono no_value_fault weaken = no_value_fault
  IfReturns-mono no_value_out_of_fuel weaken = no_value_out_of_fuel

-- A call that no `assert` stops and that comes to an end: it returns a value with `P`, or an access is
-- outside an object.
pub data Keeps {ℓ κ} {A : Type ℓ} (P : A → Type κ) : Run A → Type (ℓ ⊔ κ) where
  keeps : {a : A} → P a → Keeps P (ok a)
  faults : Keeps P fault

module _ {ℓ κ μ ν} {A : Type ℓ} {B : Type κ} {P : A → Type μ} {Q : B → Type ν} where
  pub Keeps-bind :
      {m : Run A} (f : A → Run B) → Keeps P m → ((a : A) → P a → Keeps Q (f a)) → Keeps Q (m >>= f)
  Keeps-bind f (keeps p) next = next _ p
  Keeps-bind f faults next = faults

module _ {ℓ κ} {B : Type ℓ} {Q : B → Type κ} where
  pub Keeps-if :
      (b : Bool) (m n : Run B)
      → (b ≡ true → Keeps Q m)
      → (b ≡ false → Keeps Q n)
      → Keeps Q (if b then m else n)
  Keeps-if true m n km kn = km refl
  Keeps-if false m n km kn = kn refl

module _ {ℓ κ μ} {A : Type ℓ} {B : Type κ} {Q : B → Type μ} where
  pub Keeps-option :
      (o : Option A) (m : Run B) (f : A → Run B)
      → Keeps Q m
      → ((a : A) → Keeps Q (f a))
      → Keeps Q (elim o [ none ↦ m | some a ↦ f a ])
  Keeps-option none m f nothing something = nothing
  Keeps-option (some a) m f nothing something = something a

module _ {ℓ κ μ} {A : Type ℓ} {P : A → Type κ} {Q : A → Type μ} where
  pub Keeps-mono : {m : Run A} → Keeps P m → ((a : A) → P a → Q a) → Keeps Q m
  Keeps-mono (keeps p) weaken = keeps (weaken _ p)
  Keeps-mono faults weaken = faults

module _ {ℓ κ} {B : Type ℓ} {Q : B → Type κ} where
  pub Keeps-assert : (b : Bool) (m : Run B) → b ≡ true → Keeps Q m → Keeps Q (assert b >> m)
  Keeps-assert true m holds k = k
  Keeps-assert false m holds k = absurd (false_is_not_true holds)
    where
      false_is_not_true : false ≡ true → ⊥
      false_is_not_true e = cc
