-- ===== src/RemoteService/Response/Fields.antt =====
-- What the loops of src/mccr-gtk/mui-remote-service-utils.c leave in a structure.
use mccr.Prelude.{
  ◌≡◌, refl, sym, ap, ◌∙◌, Bool, true, false, List, [], ◌∷◌, Option, none, some, if◌then◌else◌,
  Option-cases, inl, inr,
}
use mccr.Prelude.Bytes.{Bytes}
use mccr.RemoteService.{Xml}
use mccr.RemoteService.Response.{Members, IsMembers, child_target, set_once, read_children}

abbrev or_else : Option Bytes → Option Bytes → Option Bytes
or_else none other = other
or_else (some text) other = some text

or_else-none : (t : Option Bytes) → or_else t none ≡ t
or_else-none none = refl
or_else-none (some text) = refl

or_else_assoc : (s t u : Option Bytes) → or_else (or_else s t) u ≡ or_else s (or_else t u)
or_else_assoc none t u = refl
or_else_assoc (some text) t u = refl

module _ {Doc Node I F : Type 0} (xml : Xml Doc Node) (members : Members I F) where
  -- what a child has for a member
  abbrev content_for : F → Node → Option F → Option Bytes
  content_for f child none = none
  content_for f child (some g) = if members.same g f then xml.get_content child else none

  -- the text of the first child that is for a member and has one
  abbrev pub first_content : F → List Node → Option Bytes
  first_content f [] = none
  first_content f (child ∷ rest) =
      or_else (content_for f child (child_target xml members child)) (first_content f rest)

module _ {Doc Node I F : Type 0} (xml : Xml Doc Node) (members : Members I F)
    (h : IsMembers members) where
  get-set_once :
      (info : I) (child : Node) (target : Option F) (f : F)
      → members.get (set_once xml members info child target) f
        ≡ or_else (members.get info f) (content_for xml members f child target)
  unfolding set_once
  get-set_once info child none f = sym (or_else-none (members.get info f))
  get-set_once info child (some g) f = elim (Option-cases (members.get info g)) [
    | inl free ↦
        (rw free
          (h.get_set info g f (xml.get_content child) ∙ written (members.same g f) refl free))
    | inr (text, taken) ↦ rw taken (kept (members.same g f) refl text taken)
  ]
    where
      written :
          (b : Bool)
          → members.same g f ≡ b
          → members.get info g ≡ none
          → (if b then xml.get_content child else members.get info f)
            ≡ or_else (members.get info f) (if b then xml.get_content child else none)
      written true e free = rw (sym (h.same_get info g f e) ∙ free) refl
      written false e free = sym (or_else-none (members.get info f))

      kept :
          (b : Bool)
          → members.same g f ≡ b
          → (text : Bytes) → members.get info g ≡ some text
          → members.get info f
            ≡ or_else (members.get info f) (if b then xml.get_content child else none)
      kept true e text taken = rw (sym (h.same_get info g f e) ∙ taken) refl
      kept false e text taken = sym (or_else-none (members.get info f))

  get-read_children :
      (info : I) (children : List Node) (f : F)
      → members.get (read_children xml members info children) f
        ≡ or_else (members.get info f) (first_content xml members f children)
  unfolding read_children
  get-read_children info [] f = sym (or_else-none (members.get info f))
  get-read_children info (child ∷ rest) f =
      get-read_children (set_once xml members info child (child_target xml members child)) rest f
      ∙ ap (λ (t : Option Bytes). or_else t (first_content xml members f rest))
          (get-set_once info child (child_target xml members child) f)
      ∙ or_else_assoc (members.get info f) _ (first_content xml members f rest)

  -- Reading the children of a node into a structure that is all NULL gives every member the text of the
  -- first child that is an element for this member and has a text, and leaves it NULL if there is none:
  -- an element that comes again, or that has an unknown name, changes nothing.
  pub read_children-first_content :
      (children : List Node) (f : F)
      → members.get (read_children xml members members.nothing children) f
        ≡ first_content xml members f children
  read_children-first_content children f =
      get-read_children members.nothing children f
      ∙ ap (λ (t : Option Bytes). or_else t (first_content xml members f children))
          (h.nothing_set f)
