-- ===== src/RemoteService/Response.antt =====
-- The responses of src/mccr-gtk/mui-remote-service-utils.c: each is read from memory, searched with an
-- XPath expression, and its nodes are read into structures.
pub mod Infos
pub mod Laws
pub mod Parse
pub mod Fields
pub mod Outcome
use Prim.Native.String.{String}
use mccr.Prelude.{
  ◌≡◌, Bool, true, false, not, ◌||◌, List, [], ◌∷◌, Option, none, some, if◌then◌else◌,
}
use mccr.Prelude.Bytes.{Bytes}
use mccr.Hid.Usages.{is_null}
use mccr.RemoteService.{Xml}

-- A structure of texts: the member for the name of an element, how a member is read and written, and
-- the structure that is all NULL.
pub record Members (I F : Type 0) : Type 0 where
  pub target : String → Option F
  pub get : I → F → Option Bytes
  pub set : I → F → Option Bytes → I
  pub same : F → F → Bool
  pub nothing : I

-- What a structure promises: a member holds what was written to it last, or NULL.
pub record IsMembers {I F : Type 0} (members : Members I F) : Type 0 where
  pub get_set :
      (info : I) (f g : F) (text : Option Bytes)
      → members.get (members.set info f text) g
        ≡ (if members.same f g then text else members.get info g)
  pub same_get :
      (info : I) (f g : F) → members.same f g ≡ true → members.get info f ≡ members.get info g
  pub nothing_set : (f : F) → members.get members.nothing f ≡ none

module _ {Doc Node I F : Type 0} (xml : Xml Doc Node) (members : Members I F) where
  -- the member that a child is for: none for what is no element, has no name or has an unknown one
  abbrev pub child_target : Node → Option F
  child_target child =
      if not (xml.is_element child)
      then none
      else elim (xml.name child) [ none ↦ none | some name ↦ members.target name ]

  -- `*target = xmlNodeGetContent (child)`, where nothing is there yet
  unfoldable pub set_once : I → Node → Option F → I
  set_once info child none = info
  set_once info child (some target) =
      if not (is_null (members.get info target))
      then info
      else members.set info target (xml.get_content child)

  -- the loop over the children of a node
  unfoldable pub read_children : I → List Node → I
  unfolding set_once
  read_children info [] = info
  read_children info (child ∷ rest) = read_children (set_once info child (child_target child)) rest

  -- The loop over the nodes: `is_complete` is the test on the members that must be there.
  unfoldable pub read_nodes : (I → Bool) → List Node → List I
  unfolding read_children
  read_nodes is_complete [] = []
  read_nodes is_complete (node ∷ nodes) =
      let rest = read_nodes is_complete nodes in
      let info = read_children members.nothing (xml.children node) in
      if not (xml.is_element node) then rest else if is_complete info then info ∷ rest else rest
