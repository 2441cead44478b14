-- ===== src/DescriptorReader.antt =====
-- The two ways to read a report descriptor, src/libmccr/mccr-usb.c and src/libmccr/mccr-raw.c: what they
-- acquire of the system and what they release, as a sequence of events.
pub mod Usb
pub mod Raw
pub mod Released
use mccr.Prelude.{Bool, true, false, ◌||◌, List, [], ◌∷◌, Option, none, some, if◌then◌else◌}

-- what is acquired and has to be released
pub data Resource : Type 0 where
  context device_list device handle driver interface file : Resource

pub data Event : Type 0 where
  acquire release : Resource → Event

abbrev pub same_resource : Resource → Resource → Bool
same_resource context context = true
same_resource device_list device_list = true
same_resource device device = true
same_resource handle handle = true
same_resource driver driver = true
same_resource interface interface = true
same_resource file file = true
same_resource _ _ = false

-- The first resource cannot be used without the second one.
abbrev pub needs : Resource → Resource → Bool
needs device context = true
needs handle device = true
needs driver handle = true
needs interface handle = true
needs interface driver = true
needs _ _ = false

abbrev pub is_needed : Resource → List Resource → Bool
is_needed r [] = false
is_needed r (s ∷ held) = needs s r || is_needed r held

-- what is held without a resource, if it is held
abbrev pub without : Resource → List Resource → Option (List Resource)
without r [] = none
without r (s ∷ held) =
    if same_resource r s
    then some held
    else (elim (without r held) [ none ↦ none | some rest ↦ some (s ∷ rest) ])

-- The resources that are held after an event. What is released has to be held, and nothing that needs it
-- may be held still.
abbrev pub after_event : Event → List Resource → Option (List Resource)
after_event (acquire r) held = some (r ∷ held)
after_event (release r) held = elim (without r held) [
  | none ↦ none
  | some rest ↦ if is_needed r rest then none else some rest
]

-- the resources that are held after events, or `none` if one of them is a release that must not be
abbrev pub replay : List Resource → List Event → Option (List Resource)
replay held [] = some held
replay held (event ∷ events) = elim (after_event event held) [
  | none ↦ none
  | some held' ↦ replay held' events
]
