-- ===== src/Device/Enumerate.antt =====
-- mccr_enumerate_devices and mccr_device_new of src/libmccr/mccr.c. `hid_enumerate` of hidapi is a
-- parameter: the devices of a vendor, none for NULL.
pub mod Listed
pub mod Search
use mccr.Prelude.{
  ℕ, ◌+◌, ◌*◌, ◌≡◌, refl, sym, ap, ◌∙◌, append-nil, append_assoc, Bool, true, false, ◌&&◌, List, [],
  ◌∷◌, ◌++◌, map, Option, none, some, Run, ok, fault, ◌>>=◌, ◌==◌, arith, if◌then◌else◌, Bool-cases,
  if_cases, inl, inr, ◌⊎◌, length, Returns, returned, Returns-bind, Returns-if,
}
use mccr.Prelude.Bytes.{Bytes}
use mccr.Hid.Usages.{Allocator}
use mccr.Device.{Device, HidDeviceInfo, assemble, duplicate, device_new, mccr_device_is_open}

-- MAGTEK_VID and ZII_VID
abbrev pub supported_vids : List ℕ
supported_vids = 0x0801 ∷ 0x2e81 ∷ []

-- `strcmp (a, b) == 0`
abbrev pub same_text : Bytes → Bytes → Bool
same_text [] [] = true
same_text [] (b ∷ ys) = false
same_text (a ∷ xs) [] = false
same_text (a ∷ xs) (b ∷ ys) = a == b && same_text xs ys

-- the same for a pointer that may be NULL, which `strcmp` must not get
abbrev pub compare_path : Option Bytes → Bytes → Run Bool
compare_path none path = fault
compare_path (some p) path = ok (same_text p path)

-- the devices of an array that may be NULL
abbrev pub entries : {D : Type 0} → Option (List (Option (Device D))) → List (Option (Device D))
entries none = []
entries (some devices) = devices

module _ {D : Type 0} (grants : Allocator) where
  -- the inner loop of mccr_enumerate_devices
  unfoldable pub new_devices : List HidDeviceInfo → ℕ → List (Option (Device D)) × ℕ
  new_devices [] calls = ([], calls)
  new_devices (info ∷ infos) calls =
      let (device, calls') = device_new grants info calls in
      let (devices, calls'') = new_devices infos calls' in (device ∷ devices, calls'')

  -- a round of the outer loop of mccr_enumerate_devices
  unfoldable pub enumerate_vid :
      Option (List (Option (Device D))) × ℕ
      → List HidDeviceInfo
      → Option (List (Option (Device D))) × ℕ
  unfolding new_devices
  enumerate_vid (devices, calls) [] = (devices, calls)
  enumerate_vid (devices, calls) (info ∷ infos) =
      if grants calls ((length (entries devices) + length (info ∷ infos) + 1) * 8)
      then (let (added, calls') = new_devices (info ∷ infos) (calls + 1) in
          (some (entries devices ++ added), calls'))
      else (devices, calls + 1)

  -- the inner loop of mccr_device_new
  unfoldable pub find_device : Option Bytes → List HidDeviceInfo → ℕ → Run (Option (Device D) × ℕ)
  find_device path [] calls = ok (none, calls)
  find_device none (info ∷ infos) calls = ok (device_new grants info calls)
  find_device (some path) (info ∷ infos) calls = do
    same ← compare_path info.path path
    if same then ok (device_new grants info calls) else find_device (some path) infos calls

-- On to the next vendor while there is no device.
unfoldable pub or_next :
    {D : Type 0}
    → (ℕ → Run (Option (Device D) × ℕ))
    → Option (Device D) × ℕ
    → Run (Option (Device D) × ℕ)
or_next next (none, calls) = next calls
or_next next (some device, calls) = ok (some device, calls)

module _ {D : Type 0} (grants : Allocator) (hid_enumerate : ℕ → List HidDeviceInfo) where
  unfoldable pub enumerate_vids :
      List ℕ → Option (List (Option (Device D))) × ℕ → Option (List (Option (Device D))) × ℕ
  unfolding enumerate_vid
  enumerate_vids [] found = found
  enumerate_vids (vid ∷ vids) found =
      enumerate_vids vids (enumerate_vid grants found (hid_enumerate vid))

  -- mccr_enumerate_devices: the array without the NULL at its end, or NULL
  unfoldable pub mccr_enumerate_devices : ℕ → Option (List (Option (Device D))) × ℕ
  unfolding enumerate_vids
  mccr_enumerate_devices calls = enumerate_vids supported_vids (none, calls)

  -- the outer loop of mccr_device_new, up to the first device
  unfoldable pub new_from : List ℕ → Option Bytes → ℕ → Run (Option (Device D) × ℕ)
  unfolding find_device or_next
  new_from [] path calls = ok (none, calls)
  new_from (vid ∷ vids) path calls = do
    result ← find_device grants path (hid_enumerate vid) calls
    or_next (λ calls'. new_from vids path calls') result

  -- mccr_device_new
  unfoldable pub mccr_device_new : Option Bytes → ℕ → Run (Option (Device D) × ℕ)
  unfolding new_from
  mccr_device_new = new_from supported_vids
