-- ===== src/Device/Enumerate/Listed.antt =====
-- What mccr_enumerate_devices of src/libmccr/mccr.c lists.
use mccr.Prelude.{
  ℕ, ◌+◌, ◌*◌, ◌≡◌, refl, sym, ap, ◌∙◌, append-nil, true, List, [], ◌∷◌, ◌++◌, map, Option, none,
  some, length,
}
use mccr.Prelude.Bytes.{Bytes}
use mccr.Hid.Usages.{Allocator}
use mccr.Device.{Device, HidDeviceInfo, assemble, duplicate, device_new}
use mccr.Device.Enumerate.{
  new_devices, entries, enumerate_vid, enumerate_vids, mccr_enumerate_devices,
}

-- The device that stands for what hidapi enumerates.
abbrev pub device_of : {D : Type 0} → HidDeviceInfo → Device D
device_of info = record {
  refcount = 1;
  path = info.path;
  vid = info.vendor_id;
  pid = info.product_id;
  serial_number = info.serial_number;
  manufacturer = info.manufacturer_string;
  product = info.product_string;
  hid = none;
  desc = none;
  feature_report = none;
}

-- Each of the devices has a path.
abbrev pub AllPaths : List HidDeviceInfo → Type 0
AllPaths [] = Unit
AllPaths (info ∷ infos) = ((p : Bytes) × (info.path ≡ some p)) × AllPaths infos

module _ (grants : Allocator) (all : (n bytes : ℕ) → grants n bytes ≡ true) where
  duplicate_lem :
      (width : ℕ) (o : Option (List ℕ)) (calls : ℕ) → (duplicate grants width o calls).0 ≡ o
  duplicate_lem width none calls = refl
  duplicate_lem width (some text) calls = rw (all calls (width * (length text + 1))) refl

module _ {D : Type 0} (grants : Allocator) (all : (n bytes : ℕ) → grants n bytes ≡ true) where
  assembled :
      (info : HidDeviceInfo) (o : Option Bytes) (p : Bytes)
      → o ≡ some p
      → assemble {D = D} info o info.serial_number info.manufacturer_string info.product_string
        ≡ some (record (device_of info) { path = o })
  unfolding assemble
  assembled info none p e = cc
  assembled info (some q) p e = refl

  device_new_lem :
      (info : HidDeviceInfo) (p : Bytes) (calls : ℕ)
      → info.path ≡ some p
      → (device_new {D = D} grants info calls).0 ≡ some (device_of info)
  unfolding device_new
  device_new_lem info p calls e = rw (all calls 72) (
      simp
        (
          duplicate_lem grants all 1 info.path (calls + 1),
          duplicate_lem grants all 4 info.serial_number _,
          duplicate_lem grants all 4 info.manufacturer_string _,
          duplicate_lem grants all 4 info.product_string _,
        )
        (assembled info info.path p e))

  new_devices_lem :
      (infos : List HidDeviceInfo) (calls : ℕ)
      → AllPaths infos
      → (new_devices {D = D} grants infos calls).0 ≡ map (λ info. some (device_of info)) infos
  unfolding new_devices
  new_devices_lem [] calls v = refl
  new_devices_lem (info ∷ infos) calls v =
      let (p, e) = v.0 in rw (device_new_lem info p calls e, new_devices_lem infos _ v.1) refl

  enumerate_vid_lem :
      (found : Option (List (Option (Device D))) × ℕ) (infos : List HidDeviceInfo)
      → AllPaths infos
      → entries (enumerate_vid {D = D} grants found infos).0
        ≡ entries found.0 ++ map (λ info. some (device_of info)) infos
  unfolding enumerate_vid
  enumerate_vid_lem (devices, calls) [] v = sym (append-nil _)
  enumerate_vid_lem (devices, calls) (info ∷ infos) v =
      rw (all calls ((length (entries devices) + length (info ∷ infos) + 1) * 8))
        (ap (◌++◌ (entries devices)) (new_devices_lem (info ∷ infos) (calls + 1) v))

  -- With memory granted and a path for every device that hidapi enumerates, mccr_enumerate_devices
  -- returns the devices of the first vendor and then those of the second, each in the order in which
  -- hidapi has them, closed and with one reference; an array that is NULL has none.
  pub mccr_enumerate_devices-map :
      (hid_enumerate : ℕ → List HidDeviceInfo) (calls : ℕ)
      → AllPaths (hid_enumerate 0x0801)
      → AllPaths (hid_enumerate 0x2e81)
      → entries (mccr_enumerate_devices {D = D} grants hid_enumerate calls).0
        ≡ map (λ info. some (device_of info)) (hid_enumerate 0x0801)
          ++ map (λ info. some (device_of info)) (hid_enumerate 0x2e81)
  unfolding mccr_enumerate_devices enumerate_vids
  mccr_enumerate_devices-map hid_enumerate calls v w =
      enumerate_vid_lem _ (hid_enumerate 0x2e81) w
      ∙ ap
          (λ (t : List (Option (Device D))).
            t ++ map (λ info. some (device_of info)) (hid_enumerate 0x2e81))
          (enumerate_vid_lem (none, calls) (hid_enumerate 0x0801) v)
