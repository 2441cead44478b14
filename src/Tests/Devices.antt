-- ===== src/Tests/Devices.antt =====
-- Enumerating devices (src/libmccr/mccr.c): one of each vendor.
use mccr.Prelude.{ℕ, ◌%◌, ◌≡◌, refl, List, [], ◌∷◌, none, some, Returns}
use mccr.Hid.Tests.{always}
use mccr.Device.{HidDeviceInfo}
use mccr.Device.Enumerate.{entries, mccr_enumerate_devices, mccr_device_new}
use mccr.Device.Enumerate.Listed.{device_of, mccr_enumerate_devices-map}
use mccr.Device.Enumerate.Search.{Found, mccr_device_new-Found}

abbrev info_of : ℕ → HidDeviceInfo
info_of vid = record {
  path = some (b'p' ∷ vid % 256 ∷ []);
  vendor_id = vid;
  product_id = 0x11;
  serial_number = none;
  manufacturer_string = some (b'M' ∷ []);
  product_string = none;
}

abbrev one_each : ℕ → List HidDeviceInfo
one_each vid = info_of vid ∷ []

mccr_enumerate_devices-map_example :
    entries (mccr_enumerate_devices {D = ℕ} always one_each 0).0
    ≡ some (device_of (info_of 0x0801)) ∷ some (device_of (info_of 0x2e81)) ∷ []
mccr_enumerate_devices-map_example =
    mccr_enumerate_devices-map always (λ n bytes. refl) one_each 0 ((_, refl), tt) ((_, refl), tt)

mccr_device_new-Found_example :
    Returns
      (Found {D = ℕ} (b'p' ∷ 0x81 ∷ []))
      (mccr_device_new always one_each (some (b'p' ∷ 0x81 ∷ [])) 0)
mccr_device_new-Found_example =
    mccr_device_new-Found always one_each (b'p' ∷ 0x81 ∷ []) 0 ((_, refl), tt) ((_, refl), tt)
