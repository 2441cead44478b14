-- ===== src/Tests/Descriptors.antt =====
-- Reading a descriptor (src/libmccr/mccr-usb.c): over libusb with a kernel driver to detach.
use mccr.Prelude.{ℕ, ◌≡◌, refl, ap, [], ◌∷◌, some, arith, length-replicate, replicate, Returns}
use mccr.Prelude.Int.{ℤ, pos, negsuc}
use mccr.Hid.Tests.{always}
use mccr.DescriptorReader.Usb.{Libusb, IsLibusb, mccr_read_report_descriptor}
use mccr.DescriptorReader.Released.{Releases, left_behind, mccr_read_report_descriptor-Releases}

abbrev usb : Libusb
usb = record {
  sscanf = λ path. some (1, 2, 0);
  init = pos 0;
  get_device_list = (pos 1, some (record { bus_number = 1; address = 2 } ∷ []));
  open_usb = λ d. pos 0;
  kernel_driver_active = λ n. pos 1;
  detach_kernel_driver = λ n. pos 0;
  claim_interface = λ n. pos 0;
  control_transfer = λ n. (pos 3, replicate 256 7);
}

magnitude : ℤ → ℕ
magnitude (pos n) = n
magnitude (negsuc n) = 0

usb-IsLibusb : IsLibusb usb
unfolding magnitude
usb-IsLibusb = record {
  listed = (refl, omega arith);
  buffer_size = λ n. length-replicate {A = ℕ} 256 7;
  written = λ interface_number n e. let same : 3 ≡ n = ap magnitude e in omega arith;
}

mccr_read_report_descriptor-Releases_example :
    Returns
      (Releases (left_behind usb (b'p' ∷ [])) [])
      (mccr_read_report_descriptor usb always (b'p' ∷ []))
mccr_read_report_descriptor-Releases_example =
    mccr_read_report_descriptor-Releases usb always usb-IsLibusb (b'p' ∷ [])
