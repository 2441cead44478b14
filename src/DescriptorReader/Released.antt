-- ===== src/DescriptorReader/Released.antt =====
-- What mccr_read_report_descriptor of src/libmccr/mccr-usb.c releases and returns.
use mccr.Prelude.{
  ℕ, zero, suc, ◌≤◌, ◌≡◌, refl, Bool, ◌||◌, ◌++◌, ok, ◌>>=◌, ◌==◌, Bool-cases, inl, inr,
  Returns-mono, true, false, not, List, [], ◌∷◌, Option, none, some, arith, if◌then◌else◌, length,
  take, length-take, read_block_inside, Returns, returned, Returns-bind, Returns-if, ◌+◌, ◌^◌, ◌<◌,
}
use mccr.Prelude.Bytes.{Bytes}
use mccr.Prelude.Int.{ℤ, pos, negsuc, is_negative, is_zero}
use mccr.Hid.Usages.{Allocator}
use mccr.Status.{Status}
use mccr.DescriptorReader.{
  Event, acquire, release, device_list, Resource, context, device, handle, driver, interface,
  replay,
}
use mccr.DescriptorReader.Usb.{
  Libusb, IsLibusb, IsListed, find_in, find_listed, before, UsbDevice, Read, out_release,
  out_reattach, transfer, claim, detach, open_device, on_device, on_path, find_device, parse_path,
  mccr_read_report_descriptor,
}

-- what is returned: a descriptor of at most 256 bytes with OK, none without
abbrev pub IsAnswer : Status → Option Bytes → Type 0
IsAnswer Status.ok (some desc) = length desc ≤ 256
IsAnswer Status.failed none = Unit
IsAnswer _ _ = ⊥

-- The events are in order, and release what is held and what they acquire but for what is left.
abbrev pub Releases : List Resource → List Resource → Read → Type 0
Releases left held (st, desc, events) = (replay held events ≡ some left) × IsAnswer st desc

-- The list of devices that is not freed: one that has none.
abbrev pub unfreed : ℤ × Option (List UsbDevice) → List Resource
unfreed (n_devices, none) = []
unfreed (n_devices, some devices) = if is_zero n_devices then device_list ∷ [] else []

abbrev unfreed_at : Libusb → Option (ℕ × ℕ × ℕ) → List Resource
unfreed_at usb none = []
unfreed_at usb (some place) = if not (is_zero usb.init) then [] else unfreed usb.get_device_list

abbrev pub left_behind : Libusb → Bytes → List Resource
left_behind usb path = unfreed_at usb (parse_path usb path)

abbrev held_on : Bool → List Resource
held_on reattach =
    if reattach then driver ∷ handle ∷ device ∷ context ∷ [] else handle ∷ device ∷ context ∷ []

released :
    (reattach : Bool) (st : Status) (desc : Option Bytes)
    → IsAnswer st desc
    → Releases [] (interface ∷ held_on reattach) (out_release reattach st desc)
released true st desc a = (refl, a)
released false st desc a = (refl, a)

reattached :
    (reattach : Bool) → Releases [] (held_on reattach) (out_reattach reattach Status.failed none)
reattached true = (refl, tt)
reattached false = (refl, tt)

module _ (usb : Libusb) (grants : Allocator) (h : IsLibusb usb) (interface_number : ℕ) where
  transfer-Releases :
      (reattach : Bool) (n : ℤ) (buffer : Bytes)
      → length buffer ≡ 256
      → ((k : ℕ) → n ≡ pos k → k ≤ 256)
      → Returns
          (Releases [] (interface ∷ held_on reattach))
          (transfer usb grants interface_number reattach (n, buffer))
  unfolding transfer
  transfer-Releases reattach (negsuc k) buffer size bound =
      returned (released reattach Status.failed none tt)
  transfer-Releases reattach (pos k) buffer size bound =
      let fits : k ≤ 256 = bound k refl in
      let block = read_block_inside buffer 0 k (omega arith) in
      Returns-if (grants 0 k) _ _
        (λ e. rw block (
          returned (
            released reattach Status.ok (some (take k buffer))
              (omega (arith, length-take k buffer)))))
        (λ e. returned (released reattach Status.failed none tt))

  claim-Releases :
      (reattach : Bool)
      → Returns (Releases [] (held_on reattach)) (claim usb grants interface_number reattach)
  unfolding claim
  claim-Releases reattach =
      Returns-if (is_negative (usb.claim_interface interface_number)) _ _
        (λ e. returned (reattached reattach))
        (λ e.
          Returns-bind _
            (transfer-Releases reattach ((usb.control_transfer interface_number).0)
              ((usb.control_transfer interface_number).1) (h.buffer_size interface_number)
              (h.written interface_number))
            (λ rest releases. returned releases))

  detach-Releases : Returns (Releases [] (held_on false)) (detach usb grants interface_number)
  unfolding detach
  detach-Releases =
      Returns-if (is_zero (usb.kernel_driver_active interface_number)) _ _
        (λ e. claim-Releases false)
        (λ e.
          Returns-if (is_negative (usb.detach_kernel_driver interface_number)) _ _
            (λ e'. returned (refl, tt))
            (λ e'. Returns-bind _ (claim-Releases true) (λ rest releases. returned releases)))

  open_device-Releases :
      (d : UsbDevice)
      → Returns (Releases [] (device ∷ context ∷ [])) (open_device usb grants interface_number d)
  unfolding open_device
  open_device-Releases d =
      Returns-if (is_negative (usb.open_usb d)) _ _ (λ e. returned (refl, tt))
        (λ e. Returns-bind _ detach-Releases (λ rest releases. returned releases))

-- What find_device returns: no device, or one to which a reference is held; and the list is freed.
data IsFound : Option UsbDevice × List Event → Type 0 where
  missing : IsFound (none, [])
  referenced : (d : UsbDevice) → IsFound (some d, acquire device ∷ [])

abbrev IsFreed : Option UsbDevice × List Event → Type 0
IsFreed (found, events) =
    (taken : List Event) × IsFound (found, taken)
    × (events ≡ acquire device_list ∷ taken ++ release device_list ∷ [])

find_in-IsFound :
    (n i bus_number device_address : ℕ) (devices : List UsbDevice)
    → length devices ≡ n
    → i + n < 2 ^ 32
    → Returns IsFound (find_in n i bus_number device_address devices)
unfolding find_in
find_in-IsFound zero i bus_number device_address devices size small = returned missing
find_in-IsFound (suc n) i bus_number device_address [] size small = absurd (omega (arith, size))
find_in-IsFound (suc n) i bus_number device_address (d ∷ devices) size small =
    let inside : (i + 1 == 2 ^ 32) ≡ false = ground (arith, small) in
    Returns-if (not (d.bus_number == bus_number) || not (d.address == device_address)) _ _
      (λ _. rw inside (
        find_in-IsFound n (i + 1) bus_number device_address devices (omega (arith, size))
          (omega (arith, small))))
      (λ _. returned (referenced d))

module _ (usb : Libusb) (grants : Allocator) (h : IsLibusb usb) where
  -- behind find_device, which has returned a device or not and freed the list
  on_device-Releases :
      (interface_number : ℕ) {result : Option UsbDevice × List Event}
      → IsFound result
      → Returns
          (λ rest. Releases [] [] (
            before
              (acquire context ∷ acquire device_list ∷ result.1 ++ release device_list ∷ [])
              rest))
          (on_device usb grants interface_number result.0)
  unfolding on_device
  on_device-Releases interface_number missing = returned (refl, tt)
  on_device-Releases interface_number (referenced d) =
      Returns-mono (open_device-Releases usb grants h interface_number d)
        (λ rest releases. releases)

  found-Releases :
      (bus_number device_address interface_number : ℕ) (list : ℤ × Option (List UsbDevice))
      → IsListed list
      → Returns (Releases (unfreed list) []) (
          find_listed bus_number device_address list >>= λ (found, events).
          on_device usb grants interface_number found >>= λ rest.
          ok (before (acquire context ∷ events) rest))
  unfolding find_listed on_device
  found-Releases bus_number device_address interface_number (negsuc n, none) listed =
      returned (refl, tt)
  found-Releases bus_number device_address interface_number (pos n, none) listed = absurd listed
  found-Releases bus_number device_address interface_number (negsuc n, some devices) listed =
      absurd listed
  found-Releases bus_number device_address interface_number (pos zero, some devices) listed =
      returned (refl, tt)
  found-Releases bus_number device_address interface_number (pos (suc n), some devices) listed =
      let some_listed : is_zero (pos (suc n)) ≡ false = ground arith in
      rw some_listed (
        Returns-bind _
          (Returns-bind _
            (find_in-IsFound (suc n) 0 bus_number device_address devices listed.0
              (omega (arith, listed.1)))
            (λ (found, events) is. returned (events, is, refl)))
          (λ (found, events) freed.
            let (taken, is, e) : IsFreed (found, events) = freed in
            rw e (
              Returns-bind _ (on_device-Releases interface_number is)
                (λ rest releases. returned releases))))

  on_path-Releases :
      (place : Option (ℕ × ℕ × ℕ))
      → Returns (Releases (unfreed_at usb place) []) (on_path usb grants place)
  unfolding on_path find_device
  on_path-Releases none = returned (refl, tt)
  on_path-Releases (some (bus_number, device_address, interface_number)) =
      elim (Bool-cases (is_zero usb.init)) [
        | inr failed ↦ rw failed (returned (refl, tt))
        | inl ready ↦
            rw ready (
              found-Releases bus_number device_address interface_number usb.get_device_list
                h.listed)
      ]

  -- With libusb as it is documented, reading a descriptor returns, whatever the calls of libusb return and
  -- whatever memory is granted: every release is of something that is held and that nothing else which is
  -- held needs, and all that has been acquired has been released, but for a list of devices that has none
  -- on it; a descriptor comes with OK, has at most 256 bytes and is read inside the buffer, and there is none
  -- with FAILED.
  pub mccr_read_report_descriptor-Releases :
      (path : Bytes)
      → Returns (Releases (left_behind usb path) []) (mccr_read_report_descriptor usb grants path)
  unfolding mccr_read_report_descriptor
  mccr_read_report_descriptor-Releases path = on_path-Releases (parse_path usb path)
