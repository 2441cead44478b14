-- ===== src/DescriptorReader/Usb.antt =====
-- mccr_read_report_descriptor of src/libmccr/mccr-usb.c. libusb and `sscanf` are parameters.
use mccr.Prelude.{
  ℕ, zero, suc, ◌+◌, ◌^◌, ◌≤◌, ◌<◌, ◌≡◌, Bool, true, false, not, ◌||◌, List, [], ◌∷◌, ◌++◌, Option,
  none, some, Run, ok, fault, out_of_fuel, ◌>>=◌, ltb, ◌==◌, if◌then◌else◌, length, read_block,
}
use mccr.Prelude.Bytes.{Bytes}
use mccr.Prelude.Int.{ℤ, pos, negsuc, is_negative, is_zero, to_size}
use mccr.Hid.Usages.{Allocator}
use mccr.Status.{Status}
use mccr.DescriptorReader.{
  Event, acquire, release, context, device_list, device, handle, driver, interface,
}

-- the bus number and the address of a device of libusb
pub record UsbDevice : Type 0 where
  pub bus_number : ℕ
  pub address : ℕ

-- What the calls return. The descriptor is written into a buffer, whose bytes after the call these are.
pub record Libusb : Type 0 where
  -- the three numbers, where `sscanf` reads three
  pub sscanf : Bytes → Option (ℕ × ℕ × ℕ)
  pub init : ℤ
  -- the number of devices or an error, and the list
  pub get_device_list : ℤ × Option (List UsbDevice)
  pub open_usb : UsbDevice → ℤ
  pub kernel_driver_active : ℕ → ℤ
  pub detach_kernel_driver : ℕ → ℤ
  pub claim_interface : ℕ → ℤ
  pub control_transfer : ℕ → ℤ × Bytes

-- The number of devices is that of the list, below 2 ^ 32, and there is no list with an error.
abbrev pub IsListed : ℤ × Option (List UsbDevice) → Type 0
IsListed (pos n, some devices) = (length devices ≡ n) × (n < 2 ^ 32)
IsListed (negsuc n, none) = Unit
IsListed _ = ⊥

-- The list of the devices is as it says. The transfer is into a buffer of 256 bytes, and tells how many of
-- them it wrote.
pub record IsLibusb (usb : Libusb) : Type 0 where
  pub listed : IsListed usb.get_device_list
  pub buffer_size :
      (interface_number : ℕ) → length ((usb.control_transfer interface_number).1) ≡ 256
  pub written :
      (interface_number n : ℕ) → (usb.control_transfer interface_number).0 ≡ pos n → n ≤ 256

-- parse_path: the bus number, the address and the interface
abbrev pub fits_path : Option (ℕ × ℕ × ℕ) → Option (ℕ × ℕ × ℕ)
fits_path none = none
fits_path (some (a, b, c)) =
    if ltb 0xFFFF a || ltb 0xFFFF b || ltb 0xFF c then none else some (a, b, c)

abbrev pub parse_path : Libusb → Bytes → Option (ℕ × ℕ × ℕ)
parse_path usb path = fits_path (usb.sscanf path)

-- The loop of find_device for as many more devices, from device `i` on: the first device at the place, to
-- which a reference is taken. The counter has 32 bits: where it wraps around the loop starts again.
unfoldable pub find_in : ℕ → ℕ → ℕ → ℕ → List UsbDevice → Run (Option UsbDevice × List Event)
find_in zero i bus_number device_address devices = ok (none, [])
find_in (suc n) i bus_number device_address [] = fault
find_in (suc n) i bus_number device_address (d ∷ devices) =
    let rest = find_in n (i + 1) bus_number device_address devices in
    if not (d.bus_number == bus_number) || not (d.address == device_address)
    then (if i + 1 == 2 ^ 32 then out_of_fuel else rest)
    else ok (some d, acquire device ∷ [])

-- the rounds of a loop to a signed number: none if it is negative
abbrev pub rounds_of : ℤ → ℕ
rounds_of (pos n) = n
rounds_of (negsuc n) = 0

-- find_device behind the call for the list. Where the number is 0 or the list is NULL the function returns
-- at once; the list that is there with the number 0 is not freed.
unfoldable pub find_listed :
    ℕ → ℕ → ℤ × Option (List UsbDevice) → Run (Option UsbDevice × List Event)
unfolding find_in
find_listed bus_number device_address (n_devices, none) = ok (none, [])
find_listed bus_number device_address (n_devices, some devices) =
    if is_zero n_devices then ok (none, acquire device_list ∷ []) else (do
      (found, events) ← find_in (rounds_of n_devices) 0 bus_number device_address devices
      ok (found, acquire device_list ∷ events ++ release device_list ∷ []))

-- find_device
unfoldable pub find_device : Libusb → ℕ → ℕ → Run (Option UsbDevice × List Event)
unfolding find_listed
find_device usb bus_number device_address =
    find_listed bus_number device_address usb.get_device_list

-- what the function returns and the events up to its end
abbrev pub Read : Type 0
Read = Status × Option Bytes × List Event

abbrev pub before : List Event → Read → Read
before events (st, desc, rest) = (st, desc, events ++ rest)

-- `out` with what has been opened, `out_reattach` and `out_release`
abbrev pub out_context : Status → Option Bytes → Read
out_context st desc = (st, desc, release context ∷ [])

abbrev pub out_device : Status → Option Bytes → Read
out_device st desc = before (release device ∷ []) (out_context st desc)

abbrev pub out_handle : Status → Option Bytes → Read
out_handle st desc = before (release handle ∷ []) (out_device st desc)

abbrev pub out_reattach : Bool → Status → Option Bytes → Read
out_reattach reattach st desc =
    before (if reattach then release driver ∷ [] else []) (out_handle st desc)

abbrev pub out_release : Bool → Status → Option Bytes → Read
out_release reattach st desc = before (release interface ∷ []) (out_reattach reattach st desc)

module _ (usb : Libusb) (grants : Allocator) (interface_number : ℕ) where
  -- the descriptor, from the transfer on
  unfoldable pub transfer : Bool → ℤ × Bytes → Run Read
  transfer reattach (desc_size, buffer) =
      if is_negative desc_size
      then ok (out_release reattach Status.failed none)
      else if grants 0 (to_size desc_size)
      then (do
        desc ← read_block buffer 0 (to_size desc_size)
        ok (out_release reattach Status.ok (some desc)))
      else ok (out_release reattach Status.failed none)

  -- from the claim of the interface on
  unfoldable pub claim : Bool → Run Read
  unfolding transfer
  claim reattach =
      if is_negative (usb.claim_interface interface_number)
      then ok (out_reattach reattach Status.failed none)
      else do
        rest ← transfer reattach (usb.control_transfer interface_number)
        ok (before (acquire interface ∷ []) rest)

  -- from the question for the kernel driver on
  unfoldable pub detach : Run Read
  unfolding claim
  detach =
      if is_zero (usb.kernel_driver_active interface_number)
      then claim false
      else if is_negative (usb.detach_kernel_driver interface_number)
      then ok (out_handle Status.failed none)
      else do rest ← claim true; ok (before (acquire driver ∷ []) rest)

  -- from the opening of the device on
  unfoldable pub open_device : UsbDevice → Run Read
  unfolding detach
  open_device d =
      if is_negative (usb.open_usb d)
      then ok (out_device Status.failed none)
      else do rest ← detach; ok (before (acquire handle ∷ []) rest)

module _ (usb : Libusb) (grants : Allocator) where
  -- from the search for the device on
  unfoldable pub on_device : ℕ → Option UsbDevice → Run Read
  unfolding open_device
  on_device interface_number none = ok (out_context Status.failed none)
  on_device interface_number (some d) = open_device usb grants interface_number d

  -- from the initialisation on
  unfoldable pub on_path : Option (ℕ × ℕ × ℕ) → Run Read
  unfolding on_device
  on_path none = ok (Status.failed, none, [])
  on_path (some (bus_number, device_address, interface_number)) =
      if not (is_zero usb.init) then ok (Status.failed, none, []) else do
        (found, events) ← find_device usb bus_number device_address
        rest ← on_device interface_number found
        ok (before (acquire context ∷ events) rest)

  -- mccr_read_report_descriptor
  unfoldable pub mccr_read_report_descriptor : Bytes → Run Read
  unfolding on_path
  mccr_read_report_descriptor path = on_path (parse_path usb path)
