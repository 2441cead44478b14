-- ===== src/Device.antt =====
-- src/libmccr/mccr.c: devices, from creation over open and close to disposal. A descriptor context is
-- shared by pointer between a device and its swipe reports, so contexts live in a heap; everything
-- else that a device points to is its own, and a field.
pub mod Commands
pub mod Names
pub mod Lifetime
pub mod Opening
pub mod Enumerate
use mccr.Prelude.{
  ℕ, ◌+◌, ◌*◌, ◌-◌, length, ◌%◌, Bool, true, false, not, List, Option, none, some, Run, ok, fault,
  ◌>>=◌, ◌>>◌, assert, ◌==◌, if◌then◌else◌,
}
use mccr.Prelude.Bytes.{Bytes}
use mccr.Hidapi.{Hidapi}
use mccr.Hid.Usages.{Allocator, is_null}
use mccr.Hid.Context.{DescriptorContext, int_mod, context_ref, context_unref}
use mccr.Hid.Reports.{mccr_parse_report_descriptor}
use mccr.FeatureReport.{FeatureReport, mccr_feature_report_new}
use mccr.Status
use mccr.Status.{Status, is_ok}

-- `struct mccr_device_s`; the texts are `none` for NULL, `hid` is what hidapi knows of the device
-- while it is open, and `desc` is an address in the heap.
pub record Device (D : Type 0) : Type 0 where
  -- the bit pattern of an `int`
  pub refcount : ℕ
  pub path : Option Bytes
  pub vid : ℕ
  pub pid : ℕ
  pub serial_number : Option (List ℕ)
  pub manufacturer : Option (List ℕ)
  pub product : Option (List ℕ)
  pub hid : Option D
  pub desc : Option ℕ
  pub feature_report : Option FeatureReport

-- `struct hid_device_info`, as far as it is read
pub record HidDeviceInfo : Type 0 where
  pub path : Option Bytes
  pub vendor_id : ℕ
  pub product_id : ℕ
  pub serial_number : Option (List ℕ)
  pub manufacturer_string : Option (List ℕ)
  pub product_string : Option (List ℕ)

-- The contexts that have been allocated and not freed.
abbrev pub Contexts : Type 0
Contexts = ℕ → Option DescriptorContext

abbrev pub update : Contexts → ℕ → Option DescriptorContext → Contexts
update heap p c q = if p == q then c else heap q

unfoldable pub load : Contexts → ℕ → Run DescriptorContext
load heap p = elim (heap p) [ none ↦ fault | some c ↦ ok c ]

-- mccr_report_descriptor_context_ref through a pointer
unfoldable pub ref_at : Contexts → ℕ → Run Contexts
unfolding load context_ref
ref_at heap p = do c ← load heap p; ok (update heap p (some (context_ref c)))

-- mccr_report_descriptor_context_unref through a pointer
unfoldable pub unref_at : Contexts → ℕ → Run Contexts
unfolding load context_unref
unref_at heap p = do c ← load heap p; ok (update heap p (context_unref c))

-- sizeof (struct mccr_device_s): the count, the ids and seven pointers, aligned
abbrev sizeof_device : ℕ
sizeof_device = 72

-- `strdup` and `wcsdup` of a text that may be NULL, of characters that are so many bytes wide
abbrev pub duplicate : Allocator → ℕ → Option (List ℕ) → ℕ → Option (List ℕ) × ℕ
duplicate grants width none calls = (none, calls)
duplicate grants width (some text) calls =
    if grants calls (width * (length text + 1)) then (some text, calls + 1) else (none, calls + 1)

module _ {D : Type 0} where
  -- the device of the texts that have been copied
  unfoldable pub assemble :
      HidDeviceInfo
      → Option Bytes
      → Option (List ℕ)
      → Option (List ℕ)
      → Option (List ℕ)
      → Option (Device D)
  assemble info none serial_number manufacturer product = none
  assemble info (some path) serial_number manufacturer product = some (record {
    refcount = 1;
    path = some path;
    vid = info.vendor_id;
    pid = info.product_id;
    serial_number = serial_number;
    manufacturer = manufacturer;
    product = product;
    hid = none;
    desc = none;
    feature_report = none;
  })

  -- device_new, with the count of requests for memory before and after. A text that is refused is
  -- NULL; without a path the device is disposed of again.
  unfoldable pub device_new : Allocator → HidDeviceInfo → ℕ → Option (Device D) × ℕ
  unfolding assemble
  device_new grants info calls =
      let (path, calls1) = duplicate grants 1 info.path (calls + 1) in
      let (serial_number, calls2) = duplicate grants 4 info.serial_number calls1 in
      let (manufacturer, calls3) = duplicate grants 4 info.manufacturer_string calls2 in
      let (product, calls4) = duplicate grants 4 info.product_string calls3 in
      if grants calls sizeof_device
      then (assemble info path serial_number manufacturer product, calls4)
      else (none, calls + 1)

  -- mccr_device_ref
  unfoldable pub mccr_device_ref : Device D → Device D
  mccr_device_ref device = record device { refcount = (device.refcount + 1) % int_mod }

  -- mccr_device_unref; `none` when the device has been freed
  unfoldable pub mccr_device_unref : Device D → Run (Option (Device D))
  mccr_device_unref device =
      if not (device.refcount == 1)
      then ok (some (record device { refcount = (device.refcount + int_mod - 1) % int_mod }))
      else do
        assert (is_null device.hid)
        assert (is_null device.feature_report)
        assert (is_null device.desc)
        ok none

  -- mccr_device_is_open
  unfoldable pub mccr_device_is_open : Device D → Bool
  mccr_device_is_open device = not (is_null device.desc)

  -- device_clear_open_info: the feature report and the handle are gone, the context loses a reference
  unfoldable pub device_clear_open_info : Device D → Contexts → Run (Device D × Contexts)
  unfolding unref_at
  device_clear_open_info device heap =
      let closed : Device D = record device { feature_report = none; desc = none; hid = none } in
      elim device.desc [
        | none ↦ ok (closed, heap)
        | some p ↦ (do heap' ← unref_at heap p; ok (closed, heap'))
      ]

  -- mccr_device_close; `none` when the device has been freed
  unfoldable pub mccr_device_close : Device D → Contexts → Run (Option (Device D) × Contexts)
  unfolding device_clear_open_info mccr_device_unref
  mccr_device_close device heap = if is_null device.desc then ok (some device, heap) else do
    (closed, heap') ← device_clear_open_info device heap
    left ← mccr_device_unref closed
    ok (left, heap')

  -- the `out` of mccr_device_open after a failure
  open_failed : Device D → Contexts → Run (Status × Device D × Contexts)
  unfolding device_clear_open_info
  open_failed device heap = do
    (closed, heap') ← device_clear_open_info device heap
    ok (Status.failed, closed, heap')

module _ {D : Type 0} (hidapi : Hidapi D) (grants parse_grants : Allocator) (log_is_enabled : Bool)
    (mccr_read_report_descriptor : Option Bytes → Status × Bytes) where
  -- mccr_device_open after the descriptor has been parsed into a context at `fresh`
  open_parsed : Device D → Contexts → ℕ → DescriptorContext → Run (Status × Device D × Contexts)
  unfolding open_failed mccr_device_ref
  open_parsed device heap fresh desc =
      let described : Device D = record device { desc = some fresh } in
      let heap' = update heap fresh (some desc) in
      elim (hidapi.hid_open_path device.path) [
        | none ↦ open_failed (record described { hid = none }) heap'
        | some d ↦
            let opened : Device D = record described { hid = some d } in
            elim ((mccr_feature_report_new grants desc 0).0) [
              | none ↦ open_failed opened heap'
              | some report ↦ ok (
                Status.ok,
                mccr_device_ref (record opened { feature_report = some report }),
                heap',
              )
            ]
      ]

  -- mccr_device_open. `fresh` is the address at which the parser allocates the context. Which of the
  -- two files with mccr_read_report_descriptor is built is up to the configuration.
  unfoldable pub mccr_device_open : Device D → Contexts → ℕ → Run (Status × Device D × Contexts)
  unfolding open_failed mccr_device_ref open_parsed
  mccr_device_open device heap fresh =
      if not (is_null device.desc)
      then ok (Status.ok, mccr_device_ref device, heap)
      else let (read, hid_descriptor) = mccr_read_report_descriptor device.path in
        if not (is_ok read) then open_failed device heap else do
          (parsed, desc) ← mccr_parse_report_descriptor parse_grants log_is_enabled hid_descriptor
          elim desc [
            | none ↦ open_failed device heap
            | some c ↦
                if is_ok parsed then open_parsed device heap fresh c else open_failed device heap
          ]
