-- ===== src/Device/Lifetime.antt =====
-- Opening and closing devices (src/libmccr/mccr.c): what becomes of the references to a context.
use mccr.Prelude.{
  ℕ, ◌+◌, ◌-◌, ◌%◌, ◌<◌, ◌≡◌, refl, ap, ◌∙◌, Bool, true, false, Option, none, some, Run, ok, fault,
  ◌>>=◌, arith, ◌==◌, if◌then◌else◌, Bool-cases, inl, inr, Returns, Returns-of_ok,
}
use mccr.Prelude.Bytes.{Bytes}
use mccr.Hidapi.{Hidapi}
use mccr.Hid.Usages.{Allocator, is_null}
use mccr.Hid.Context.{DescriptorContext, int_mod, context_ref, context_unref}
use mccr.Status.{Status, is_ok}
use mccr.Device.{
  Device, Contexts, update, load, ref_at, unref_at, mccr_device_ref, mccr_device_unref,
  device_clear_open_info, mccr_device_close, mccr_device_open, open_failed,
}

pub load_lem :
    (heap : Contexts) (p : ℕ) (desc : DescriptorContext)
    → heap p ≡ some desc
    → load heap p ≡ ok desc
unfolding load
load_lem heap p desc e =
    ap (λ (o : Option DescriptorContext). elim o [ none ↦ fault | some c ↦ ok c ]) e

pub update_same : (heap : Contexts) (p : ℕ) (c : Option DescriptorContext) → update heap p c p ≡ c
update_same heap p c = let same : (p == p) ≡ true = ground arith in rw same refl

-- A reference that is taken and given back leaves the count as it was.
pub context_unref-ref :
    (c : DescriptorContext)
    → 0 < c.refcount
    → c.refcount + 1 < int_mod
    → context_unref (context_ref c) ≡ some c
unfolding context_ref context_unref
context_unref-ref c pos small =
    let more : ((c.refcount + 1) % int_mod == 1) ≡ false = ground arith in
    let back : ((c.refcount + 1) % int_mod + int_mod - 1) % int_mod ≡ c.refcount = omega arith in
    simp (more, back)

-- What is left of a device when it is closed.
abbrev pub closed : {D : Type 0} → Device D → Device D
closed device = record device { feature_report = none; desc = none; hid = none }

abbrev pub dropped : {D : Type 0} → Device D → Option (Device D)
dropped device =
    if device.refcount == 1
    then none
    else some (record device { refcount = (device.refcount + int_mod - 1) % int_mod })

unref_at_lem :
    (heap : Contexts) (p : ℕ) (c : DescriptorContext)
    → heap p ≡ some c
    → unref_at heap p ≡ ok (update heap p (context_unref c))
unfolding unref_at
unref_at_lem heap p c e = rw (load_lem heap p c e) refl

ref_at_lem :
    (heap : Contexts) (p : ℕ) (c : DescriptorContext)
    → heap p ≡ some c
    → ref_at heap p ≡ ok (update heap p (some (context_ref c)))
unfolding ref_at
ref_at_lem heap p c e = rw (load_lem heap p c e) refl

module _ {D : Type 0} where
  unref-closed :
      (device : Device D) → mccr_device_unref (closed device) ≡ ok (dropped (closed device))
  unfolding mccr_device_unref
  unref-closed device = elim (Bool-cases (device.refcount == 1)) [
    | inl last ↦ simp last
    | inr more ↦ simp more
  ]

  pub clear_lem :
      (device : Device D) (heap : Contexts) (p : ℕ) (c : DescriptorContext)
      → device.desc ≡ some p
      → heap p ≡ some c
      → device_clear_open_info device heap ≡ ok (closed device, update heap p (context_unref c))
  unfolding device_clear_open_info
  clear_lem device heap p c opened e =
      ap
        (λ (o : Option ℕ). elim o [
          | none ↦ ok (closed device, heap)
          | some p ↦ (unref_at heap p >>= λ heap'. ok (closed device, heap'))
        ])
        opened
      ∙ ap (λ (m : Run Contexts). m >>= λ heap'. ok (closed device, heap'))
          (unref_at_lem heap p c e)

  -- Closing an open device, whose context is in the heap, returns: the device is left without handle,
  -- context and feature report and loses a reference, or is freed if that was the last one, where no
  -- `assert` of the disposal fails; the context loses a reference, or is freed.
  pub close-open :
      (device : Device D) (heap : Contexts) (p : ℕ) (c : DescriptorContext)
      → device.desc ≡ some p
      → heap p ≡ some c
      → mccr_device_close device heap
        ≡ ok (dropped (closed device), update heap p (context_unref c))
  unfolding mccr_device_close
  close-open device heap p c opened e =
      let open_now : is_null device.desc ≡ false = ap is_null opened in
      rw open_now (rw (clear_lem device heap p c opened e) (rw (unref-closed device) refl))

  -- Closing a device that is not open changes nothing.
  pub close-closed :
      (device : Device D) (heap : Contexts)
      → mccr_device_close (closed device) heap ≡ ok (some (closed device), heap)
  unfolding mccr_device_close
  close-closed device heap = refl

  -- When a further reference to the context of an open device is taken, as it is for a swipe report,
  -- and the device is then closed, this returns, and the context is still in the heap, as it was before,
  -- if its count was positive and does not reach the end of 32 bits.
  pub close_keeps_report :
      (device : Device D) (heap : Contexts) (p : ℕ) (c : DescriptorContext)
      → device.desc ≡ some p
      → heap p ≡ some c
      → 0 < c.refcount
      → c.refcount + 1 < int_mod
      → Returns (λ (left, heap'). heap' p ≡ some c) (ref_at heap p >>= mccr_device_close device)
  close_keeps_report device heap p c opened e pos small =
      let shared = update heap p (some (context_ref c)) in
      rw (ref_at_lem heap p c e) (
        Returns-of_ok
          (close-open device shared p (context_ref c) opened
            (update_same heap p (some (context_ref c))))
          (update_same shared p (context_unref (context_ref c)) ∙ context_unref-ref c pos small))

  -- one close more, of what an earlier one has left
  abbrev pub close_again : Option (Device D) × Contexts → Run (Option (Device D))
  close_again (none, heap) = ok none
  close_again (some device, heap) = mccr_device_close device heap >>= λ (left, heap'). ok left

  -- A device that is open, is opened once more and is then closed twice is closed in the end, but its
  -- reference count is the one that it had while it was open: the reference that the first open took is
  -- never given back. The count is positive and does not reach the end of 32 bits, and the context of
  -- the device is in the heap.
  pub reopen-close-close :
      (hidapi : Hidapi D) (grants parse_grants : Allocator) (log_is_enabled : Bool)
      (read_report_descriptor : Option Bytes → Status × Bytes) (device : Device D) (heap : Contexts)
      (p fresh : ℕ) (c : DescriptorContext)
      → device.desc ≡ some p
      → heap p ≡ some c
      → 0 < device.refcount
      → device.refcount + 1 < int_mod
      → (mccr_device_open hidapi grants parse_grants log_is_enabled read_report_descriptor device
            heap fresh
          >>= (λ (st, opened, heap'). mccr_device_close opened heap')
          >>= close_again)
        ≡ ok (some (closed device))
  unfolding mccr_device_open mccr_device_ref
  reopen-close-close hidapi grants parse_grants log_is_enabled read_report_descriptor device heap p
        fresh c opened e pos small =
      let open_now : is_null device.desc ≡ false = ap is_null opened in
      let again : Device D = record device { refcount = (device.refcount + 1) % int_mod } in
      let more : ((device.refcount + 1) % int_mod == 1) ≡ false = ground arith in
      let back : ((device.refcount + 1) % int_mod + int_mod - 1) % int_mod ≡ device.refcount =
        omega arith in
      rw open_now (
        rw (close-open again heap p c opened e)
          (simp (more, back) (rw (close-closed device (update heap p (context_unref c))) refl)))

  -- A closed device whose descriptor cannot be read.
  pub open-no_descriptor :
      (hidapi : Hidapi D) (grants parse_grants : Allocator) (log_is_enabled : Bool)
      (read_report_descriptor : Option Bytes → Status × Bytes) (device : Device D) (heap : Contexts)
      (fresh : ℕ) (st : Status) (bytes : Bytes)
      → device.desc ≡ none
      → read_report_descriptor device.path ≡ (st, bytes)
      → is_ok st ≡ false
      → mccr_device_open hidapi grants parse_grants log_is_enabled read_report_descriptor device
          heap fresh
        ≡ ok (Status.failed, closed device, heap)
  unfolding mccr_device_open open_failed device_clear_open_info
  open-no_descriptor hidapi grants parse_grants log_is_enabled read_report_descriptor device heap
        fresh st bytes shut failed not_ok =
      let nothing : is_null device.desc ≡ true = ap is_null shut in
      rw nothing (rw failed (rw not_ok (rw shut refl)))
