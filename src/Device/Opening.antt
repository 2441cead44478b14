-- ===== src/Device/Opening.antt =====
-- mccr_device_open of src/libmccr/mccr.c on a device that is not open: every way it can end.
use mccr.Prelude.{
  ℕ, ◌+◌, ◌%◌, ◌<◌, ◌^◌, ◌≡◌, refl, ap, Bool, true, Option, none, some, Run, Ends, returns,
  Ends-bind, Ends-if, length,
}
use mccr.Prelude.Bytes.{Bytes}
use mccr.Hidapi.{Hidapi}
use mccr.Hid.Usages.{Allocator, is_null}
use mccr.Hid.Context.{DescriptorContext, int_mod, context_unref}
use mccr.Hid.Parser.Safe.{parse_report_descriptor-IsContext}
use mccr.Hid.Reports.{mccr_parse_report_descriptor, sizeof_context}
use mccr.FeatureReport.{FeatureReport, mccr_feature_report_new}
use mccr.Status.{Status, is_ok}
use mccr.Device.{
  Device, Contexts, update, mccr_device_ref, device_clear_open_info, mccr_device_open, open_failed,
  open_parsed,
}
use mccr.Device.Lifetime.{closed, clear_lem, update_same}

-- What mccr_device_open leaves of a device that is not open.
pub data Settled {D : Type 0} (device : Device D) (heap : Contexts) (fresh : ℕ)
    : Status × Device D × Contexts → Type 0 where
  -- it has a context, a handle, a feature report and a reference more
  opened :
      (c : DescriptorContext) (d : D) (report : FeatureReport)
      → Settled device heap fresh (
        Status.ok,
        record device {
          refcount = (device.refcount + 1) % int_mod;
          desc = some fresh;
          hid = some d;
          feature_report = some report;
        },
        update heap fresh (some c),
      )
  -- it is closed and no context has been made
  refused : Settled device heap fresh (Status.failed, closed device, heap)
  -- it is closed and the context that was made has lost its reference
  given_up :
      (c : DescriptorContext)
      → Settled device heap fresh (
        Status.failed,
        closed device,
        update (update heap fresh (some c)) fresh (context_unref c),
      )

module _ {ℓ κ μ} {A : Type ℓ} {B : Type κ} {P : B → Type μ} where
  -- A call that goes on by whether there is a value ends if it does in both cases.
  Ends-option :
      (o : Option A) (m : Run B) (f : A → Run B)
      → Ends P m
      → ((a : A) → Ends P (f a))
      → Ends P (elim o [ none ↦ m | some a ↦ f a ])
  Ends-option none m f nothing something = nothing
  Ends-option (some a) m f nothing something = something a

parse-Ends :
    (grants : Allocator) (log_is_enabled : Bool) (desc : Bytes)
    → grants 0 sizeof_context ≡ true
    → length desc + 1 < 2 ^ 32
    → Ends (λ _. Unit {0}) (mccr_parse_report_descriptor grants log_is_enabled desc)
unfolding mccr_parse_report_descriptor
parse-Ends grants log_is_enabled desc granted short = rw granted (
    Ends-bind _ (parse_report_descriptor-IsContext grants log_is_enabled desc short)
      (λ ctx v. returns tt))

module _ {D : Type 0} where
  given_up-Ends :
      (device described : Device D) (heap : Contexts) (fresh : ℕ) (c : DescriptorContext)
      → described.desc ≡ some fresh
      → closed described ≡ closed device
      → Ends (Settled device heap fresh) (open_failed described (update heap fresh (some c)))
  unfolding open_failed
  given_up-Ends device described heap fresh c e same =
      rw
        (clear_lem described (update heap fresh (some c)) fresh c e
          (update_same heap fresh (some c)))
        (rw same (returns (given_up c)))

  refused-Ends :
      (device : Device D) (heap : Contexts) (fresh : ℕ)
      → device.desc ≡ none
      → Ends (Settled device heap fresh) (open_failed device heap)
  unfolding open_failed device_clear_open_info
  refused-Ends device heap fresh shut = rw shut (returns refused)

module _ {D : Type 0} (hidapi : Hidapi D) (grants parse_grants : Allocator) (log_is_enabled : Bool)
    (read_report_descriptor : Option Bytes → Status × Bytes) where
  open_parsed-Ends :
      (device : Device D) (heap : Contexts) (fresh : ℕ) (c : DescriptorContext)
      → Ends (Settled device heap fresh) (
          open_parsed hidapi grants parse_grants log_is_enabled read_report_descriptor device heap
            fresh c)
  unfolding open_parsed mccr_device_ref
  open_parsed-Ends device heap fresh c =
      Ends-option (hidapi.hid_open_path device.path) _ _
        (given_up-Ends device (record device { desc = some fresh; hid = none }) heap fresh c refl
          refl)
        (λ d.
          Ends-option ((mccr_feature_report_new grants c 0).0) _ _
            (given_up-Ends device (record device { desc = some fresh; hid = some d }) heap fresh c
              refl refl)
            (λ report. returns (opened c d report)))

  -- Opening a device that is not open comes to an end, and reads only inside objects, or a failed
  -- `assert` of the descriptor parser stops it. When it returns, either the result is OK, and the device
  -- has a context, a handle, a feature report and one reference more; or the result is FAILED, and the
  -- device has none of the three and its references are as before. In both cases no context of the heap
  -- but the one at the address given has changed, and after a failure the context that was made, if
  -- any, has lost a reference. The allocation of the context is granted, and the descriptor that is read
  -- has fewer than 2 ^ 32 - 1 bytes.
  pub mccr_device_open-Settled :
      (device : Device D) (heap : Contexts) (fresh : ℕ)
      → device.desc ≡ none
      → parse_grants 0 sizeof_context ≡ true
      → length (read_report_descriptor device.path).1 + 1 < 2 ^ 32
      → Ends (Settled device heap fresh) (
          mccr_device_open hidapi grants parse_grants log_is_enabled read_report_descriptor device
            heap fresh)
  unfolding mccr_device_open
  mccr_device_open-Settled device heap fresh shut granted short =
      let nothing : is_null device.desc ≡ true = ap is_null shut in
      let refuse = refused-Ends device heap fresh shut in
      rw nothing (
        Ends-if _ _ _ (λ _. refuse)
          (λ _.
            Ends-bind _
              (parse-Ends parse_grants log_is_enabled (read_report_descriptor device.path).1 granted
                short)
              (λ (parsed, desc) _. Ends-option desc _ _ refuse (λ c.
                Ends-if (is_ok parsed) _ _ (λ _. open_parsed-Ends device heap fresh c)
                  (λ _. refuse)))))
