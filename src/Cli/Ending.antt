-- ===== src/Cli/Ending.antt =====
-- The end of main of src/mccr-cli/mccr-cli.c: what becomes of the device.
use mccr.Prelude.{ℕ, ◌≡◌, none, some, ok}
use mccr.Hid.Context.{DescriptorContext, context_unref}
use mccr.Device.{Device, Contexts, update, mccr_device_unref}
use mccr.Device.Lifetime.{close-open}
use mccr.Cli.Main.{clean_exit}

module _ {D : Type 0} where
  -- An open device with the two references that its creation and its opening leave, whose context is
  -- in the heap, is disposed of: its end closes it, gives the reference to the context back, fails no
  -- assert, follows no pointer to a freed device and frees the device.
  pub clean_exit-dispose :
      (device : Device D) (heap : Contexts) (p : ℕ) (c : DescriptorContext)
      → device.refcount ≡ 2
      → device.desc ≡ some p
      → heap p ≡ some c
      → clean_exit device heap ≡ ok (none, update heap p (context_unref c))
  unfolding clean_exit mccr_device_unref
  clean_exit-dispose device heap p c count opened e =
      rw (close-open device heap p c opened e) (simp count)
