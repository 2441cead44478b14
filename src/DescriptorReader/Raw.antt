-- ===== src/DescriptorReader/Raw.antt =====
-- mccr_read_report_descriptor of src/libmccr/mccr-raw.c, over the calls of the kernel.
use mccr.Prelude.{
  ℕ, ◌≡◌, refl, true, List, [], ◌∷◌, Option, none, some, Run, ok, ◌>>=◌, if◌then◌else◌, read_block,
  ◌⊎◌, inl, inr,
}
use mccr.Prelude.Bytes.{Bytes}
use mccr.Prelude.Int.{ℤ, pos, negsuc, is_negative}
use mccr.Hid.Usages.{Allocator}
use mccr.Status.{Status}
use mccr.DescriptorReader.{file, Event, acquire, release, replay}

-- What the calls return, and what they write: the size of the descriptor, and the bytes of the buffer
-- for it.
pub record Kernel : Type 0 where
  pub open_file : Bytes → ℤ
  pub get_descriptor_size : ℤ × ℕ
  pub get_descriptor : ℕ → ℤ × Bytes

module _ (kernel : Kernel) (grants : Allocator) where
  -- the copy of the descriptor, and the `out` that closes the file
  unfoldable pub copy_descriptor : ℕ → ℤ × Bytes → Run (Status × Option Bytes × List Event)
  copy_descriptor size (result, value) =
      if is_negative result
      then ok (Status.failed, none, [])
      else if grants 0 size
      then (do desc ← read_block value 0 size; ok (Status.ok, some desc, release file ∷ []))
      else ok (Status.failed, none, release file ∷ [])

  -- from the size of the descriptor on
  unfoldable pub read_size : ℤ × ℕ → Run (Status × Option Bytes × List Event)
  unfolding copy_descriptor
  read_size (result, size) =
      if is_negative result
      then ok (Status.failed, none, [])
      else copy_descriptor size (kernel.get_descriptor size)

  -- mccr_read_report_descriptor, as it is built with hidraw
  unfoldable pub mccr_read_raw_descriptor : Bytes → Run (Status × Option Bytes × List Event)
  unfolding read_size
  mccr_read_raw_descriptor path =
      if is_negative (kernel.open_file path) then ok (Status.failed, none, []) else do
        (st, desc, events) ← read_size kernel.get_descriptor_size
        ok (st, desc, acquire file ∷ events)

  -- If the file can be opened but one of the two questions about the descriptor fails, the function
  -- returns FAILED without a descriptor and the file stays open.
  pub mccr_read_raw_descriptor-leak :
      (path : Bytes) (fd size : ℕ) (result : ℤ)
      → kernel.open_file path ≡ pos fd
      → kernel.get_descriptor_size ≡ (result, size)
      → (is_negative result ≡ true) ⊎ (is_negative ((kernel.get_descriptor size).0) ≡ true)
      → (events : List Event) × (mccr_read_raw_descriptor path ≡ ok (Status.failed, none, events))
        × (replay [] events ≡ some (file ∷ []))
  unfolding mccr_read_raw_descriptor read_size copy_descriptor
  mccr_read_raw_descriptor-leak path fd size result opened asked (inl failed) =
      (acquire file ∷ [], rw opened (rw asked (rw failed refl)), refl)
  mccr_read_raw_descriptor-leak path fd size (negsuc n) opened asked (inr failed) =
      (acquire file ∷ [], rw opened (rw asked refl), refl)
  mccr_read_raw_descriptor-leak path fd size (pos n) opened asked (inr failed) =
      (acquire file ∷ [], rw opened (rw asked (rw failed refl)), refl)
