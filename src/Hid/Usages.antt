-- ===== src/Hid/Usages.antt =====
-- `usage_t` and its growable arrays: append_to_usage_array, cleanup_usage_array and
-- lookup_usage_array of src/libmccr/mccr-hid.c.
pub mod Append
use mccr.Prelude.{
  ℕ, zero, suc, ◌+◌, ◌*◌, ◌%◌, ◌^◌, Bool, true, false, not, List, [], ◌∷◌, Option, none, some, Run,
  ok, out_of_fuel, ◌>>=◌, ◌>>◌, assert, ltb, leb, ◌==◌, if◌then◌else◌, length, take, memcpy,
}

pub record Usage : Type 0 where
  pub id : ℕ
  pub size_bits : ℕ
  pub offset_bits : ℕ

-- sizeof (usage_t), three `uint32_t`
abbrev pub sizeof_usage : ℕ
sizeof_usage = 12

-- values of a `size_t`
abbrev pub size_mod : ℕ
size_mod = 2 ^ 64

-- The three variables that stand for one array: `buffer` is what the pointer leads to, with `none`
-- for NULL, as far as it has been written.
pub record UsageArray : Type 0 where
  pub buffer : Option (List Usage)
  pub size : ℕ
  pub allocated : ℕ

abbrev pub empty_array : UsageArray
empty_array = record { buffer = none; size = 0; allocated = 0 }

abbrev pub is_null {ℓ} : {A : Type ℓ} → Option A → Bool
is_null none = true
is_null (some _) = false

-- the memory behind a pointer, nothing for NULL
abbrev pub target {ℓ} : {A : Type ℓ} → Option (List A) → List A
target none = []
target (some xs) = xs

-- the elements 0 to size - 1
abbrev pub contents : UsageArray → List Usage
contents a = take a.size (target a.buffer)

-- What the C library does is not part of the program: whether the `n`-th request for memory, of
-- so many bytes, is granted.
abbrev pub Allocator : Type 0
Allocator = ℕ → ℕ → Bool

-- `do *array_allocated = … while (need > *array_allocated)`
unfoldable pub grow : ℕ → ℕ → ℕ → Run ℕ
grow zero need allocated = out_of_fuel
grow (suc fuel) need allocated =
    let next : ℕ = if ltb 0 allocated then (allocated * 2) % size_mod else 2 in
    let rest = grow fuel need next in if ltb next need then rest else ok next

-- the two `assert`s, the `memcpy` and the new size
unfoldable pub copy_items : UsageArray → List Usage → Run UsageArray
copy_items a items = do
  assert (leb (a.size + length items) a.allocated)
  assert (not (is_null a.buffer))
  ok (record a {
    buffer = some (memcpy (target a.buffer) a.size items);
    size = a.size + length items;
  })

-- `calls` counts the requests made so far; the array comes back with the new count.
unfoldable pub append_to_usage_array :
    Allocator → UsageArray → List Usage → ℕ → Run (UsageArray × ℕ)
append_to_usage_array grants a items calls =
    let need = a.size + length items in
    if ltb a.allocated need
    then (do
      allocated ← grow need need a.allocated
      let moved : UsageArray = record a { buffer = some (target a.buffer); allocated = allocated }
      if grants calls ((sizeof_usage * allocated) % size_mod)
          then (do b ← copy_items moved items; ok (b, calls + 1))
          else ok (empty_array, calls + 1))
    else (do b ← copy_items a items; ok (b, calls))

abbrev pub cleanup_usage_array : UsageArray → UsageArray
cleanup_usage_array a = empty_array

-- the loop over the first `array_size` elements
unfoldable pub lookup_from : List Usage → ℕ → Option Usage
lookup_from [] usage_id = none
lookup_from (u ∷ us) usage_id = if u.id == usage_id then some u else lookup_from us usage_id

unfoldable pub lookup_usage_array : UsageArray → ℕ → Option Usage
lookup_usage_array a usage_id = lookup_from (contents a) usage_id
