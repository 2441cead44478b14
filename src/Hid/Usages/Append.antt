-- ===== src/Hid/Usages/Append.antt =====
-- The shape of the growable arrays of src/libmccr/mccr-hid.c, and append_to_usage_array.
use mccr.Prelude.{
  ℕ, zero, suc, ◌+◌, ◌*◌, ◌%◌, ◌^◌, ◌≤◌, ◌<◌, ◌≡◌, refl, ◌∙◌, ◌⊎◌, inl, inr, true, false, List, [],
  ◌++◌, some, ap, ◌∷◌, ok, aborted, Ends, returns, aborts, arith, ltb, ◌==◌, le→leb, le→ltb, lt→ltb,
  if◌then◌else◌, Bool-cases, length, memcpy, take_all, drop_all, length-append, append-nil,
}
use mccr.Hid.Usages.{
  Usage, UsageArray, empty_array, size_mod, sizeof_usage, is_null, target, contents, Allocator,
  grow, copy_items, append_to_usage_array,
}

-- The size is that of what has been written, it fits, and there is no memory exactly for NULL.
pub record IsArray (a : UsageArray) : Type 0 where
  pub size_is : a.size ≡ length (target a.buffer)
  pub room : a.size ≤ a.allocated
  pub null_iff : is_null a.buffer ≡ (a.allocated == 0)

pub empty_array-IsArray : IsArray empty_array
empty_array-IsArray = record { size_is = refl; room = omega arith; null_iff = refl }

pub contents-target : {a : UsageArray} → IsArray a → contents a ≡ target a.buffer
contents-target {a} v = take_all a.size (target a.buffer) (omega arith)

pub length-contents : {a : UsageArray} → IsArray a → length (contents a) ≡ a.size
length-contents v = rw (contents-target v) (omega arith)

-- The doubling ends, wide enough and at most twice as wide as needed.
grow_lem :
    (fuel need allocated : ℕ)
    → 0 < fuel
    → need ≤ fuel + allocated
    → allocated < need
    → need ≤ 2 ^ 63
    → (c : ℕ) × (grow fuel need allocated ≡ ok c) × (need ≤ c) × (c ≤ 2 * need)
unfolding grow
grow_lem zero need a f h lt b = absurd (omega arith)
grow_lem (suc fuel) need a f h lt b = elim (Bool-cases (ltb (next a) need)) [
  | inl more ↦ rw more (grow_lem fuel need (next a) (ground arith) (ground arith) (ground arith) b)
  | inr done ↦ (next a, rw done, ground arith, ground arith)
]
  where
    next : ℕ → ℕ
    next a = if ltb 0 a then (a * 2) % size_mod else 2

abbrev appended : UsageArray → ℕ → List Usage → UsageArray
appended a allocated items = record {
  buffer = some (target a.buffer ++ items);
  size = a.size + length items;
  allocated = allocated;
}

appended-IsArray :
    {a : UsageArray} (c : ℕ) (items : List Usage)
    → IsArray a
    → a.size + length items ≤ c
    → 0 < c
    → IsArray (appended a c items)
appended-IsArray {a} c items v h pos = record {
  size_is = omega (arith, length-append (target a.buffer) items);
  room = h;
  null_iff = ground arith;
}

-- What `memcpy` leaves behind the last element of a well-formed array.
memcpy-append :
    {a : UsageArray} (items : List Usage)
    → IsArray a
    → memcpy (target a.buffer) a.size items ≡ target a.buffer ++ items
memcpy-append {a} items v = rw (
  take_all a.size (target a.buffer) (omega arith),
  drop_all (a.size + length items) (target a.buffer) (omega arith),
  append-nil,
)

module _ (grants : Allocator) (items : List Usage) (calls : ℕ) where
  -- An array that is not NULL, with room: the items go behind the others, no memory is asked for.
  append_in_place :
      {a : UsageArray}
      → IsArray a
      → a.size + length items ≤ a.allocated
      → 0 < a.allocated
      → append_to_usage_array grants a items calls ≡ ok (appended a a.allocated items, calls)
  unfolding append_to_usage_array copy_items
  append_in_place {a} v h pos =
      let some_buffer : is_null a.buffer ≡ false = ground arith in
      rw (le→ltb _ _ h, le→leb _ _ h, some_buffer, memcpy-append items v)

  -- No room: the array is widened, or lost where the memory is refused.
  append_grown :
      {a : UsageArray}
      → IsArray a
      → a.allocated < a.size + length items
      → a.size + length items ≤ 2 ^ 63
      → (c : ℕ) × (a.size + length items ≤ c)
        × (append_to_usage_array grants a items calls
            ≡ ok (
              if grants calls ((sizeof_usage * c) % size_mod)
                  then appended a c items
                  else empty_array,
              calls + 1,
            ))
  unfolding append_to_usage_array copy_items
  append_grown {a} v h b =
      let need = a.size + length items in
      let (c, g, lo, hi) = grow_lem need need a.allocated (omega arith) (omega arith) h b in
      (
        c,
        lo,
        rw (lt→ltb _ _ h, g, le→leb _ _ lo, memcpy-append items v)
            (elim (Bool-cases (grants calls ((sizeof_usage * c) % size_mod))) [
              | inl y ↦ rw y
              | inr n ↦ rw n
            ]),
      )

  contents-appended :
      {a : UsageArray} (c : ℕ)
      → IsArray a
      → a.size + length items ≤ c
      → 0 < c
      → contents (appended a c items) ≡ contents a ++ items
  contents-appended {a} c v h pos =
      contents-target (appended-IsArray c items v h pos) ∙ rw (contents-target v)

  -- Appending to a well-formed array, within the limits of memory, returns a well-formed array: the
  -- items stand behind those that were there, or the array is empty and memory has been refused.
  pub append-IsArray :
      (a : UsageArray)
      → IsArray a
      → 0 < a.allocated + length items
      → a.size + length items ≤ 2 ^ 63
      → (b : UsageArray) × (n : ℕ) × (append_to_usage_array grants a items calls ≡ ok (b, n))
        × IsArray b
        × ((contents b ≡ contents a ++ items) ⊎ ((b ≡ empty_array) × (n ≡ calls + 1)))
  append-IsArray a v work b = elim (Bool-cases (ltb a.allocated (a.size + length items))) [
    | inr fits ↦
        let h : a.size + length items ≤ a.allocated = ground arith in
        (
          appended a a.allocated items,
          calls,
          append_in_place v h (omega arith),
          appended-IsArray a.allocated items v h (omega arith),
          inl (contents-appended a.allocated v h (omega arith)),
        )
    | inl full ↦
        let h : a.allocated < a.size + length items = ground arith in
        let (c, lo, e) = append_grown v h b in
        elim (Bool-cases (grants calls ((sizeof_usage * c) % size_mod))) [
          | inl y ↦ (
            appended a c items,
            calls + 1,
            rw y at e,
            appended-IsArray c items v lo (omega arith),
            inl (contents-appended c v lo (omega arith)),
          )
          | inr n ↦ (empty_array, calls + 1, rw n at e, empty_array-IsArray, inr (refl, refl))
        ]
  ]

  -- Where every request is granted, append is list append.
  pub append_granted :
      (a : UsageArray)
      → IsArray a
      → 0 < a.allocated + length items
      → a.size + length items ≤ 2 ^ 63
      → ((n bytes : ℕ) → grants n bytes ≡ true)
      → (b : UsageArray) × (n : ℕ) × (append_to_usage_array grants a items calls ≡ ok (b, n))
        × IsArray b
        × (contents b ≡ contents a ++ items)
  append_granted a v work b all = elim (Bool-cases (ltb a.allocated (a.size + length items))) [
    | inr fits ↦
        let h : a.size + length items ≤ a.allocated = ground arith in
        (
          appended a a.allocated items,
          calls,
          append_in_place v h (omega arith),
          appended-IsArray a.allocated items v h (omega arith),
          contents-appended a.allocated v h (omega arith),
        )
    | inl full ↦
        let h : a.allocated < a.size + length items = ground arith in
        let (c, lo, e) = append_grown v h b in
        (
          appended a c items,
          calls + 1,
          rw (all calls ((sizeof_usage * c) % size_mod)) at e,
          appended-IsArray c items v lo (omega arith),
          contents-appended c v lo (omega arith),
        )
  ]

-- The size of what append returns.
append_work :
    (grants : Allocator) (items : List Usage) (calls : ℕ) (a : UsageArray)
    → IsArray a
    → 0 < a.allocated + length items
    → a.size + length items ≤ 2 ^ 63
    → Ends
        (λ (b, n). IsArray b × (b.size ≤ a.size + length items))
        (append_to_usage_array grants a items calls)
append_work grants items calls a v work h =
    let (b, n, e, w, how) = append-IsArray grants items calls a v work h in
    rw e (returns (w, size b n w how))
  where
    size :
        (b : UsageArray) (n : ℕ)
        → IsArray b
        → ((contents b ≡ contents a ++ items) ⊎ ((b ≡ empty_array) × (n ≡ calls + 1)))
        → b.size ≤ a.size + length items
    size b n w (inl same) = omega (
      arith,
      length-contents w,
      length-contents v,
      ap length same,
      length-append (contents a) items,
    )
    size b n w (inr (gone, _)) = omega (arith, ap (λ (x : UsageArray). x.size) gone)

-- Appending nothing to an array that is NULL stops the process: `assert (*array)` fails.
pub append_aborts :
    (grants : Allocator) (calls : ℕ) (a : UsageArray)
    → IsArray a
    → a.allocated ≡ 0
    → append_to_usage_array grants a [] calls ≡ aborted
unfolding append_to_usage_array copy_items
append_aborts grants calls a v e =
    let null : is_null a.buffer ≡ true = ground arith in
    rw (
      le→ltb a.allocated (a.size + 0) (omega arith),
      le→leb (a.size + 0) a.allocated (omega arith),
      null,
    )

-- Whatever is appended, and whatever memory is granted, a well-formed array stays one, and no longer
-- than its items and the new ones.
pub append-Ends :
    (grants : Allocator) (items : List Usage) (calls : ℕ) (a : UsageArray)
    → IsArray a
    → a.size + length items ≤ 2 ^ 63
    → Ends
        (λ (b, n). IsArray b × (b.size ≤ a.size + length items))
        (append_to_usage_array grants a items calls)
append-Ends grants [] calls a v h = elim (Bool-cases (a.allocated == 0)) [
  | inl null ↦ rw (append_aborts grants calls a v (ground arith)) aborts
  | inr some_room ↦ append_work grants [] calls a v (ground arith) h
]
append-Ends grants (u ∷ us) calls a v h = append_work grants (u ∷ us) calls a v (omega arith) h
