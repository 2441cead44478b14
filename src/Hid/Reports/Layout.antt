-- ===== src/Hid/Reports/Layout.antt =====
-- Where process_report of src/libmccr/mccr-hid.c puts the fields of a report.
use mccr.Prelude.{
  ℕ, ◌+◌, ◌*◌, ◌/◌, ◌%◌, ◌^◌, ◌<◌, ◌≤◌, ◌≡◌, refl, ap, ◌∙◌, ◌⊎◌, inl, inr, true, false, List, [],
  ◌∷◌, map, some, Bool-cases, arith, ◌==◌, length, take_all,
}
use mccr.Hid.Usages.{Usage, contents, lookup_from, lookup_usage_array}
use mccr.Hid.Usages.Append.{IsArray, length-contents}
use mathlib.Core.Logic.{◌≢◌}
use mccr.Hid.Context.{Report}
use mccr.Hid.Parser.{word_mod}
use mccr.Hid.Reports.{place, end_offset, placed, process_report}

-- the bits that the fields take together
abbrev pub total_bits : List Usage → ℕ
total_bits [] = 0
total_bits (u ∷ us) = u.size_bits + total_bits us

-- The fields stand one behind the other from a bit offset on, with no gap and no overlap.
abbrev pub Contiguous : ℕ → List Usage → Type 0
Contiguous offset [] = Unit
Contiguous offset (u ∷ us) = (u.offset_bits ≡ offset) × Contiguous (offset + u.size_bits) us

-- A usage up to its offset.
abbrev pub without_offset : Usage → ℕ × ℕ
without_offset u = (u.id, u.size_bits)

pub place-Contiguous :
    (offset : ℕ) (us : List Usage)
    → offset + total_bits us < 2 ^ 32
    → Contiguous offset (place offset us)
unfolding place
place-Contiguous offset [] h = tt
place-Contiguous offset (u ∷ us) h =
    let same : (offset + u.size_bits) % word_mod ≡ offset + u.size_bits = omega arith in
    (refl, rw same (place-Contiguous (offset + u.size_bits) us (omega arith)))

pub map-place :
    (offset : ℕ) (us : List Usage) → map without_offset (place offset us) ≡ map without_offset us
unfolding place
map-place offset [] = refl
map-place offset (u ∷ us) =
    ap (◌∷◌ (without_offset u)) (map-place ((offset + u.size_bits) % word_mod) us)

pub length-place : (offset : ℕ) (us : List Usage) → length (place offset us) ≡ length us
unfolding place
length-place offset [] = refl
length-place offset (u ∷ us) = omega (arith, length-place ((offset + u.size_bits) % word_mod) us)

end_offset-mod :
    (offset : ℕ) (us : List Usage)
    → end_offset (offset % word_mod) us ≡ (offset + total_bits us) % word_mod
unfolding end_offset
end_offset-mod offset [] = omega arith
end_offset-mod offset (u ∷ us) =
    let same : (offset % word_mod + u.size_bits) % word_mod ≡ (offset + u.size_bits) % word_mod =
      omega arith in
    rw (same, end_offset-mod (offset + u.size_bits) us) (omega arith)

-- The end of the last field, in the 32 bits of the counter.
pub end_offset-total_bits : (us : List Usage) → end_offset 0 us ≡ total_bits us % word_mod
end_offset-total_bits us = end_offset-mod 0 us ∙ omega arith

-- A field found by its id lies between the first bit and the end of the last field.
lookup_from-inside :
    (us : List Usage) (offset usage_id : ℕ) {u : Usage}
    → Contiguous offset us
    → lookup_from us usage_id ≡ some u
    → (offset ≤ u.offset_bits)
      × (u.offset_bits + u.size_bits ≤ offset + total_bits us)
      × (u.id ≡ usage_id)
unfolding lookup_from
lookup_from-inside [] offset usage_id c e = cc
lookup_from-inside (x ∷ us) offset usage_id {u} c e =
    ground (arith, lookup_from-inside us (offset + x.size_bits) usage_id {u = u} c.1)

-- The usages of a report after process_report has placed them.
contents-placed :
    (r : Report) → IsArray r.usages → contents (placed r).usages ≡ place 0 (contents r.usages)
contents-placed r v =
    take_all r.usages.size (place 0 (contents r.usages))
      (omega (arith, length-place 0 (contents r.usages), length-contents v))

-- What an accepted report looks like: it has usages, their ids and sizes are those collected, and
-- its size is their total in 32 bits, a whole number of bytes.
pub record IsLaidOut (r r' : Report) : Type 0 where
  pub some_usage : 0 < r.usages.size
  pub fields : map without_offset (contents r'.usages) ≡ map without_offset (contents r.usages)
  pub total_is : r'.size ≡ total_bits (contents r.usages) % 2 ^ 32 / 8
  pub whole : total_bits (contents r.usages) % 8 ≡ 0
  pub array : IsArray r'.usages

placed-IsArray : (r : Report) → IsArray r.usages → 0 < r.usages.size → IsArray (placed r).usages
placed-IsArray r v pos = record {
  size_is = omega (arith, length-place 0 (contents r.usages), length-contents v);
  room = v.room;
  null_iff = ground arith;
}

-- process_report accepts exactly the reports that have a usage and whose bits make whole bytes. A
-- report that it accepts keeps its fields in order, but for the offsets, and gets as its size the total
-- of the bits, in 32 bits, over 8. The array of the report is well formed.
pub process_report_lem :
    (r : Report)
    → IsArray r.usages
    → (((process_report r).1 ≡ false) × IsLaidOut r (process_report r).0)
      ⊎ (((process_report r).1 ≡ true)
          × ((r.usages.size ≡ 0) ⊎ (total_bits (contents r.usages) % 8 ≢ 0)))
unfolding process_report
process_report_lem r v = elim (Bool-cases (r.usages.size == 0)) [
  | inl none_given ↦ inr (simp none_given, inl (ground arith))
  | inr given ↦ elim (Bool-cases (end_offset 0 (contents r.usages) % 8 == 0)) [
    | inl whole ↦ inl (
      simp (given, whole),
      simp (given, whole)
          (record {
            some_usage = ground arith;
            fields = rw (contents-placed r v) (map-place 0 (contents r.usages));
            total_is = rw (end_offset-total_bits (contents r.usages)) refl;
            whole = ground (arith, end_offset-total_bits (contents r.usages));
            array = placed-IsArray r v (ground arith);
          }),
    )
    | inr broken ↦
        inr (simp (given, broken), inr (ground (arith, end_offset-total_bits (contents r.usages))))
  ]
]

total_of : List (ℕ × ℕ) → ℕ
total_of [] = 0
total_of ((_, bits) ∷ fs) = bits + total_of fs

total_bits-fields : (us : List Usage) → total_bits us ≡ total_of (map without_offset us)
unfolding total_of
total_bits-fields [] = refl
total_bits-fields (u ∷ us) = omega (arith, total_bits-fields us)

total_bits-place : (us : List Usage) → total_bits (place 0 us) ≡ total_bits us
total_bits-place us = total_bits-fields (place 0 us) ∙ rw (map-place 0 us, ← total_bits-fields us)

accepted_usages :
    (r : Report)
    → IsArray r.usages
    → (process_report r).1 ≡ false
    → contents (process_report r).0.usages ≡ place 0 (contents r.usages)
unfolding process_report
accepted_usages r v accepted = elim (Bool-cases (r.usages.size == 0)) [
  | inl none_given ↦ ground arith
  | inr given ↦ elim (Bool-cases (end_offset 0 (contents r.usages) % 8 == 0)) [
    | inl whole ↦ simp (given, whole) (contents-placed r v)
    | inr broken ↦ simp (given, broken) (contents-placed r v)
  ]
]

-- If the bits of an accepted report do not overflow 32 bits, its fields follow one another from bit 0
-- and end with its last byte.
pub process_report-Contiguous :
    (r : Report)
    → IsArray r.usages
    → total_bits (contents r.usages) < 2 ^ 32
    → (process_report r).1 ≡ false
    → Contiguous 0 (contents (process_report r).0.usages)
      × (8 * (process_report r).0.size ≡ total_bits (contents (process_report r).0.usages))
process_report-Contiguous r v small accepted = elim (process_report_lem r v) [
  | inl (_, l) ↦ (
    rw (accepted_usages r v accepted)
        (place-Contiguous 0 (contents r.usages) (omega (arith, small))),
    rw (accepted_usages r v accepted, total_bits-place) (omega (arith, l.total_is, l.whole)),
  )
  | inr (refused, _) ↦ absurd (cc (refused))
]

-- If the bits of an accepted report do not overflow 32 bits, every field that the look-up finds in it
-- has the id that was looked for and ends inside the report.
pub lookup-inside_report :
    (r : Report) (usage_id : ℕ) {u : Usage}
    → IsArray r.usages
    → total_bits (contents r.usages) < 2 ^ 32
    → (process_report r).1 ≡ false
    → lookup_usage_array (process_report r).0.usages usage_id ≡ some u
    → (u.offset_bits + u.size_bits ≤ 8 * (process_report r).0.size) × (u.id ≡ usage_id)
unfolding lookup_usage_array
lookup-inside_report r usage_id v small accepted e =
    let (c, size) = process_report-Contiguous r v small accepted in
    let inside = lookup_from-inside (contents (process_report r).0.usages) 0 usage_id c e in
    (omega (arith, inside.1, size), inside.2)
