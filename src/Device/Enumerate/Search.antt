-- ===== src/Device/Enumerate/Search.antt =====
-- What mccr_device_new of src/libmccr/mccr.c finds.
use mccr.Prelude.{
  ℕ, ◌+◌, ◌*◌, ◌≡◌, refl, ap, ◌∙◌, true, false, List, [], ◌∷◌, Option, none, some, Run, arith,
  Bool-cases, if_cases, inl, inr, ◌⊎◌, length, Returns, returned, Returns-bind, Returns-if,
}
use mccr.Prelude.Bytes.{Bytes}
use mccr.Hid.Usages.{Allocator}
use mccr.Device.{Device, HidDeviceInfo, assemble, duplicate, device_new, mccr_device_is_open}
use mccr.Device.Enumerate.{same_text, compare_path, find_device, or_next, new_from, mccr_device_new}
use mccr.Device.Enumerate.Listed.{AllPaths}

-- What mccr_device_new finds: nothing, or a device with one reference that is closed and has the path.
pub data Found {D : Type 0} (path : Bytes) : Option (Device D) × ℕ → Type 0 where
  missing : {calls : ℕ} → Found path (none, calls)
  found :
      {device : Device D} {calls : ℕ}
      → device.path ≡ some path
      → device.refcount ≡ 1
      → mccr_device_is_open device ≡ false
      → Found path (some device, calls)

same_text-≡ : (a b : Bytes) → same_text a b ≡ true → a ≡ b
same_text-≡ [] [] h = refl
same_text-≡ [] (y ∷ ys) h = cc
same_text-≡ (x ∷ xs) [] h = cc
same_text-≡ (x ∷ xs) (y ∷ ys) h =
    let first : x ≡ y = ground arith in
    let rest : same_text xs ys ≡ true = ground arith in
    rw first (ap (◌∷◌ y) (same_text-≡ xs ys rest))

module _ (grants : Allocator) where
  duplicate-same :
      (o : Option (List ℕ)) (path : Bytes) (width calls : ℕ)
      → o ≡ some path
      → ((duplicate grants width o calls).0 ≡ none)
        ⊎ ((duplicate grants width o calls).0 ≡ some path)
  duplicate-same none path width calls e = absurd (cc (e))
  duplicate-same (some q) path width calls e =
      elim (Bool-cases (grants calls (width * (length q + 1)))) [
        | inl granted ↦ inr (rw granted e)
        | inr refused ↦ inl (rw refused refl)
      ]

module _ {D : Type 0} (grants : Allocator) where
  assemble-Found :
      (info : HidDeviceInfo) (o : Option Bytes) (path : Bytes) (s m t : Option (List ℕ)) (calls : ℕ)
      → (o ≡ none) ⊎ (o ≡ some path)
      → Found {D = D} path (assemble info o s m t, calls)
  unfolding assemble mccr_device_is_open
  assemble-Found info none path s m t calls h = missing
  assemble-Found info (some q) path s m t calls (inl e) = absurd (cc (e))
  assemble-Found info (some q) path s m t calls (inr e) = found e refl refl

  device_new-Found :
      (info : HidDeviceInfo) (path : Bytes) (calls : ℕ)
      → info.path ≡ some path
      → Found {D = D} path (device_new grants info calls)
  unfolding device_new
  device_new-Found info path calls e =
      if_cases (Found path) (grants calls 72) _ _
        (λ _.
          assemble-Found info _ path _ _ _ _ (duplicate-same grants info.path path 1 (calls + 1) e))
        (λ _. missing)

  find_device-Found :
      (path : Bytes) (infos : List HidDeviceInfo) (calls : ℕ)
      → AllPaths infos
      → Returns (Found {D = D} path) (find_device grants (some path) infos calls)
  unfolding find_device
  find_device-Found path [] calls v = returned missing
  find_device-Found path (info ∷ infos) calls v =
      let (p, e) = v.0 in
      rw (ap (λ (o : Option Bytes). compare_path o path) e) (
        Returns-if (same_text p path) _ _
          (λ same.
            returned (device_new-Found info path calls (e ∙ ap some (same_text-≡ p path same))))
          (λ _. find_device-Found path infos calls v.1))

  or_next-Found :
      (path : Bytes) (next : ℕ → Run (Option (Device D) × ℕ)) (result : Option (Device D) × ℕ)
      → Found path result
      → ((calls : ℕ) → Returns (Found path) (next calls))
      → Returns (Found path) (or_next next result)
  unfolding or_next
  or_next-Found path next (none, calls) missing go = go calls
  or_next-Found path next (some device, calls) (found e one shut) go = returned (found e one shut)

  -- While every device that hidapi enumerates has a path, mccr_device_new for a path returns, whatever
  -- memory is granted: with nothing, or with a device of this path that is closed and has one
  -- reference.
  pub mccr_device_new-Found :
      (hid_enumerate : ℕ → List HidDeviceInfo) (path : Bytes) (calls : ℕ)
      → AllPaths (hid_enumerate 0x0801)
      → AllPaths (hid_enumerate 0x2e81)
      → Returns (Found {D = D} path) (mccr_device_new grants hid_enumerate (some path) calls)
  unfolding mccr_device_new new_from
  mccr_device_new-Found hid_enumerate path calls v w =
      Returns-bind _ (find_device-Found path (hid_enumerate 0x0801) calls v) (λ result here.
        or_next-Found path _ result here (λ calls'.
          Returns-bind _ (find_device-Found path (hid_enumerate 0x2e81) calls' w)
            (λ result' here'. or_next-Found path _ result' here' (λ _. returned missing))))
