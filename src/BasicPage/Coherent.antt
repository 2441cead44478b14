-- ===== src/BasicPage/Coherent.antt =====
-- The keys of the page of src/mccr-gtk/mui-page-basic.c that are marked as set are the right ones.
use mccr.Prelude.{
  ℕ, ◌≡◌, refl, Bool, true, false, not, ◌||◌, [], ◌∷◌, some, arith, length, IfReturns, value,
  IfReturns-bind, IfReturns-map, IfReturns-if, IfReturns-then, ◌+◌, ◌/◌, memcpy, replicate,
}
use mccr.Prelude.Bytes.{Bytes, same_bytes}
use mccr.Prelude.Int.{ℤ, lt_int, is_int}
use mccr.Common.{Ssize, count, minus, strbin, strhex, strascii}
use mccr.Prelude.Text.{c_string}
use mccr.Dukpt.{Dukpt}
use mccr.BasicPage.{
  BasicPage, Track, put_track, not_available, with_ipek, reload_decryption_key, show_decrypted,
  show_converted, reload_track_decryption, reload_decryption,
}

-- The initial key is that of the base key and of the serial number, and the key for the decryption is
-- that of the initial key, of the serial number and of the type, wherever they are marked as set.
pub record IsCoherent (dukpt : Dukpt) (self : BasicPage) : Type 0 where
  pub initial_key :
      self.ipek_set ≡ true
      → (self.bdk_set ≡ true)
        × (self.ksn_set ≡ true)
        × (self.ipek ≡ dukpt.compute_ipek self.bdk self.ksn)
  pub key :
      self.decryption_key_set ≡ true
      → (self.ipek_set ≡ true)
        × (self.decryption_key ≡ dukpt.compute_key self.ipek self.ksn self.key_type)

module _ {dukpt : Dukpt} {self : BasicPage} where
  -- No key is set.
  pub nothing_set : self.ipek_set ≡ false → self.decryption_key_set ≡ false → IsCoherent dukpt self
  nothing_set no_ipek no_key = record { initial_key = λ h. (cc); key = λ h. (cc) }

  -- The key for the decryption is not set.
  no_key_set :
      (self' : BasicPage)
      → IsCoherent dukpt self
      → self'.decryption_key_set ≡ false
      → (self'.ipek_set ≡ self.ipek_set)
        × (self'.bdk_set ≡ self.bdk_set)
        × (self'.ksn_set ≡ self.ksn_set)
        × (self'.ipek ≡ self.ipek)
        × (self'.bdk ≡ self.bdk)
        × (self'.ksn ≡ self.ksn)
      → IsCoherent dukpt self'
  no_key_set self' v no_key same = record {
    initial_key = λ h. ground (arith, v.initial_key);
    key = λ h. (cc);
  }

module _ (dukpt : Dukpt) (isprint : ℕ → Bool) (atoi : Bytes → ℤ) (granted : Bool) where
  -- The initial key is set, and no key for the decryption.
  HasIpek : BasicPage → Type 0
  HasIpek self = IsCoherent dukpt self × (self.ipek_set ≡ true)

  with_ipek-HasIpek :
      (self : BasicPage)
      → IsCoherent dukpt self
      → self.decryption_key_set ≡ false
      → self.ksn_set ≡ true
      → self.bdk_set ≡ true
      → IfReturns HasIpek (with_ipek dukpt isprint atoi granted self)
  unfolding with_ipek HasIpek
  with_ipek-HasIpek self v unset has_ksn has_bdk =
      IfReturns-if self.ipek_set _ _ (λ known. value (v, known))
        (λ _.
          IfReturns-map _
            (λ _. record self { ipek_set = true; ipek = dukpt.compute_ipek self.bdk self.ksn })
            (λ _. (
              record { initial_key = λ _. (has_bdk, has_ksn, refl); key = λ h. (cc (h, unset)) },
              refl,
            )))

  pub reload_decryption_key-IsCoherent :
      (self : BasicPage)
      → IsCoherent dukpt self
      → IfReturns (IsCoherent dukpt) (reload_decryption_key dukpt isprint atoi granted self)
  unfolding reload_decryption_key HasIpek
  reload_decryption_key-IsCoherent self v =
      IfReturns-if self.decryption_key_set _ _ (λ _. value v)
        (λ unset.
          IfReturns-if (not self.ksn_set) _ _ (λ _. value v)
            (λ has_ksn.
              IfReturns-if (not self.bdk_set) _ _ (λ _. value v)
                (λ has_bdk.
                  IfReturns-then _ (with_ipek-HasIpek self v unset (ground arith) (ground arith))
                    (λ s w.
                      IfReturns-map _
                        (λ _. record s {
                          decryption_key = dukpt.compute_key s.ipek s.ksn s.key_type;
                          decryption_key_set = true;
                        })
                        (λ _. record { initial_key = w.0.initial_key; key = λ _. (w.1, refl) })))))

  -- A function that changes only the labels of tracks keeps the keys.
  pub put_track-IsCoherent :
      (self : BasicPage) (n : ℕ) (track : Track)
      → IsCoherent dukpt self
      → IsCoherent dukpt (put_track self n track)
  put_track-IsCoherent self n track v = record { initial_key = v.initial_key; key = v.key }

  show_decrypted-IsCoherent :
      (self : BasicPage) (n : ℕ) (input : Bytes) (size buffer_size : ℕ)
      → IsCoherent dukpt self
      → IfReturns
          (IsCoherent dukpt)
          (show_decrypted dukpt isprint atoi granted self n input size buffer_size)
  unfolding show_decrypted
  show_decrypted-IsCoherent self n input size buffer_size v =
      let output = memcpy (replicate buffer_size 0) 0 (dukpt.decrypt self.decryption_key input) in
      IfReturns-bind (strhex granted output size (some (b' ' ∷ []))) _ (λ hex _.
        IfReturns-map (strascii isprint granted output size)
          (λ text.
            put_track self n
              (record (self.tracks n) { dec_hex = c_string hex; ascii = c_string text }))
          (λ text. put_track-IsCoherent self n _ v))

  -- the case of reload_track_decryption that strbin decides
  converted-IsCoherent :
      (self : BasicPage) (n buffer_size : ℕ) (converted : Ssize) (input : Bytes)
      → IsCoherent dukpt self
      → IfReturns
          (IsCoherent dukpt)
          (show_converted dukpt isprint atoi granted self n buffer_size converted input)
  unfolding show_converted
  converted-IsCoherent self n buffer_size (minus error) input v = value v
  converted-IsCoherent self n buffer_size (count size) input v =
      IfReturns-if (is_int self.security_level 2 || not self.decryption_switch) _ _
        (λ _.
          IfReturns-map _
            (λ text.
              put_track self n
                (record (self.tracks n) { dec_hex = not_available; ascii = c_string text }))
            (λ text. put_track-IsCoherent self n _ v))
        (λ _.
          IfReturns-if (not self.decryption_key_set) _ _ (λ _. value v)
            (λ _. show_decrypted-IsCoherent self n input size buffer_size v))

  reload_track_decryption-IsCoherent :
      (self : BasicPage) (n : ℕ)
      → IsCoherent dukpt self
      → IfReturns (IsCoherent dukpt) (reload_track_decryption dukpt isprint atoi granted self n)
  unfolding reload_track_decryption
  reload_track_decryption-IsCoherent self n v =
      IfReturns-if (lt_int self.security_level 2) _ _ (λ _. value v)
        (λ _.
          IfReturns-if (same_bytes (self.tracks n).original not_available) _ _ (λ _. value v)
            (λ _.
              let original = (self.tracks n).original in
              let buffer_size = 1 + length original / 2 in
              IfReturns-bind (strbin original buffer_size) _ (λ (converted, input) _.
                converted-IsCoherent self n buffer_size converted input v)))

  pub reload_decryption-IsCoherent :
      (self : BasicPage)
      → IsCoherent dukpt self
      → IfReturns (IsCoherent dukpt) (reload_decryption dukpt isprint atoi granted self)
  unfolding reload_decryption
  reload_decryption-IsCoherent self v =
      IfReturns-then _ (reload_decryption_key-IsCoherent self v) (λ keyed v0.
        IfReturns-then _ (reload_track_decryption-IsCoherent keyed 1 v0) (λ first v1.
          IfReturns-then _ (reload_track_decryption-IsCoherent first 2 v1)
            (λ second v2. reload_track_decryption-IsCoherent second 3 v2)))
