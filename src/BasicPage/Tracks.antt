-- ===== src/BasicPage/Tracks.antt =====
-- What reload_track_decryption of src/mccr-gtk/mui-page-basic.c shows of a track.
use mccr.Prelude.{
  ℕ, ◌+◌, ◌*◌, ◌/◌, ◌%◌, ◌≤◌, ◌<◌, ◌≡◌, refl, sym, ap, ◌∙◌, Bool, true, false, not, [], ◌∷◌, ◌++◌,
  Option, none, some, ok, arith, leb, ◌==◌, ==_iff, Bool-cases, inl, inr, le→leb, if◌then◌else◌,
  length, length-append, take-append, drop, replicate, Returns, returned, ◌^◌,
}
use mccr.Prelude.Bytes.{Bytes, AllBytes, same_bytes}
use mccr.Prelude.Int.{ℤ, pos, negsuc, lt_int, is_int}
use mccr.Common.{hex_digit, strbin, strhex, strascii}
use mccr.Common.Hex.{hex_text}
use mccr.Common.Binary.{strbin-hex_text}
use mccr.Common.Shown.{
  strhex_first, strascii_first, c_string-NoNul, hex_text-NoNul, ascii_text, c_string-ascii_text,
}
use mccr.Dukpt.{Dukpt, KeyType}
use mccr.BasicPage.{
  BasicPage, Track, not_available, put_track, show_decrypted, show_converted,
  reload_track_decryption,
}

-- The documented behaviour of libdukpt: keys have their size, which is small, and what is decrypted in blocks of eight
-- bytes is as long as the input.
pub record IsDukpt (dukpt : Dukpt) : Type 0 where
  pub key_size : 0 < dukpt.sizeof_key
  pub small_keys : dukpt.sizeof_key < 2 ^ 62
  pub ipek_size : (bdk ksn : Bytes) → length (dukpt.compute_ipek bdk ksn) ≡ dukpt.sizeof_key
  pub compute_key_size :
      (ipek ksn : Bytes) (key_type : KeyType)
      → length (dukpt.compute_key ipek ksn key_type) ≡ dukpt.sizeof_key
  pub decrypt_size :
      (key input : Bytes) → length input % 8 ≡ 0 → length (dukpt.decrypt key input) ≡ length input

-- A label that shows nothing, or whole blocks of bytes in hexadecimal, fewer than 2 ^ 62 bytes.
abbrev pub IsSent : Bytes → Option Bytes → Type 0
IsSent label none = label ≡ not_available
IsSent label (some bytes) =
    (label ≡ hex_text (b' ' ∷ []) bytes)
    × AllBytes bytes
    × (0 < length bytes)
    × (length bytes < 2 ^ 62)
    × (length bytes % 8 ≡ 0)

-- strhex with spaces, of a buffer that begins with some bytes.
spaced_text :
    (plain rest : Bytes) (n : ℕ)
    → length plain ≡ n
    → 0 < n
    → n < 2 ^ 62
    → strhex true (plain ++ rest) n (some (b' ' ∷ [])) ≡ ok (hex_text (b' ' ∷ []) plain ++ 0 ∷ [])
spaced_text plain rest n size more small =
    let inside : leb n (length (plain ++ rest)) ≡ true =
      le→leb _ _ (omega (arith, length-append plain rest)) in
    strhex_first (plain ++ rest) n (some (b' ' ∷ [])) more (omega arith)
    ∙ rw inside (
        ap (λ (t : Bytes). ok (hex_text (b' ' ∷ []) t ++ 0 ∷ []))
          (take-append n plain rest (sym size)))

hex_text_size : (delimiter bs : Bytes) → 2 * length bs ≤ length (hex_text delimiter bs)
hex_text_size delimiter [] = omega arith
hex_text_size delimiter (b ∷ []) = omega arith
hex_text_size delimiter (b ∷ c ∷ bs) =
    omega (
      arith,
      hex_text_size delimiter (c ∷ bs),
      length-append delimiter (hex_text delimiter (c ∷ bs)),
    )

hex_digit_differs : (n : ℕ) → n < 16 → (hex_digit n == b'n') ≡ false
hex_digit_differs n h = ground arith

hex_text_is_available :
    (bytes : Bytes)
    → AllBytes bytes
    → 0 < length bytes
    → same_bytes (hex_text (b' ' ∷ []) bytes) not_available ≡ false
hex_text_is_available [] v more = absurd (omega arith)
hex_text_is_available (b ∷ []) v more = rw (hex_digit_differs (b / 16) (omega (arith, v.0))) refl
hex_text_is_available (b ∷ c ∷ bs) v more =
    rw (hex_digit_differs (b / 16) (omega (arith, v.0))) refl

secure_level : (level : ℤ) → lt_int level 3 ≡ false → lt_int level 2 ≡ false
secure_level (pos n) h = ground arith
secure_level (negsuc n) h = h

level_is_not_2 : (level : ℤ) → lt_int level 3 ≡ false → is_int level 2 ≡ false
level_is_not_2 (pos n) h = ground arith
level_is_not_2 (negsuc n) h = refl

-- The labels of a track whose bytes have been decrypted with a key.
abbrev pub decrypted_track : Dukpt → (ℕ → Bool) → Bytes → Track → Option Bytes → Track
decrypted_track dukpt isprint key track none = track
decrypted_track dukpt isprint key track (some bytes) = record track {
  dec_hex = hex_text (b' ' ∷ []) (dukpt.decrypt key bytes);
  ascii = ascii_text isprint (dukpt.decrypt key bytes);
}

-- A page that decrypts with a key, and whose tracks are these.
pub record Stands (key ksn : Bytes) (f : ℕ → Track) (page : BasicPage) : Type 0 where
  pub level : lt_int page.security_level 3 ≡ false
  pub switched_on : page.decryption_switch ≡ true
  pub has_key : page.decryption_key_set ≡ true
  pub is_key : page.decryption_key ≡ key
  pub is_ksn : page.ksn ≡ ksn
  pub at : (m : ℕ) → page.tracks m ≡ f m

module _ (dukpt : Dukpt) (isprint : ℕ → Bool) (atoi : Bytes → ℤ) (is_dukpt : IsDukpt dukpt)
    (nul_is_not_printed : isprint 0 ≡ false) where
  show_decrypted_lem :
      (self : BasicPage) (n : ℕ) (bytes : Bytes) (buffer_size : ℕ)
      → 0 < length bytes
      → length bytes < 2 ^ 62
      → length bytes % 8 ≡ 0
      → show_decrypted dukpt isprint atoi true self n bytes (length bytes) buffer_size
        ≡ ok (
            put_track self n
              (decrypted_track dukpt isprint self.decryption_key (self.tracks n) (some bytes)))
  unfolding show_decrypted
  show_decrypted_lem self n bytes buffer_size more small blocks =
      let plain = dukpt.decrypt self.decryption_key bytes in
      let size = is_dukpt.decrypt_size self.decryption_key bytes blocks in
      let rest = drop (0 + length plain) (replicate {A = ℕ} buffer_size 0) in
      let ascii =
        ap (λ (k : ℕ). strascii isprint true (plain ++ rest) k) (sym size)
        ∙ strascii_first isprint plain rest in
      let hex = spaced_text plain rest (length bytes) size more small in
      rw hex (
        rw ascii (
          rw
            (c_string-NoNul (hex_text (b' ' ∷ []) plain)
              (hex_text-NoNul (b' ' ∷ []) plain (omega arith, tt)))
            (rw (c_string-ascii_text isprint plain nul_is_not_printed) refl)))

  put_track-Stands :
      {key ksn : Bytes} {f : ℕ → Track} {page : BasicPage} (n : ℕ) (track track' : Track)
      → Stands key ksn f page
      → track ≡ track'
      → Stands key ksn (λ m. if m == n then track' else f m) (put_track page n track)
  put_track-Stands {f} {page} n track track' v same = record {
    level = v.level;
    switched_on = v.switched_on;
    has_key = v.has_key;
    is_key = v.is_key;
    is_ksn = v.is_ksn;
    at = λ m. elim (Bool-cases (m == n)) [ inl e ↦ rw e same | inr e ↦ rw e (v.at m) ];
  }

  -- a page whose track `n` stays as it is
  keep-Stands :
      {key ksn : Bytes} {f : ℕ → Track} {page : BasicPage} (n : ℕ)
      → Stands key ksn f page
      → Stands key ksn (λ m. if m == n then f n else f m) page
  keep-Stands {f} n v = record {
    level = v.level;
    switched_on = v.switched_on;
    has_key = v.has_key;
    is_key = v.is_key;
    is_ksn = v.is_ksn;
    at = λ m. elim (Bool-cases (m == n)) [
      | inl e ↦ rw e (v.at m ∙ ap f ((==_iff m n).0 e))
      | inr e ↦ rw e (v.at m)
    ];
  }

  pub reload_track_decryption-Stands :
      {key ksn : Bytes} {f : ℕ → Track} (page : BasicPage) (n : ℕ) (sent : Option Bytes)
      → Stands key ksn f page
      → IsSent (f n).original sent
      → Returns
          (Stands key ksn
            (λ m. if m == n then decrypted_track dukpt isprint key (f n) sent else f m))
          (reload_track_decryption dukpt isprint atoi true page n)
  unfolding reload_track_decryption show_converted
  reload_track_decryption-Stands {f} page n none v is_sent =
      let secure : lt_int page.security_level 2 ≡ false =
        secure_level page.security_level v.level in
      let original : (page.tracks n).original ≡ not_available =
        ap (λ (t : Track). t.original) (v.at n) ∙ is_sent in
      let missing : same_bytes (page.tracks n).original not_available ≡ true =
        ap (λ (t : Bytes). same_bytes t not_available) original in
      rw secure (rw missing (returned (keep-Stands n v)))
  reload_track_decryption-Stands {key} {f} page n (some bytes) v is_sent =
      let secure : lt_int page.security_level 2 ≡ false =
        secure_level page.security_level v.level in
      let encrypted : is_int page.security_level 2 ≡ false =
        level_is_not_2 page.security_level v.level in
      let original : (page.tracks n).original ≡ hex_text (b' ' ∷ []) bytes =
        ap (λ (t : Track). t.original) (v.at n) ∙ is_sent.0 in
      let available =
        ap (λ (t : Bytes). same_bytes t not_available) original
        ∙ hex_text_is_available bytes is_sent.1 is_sent.2 in
      let converted =
        ap (λ (t : Bytes). strbin t (1 + length t / 2)) original
        ∙ strbin-hex_text bytes (b' ' ∷ []) (1 + length (hex_text (b' ' ∷ []) bytes) / 2) is_sent.1
            (refl, tt) (omega (arith, hex_text_size (b' ' ∷ []) bytes)) in
      let on : not page.decryption_switch ≡ false = ap not v.switched_on in
      let keyed : not page.decryption_key_set ≡ false = ap not v.has_key in
      let track =
        ap (λ (k : Bytes). decrypted_track dukpt isprint k (page.tracks n) (some bytes)) v.is_key
        ∙ ap (λ (t : Track). decrypted_track dukpt isprint key t (some bytes)) (v.at n) in
      rw (secure, available, converted, encrypted, on, keyed)
        (rw
          (show_decrypted_lem page n bytes (1 + length (page.tracks n).original / 2) is_sent.2
            is_sent.3 is_sent.4)
          (returned (put_track-Stands n _ _ v track)))
