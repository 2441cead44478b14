-- ===== src/BasicPage/Decrypted.antt =====
-- What the page of src/mccr-gtk/mui-page-basic.c shows when a swipe is finished.
use mccr.Prelude.{
  ℕ, ◌≡◌, refl, ap, ◌∙◌, Bool, true, false, not, [], ◌∷◌, ◌++◌, Option, some, ok, arith, leb,
  le→leb, length, take, Returns, Returns-bind, Returns-mono,
}
use mccr.Prelude.Bytes.{Bytes}
use mccr.Prelude.Int.{ℤ, lt_int}
use mccr.Common.{strhex}
use mccr.Common.Hex.{hex_text}
use mccr.Common.Shown.{strhex_first}
use mccr.Dukpt.{Dukpt}
use mccr.Processor.{swipe_finished}
use mccr.BasicPage.{
  BasicPage, Track, not_available, with_ipek, reload_decryption_key, reload_decryption,
  assigned_to_swipe, report_item,
}
use mccr.BasicPage.Tracks.{IsDukpt, IsSent, decrypted_track, Stands, reload_track_decryption-Stands}

module _ (dukpt : Dukpt) (isprint : ℕ → Bool) (atoi : Bytes → ℤ) (is_dukpt : IsDukpt dukpt)
    (nul_is_not_printed : isprint 0 ≡ false) where
  -- strhex of a key, for the log
  logged_key :
      (key : Bytes)
      → length key ≡ dukpt.sizeof_key
      → (text : Bytes) × (strhex true key dukpt.sizeof_key (some (b':' ∷ [])) ≡ ok text)
  logged_key key size =
      let inside : leb dukpt.sizeof_key (length key) ≡ true = le→leb _ _ (omega arith) in
      (
        hex_text (b':' ∷ []) (take dukpt.sizeof_key key) ++ 0 ∷ [],
        strhex_first key dukpt.sizeof_key (some (b':' ∷ [])) is_dukpt.key_size
              (omega (arith, is_dukpt.small_keys))
            ∙ rw inside refl,
      )

  -- The keys that follow from the serial number that was announced, and the labels of the tracks
  -- without what was decrypted before.
  abbrev pub swipe_ipek : BasicPage → Bytes
  swipe_ipek page = dukpt.compute_ipek page.bdk page.next_ksn

  abbrev pub swipe_key : BasicPage → Bytes
  swipe_key page = dukpt.compute_key (swipe_ipek page) page.next_ksn page.key_type

  abbrev pub cleared : BasicPage → ℕ → Track
  cleared page n = record (page.tracks n) { dec_hex = not_available; ascii = not_available }

  abbrev keyed : BasicPage → BasicPage
  keyed page = record page {
    tracks = cleared page;
    ksn = page.next_ksn;
    ksn_set = true;
    next_ksn_set = false;
    ipek = swipe_ipek page;
    ipek_set = true;
    decryption_key = swipe_key page;
    decryption_key_set = true;
  }

  assigned_to_swipe_lem :
      (page : BasicPage)
      → page.next_ksn_set ≡ true
      → page.bdk_set ≡ true
      → assigned_to_swipe dukpt isprint atoi true page ≡ ok (keyed page)
  unfolding assigned_to_swipe reload_decryption_key with_ipek
  assigned_to_swipe_lem page announced has_bdk =
      let has : not page.bdk_set ≡ false = ap not has_bdk in
      let ipek = logged_key (swipe_ipek page) (is_dukpt.ipek_size page.bdk page.next_ksn) in
      let key =
        logged_key (swipe_key page)
          (is_dukpt.compute_key_size (swipe_ipek page) page.next_ksn page.key_type) in
      rw announced (rw has (rw ipek.1 (rw key.1 refl)))

  -- When a swipe is finished for which a serial number was announced, and a base key is set, the
  -- decryption is on and the reader encrypts (level 3 or more): the callback returns, the page has this
  -- serial number, and each of the three tracks whose label is the hexadecimal text of whole blocks of
  -- bytes shows these bytes, decrypted with the key of the base key, of this serial number and of the
  -- chosen type, in hexadecimal and as text; a track that is "n/a" shows "n/a" for both. libdukpt is as it
  -- is documented, memory is granted, a NUL cannot be printed, and no track has 2 ^ 62 bytes or more.
  pub report_item-decrypted :
      (page : BasicPage) (first second third value : Option Bytes)
      → page.next_ksn_set ≡ true
      → page.bdk_set ≡ true
      → page.decryption_switch ≡ true
      → lt_int page.security_level 3 ≡ false
      → IsSent (page.tracks 1).original first
      → IsSent (page.tracks 2).original second
      → IsSent (page.tracks 3).original third
      → Returns
          (λ page'.
            (page'.ksn ≡ page.next_ksn)
            × (page'.tracks 1
                ≡ decrypted_track dukpt isprint (swipe_key page) (cleared page 1) first)
            × (page'.tracks 2
                ≡ decrypted_track dukpt isprint (swipe_key page) (cleared page 2) second)
            × (page'.tracks 3
                ≡ decrypted_track dukpt isprint (swipe_key page) (cleared page 3) third))
          (report_item dukpt isprint atoi true page swipe_finished value)
  unfolding report_item reload_decryption reload_decryption_key
  report_item-decrypted page first second third value announced has_bdk on level sent1 sent2 sent3 =
      let stands : Stands (swipe_key page) page.next_ksn (cleared page) (keyed page) = record {
        level = level;
        switched_on = on;
        has_key = refl;
        is_key = refl;
        is_ksn = refl;
        at = λ m. refl;
      } in
      rw (assigned_to_swipe_lem page announced has_bdk) (
        Returns-bind _
          (reload_track_decryption-Stands dukpt isprint atoi is_dukpt nul_is_not_printed
            (keyed page) 1 first stands sent1)
          (λ page1 stands1.
            Returns-bind _
              (reload_track_decryption-Stands dukpt isprint atoi is_dukpt nul_is_not_printed page1 2
                second stands1 sent2)
              (λ page2 stands2.
                Returns-mono
                  (reload_track_decryption-Stands dukpt isprint atoi is_dukpt nul_is_not_printed
                    page2 3 third stands2 sent3)
                  (λ page3 v. (v.is_ksn, v.at 1, v.at 2, v.at 3)))))
