-- ===== src/RemotePage/Privileged/Built.antt =====
-- The privileged command that src/mccr-gtk/mui-page-remote-services.c builds.
use mccr.Prelude.{
  ℕ, zero, suc, ◌+◌, ◌-◌, ◌*◌, ◌/◌, ◌%◌, ◌≤◌, ◌<◌, ◌≡◌, refl, ap, ◌∙◌, true, false, not, [], ◌∷◌,
  ◌++◌, some, ok, arith, leb, ◌==◌, le→leb, lt→leb, length, length-append, length-replicate, take,
  drop, take-append, replicate, read_block, read_block_inside, ◌^◌,
}
use mccr.Prelude.Bytes.{Bytes, AllBytes}
use mccr.Common.{hex_byte, strhex}
use mccr.Common.Hex.{hex_text, write_behind}
use mccr.Common.Binary.{strbin-hex_text}
use mccr.Common.Shown.{strhex_first, c_string-NoNul, hex_text-NoNul}
use mccr.Dukpt.{Dukpt, mac_request}
use mccr.RemotePage.Privileged.{
  test_key_bdk, padded_size, max, authenticate, fill_buffer, build_test_privileged_command,
}

length-hex_text : (bs : Bytes) → length (hex_text [] bs) ≡ 2 * length bs
length-hex_text [] = refl
length-hex_text (b ∷ []) = refl
length-hex_text (b ∷ c ∷ bs) = omega (arith, length-hex_text (c ∷ bs))

take-replicate : (n m a : ℕ) → n ≤ m → take n (replicate {A = ℕ} m a) ≡ replicate n a
take-replicate zero m a h = refl
take-replicate (suc n) zero a h = absurd (omega arith)
take-replicate (suc n) (suc m) a h = ap (◌∷◌ a) (take-replicate n m a (omega arith))

-- More than the front of a list.
take_more :
    (n : ℕ) (xs ys : Bytes) → length xs ≤ n → take n (xs ++ ys) ≡ xs ++ take (n - length xs) ys
take_more n [] ys h = let e : n - 0 ≡ n = omega arith in rw e refl
take_more zero (x ∷ xs) ys h = absurd (omega arith)
take_more (suc n) (x ∷ xs) ys h =
    let e : suc n - suc (length xs) ≡ n - length xs = omega arith in
    rw e (ap (◌∷◌ x) (take_more n xs ys (omega arith)))

-- No more than the front of a list.
take_less : (n : ℕ) (xs ys : Bytes) → n ≤ length xs → take n (xs ++ ys) ≡ take n xs
take_less zero xs ys h = refl
take_less (suc n) [] ys h = absurd (omega arith)
take_less (suc n) (x ∷ xs) ys h = ap (◌∷◌ x) (take_less n xs ys (omega arith))

length-take_less : (n : ℕ) (xs : Bytes) → n ≤ length xs → length (take n xs) ≡ n
length-take_less zero xs h = refl
length-take_less (suc n) [] h = absurd (omega arith)
length-take_less (suc n) (x ∷ xs) h = ap suc (length-take_less n xs (omega arith))

padded_size_bounds :
    (n : ℕ) → (n ≤ padded_size n) × (padded_size n % 8 ≡ 0) × (padded_size n < n + 8)
padded_size_bounds n = ground arith

max_bounds :
    (a n : ℕ)
    → (a ≤ max a (n + 4)) × (4 ≤ max a (n + 4) - n) × (max a (n + 4) ≡ n + (max a (n + 4) - n))
max_bounds a n = ground arith

-- What is encrypted has whole blocks, and stays as long.
abbrev pub IsEncrypting : Dukpt → Type 0
IsEncrypting dukpt =
    (key input : Bytes) → length input % 8 ≡ 0 → length (dukpt.encrypt key input) ≡ length input

-- Bytes with zeroes behind them, up to whole blocks.
abbrev pub padded : Bytes → Bytes
padded bs = bs ++ replicate (padded_size (length bs) - length bs) 0

-- The key of the test that authenticates a command.
abbrev pub test_mac_key : Dukpt → Bytes → Bytes
test_mac_key dukpt ksn = dukpt.compute_key (dukpt.compute_ipek test_key_bdk ksn) ksn mac_request

-- The code that authenticates some bytes.
abbrev pub mac_of : Dukpt → Bytes → Bytes → Bytes
mac_of dukpt ksn bs = take 4 (dukpt.encrypt (test_mac_key dukpt ksn) (padded bs))

-- strhex without delimiter, of a buffer that begins with some bytes.
strhex_front :
    (bs rest : Bytes) (n : ℕ)
    → n ≡ length bs
    → 0 < n
    → n < 2 ^ 62
    → strhex true (bs ++ rest) n (some []) ≡ ok (hex_text [] bs ++ 0 ∷ [])
strhex_front bs rest n size more small =
    let inside : leb n (length (bs ++ rest)) ≡ true =
      le→leb _ _ (omega (arith, length-append bs rest)) in
    strhex_first (bs ++ rest) n (some []) more (omega arith)
    ∙ rw inside (ap (λ (t : Bytes). ok (hex_text [] t ++ 0 ∷ [])) (take-append n bs rest size))

module _ (dukpt : Dukpt) (encrypting : IsEncrypting dukpt) where
  authenticate_lem :
      (bs ksn : Bytes) (room : ℕ)
      → 0 < length bs
      → length bs + 4 < 2 ^ 62
      → 4 ≤ room
      → padded_size (length bs) ≤ length bs + room
      → authenticate dukpt true (bs ++ replicate room 0) (length bs + room) (length bs) ksn
        ≡ ok (some (hex_text [] (bs ++ mac_of dukpt ksn bs)))
  unfolding authenticate
  authenticate_lem bs ksn room some_bytes small fits enough =
      let size = length bs in
      let rest = replicate {A = ℕ} room 0 in
      let bounds = padded_size_bounds size in
      let key = test_mac_key dukpt ksn in
      let pad : take (padded_size size) (bs ++ rest) ≡ padded bs =
        take_more (padded_size size) bs rest bounds.0
        ∙ ap (◌++◌ bs) (take-replicate (padded_size size - size) room 0 (omega arith)) in
      let padded_length : length (padded bs) ≡ padded_size size = omega (
        arith,
        bounds.0,
        length-append bs (replicate (padded_size size - size) 0),
        length-replicate {A = ℕ} (padded_size size - size) 0,
      ) in
      let whole : length (padded bs) % 8 ≡ 0 = rw padded_length bounds.1 in
      let encrypted = dukpt.encrypt key (padded bs) in
      let encrypted_length : length encrypted ≡ padded_size size =
        encrypting key (padded bs) whole ∙ padded_length in
      let long : 4 ≤ length encrypted = omega (arith, encrypted_length, bounds) in
      let mac = take 4 encrypted in
      let behind = drop (0 + length encrypted) (replicate {A = ℕ} (size + room) 0) in
      let read : read_block (encrypted ++ behind) 0 4 ≡ ok mac =
        read_block_inside (encrypted ++ behind) 0 4 (omega (arith, length-append encrypted behind))
        ∙ ap ok (take_less 4 encrypted behind long) in
      let mac_length : length mac ≡ 4 = length-take_less 4 encrypted long in
      let written = write_behind bs mac size room refl (omega arith) in
      let left = replicate {A = ℕ} (room - length mac) 0 in
      let text =
        strhex_front (bs ++ mac) left (size + 4) (omega (arith, length-append bs mac)) (omega arith)
          small in
      rw pad (
        rw read (
          rw written (
            rw text (
              rw (c_string-NoNul (hex_text [] (bs ++ mac)) (hex_text-NoNul [] (bs ++ mac) tt))
                refl))))

  -- `bin_size` and the room behind what is built
  fill_buffer_lem :
      (id : ℕ) (content ksn : Bytes) (bin_size buffer_size room : ℕ)
      → AllBytes (id ∷ content)
      → 0 < length content
      → length content < 2 ^ 61
      → 4 ≤ room
      → bin_size ≡ suc (suc (length content))
      → buffer_size ≡ suc (suc (length content)) + room
      → padded_size bin_size ≤ buffer_size
      → fill_buffer dukpt true (hex_byte id ++ hex_text [] content) bin_size buffer_size ksn ≡ (
          let sized = id ∷ (length content + 4) % 256 ∷ content in
          ok (some (hex_text [] (sized ++ mac_of dukpt ksn sized))))
  unfolding fill_buffer
  fill_buffer_lem id content ksn bin_size buffer_size room bytes more small fits bin buffer enough =
      let len = (length content + 4) % 256 in
      let data_size : bin_size - 2 ≡ length content = omega arith in
      let after_id : buffer_size - length {A = ℕ} (id ∷ []) ≡ suc (length content) + room =
        omega arith in
      let after_size : suc (length content) + room - length {A = ℕ} (len ∷ [])
          ≡ length content + room =
        omega arith in
      let after_content : length content + room - length content ≡ room = omega arith in
      let read_id = strbin-hex_text (id ∷ []) [] 2 (bytes.0, tt) tt (omega arith) in
      let write_id = write_behind [] (id ∷ []) 0 buffer_size refl (omega arith) in
      let write_size =
        write_behind (id ∷ []) (len ∷ []) 1 (suc (length content) + room) refl (omega arith) in
      let inside : leb (length content) (buffer_size - 2) ≡ true = le→leb _ _ (omega arith) in
      let read_content = strbin-hex_text content [] (length content) bytes.1 tt (omega arith) in
      let write_content =
        write_behind (id ∷ len ∷ []) content 2 (length content + room) refl (omega arith) in
      let whole : bin_size + room ≡ buffer_size = omega arith in
      let same : (length content == length content) ≡ true = ground arith in
      rw (read_id, write_id, after_id, data_size, write_size, after_size, inside, read_content)
        (rw (write_content, same, after_content)
          (rw (bin, buffer)
            (authenticate_lem (id ∷ len ∷ content) ksn room (omega arith) (omega arith) fits
              (rw (← bin) (rw whole enough)))))

  -- A command of an id and at least one byte of data, in hexadecimal: the privileged command is built, no
  -- write leaves the buffers, and it is, in hexadecimal, the id, the length of the data and of the
  -- code in one byte, the data, and the code: the first four bytes of these, padded with zeroes to whole
  -- blocks and encrypted with the test key of the serial number. Memory is granted, and libdukpt encrypts
  -- whole blocks to as many bytes; there are fewer than 2 ^ 60 bytes of data behind the first.
  pub build_test_privileged_command-built :
      (id b : ℕ) (rest ksn : Bytes)
      → AllBytes (id ∷ b ∷ rest)
      → length rest < 2 ^ 60
      → build_test_privileged_command dukpt true (hex_text [] (id ∷ b ∷ rest)) ksn ≡ (
          let sized = id ∷ (suc (length rest) + 4) % 256 ∷ b ∷ rest in
          ok (some (hex_text [] (sized ++ mac_of dukpt ksn sized))))
  unfolding build_test_privileged_command fill_buffer
  build_test_privileged_command-built id b rest ksn bytes small =
      let content = b ∷ rest in
      let size = length-hex_text content in
      let bin : suc (suc (length (hex_text [] content))) / 2 + 1 ≡ suc (suc (length content)) =
        omega (arith, size) in
      let long : leb (suc (suc (length (hex_text [] content)))) 2 ≡ false =
        lt→leb _ _ (omega (arith, size)) in
      let even : suc (suc (length (hex_text [] content))) % 2 ≡ 0 = omega (arith, size) in
      let full : not (suc (suc (length (hex_text [] content))) % 2 == 0) ≡ false = rw even refl in
      let n = suc (suc (length content)) in
      let buffer = max (padded_size n) (n + 4) in
      rw long (
        rw full (
          rw bin (
            fill_buffer_lem id content ksn n buffer (buffer - n) bytes (omega arith) (omega arith)
              (max_bounds (padded_size n) n).1 refl (max_bounds (padded_size n) n).2
              (max_bounds (padded_size n) n).0)))
