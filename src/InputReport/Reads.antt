-- ===== src/InputReport/Reads.antt =====
-- The reads that the loop of mccr_input_report_receive (src/libmccr/mccr-input-report.c) makes.
use mccr.Prelude.{
  ℕ, zero, suc, ◌+◌, ◌-◌, ◌≤◌, ◌<◌, ◌≡◌, refl, sym, ap, subst, ◌∙◌, [], ◌++◌, append_assoc,
  append-nil, Option, none, some, Run, arith, ◌⊎◌, ◌==◌, Bool-cases, inl, inr, length,
  length-append, length-take, take, drop, take-append, memcpy, length-memcpy, write_block_inside,
  Returns, returned, Returns-mono,
}
use mccr.Prelude.Bytes.{Bytes}
use mccr.Prelude.Int.{ℤ, pos, negsuc}
use mccr.Hidapi.{Hidapi, IsHidapi}
use mccr.InputReport.{InputReport, read_timeout, after_read, receive_loop}

-- How a row of reads ends: the report is full, a read returned 0, or a read returned an error.
pub data Ending : Type 0 where
  full stopped broken : Ending

-- The reads that are made from a device on, with this many bytes read already: the bytes that they
-- return, how they end, and the device that is left. The first read waits for the swipe, each of the
-- others for the rest of a report of this size; a read follows just where the one before returned some
-- bytes and the report is not full.
pub data Reads {D : Type 0} (hid : Hidapi D) (timeout_ms : ℤ) (size : ℕ)
    : D → ℕ → Bytes → Ending → D → Type 0 where
  stop :
      {d d' : D} {total : ℕ} {bytes : Bytes}
      → hid.hid_read_timeout d (size - total) (read_timeout total timeout_ms) ≡ (pos 0, bytes, d')
      → Reads hid timeout_ms size d total [] stopped d'
  break :
      {d d' : D} {total m : ℕ} {bytes : Bytes}
      → hid.hid_read_timeout d (size - total) (read_timeout total timeout_ms)
        ≡ (negsuc m, bytes, d')
      → Reads hid timeout_ms size d total [] broken d'
  last :
      {d d' : D} {total n : ℕ} {bytes : Bytes}
      → hid.hid_read_timeout d (size - total) (read_timeout total timeout_ms) ≡ (pos n, bytes, d')
      → 0 < n
      → total + n ≡ size
      → Reads hid timeout_ms size d total bytes full d'
  more :
      {d d' d'' : D} {total n : ℕ} {bytes rest : Bytes} {ending : Ending}
      → hid.hid_read_timeout d (size - total) (read_timeout total timeout_ms) ≡ (pos n, bytes, d')
      → 0 < n
      → total + n < size
      → Reads hid timeout_ms size d' (total + n) rest ending d''
      → Reads hid timeout_ms size d total (bytes ++ rest) ending d''

-- What a store of `bytes` at `i` leaves in front of the end of it.
take-memcpy :
    (xs : Bytes) (i n : ℕ) (bytes : Bytes)
    → i + n ≤ length xs
    → length bytes ≡ n
    → take (i + n) (memcpy xs i bytes) ≡ take i xs ++ bytes
take-memcpy xs i n bytes h e =
    ap (take (i + n)) (sym (append_assoc (take i xs) bytes (drop (i + length bytes) xs)))
    ∙ take-append (i + n) (take i xs ++ bytes) (drop (i + length bytes) xs)
        (omega (arith, length-append (take i xs) bytes, length-take i xs))

module _ {D : Type 0} (hid : Hidapi D) (timeout_ms : ℤ) where
  -- How the loop ends: with an error, with a read of nothing, or with a full report; what was read is
  -- stored behind the bytes that were there.
  pub data Received (r : InputReport) (total : ℕ) (d : D)
      : Option ℕ × InputReport × D → Type 0 where
    broke_off :
        {r' : InputReport} {d' : D} (bytes : Bytes)
        → length r'.report_data ≡ r.report_size
        → r'.report_size ≡ r.report_size
        → Reads hid timeout_ms r.report_size d total bytes broken d'
        → Received r total d (none, r', d')
    stopped_at :
        {r' : InputReport} {d' : D} {t : ℕ} (bytes : Bytes)
        → length r'.report_data ≡ r.report_size
        → r'.report_size ≡ r.report_size
        → t ≤ r.report_size
        → (t < r.report_size) ⊎ (t ≡ total)
        → take t r'.report_data ≡ take total r.report_data ++ bytes
        → Reads hid timeout_ms r.report_size d total bytes stopped d'
        → Received r total d (some t, r', d')
    filled :
        {r' : InputReport} {d' : D} {t : ℕ} (bytes : Bytes)
        → length r'.report_data ≡ r.report_size
        → r'.report_size ≡ r.report_size
        → t ≡ r.report_size
        → 0 < t
        → take t r'.report_data ≡ take total r.report_data ++ bytes
        → Reads hid timeout_ms r.report_size d total bytes full d'
        → Received r total d (some t, r', d')

  resized :
      {k k' total : ℕ} {d d' : D} {bytes : Bytes} {ending : Ending}
      → k' ≡ k
      → Reads hid timeout_ms k' d total bytes ending d'
      → Reads hid timeout_ms k d total bytes ending d'
  resized {total} {d} {d'} {bytes} {ending} same reads =
      subst (λ (k : ℕ). Reads hid timeout_ms k d total bytes ending d') same reads

  -- One read more in front.
  Received-more :
      (r' r : InputReport) (total n : ℕ) (bytes : Bytes) (d d' : D)
      → hid.hid_read_timeout d (r.report_size - total) (read_timeout total timeout_ms)
        ≡ (pos n, bytes, d')
      → 0 < n
      → total + n < r.report_size
      → r'.report_size ≡ r.report_size
      → take (total + n) r'.report_data ≡ take total r.report_data ++ bytes
      → {result : Option ℕ × InputReport × D} → Received r' (total + n) d' result
      → Received r total d result
  Received-more r' r total n bytes d d' e some_read less same front
        (broke_off rest whole size reads) =
      broke_off (bytes ++ rest) (whole ∙ same) (size ∙ same)
        (more e some_read less (resized same reads))
  Received-more r' r total n bytes d d' e some_read less same front
        (stopped_at rest whole size bound place eq reads) =
      stopped_at (bytes ++ rest) (whole ∙ same) (size ∙ same) (omega arith)
        (inl (elim place [
          | inl before ↦ omega (arith, before, same)
          | inr here ↦ omega (arith, here, less)
        ]))
        (eq
          ∙ ap (λ (t : Bytes). t ++ rest) front
          ∙ append_assoc (take total r.report_data) bytes rest)
        (more e some_read less (resized same reads))
  Received-more r' r total n bytes d d' e some_read less same front
        (filled rest whole size done positive eq reads) =
      filled (bytes ++ rest) (whole ∙ same) (size ∙ same) (done ∙ same) positive
        (eq
          ∙ ap (λ (t : Bytes). t ++ rest) front
          ∙ append_assoc (take total r.report_data) bytes rest)
        (more e some_read less (resized same reads))

  after_read-Received :
      (next : InputReport → ℕ → Run (Option ℕ × InputReport × D)) (r : InputReport) (total : ℕ)
      (z : ℤ) (bytes : Bytes) (d d' : D)
      → hid.hid_read_timeout d (r.report_size - total) (read_timeout total timeout_ms)
        ≡ (z, bytes, d')
      → IsHidapi hid
      → length r.report_data ≡ r.report_size
      → total ≤ r.report_size
      → ((r' : InputReport) (t : ℕ)
          → total < t
          → t ≤ r.report_size
          → length r'.report_data ≡ r'.report_size
          → r'.report_size ≡ r.report_size
          → Returns (Received r' t d') (next r' t))
      → Returns (Received r total d) (after_read hid next r total z bytes d')
  unfolding after_read
  after_read-Received next r total (negsuc m) bytes d d' e h whole bound later =
      returned (broke_off [] whole refl (break e))
  after_read-Received next r total (pos n) bytes d d' e h whole bound later =
      let (size_is', room) = h.read_size d _ _ n (ap (λ (z : ℤ × Bytes × D). z.0) e) in
      let size_is : length bytes ≡ n =
        subst (λ (t : Bytes). length t ≡ n) (ap (λ (z : ℤ × Bytes × D). z.1) e) size_is' in
      let inside : total + n ≤ length r.report_data = omega arith in
      let stored = memcpy r.report_data total bytes in
      let whole' : length stored ≡ r.report_size =
        length-memcpy r.report_data total bytes (omega arith) ∙ whole in
      let write = write_block_inside r.report_data total bytes (omega arith) in
      let front = take-memcpy r.report_data total n bytes inside size_is in
      elim (Bool-cases (n == 0)) [
        | inl nothing ↦
            let zero_read : n ≡ 0 = ground (arith, nothing) in
            simp nothing (
              returned (
                stopped_at [] whole refl bound (inr refl) (sym (append-nil _)) (
                  stop (
                    subst
                      (λ (k : ℕ).
                        hid.hid_read_timeout d (r.report_size - total)
                          (read_timeout total timeout_ms)
                        ≡ (pos k, bytes, d'))
                      zero_read e))))
        | inr some_read ↦
            let positive : 0 < n = ground (arith, some_read) in
            elim (Bool-cases (total + n == r.report_size)) [
              | inl done ↦
                  let reached : total + n ≡ r.report_size = ground (arith, done) in
                  simp (some_read, write, done)
                    (returned (
                      filled bytes whole' refl reached (omega arith) front
                        (last e positive reached)))
              | inr longer ↦
                  simp (some_read, write, longer)
                    (Returns-mono (later _ (total + n) (ground arith) (omega arith) whole' refl)
                      (λ _.
                        Received-more _ r total n bytes d d' e positive (ground (arith, longer))
                          refl front))
            ]
      ]

  pub receive_loop-Received :
      (fuel : ℕ) (r : InputReport) (total : ℕ) (d : D)
      → IsHidapi hid
      → length r.report_data ≡ r.report_size
      → total ≤ r.report_size
      → r.report_size < fuel + total
      → Returns (Received r total d) (receive_loop hid fuel timeout_ms r total d)
  unfolding receive_loop
  receive_loop-Received zero r total d h whole bound enough = absurd (omega arith)
  receive_loop-Received (suc fuel) r total d h whole bound enough =
      let read = hid.hid_read_timeout d (r.report_size - total) (read_timeout total timeout_ms) in
      after_read-Received _ r total read.0 read.1 d read.2 refl h whole bound
        (λ r' t further bound' whole' same.
          receive_loop-Received fuel r' t read.2 h whole' (omega arith) (omega arith))
