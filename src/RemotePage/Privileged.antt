-- ===== src/RemotePage/Privileged.antt =====
-- build_test_privileged_command of src/mccr-gtk/mui-page-remote-services.c: a command in hexadecimal gets
-- its length and a code that authenticates it.
pub mod Built
use mccr.Prelude.{
  ℕ, ◌+◌, ◌-◌, ◌*◌, ◌/◌, ◌%◌, true, false, not, Bool, [], ◌∷◌, Option, none, some, Run, ok, ◌>>=◌,
  ◌>>◌, assert, ltb, leb, ◌==◌, if◌then◌else◌, length, take, drop, replicate, memcpy, read_block,
  write_block,
}
use mccr.Prelude.Bytes.{Bytes}
use mccr.Prelude.Text.{c_string}
use mccr.Common.{is_count, strbin, strhex}
use mccr.Dukpt.{Dukpt, mac_request}

-- test_key_bdk
abbrev pub test_key_bdk : Bytes
test_key_bdk =
    0x01 ∷ 0x23 ∷ 0x45 ∷ 0x67 ∷ 0x89 ∷ 0xab ∷ 0xcd ∷ 0xef ∷ 0xfe ∷ 0xdc ∷ 0xba ∷ 0x98 ∷ 0x76 ∷ 0x54
    ∷ 0x32 ∷ 0x10 ∷ []

-- the size that is encrypted: whole blocks of eight bytes
abbrev pub padded_size : ℕ → ℕ
padded_size size = 8 * (size / 8 + (if size % 8 == 0 then 0 else 1))

-- MAX
abbrev pub max : ℕ → ℕ → ℕ
max a b = if ltb b a then a else b

module _ (dukpt : Dukpt) (granted : Bool) where
  -- The code for what is in the buffer, behind it, and the text of both.
  unfoldable pub authenticate : Bytes → ℕ → ℕ → Bytes → Run (Option Bytes)
  authenticate buffer buffer_size bin_size ksn = do
    let padded = padded_size bin_size
    let ipek = dukpt.compute_ipek test_key_bdk ksn
    let key = dukpt.compute_key ipek ksn mac_request
    let encrypted = memcpy (replicate buffer_size 0) 0 (dukpt.encrypt key (take padded buffer))
    mac ← read_block encrypted 0 4
    complete ← write_block buffer bin_size mac
    text ← strhex granted complete (bin_size + 4) (some [])
    ok (some (c_string text))

  -- The buffer from the id of the command on.
  unfoldable pub fill_buffer : Bytes → ℕ → ℕ → Bytes → Run (Option Bytes)
  unfolding authenticate
  fill_buffer command bin_size buffer_size ksn = do
    (id_size, id) ← strbin (take 2 command) 2
    with_id ← write_block (replicate buffer_size 0) 0 id
    if not (is_count id_size 1) then ok none else (do
      let data_size = bin_size - 2
      sized ← write_block with_id 1 ((data_size + 4) % 256 ∷ [])
      assert (leb data_size (buffer_size - 2))
      (content_size, content) ← strbin (drop 2 command) data_size
      filled ← write_block sized 2 content
      if not (is_count content_size data_size)
          then ok none
          else authenticate filled buffer_size bin_size ksn)

  -- build_test_privileged_command
  unfoldable pub build_test_privileged_command : Bytes → Bytes → Run (Option Bytes)
  unfolding fill_buffer
  build_test_privileged_command command ksn =
      let command_length = length command in
      let bin_size = command_length / 2 + 1 in
      if leb command_length 2
      then ok none
      else if not (command_length % 2 == 0)
      then ok none
      else fill_buffer command bin_size (max (padded_size bin_size) (bin_size + 4)) ksn
