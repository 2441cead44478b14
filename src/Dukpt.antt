-- ===== src/Dukpt.antt =====
-- What mccr-gtk uses of the library libdukpt, which is not part of the repository: the sizes of its keys
-- and serial numbers, the derivation of keys, and the encryption of buffers.
use mccr.Prelude.{ℕ}
use mccr.Prelude.Bytes.{Bytes}

pub data KeyType : Type 0 where
  pin_encryption mac_request mac_response data_request data_response : KeyType

pub record Dukpt : Type 0 where
  -- sizeof (dukpt_key_t) and sizeof (dukpt_ksn_t)
  pub sizeof_key : ℕ
  pub sizeof_ksn : ℕ
  -- from the base derivation key and the serial number
  pub compute_ipek : Bytes → Bytes → Bytes
  -- from the initial key and the serial number
  pub compute_key : Bytes → Bytes → KeyType → Bytes
  -- what is written to the output for a key and an input
  pub encrypt : Bytes → Bytes → Bytes
  pub decrypt : Bytes → Bytes → Bytes
