-- ===== src/Environment.antt =====
-- What the two programs use of the system and of other libraries.
use mccr.Prelude.{ℕ, Bool, List, Option}
use mccr.Prelude.Bytes.{Bytes}
use mccr.Hidapi.{Hidapi}
use mccr.Hid.Usages.{Allocator}
use mccr.Status.{Status}
use mccr.Device.{HidDeviceInfo}

pub record Environment (D : Type 0) : Type 0 where
  pub hidapi : Hidapi D
  pub hid_enumerate : ℕ → List HidDeviceInfo
  -- memory for commands and texts, and for the parser
  pub grants : Allocator
  pub parse_grants : Allocator
  pub log_is_enabled : Bool
  pub mccr_read_report_descriptor : Option Bytes → Status × Bytes
  -- wide characters as UTF-8, where the conversion succeeds
  pub g_convert : List ℕ → Option Bytes
  -- which bytes are printable, and the number that a text begins with in hexadecimal, at most 2 ^ 64 - 1
  pub isprint : ℕ → Bool
  pub strtoull : Bytes → ℕ
  -- what a variable on the stack holds before it is written
  pub uninitialised : ℕ
