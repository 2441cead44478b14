-- ===== src/Cli/Lines.antt =====
-- The lines that run_show of src/mccr-cli/mccr-cli.c prints.
use Prim.Native.String.{String}
use mccr.Prelude.{
  ℕ, ◌&&◌, List, [], ◌∷◌, Option, none, some, Run, ok, fault, ◌>>=◌, leb, ◌==◌, if◌then◌else◌,
}
use mccr.Prelude.Bytes.{Bytes}
use mccr.Prelude.Text.{Piece, literal, chars, wide, unsigned, hex_4, c_string}
use mccr.Device.{Device}
use mccr.Device.Names.{
  mccr_track_state_to_string, mccr_reader_state_to_string, mccr_reader_state_antecedent_to_string,
}
use mccr.Device.Commands.{TrackIdEnable}
use mccr.Cli.{Line, out}

-- "%ls" of a text, or of "unknown" for NULL
abbrev pub wide_text : Option (List ℕ) → Piece
wide_text none = literal "unknown"
wide_text (some wstr) = wide wstr

-- "%s" of the path, which a device always has
abbrev pub path_text : Option Bytes → Piece
path_text none = literal "(null)"
path_text (some path) = chars path

abbrev pub rule : List Line
rule = out (literal "\t----------------------------------------------------" ∷ []) ∷ []

-- what is printed of a device before any command
abbrev pub about_device : {D : Type 0} → Device D → List Line
about_device device =
    out (
      literal "device ("
      ∷ hex_4 device.vid
      ∷ literal ":"
      ∷ hex_4 device.pid
      ∷ literal ") at path '"
      ∷ path_text device.path
      ∷ literal "'"
      ∷ [])
    ∷ out (literal "\tserial:       " ∷ wide_text device.serial_number ∷ [])
    ∷ out (literal "\tmanufacturer: " ∷ wide_text device.manufacturer ∷ [])
    ∷ out (literal "\tproduct:      " ∷ wide_text device.product ∷ [])
    ∷ []

abbrev pub track_lines : TrackIdEnable → List Line
track_lines read =
    out (
      literal "\t\tsupported card types:     "
      ∷ literal (if read.aamva_supported then "ISO and AAMVA" else "ISO only")
      ∷ [])
    ∷ out (
        literal "\t\ttrack 1 status:           "
        ∷ literal (mccr_track_state_to_string read.track_1)
        ∷ [])
    ∷ out (
        literal "\t\ttrack 2 status:           "
        ∷ literal (mccr_track_state_to_string read.track_2)
        ∷ [])
    ∷ out (
        literal "\t\ttrack 3 status:           "
        ∷ literal (mccr_track_state_to_string read.track_3)
        ∷ [])
    ∷ []

abbrev pub reader_state_lines : ℕ × ℕ → List Line
reader_state_lines (state, antecedent) =
    out (literal "\treader state: " ∷ literal (mccr_reader_state_to_string state) ∷ [])
    ∷ out (
        literal "\tantecedent:   "
        ∷ literal (mccr_reader_state_antecedent_to_string antecedent)
        ∷ [])
    ∷ []

abbrev pub counter_line : ℕ → Line
counter_line val32 =
    if val32 == 0xFFFFFF
    then out (literal "\tencryption counter:   disabled" ∷ [])
    else if val32 == 0
    then out (literal "\tencryption counter:   expired" ∷ [])
    else if leb 1 val32 && leb val32 0x0F4240
    then out (literal "\tencryption counter:   " ∷ unsigned val32 ∷ [])
    else out (literal "\tencryption counter:   unexpected value: " ∷ unsigned val32 ∷ [])

-- What an output holds after a command that succeeded; the commands write it in this case.
abbrev pub written : {A : Type 0} → Option A → Run A
written none = fault
written (some a) = ok a

-- a property that is a text
abbrev pub text_lines : String → Option Bytes → Run (List Line)
text_lines label str = do
  mem ← written str
  ok (out (literal label ∷ chars (c_string mem) ∷ []) ∷ [])

-- bytes in hexadecimal
abbrev pub hex_lines : (Bytes → Run Bytes) → String → Option Bytes → Run (List Line)
hex_lines to_text label array = do
  bytes ← written array
  mem ← to_text bytes
  ok (out (literal label ∷ chars (c_string mem) ∷ []) ∷ [])
