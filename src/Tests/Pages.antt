-- ===== src/Tests/Pages.antt =====
-- Runs of the pages of src/mccr-gtk/mui-page-basic.c and src/mccr-gtk/mui-page-remote-services.c.
use mccr.Prelude.{
  ℕ, suc, ◌+◌, ◌%◌, ◌==◌, if◌then◌else◌, ◌≡◌, refl, ap, Bool, true, false, List, [], ◌∷◌, ◌++◌, map,
  none, some, ok, ◌>>=◌, arith, length, replicate, Keeps, Returns, IfReturns,
}
use mccr.Prelude.Bytes.{Bytes, same_bytes}
use mccr.Prelude.Int.{ℤ, pos}
use mccr.Common.Hex.{hex_text}
use mccr.Dukpt.{Dukpt, data_request}
use mccr.Processor.{dukpt_ksn_and_counter, swipe_finished}
use mccr.RemoteService.Response.Infos.{KeyInfo, no_key, CommandInfo, no_command}
use mccr.RemoteService.Response.Parse.{readable}
use mccr.RemoteService.Response.Outcome.{accepted}
use mccr.BasicPage.{BasicPage, not_available}
use mccr.BasicPage.Events.{
  Widgets, blank_page, variant_chosen, reported, mui_page_basic_new, perform_all,
}
use mccr.BasicPage.Life.{life-IsCoherent}
use mccr.BasicPage.Tracks.{IsDukpt, decrypted_track}
use mccr.BasicPage.{report_item as report_page_item}
use mccr.BasicPage.Decrypted.{cleared, report_item-decrypted}
use mccr.RemotePage.{PageEnvironment, RemotePage}
use mccr.RemotePage.Keys.{change_key_name, kcv_name, mut_size}
use mccr.RemotePage.Privileged.{build_test_privileged_command}
use mccr.RemotePage.Privileged.Built.{mac_of, build_test_privileged_command-built}
use mccr.RemotePage.Events.{
  Event, key_list_clicked, row_activated, dialog_answered, answered, reported as item_reported,
  keys, commands, ran, steps,
}
use mccr.RemotePage.Events.Core.{IsConsistent, resting}
use mccr.RemotePage.Events.Steps.{steps-IsConsistent}

-- keys of two bytes, serial numbers of one byte, and a shift of every byte in place of the encryption
abbrev shift : Bytes → Bytes
shift bytes = map {A = ℕ} {B = ℕ} (λ b. (b + 1) % 256) bytes

length-shift : (bytes : Bytes) → length (shift bytes) ≡ length bytes
length-shift [] = refl
length-shift (b ∷ bytes) = ap suc (length-shift bytes)

abbrev shifts : Dukpt
shifts = record {
  sizeof_key = 2;
  sizeof_ksn = 1;
  compute_ipek = λ bdk ksn. 7 ∷ 8 ∷ [];
  compute_key = λ ipek ksn key_type. 9 ∷ 10 ∷ [];
  encrypt = λ key input. shift input;
  decrypt = λ key input. shift input;
}

shifts-IsDukpt : IsDukpt shifts
shifts-IsDukpt = record {
  key_size = omega arith;
  small_keys = omega arith;
  ipek_size = λ bdk ksn. refl;
  compute_key_size = λ ipek ksn key_type. refl;
  decrypt_size = λ key input blocks. length-shift input;
}

abbrev never : ℕ → Bool
never c = false

abbrev level_3 : Bytes → ℤ
level_3 text = pos 3

abbrev widgets : Widgets
widgets = record {
  bdk_entry = b'0' ∷ b'1' ∷ b'2' ∷ b'3' ∷ [];
  decryption_switch = true;
  key_variant = some "data-request";
  label = not_available;
}

life-IsCoherent_example :
    IfReturns
      (λ page.
        page.decryption_key_set ≡ true
        → (page.bdk_set ≡ true)
          × (page.ksn_set ≡ true)
          × (page.decryption_key
              ≡ shifts.compute_key (shifts.compute_ipek page.bdk page.ksn) page.ksn page.key_type))
      (mui_page_basic_new shifts never level_3 true widgets
        >>= perform_all shifts never level_3 true (
            reported dukpt_ksn_and_counter (some (b'0' ∷ b'5' ∷ []))
            ∷ reported swipe_finished none
            ∷ variant_chosen (some "pin")
            ∷ []))
life-IsCoherent_example = life-IsCoherent shifts never level_3 true widgets (
    reported dukpt_ksn_and_counter (some (b'0' ∷ b'5' ∷ []))
    ∷ reported swipe_finished none
    ∷ variant_chosen (some "pin")
    ∷ [])

abbrev block : Bytes
block = 1 ∷ 2 ∷ 3 ∷ 4 ∷ 5 ∷ 6 ∷ 7 ∷ 8 ∷ []

-- a page whose first track has one block, and for which a serial number is announced
abbrev swiped : BasicPage
swiped = record (blank_page shifts widgets) {
  tracks = λ n. record {
    original = if n == 1 then hex_text (b' ' ∷ []) block else not_available;
    dec_hex = not_available;
    ascii = not_available;
    masked = not_available;
  };
  security_level = pos 3;
  bdk = 1 ∷ 35 ∷ [];
  bdk_set = true;
  key_type = data_request;
  next_ksn = 5 ∷ [];
  next_ksn_set = true;
}

report_item-decrypted_example :
    Returns
      (λ page'.
        (page'.ksn ≡ 5 ∷ [])
        × (page'.tracks 1
            ≡ decrypted_track shifts never
                (9 ∷ 10 ∷ [])
                (cleared shifts never level_3 shifts-IsDukpt refl swiped 1)
                (some block))
        × (page'.tracks 2
            ≡ decrypted_track shifts never
                (9 ∷ 10 ∷ [])
                (cleared shifts never level_3 shifts-IsDukpt refl swiped 2)
                none)
        × (page'.tracks 3
            ≡ decrypted_track shifts never
                (9 ∷ 10 ∷ [])
                (cleared shifts never level_3 shifts-IsDukpt refl swiped 3)
                none))
      (report_page_item shifts never level_3 true swiped swipe_finished none)
report_item-decrypted_example =
    report_item-decrypted shifts never level_3 shifts-IsDukpt refl swiped (some block) none none
      none refl refl refl refl
      (
        refl,
        (
          omega arith,
          (
            omega arith,
            (
              omega arith,
              (omega arith, (omega arith, (omega arith, (omega arith, (omega arith, tt))))),
            ),
          ),
        ),
        omega arith,
        omega arith,
        refl,
      )
      refl refl

build_test_privileged_command-built_example :
    build_test_privileged_command shifts true (hex_text [] (160 ∷ 1 ∷ [])) (5 ∷ [])
    ≡ ok (some (hex_text [] (160 ∷ 5 ∷ 1 ∷ [] ++ mac_of shifts (5 ∷ []) (160 ∷ 5 ∷ 1 ∷ []))))
build_test_privileged_command-built_example =
    build_test_privileged_command-built shifts (λ key input blocks. length-shift input) 160 1 []
      (5 ∷ []) (omega arith, (omega arith, tt)) (omega arith)

abbrev environment : PageEnvironment
environment = record {
  dukpt = shifts;
  granted = true;
  atoi = level_3;
  same = same_bytes;
  no_device = false;
}

abbrev new_page : RemotePage
new_page = record {
  ksn = 0 ∷ [];
  ksn_set = false;
  mut = replicate mut_size 0;
  mut_set = false;
  key_id = none;
  service = record {
    url = none;
    account = record {
      customer_code = none;
      username = none;
      password = none;
      billing_label = none;
      customer_transaction_id = none;
    };
  };
  ongoing = false;
  rows = [];
  next_row = 0;
  results_shown = false;
  ongoing_shown = false;
  ongoing_status = "";
  group_center = false;
  group_edges = false;
  footer_shown = false;
  footer = [];
  entries = λ field. [];
  n_commands_executed = 0;
  has_processor = true;
  dialog = none;
  awaited = [];
  asked = [];
}

abbrev a_key : KeyInfo
a_key = record no_key { id = some (b'7' ∷ []); ksi = some (b'0' ∷ b'5' ∷ []) }

abbrev named : Bytes → CommandInfo
named name = record no_command { name = some name; value = some (b'A' ∷ b'B' ∷ []) }

-- the list of the keys, the choice of one, its two commands, and the response of the reader
abbrev update : List Event
update =
    item_reported dukpt_ksn_and_counter (some (b'0' ∷ b'5' ∷ []))
    ∷ key_list_clicked
    ∷ answered (keys (readable (a_key ∷ [])))
    ∷ row_activated 0
    ∷ dialog_answered true
    ∷ answered (commands (readable (named change_key_name ∷ named kcv_name ∷ [])))
    ∷ answered (ran none (some (b'0' ∷ b'0' ∷ b'A' ∷ b'B' ∷ [])))
    ∷ []

steps-IsConsistent_example : Keeps IsConsistent (steps environment new_page update)
steps-IsConsistent_example =
    steps-IsConsistent environment (omega arith) new_page update
      (tt, (tt, (accepted (refl, tt), (tt, (tt, (tt, (tt, tt))))))) (resting none false refl)
