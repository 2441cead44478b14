-- ===== src/RemotePage/Events/ByKsn.antt =====
-- The commands of src/mccr-gtk/mui-page-remote-services.c that go by the serial number keep the page
-- consistent, and so does the start of a job.
use mccr.Prelude.{
  ℕ, ◌+◌, ◌-◌, ◌/◌, ◌%◌, ◌<◌, ◌≡◌, refl, ap, ◌∙◌, Bool, true, false, not, ◌&&◌, List, [], ◌∷◌, ◌++◌,
  Option, none, some, Run, ok, arith, leb, ◌==◌, length, take, drop, replicate, memcpy, Keeps,
  keeps, faults, Keeps-assert, Keeps-bind, Keeps-if, Keeps-option,
}
use mccr.Prelude.Bytes.{Bytes}
use mccr.Hid.Usages.{is_null}
use mccr.Common.{is_count}
use mccr.Common.Stops.{Anything, read_block-Keeps, write_block-Keeps, strhex-Keeps, strbin-Keeps}
use mccr.RemoteService.Response.Infos.{KeyInfo}
use mccr.RemoteService.Response.Parse.{Parsed, key_is_complete}
use mccr.RemoteService.Response.Outcome.{Decided, refused, accepted, AllComplete}
use mccr.RemotePage.{
  PageEnvironment, Job, Awaited, Asked, RemotePage, ask, await, set_fields, known_ksn,
  set_sensitivity,
}
use mccr.RemotePage.Privileged.{
  padded_size, max, authenticate, fill_buffer, build_test_privileged_command,
}
use mccr.RemotePage.Privileged.Built.{test_mac_key}
use mccr.RemotePage.Keys.{run_key_update, mut_size, is_named}
use mccr.RemotePage.Commands.{
  run_privileged, ask_command_by_ksn, find_key, current_key_found, current_key_list_received,
  execute, run_generic_command, test_key_ksi, ksn_name, mut_name,
}
use mccr.RemotePage.Events.Core.{
  Core, Same, with_row-Same, ksi_matches_ksn-Keeps, select_current-Same, hex_of-Keeps, is_list,
  IsConsistent, resting, working, begin_operation-Same,
}
use mccr.RemotePage.Events.Busy.{
  Works, generic_command_finished-IsConsistent, run_on_processor-IsConsistent,
}

enough_room : (size : ℕ) → leb (size - 2) (max (padded_size size) (size + 4) - 2) ≡ true
enough_room size = ground arith

module _ (env : PageEnvironment) (sized : 0 < env.dukpt.sizeof_ksn) where
  authenticate-Keeps :
      (buffer : Bytes) (buffer_size bin_size : ℕ) (ksn : Bytes)
      → Keeps Anything (authenticate env.dukpt env.granted buffer buffer_size bin_size ksn)
  unfolding authenticate
  authenticate-Keeps buffer buffer_size bin_size ksn =
      let key = test_mac_key env.dukpt ksn in
      let encrypted =
        memcpy (replicate buffer_size 0) 0
          (env.dukpt.encrypt key (take (padded_size bin_size) buffer)) in
      Keeps-bind _ (read_block-Keeps encrypted 0 4) (λ mac _.
        Keeps-bind _ (write_block-Keeps buffer bin_size mac) (λ complete _.
          Keeps-bind _ (strhex-Keeps env.granted complete (bin_size + 4) (some []) (omega arith))
            (λ text _. keeps tt)))

  fill_buffer-Keeps :
      (command : Bytes) (size : ℕ) (ksn : Bytes)
      → Keeps Anything
          (fill_buffer env.dukpt env.granted command size (max (padded_size size) (size + 4)) ksn)
  unfolding fill_buffer
  fill_buffer-Keeps command size ksn =
      Keeps-bind _ (strbin-Keeps (take 2 command) 2) (λ (id_size, id) _.
        Keeps-bind _ (write_block-Keeps _ 0 id) (λ with_id _.
          Keeps-if (not (is_count id_size 1)) _ _ (λ _. keeps tt)
            (λ _.
              Keeps-bind _ (write_block-Keeps with_id 1 ((size - 2 + 4) % 256 ∷ []))
                (λ sized_buffer _. Keeps-assert _ _ (enough_room size) (
                  Keeps-bind _ (strbin-Keeps (drop 2 command) (size - 2))
                    (λ (content_size, content) _.
                      Keeps-bind _ (write_block-Keeps sized_buffer 2 content) (λ filled _.
                        Keeps-if (not (is_count content_size (size - 2))) _ _ (λ _. keeps tt)
                          (λ _. authenticate-Keeps filled _ size ksn))))))))

  privileged-Keeps :
      (command ksn : Bytes)
      → Keeps Anything (build_test_privileged_command env.dukpt env.granted command ksn)
  unfolding build_test_privileged_command
  privileged-Keeps command ksn =
      Keeps-if (leb (length command) 2) _ _ (λ _. keeps tt)
        (λ _.
          Keeps-if (not (length command % 2 == 0)) _ _ (λ _. keeps tt)
            (λ _. fill_buffer-Keeps command (length command / 2 + 1) ksn))

  run_privileged-IsConsistent :
      (self : RemotePage) (job : Job) (groups : Bool)
      → Works groups self
      → Keeps IsConsistent (run_privileged env self job)
  unfolding run_privileged
  run_privileged-IsConsistent self job groups works =
      Keeps-option job.command _ _ faults (λ command.
        Keeps-bind _ (privileged-Keeps command self.ksn) (λ privileged _.
          Keeps-if (is_null privileged) _ _
            (λ _. generic_command_finished-IsConsistent env sized _ job false groups works)
            (λ _. run_on_processor-IsConsistent env sized self job privileged groups works)))

  waiting :
      (self : RemotePage) (call : Awaited) (groups : Bool) (requests : List Asked)
      → is_list call ≡ false
      → Works groups self
      → IsConsistent (await (ask self requests) call)
  waiting self call groups requests job works =
      working call groups job (ap (λ (c : Core). (c.0, c.1 ++ call ∷ [], c.2, c.3, c.4)) works)

  ask_command_by_ksn-IsConsistent :
      (self : RemotePage) (job : Job) (groups : Bool)
      → Works groups self
      → Keeps IsConsistent (ask_command_by_ksn env self job)
  unfolding ask_command_by_ksn
  ask_command_by_ksn-IsConsistent self job groups works =
      Keeps-if (not (is_null self.key_id)) _ _ (λ _. keeps (waiting self _ groups _ refl works))
        (λ _.
          Keeps-bind _ (ksi_matches_ksn-Keeps env sized (known_ksn self) (some test_key_ksi))
            (λ is_test _.
              Keeps-if is_test _ _ (λ _. run_privileged-IsConsistent self job groups works)
                (λ _. keeps (waiting self _ groups _ refl works))))

  -- the key that is found has an id
  abbrev HasId : Option KeyInfo → Type 0
  HasId none = Unit
  HasId (some info) = key_is_complete info ≡ true

  find_key-HasId :
      (ksn : Option Bytes) (keys : List KeyInfo)
      → AllComplete key_is_complete keys
      → Keeps HasId (find_key env ksn keys)
  unfolding find_key
  find_key-HasId ksn [] complete = keeps tt
  find_key-HasId ksn (info ∷ infos) complete =
      Keeps-bind _ (ksi_matches_ksn-Keeps env sized ksn info.ksi)
        (λ matches _. chosen matches (find_key-HasId ksn infos complete.1))
    where
      chosen :
          (matches : Bool) {rest : Run (Option KeyInfo)}
          → Keeps HasId rest
          → Keeps HasId (elim matches [ true ↦ ok (some info) | false ↦ rest ])
      chosen true later = keeps complete.0
      chosen false later = later

  current_key_found-IsConsistent :
      (self : RemotePage) (job : Job) (found : Option KeyInfo) (groups : Bool)
      → HasId found
      → Works groups self
      → Keeps IsConsistent (current_key_found env self job found)
  unfolding current_key_found
  current_key_found-IsConsistent self job none groups has works =
      generic_command_finished-IsConsistent env sized _ job false groups works
  current_key_found-IsConsistent self job (some info) groups has works =
      rw has (ask_command_by_ksn-IsConsistent _ job groups works)

  pub current_key_list_received-IsConsistent :
      (self : RemotePage) (job : Job) (answer : Parsed KeyInfo) (groups : Bool)
      → Decided key_is_complete answer
      → Works groups self
      → Keeps IsConsistent (current_key_list_received env self job answer)
  unfolding current_key_list_received
  current_key_list_received-IsConsistent self job _ groups (refused error) works =
      generic_command_finished-IsConsistent env sized _ job false groups works
  current_key_list_received-IsConsistent self job _ groups (accepted {infos} complete) works =
      Keeps-bind _ (find_key-HasId (known_ksn self) infos complete)
        (λ found has. current_key_found-IsConsistent self job found groups has works)

  execute-IsConsistent :
      (self : RemotePage) (job : Job) (execution_type : Option Bytes) (groups : Bool)
      → Works groups self
      → Keeps IsConsistent (execute env self job execution_type)
  unfolding execute
  execute-IsConsistent self job execution_type groups works =
      Keeps-if (is_named execution_type ksn_name) _ _
        (λ _. ask_command_by_ksn-IsConsistent self job groups works)
        (λ _.
          Keeps-if (is_named execution_type mut_name) _ _
            (λ _.
              Keeps-bind _ (hex_of-Keeps env sized self.mut mut_size (omega arith))
                (λ mut _. keeps (waiting self _ groups _ refl works)))
            (λ _. generic_command_finished-IsConsistent env sized _ job false groups works))

  -- a page that rests, with no dialog
  pub run_key_update-IsConsistent :
      (self : RemotePage) (row : ℕ) (id : Option Bytes) (groups : Bool)
      → Same (false, [], none, groups, groups) self
      → Keeps IsConsistent (run_key_update env self row id)
  unfolding run_key_update
  run_key_update-IsConsistent self row id groups rests =
      Keeps-if (not env.no_device && not self.ksn_set) _ _ (λ _. keeps (resting none groups rests))
        (λ _. Keeps-bind _ (select_current-Same env sized self none) (λ unselected same.
          Keeps-bind _ (with_row-Same (set_sensitivity unselected (some row)) row _)
            (λ started same'.
              Keeps-bind _ (begin_operation-Same started none groups (same' ∙ same ∙ rests))
                (λ begun works.
                  Keeps-bind _ (hex_of-Keeps env sized begun.ksn env.dukpt.sizeof_ksn sized)
                    (λ ksn _.
                      Keeps-bind _ (hex_of-Keeps env sized begun.mut mut_size (omega arith))
                        (λ mut _. keeps (waiting (set_fields env begun) _ groups _ refl works)))))))

  pub run_generic_command-IsConsistent :
      (self : RemotePage) (row : ℕ) (id execution_type command : Option Bytes) (groups : Bool)
      → Same (false, [], none, groups, groups) self
      → Keeps IsConsistent (run_generic_command env self row id execution_type command)
  unfolding run_generic_command
  run_generic_command-IsConsistent self row id execution_type command groups rests =
      Keeps-if env.no_device _ _ (λ _. keeps (resting none groups rests))
        (λ _. Keeps-bind _ (select_current-Same env sized self none) (λ unselected same.
          Keeps-bind _ (with_row-Same (set_sensitivity unselected (some row)) row _)
            (λ started same'.
              Keeps-bind _ (begin_operation-Same started none groups (same' ∙ same ∙ rests))
                (λ begun works.
                  Keeps-bind _ (hex_of-Keeps env sized begun.ksn env.dukpt.sizeof_ksn sized)
                    (λ ksn _.
                      execute-IsConsistent (set_fields env begun) _ execution_type groups works)))))
