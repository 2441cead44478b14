-- ===== src/RemotePage/Events/Answers.antt =====
-- The answers that the page of src/mccr-gtk/mui-page-remote-services.c waits for keep it consistent.
use mccr.Prelude.{
  ◌<◌, ◌≡◌, sym, ap, ◌∙◌, Bool, true, false, List, [], ◌∷◌, none, Keeps, keeps, faults,
}
use mccr.RemoteService.Response.Parse.{key_is_complete}
use mccr.RemoteService.Response.Outcome.{Decided}
use mccr.RemotePage.{
  PageEnvironment, Awaited, key_list_ready, command_list_ready, key_load_command_ready,
  key_update_command_ready, command_by_mut_ready, command_by_ksn_ready, current_key_list_ready,
  generic_command_ready, RemotePage,
}
use mccr.RemotePage.Events.{Answer, keys, commands, ran, callback, answer_step}
use mccr.RemotePage.Events.Core.{Core, Same, is_list, IsConsistent, resting, working, listing}
use mccr.RemotePage.Events.Busy.{
  Works, key_update_ready-IsConsistent, get_key_load_command_ready-IsConsistent,
  generic_command_ready-IsConsistent, get_command_ready-IsConsistent,
}
use mccr.RemotePage.Events.ByKsn.{current_key_list_received-IsConsistent}
use mccr.RemotePage.Events.Lists.{
  get_key_list_ready-IsConsistent, get_command_list_ready-IsConsistent,
}

-- What the remote service answers with: an error, or keys that have an id.
abbrev pub IsAnswer : Answer → Type 0
IsAnswer (keys answer) = Decided key_is_complete answer
IsAnswer (commands answer) = Unit
IsAnswer (ran error response) = Unit

-- whether the oldest call that is awaited is one for a list
abbrev oldest_is_list : List Awaited → Bool
oldest_is_list [] = false
oldest_is_list (call ∷ rest) = is_list call

abbrev later : List Awaited → List Awaited
later [] = []
later (call ∷ rest) = rest

-- Without the call that is answered, a page that awaits one call awaits none.
answered-Works :
    (self : RemotePage) (call : Awaited) (rest : List Awaited) (call' : Awaited) (groups : Bool)
    → self.awaited ≡ call ∷ rest
    → Same (true, call' ∷ [], none, groups, groups) self
    → Works groups (record self { awaited = rest })
answered-Works self call rest call' groups are e =
    ap (λ calls. (self.ongoing, calls, self.dialog, self.group_center, self.group_edges))
      (sym (ap later are))
    ∙ ap (λ (c : Core). (c.0, later c.1, c.2, c.3, c.4)) e

module _ (env : PageEnvironment) (sized : 0 < env.dukpt.sizeof_ksn) where
  job_callback-IsConsistent :
      (self : RemotePage) (call : Awaited) (answer : Answer) (groups : Bool)
      → is_list call ≡ false
      → IsAnswer answer
      → Works groups self
      → Keeps IsConsistent (callback env self call answer)
  unfolding callback
  job_callback-IsConsistent self (key_load_command_ready job) (commands answer) groups _ ok_answer
        works =
      get_key_load_command_ready-IsConsistent env sized self job answer groups works
  job_callback-IsConsistent self (key_update_command_ready job) (ran error response) groups _
        ok_answer works =
      key_update_ready-IsConsistent env sized self job error response groups works
  job_callback-IsConsistent self (command_by_mut_ready job) (commands answer) groups _ ok_answer
        works =
      get_command_ready-IsConsistent env sized self job answer groups works
  job_callback-IsConsistent self (command_by_ksn_ready job) (commands answer) groups _ ok_answer
        works =
      get_command_ready-IsConsistent env sized self job answer groups works
  job_callback-IsConsistent self (current_key_list_ready job) (keys answer) groups _ ok_answer
        works =
      current_key_list_received-IsConsistent env sized self job answer groups ok_answer works
  job_callback-IsConsistent self (generic_command_ready job) (ran error response) groups _ ok_answer
        works =
      generic_command_ready-IsConsistent env sized self job error groups works
  job_callback-IsConsistent self key_list_ready answer groups is_job ok_answer works = cc is_job
  job_callback-IsConsistent self command_list_ready answer groups is_job ok_answer works = cc is_job
  job_callback-IsConsistent self call answer groups _ ok_answer works = faults

  list_callback-IsConsistent :
      (self : RemotePage) (call : Awaited) (answer : Answer)
      → is_list call ≡ true
      → Works false self
      → Keeps IsConsistent (callback env self call answer)
  unfolding callback
  list_callback-IsConsistent self key_list_ready (keys answer) _ works =
      get_key_list_ready-IsConsistent env sized self answer works
  list_callback-IsConsistent self command_list_ready (commands answer) _ works =
      get_command_list_ready-IsConsistent env sized self answer works
  list_callback-IsConsistent self key_list_ready answer _ works = faults
  list_callback-IsConsistent self command_list_ready answer _ works = faults
  list_callback-IsConsistent self call answer is works = cc is

  pub answer_step-IsConsistent :
      (self : RemotePage) (awaited : List Awaited) (answer : Answer)
      → self.awaited ≡ awaited
      → IsAnswer answer
      → IsConsistent self
      → Keeps IsConsistent (answer_step env self awaited answer)
  unfolding answer_step
  answer_step-IsConsistent self [] answer are ok_answer v = keeps v
  answer_step-IsConsistent self (call ∷ rest) answer are ok_answer (resting dialog groups e) =
      cc (are, ap (λ (c : Core). c.1) e)
  answer_step-IsConsistent self (call ∷ rest) answer are ok_answer (working call' groups job e) =
      job_callback-IsConsistent (record self { awaited = rest }) call answer groups
        (ap oldest_is_list (sym are ∙ ap (λ (c : Core). c.1) e) ∙ job) ok_answer
        (answered-Works self call rest call' groups are e)
  answer_step-IsConsistent self (call ∷ rest) answer are ok_answer (listing call' list e) =
      list_callback-IsConsistent (record self { awaited = rest }) call answer
        (ap oldest_is_list (sym are ∙ ap (λ (c : Core). c.1) e) ∙ list)
        (answered-Works self call rest call' false are e)
