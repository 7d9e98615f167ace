-- ===== src/Orchestrator/Examples.antt =====
-- app_v1/server/app/service/job_orchestrator.py: a launcher connects and is given one of two jobs, and the
-- theorems about the orchestrator on it.
use mathlib.Core.Path.{subst}
use gpstation.Prelude.{suc, length, true, false, none, some, List, [], ◌∷◌, ◌≡◌, refl, Memᴰ}
use gpstation.Prelude.Dict.{empty, get, put, adjust, select}
use gpstation.Protocol.{obj, end, job_error}
use gpstation.Jobs.Rows.{Job}
use gpstation.Jobs.Reports.{new_job, create_job, mark_launcher_error}
use gpstation.Jobs.LauncherRows.{create_connected_launcher}
use gpstation.Jobs.Claim.{claim_next_compatible_job, first_pair, precedes, assign_job}
use gpstation.Jobs.Examples.{codec, launcher}
use gpstation.Registry.Launchers.{
  LauncherRuntime, new_launcher, note_job, register_launcher, mark_launcher_job, idle_launcher_ids,
  launcher_matches_job,
}
use gpstation.Registry.Wakeups.{start}
use gpstation.Orchestrator.Server.{Server}
use gpstation.Orchestrator.Handlers.{kill_job, create, handle_launcher_job_event}
use gpstation.Orchestrator.Dispatch.{claim_round, claim_loop}
use gpstation.Orchestrator.Connections.{connect_launcher}
use gpstation.Orchestrator.Upkeep.{InStep}
use gpstation.Orchestrator.Actions.{
  Action, kills, connects, creates, claims, act, act_all, AllFresh, act_all-InStep, one_job_each,
}
use gpstation.Orchestrator.Passes.{IsExhausted, pass-Exhausted}
use gpstation.Orchestrator.Waiting.{waits, begin_wait, get_job_wait_state}
use gpstation.Orchestrator.Requests.{waiter_woken}
use gpstation.Jobs.Ending.{kill_row, request_kill}
use gpstation.Registry.Events.{prepare_job_wait}
use gpstation.Orchestrator.Reports.{is_violation, second-violation}

abbrev fresh_server : Server
fresh_server = record {
  db = record { jobs = []; launchers = [] };
  launchers = empty;
  events = start;
  woken = false;
}

fresh_server-InStep : InStep fresh_server
fresh_server-InStep = record {
  table = record { distinct = tt; sound = tt };
  owned = λ j l r m. elim m [ ];
}

abbrev morning : List Action
morning =
    connects 7 1 (5 ∷ []) 30 empty none 1 2
    ∷ creates 1 1 "chat" "llm" 5 (obj end) 10
    ∷ creates 2 1 "chat" "llm" 5 (obj end) 11
    ∷ claims (λ p. false) 20
    ∷ []

morning-AllFresh : AllFresh codec fresh_server morning
unfolding act connect_launcher create_connected_launcher create create_job
morning-AllFresh = (λ j m. elim m [ ], (refl, (refl, (tt, tt))))

abbrev claimed : Job
claimed = assign_job 7 20 (new_job 1 1 "chat" 5 (obj end) 10)

abbrev waiting : Job
waiting = new_job 2 1 "chat" 5 (obj end) 11

abbrev at_work : LauncherRuntime
at_work = note_job (some 1) (some 5) (some "assigned") (new_launcher 7 30 empty none 1)

claimed-In : Memᴰ claimed (act_all codec fresh_server morning).db.jobs
unfolding act_all act claim_round claim_next_compatible_job idle_launcher_ids select create
    create_job connect_launcher register_launcher put empty first_pair create_connected_launcher
    precedes
claimed-In = Memᴰ.head refl

at_work-get : get (act_all codec fresh_server morning).launchers 7 ≡ some at_work
unfolding act_all act get claim_round claim_next_compatible_job idle_launcher_ids select create
    create_job connect_launcher register_launcher put empty first_pair create_connected_launcher
    mark_launcher_job adjust precedes
at_work-get = refl

act_all-InStep_example : InStep (act_all codec fresh_server morning)
act_all-InStep_example =
    act_all-InStep codec fresh_server morning morning-AllFresh fresh_server-InStep

one_job_each_example : claimed ≡ claimed
unfolding new_job
one_job_each_example =
    one_job_each codec fresh_server morning claimed claimed 7 at_work morning-AllFresh
      fresh_server-InStep claimed-In claimed-In refl refl refl refl at_work-get

abbrev busy_server : Server
busy_server = record {
  db = record { jobs = claimed ∷ waiting ∷ []; launchers = [] };
  launchers = put empty 7 at_work;
  events = start;
  woken = false;
}

second-violation_example :
    let first = job_error 1 "worker_exit" "worker subprocess exited" in
    let second = job_error 1 "worker_start_failed" "worker exited before ready" in
    let t = (handle_launcher_job_event codec 7 1 first 30 31 busy_server).1 in
    let (h, u) = handle_launcher_job_event codec 7 1 second 32 33 t in
    (is_violation h ≡ true) × (u ≡ t)
unfolding handle_launcher_job_event launcher_matches_job mark_launcher_error new_job put get empty
second-violation_example =
    second-violation codec 7 1 1 30 31 32 33 (job_error 1 "worker_exit" "worker subprocess exited")
      (job_error 1 "worker_start_failed" "worker exited before ready") busy_server refl refl refl
      refl

abbrev before_work : Server
before_work = record {
  db = record { jobs = waiting ∷ []; launchers = launcher ∷ [] };
  launchers = put empty 7 (new_launcher 7 30 empty none 1);
  events = start;
  woken = false;
}

pass-Exhausted_example :
    IsExhausted
      (λ p. false)
      (claim_loop
        (suc (length (idle_launcher_ids before_work.launchers)))
        (λ p. false)
        20
        before_work).1
pass-Exhausted_example = pass-Exhausted (λ p. false) 20 before_work

abbrev one_creation : List Action
one_creation = creates 1 1 "chat" "llm" 5 (obj end) 10 ∷ []

abbrev one_job : Server
one_job = record fresh_server {
  db = record { jobs = new_job 1 1 "chat" 5 (obj end) 10 ∷ []; launchers = [] };
  woken = true;
}

one_job-made : act_all codec fresh_server one_creation ≡ one_job
unfolding act_all act create create_job
one_job-made = refl

one_job-InStep : InStep one_job
one_job-InStep =
    subst InStep one_job-made
      (act_all-InStep codec fresh_server one_creation (refl, tt) fresh_server-InStep)

abbrev one_kill : List Action
one_kill = kills 1 (some 1) none true true 40 41 ∷ []

abbrev killed_job : Job
killed_job = kill_row 40 (new_job 1 1 "chat" 5 (obj end) 10)

waits_on_0 : (begin_wait 1 none true one_job).0 ≡ waits 0
unfolding begin_wait get_job_wait_state new_job prepare_job_wait get empty
waits_on_0 = refl

killed-In : Memᴰ killed_job (act_all codec (begin_wait 1 none true one_job).1 one_kill).db.jobs
unfolding act_all act kill_job request_kill begin_wait get_job_wait_state new_job
killed-In = Memᴰ.head refl

waiter_woken_example :
    (act_all codec (begin_wait 1 none true one_job).1 one_kill).events.is_set 0 ≡ true
unfolding new_job
waiter_woken_example =
    waiter_woken codec one_job 1 0 none true one_kill killed_job one_job-InStep waits_on_0 (tt, tt)
      killed-In refl refl
