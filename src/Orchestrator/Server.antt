-- ===== src/Orchestrator/Server.antt =====
-- app_v1/server/app/service/job_orchestrator.py: the state that the orchestrator's handlers share,
-- and the small steps that they are made of.
use gpstation.Prelude.{ℕ, Bool, true, ◌&&◌, List, [], ◌∷◌, is_some}
use gpstation.Prelude.Dict.{get}
use gpstation.Jobs.Rows.{Job, Db}
use gpstation.Registry.Events.{Events, set_job_event}
use gpstation.Registry.Launchers.{Launchers, remove_launcher}

pub record Server : Type 0 where
  pub db : Db
  pub launchers : Launchers
  pub events : Events
  -- `_dispatch_wakeup.is_set()`
  pub woken : Bool

abbrev pub wake_dispatcher : Server → Server
wake_dispatcher s = record s { woken = true }

abbrev pub signal_job : ℕ → Server → Server
signal_job job_id s = record s { events = set_job_event job_id s.events }

abbrev pub signal_jobs : List Job → Server → Server
signal_jobs [] s = s
signal_jobs (job ∷ jobs) s = signal_jobs jobs (signal_job job.id s)

-- The registry forgets the launcher; its database row is written when its connection handler ends.
unfoldable pub disconnect_launcher : ℕ → Server → Server
disconnect_launcher launcher_id s = record s { launchers = remove_launcher launcher_id s.launchers }

-- A message goes out if the launcher is connected and its socket takes it in time (`sent`).
abbrev pub delivers : ℕ → Bool → Server → Bool
delivers launcher_id sent s = is_some (get s.launchers launcher_id) && sent
