-- ===== src/Orchestrator/Connections.antt =====
-- app_v1/server/app/routers/v1/launchers.py: a launcher's connection, from its accepted hello on, and
-- the messages that come in on it. `active` says whether a key is an active launcher key of the user.
use gpstation.Prelude.{ℕ, String, Bool, false, ◌&&◌, not, Option, none, some, List, if◌then◌else◌}
use gpstation.Prelude.Dict.{Dict}
use gpstation.Protocol.{Json}
use gpstation.Jobs.Rows.{LauncherStatus}
use gpstation.Jobs.LauncherRows
use gpstation.Jobs.LauncherRows.{create_connected_launcher}
use gpstation.Registry.Launchers.{
  HeartbeatStatus, ready, busy, register_launcher, heartbeat_actions, mark_heartbeat, key_of,
}
use gpstation.Orchestrator.Server.{Server, wake_dispatcher}
use gpstation.Orchestrator.Handlers.{Handled, accepted, violation}

-- The row's fresh id becomes the key of the registry's entry.
unfoldable pub connect_launcher : ℕ → ℕ → List ℕ → ℕ → Dict ℕ → Option ℕ → ℕ → ℕ → Server → Server
connect_launcher launcher_id user_id slave_app_ids websocket timeouts access_key_id clock now s =
    wake_dispatcher (record s {
      db = (create_connected_launcher launcher_id user_id slave_app_ids now s.db).1;
      launchers = register_launcher launcher_id websocket timeouts access_key_id clock s.launchers;
    })

abbrev pub row_status : HeartbeatStatus → LauncherStatus
row_status ready = LauncherStatus.ready
row_status busy = LauncherStatus.busy

-- `launcher.heartbeat`
pub record Heartbeat : Type 0 where
  pub status : HeartbeatStatus
  pub loaded_slave_app_id : Option ℕ
  pub worker_status : Option String
  pub metadata : Json

abbrev pub key_is_active : (ℕ → Bool) → Option ℕ → Bool
key_is_active active none = false
key_is_active active (some key) = active key

-- Thirty seconds of the monotonic clock.
abbrev pub heartbeat_interval : ℕ
heartbeat_interval = 30_000

unfoldable pub handle_heartbeat : (ℕ → Bool) → ℕ → Heartbeat → ℕ → ℕ → Server → Handled × Server
handle_heartbeat active launcher_id message clock now s =
    let (persist, check, noted) =
      heartbeat_actions launcher_id message.status clock heartbeat_interval s.launchers in
    let t = record s { launchers = noted } in
    let marked = record t {
      launchers =
          mark_heartbeat launcher_id message.loaded_slave_app_id message.worker_status
            message.metadata noted;
    } in
    if check && not (key_is_active active (key_of noted launcher_id))
    then (violation "launcher access key is no longer active", t)
    else (
      accepted,
      if persist
          then record marked {
            db = LauncherRows.mark_heartbeat launcher_id (row_status message.status) now marked.db;
          }
          else marked,
    )
