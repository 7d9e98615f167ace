-- ===== src/Registry/Launchers.antt =====
-- app_v1/server/app/state.py: the launchers that hold a connection. A runtime object is shared, and
-- is changed in place under the registry's lock. Times are milliseconds of the monotonic clock.
use gpstation.Prelude.{
  ℕ, ◌-◌, String, Bool, true, false, ◌&&◌, ◌||◌, not, Option, none, some, List, leb, if◌then◌else◌,
  is_id, is_none,
}
use gpstation.Prelude.Dict.{Dict, get, put, pop, adjust, select, holds}
use gpstation.Protocol.{Json, obj, end}

pub data HeartbeatStatus : Type 0 where
  ready busy : HeartbeatStatus

abbrev pub same_status : HeartbeatStatus → HeartbeatStatus → Bool
same_status ready ready = true
same_status busy busy = true
same_status _ _ = false

pub record LauncherRuntime : Type 0 where
  pub id : ℕ
  pub websocket : ℕ
  pub access_key_id : Option ℕ
  pub slave_app_startup_timeouts : Dict ℕ
  pub current_job_id : Option ℕ
  pub loaded_slave_app_id : Option ℕ
  pub worker_status : Option String
  pub resetting : Bool
  pub metadata : Json
  pub last_db_heartbeat_at : ℕ
  pub last_db_heartbeat_status : HeartbeatStatus
  pub last_access_key_check_at : ℕ

abbrev pub Launchers : Type 0
Launchers = Dict LauncherRuntime

abbrev pub new_launcher : ℕ → ℕ → Dict ℕ → Option ℕ → ℕ → LauncherRuntime
new_launcher launcher_id websocket timeouts access_key_id now = record {
  id = launcher_id;
  websocket = websocket;
  access_key_id = access_key_id;
  slave_app_startup_timeouts = timeouts;
  current_job_id = none;
  loaded_slave_app_id = none;
  worker_status = none;
  resetting = false;
  metadata = obj end;
  last_db_heartbeat_at = now;
  last_db_heartbeat_status = ready;
  last_access_key_check_at = now;
}

unfoldable pub register_launcher : ℕ → ℕ → Dict ℕ → Option ℕ → ℕ → Launchers → Launchers
register_launcher launcher_id websocket timeouts access_key_id now launchers =
    put launchers launcher_id (new_launcher launcher_id websocket timeouts access_key_id now)

unfoldable pub remove_launcher : ℕ → Launchers → Launchers
remove_launcher launcher_id launchers = pop launchers launcher_id

abbrev pub pop_all : List ℕ → Launchers → Launchers
pop_all List.[] launchers = launchers
pop_all (List.◌∷◌ id ids) launchers = pop_all ids (pop launchers id)

-- The launchers of a revoked key leave the registry. (Their sockets are closed afterwards.)
unfoldable pub close_launchers_for_access_key : ℕ → Launchers → List ℕ × Launchers
close_launchers_for_access_key access_key_id launchers =
    let targets = select launchers (λ l. is_id l.access_key_id access_key_id) in
    (targets, pop_all targets launchers)

-- The job id of a heartbeat is not used.
unfoldable pub mark_heartbeat : ℕ → Option ℕ → Option String → Json → Launchers → Launchers
mark_heartbeat launcher_id loaded_slave_app_id worker_status metadata launchers =
    adjust launchers launcher_id (λ l. record l {
      loaded_slave_app_id = loaded_slave_app_id;
      worker_status = worker_status;
      metadata = metadata;
    })

-- A new value, if one is given.
abbrev pub replaces {ℓ} : {A : Type ℓ} → Option A → Option A → Option A
replaces none old = old
replaces (some a) old = some a

abbrev pub note_job : Option ℕ → Option ℕ → Option String → LauncherRuntime → LauncherRuntime
note_job job_id loaded_slave_app_id worker_status l = record l {
  current_job_id = job_id;
  loaded_slave_app_id = replaces loaded_slave_app_id l.loaded_slave_app_id;
  worker_status = replaces worker_status l.worker_status;
}

unfoldable pub mark_launcher_job : ℕ → Option ℕ → Option ℕ → Option String → Launchers → Launchers
mark_launcher_job launcher_id job_id loaded_slave_app_id worker_status launchers =
    adjust launchers launcher_id (note_job job_id loaded_slave_app_id worker_status)

unfoldable pub clear_launcher_worker : ℕ → Launchers → Launchers
clear_launcher_worker launcher_id launchers = adjust launchers launcher_id (λ l. record l {
  current_job_id = none;
  loaded_slave_app_id = none;
  worker_status = some "idle";
  resetting = false;
  metadata = obj end;
})

abbrev pub start_reset : LauncherRuntime → LauncherRuntime
start_reset l = record l { resetting = true; worker_status = some "resetting" }

unfoldable pub mark_launcher_resetting : ℕ → Launchers → Option LauncherRuntime × Launchers
mark_launcher_resetting launcher_id launchers = elim (get launchers launcher_id) [
  | none ↦ (none, launchers)
  | some l ↦
      if l.resetting
      then (none, launchers)
      else (some (start_reset l), adjust launchers launcher_id start_reset)
]

abbrev pub is_idle : LauncherRuntime → Bool
is_idle l = (is_none l.current_job_id) && not l.resetting

unfoldable pub idle_launcher_ids : Launchers → List ℕ
idle_launcher_ids launchers = select launchers is_idle

unfoldable pub launcher_matches_job : ℕ → ℕ → Launchers → Bool
launcher_matches_job launcher_id job_id launchers =
    holds (λ l. is_id l.current_job_id job_id) (get launchers launcher_id)

-- `now - at >= interval_seconds`, on a clock that does not run backwards.
abbrev pub is_due : ℕ → ℕ → ℕ → Bool
is_due now at interval = leb interval (now - at)

-- Whether to write the heartbeat to the database, and whether to check the access key again.
abbrev pub must_persist : HeartbeatStatus → ℕ → ℕ → LauncherRuntime → Bool
must_persist status now interval l =
    not (same_status status l.last_db_heartbeat_status)
    || is_due now l.last_db_heartbeat_at interval

abbrev pub must_check : ℕ → ℕ → LauncherRuntime → Bool
must_check now interval l = is_due now l.last_access_key_check_at interval

abbrev pub note_heartbeat : HeartbeatStatus → ℕ → ℕ → LauncherRuntime → LauncherRuntime
note_heartbeat status now interval l = record l {
  last_db_heartbeat_status =
      if must_persist status now interval l then status else l.last_db_heartbeat_status;
  last_db_heartbeat_at = if must_persist status now interval l then now else l.last_db_heartbeat_at;
  last_access_key_check_at = if must_check now interval l then now else l.last_access_key_check_at;
}

unfoldable pub heartbeat_actions : ℕ → HeartbeatStatus → ℕ → ℕ → Launchers → Bool × Bool × Launchers
heartbeat_actions launcher_id status now interval launchers = elim (get launchers launcher_id) [
  | none ↦ (false, false, launchers)
  | some l ↦ (
    must_persist status now interval l,
    must_check now interval l,
    adjust launchers launcher_id (note_heartbeat status now interval),
  )
]

abbrev pub key_of : Launchers → ℕ → Option ℕ
key_of launchers launcher_id = elim (get launchers launcher_id) [
  | none ↦ none
  | some l ↦ l.access_key_id
]

abbrev pub needs_check : ℕ → ℕ → LauncherRuntime → Bool
needs_check now interval l = not (is_none l.access_key_id) && must_check now interval l

-- The launchers whose key is to be checked; each key is `key_of` its launcher.
unfoldable pub access_key_revalidation_targets : ℕ → ℕ → Launchers → List ℕ
access_key_revalidation_targets now interval launchers = select launchers (needs_check now interval)

unfoldable pub mark_access_keys_revalidated : List ℕ → ℕ → Launchers → Launchers
mark_access_keys_revalidated List.[] now launchers = launchers
mark_access_keys_revalidated (List.◌∷◌ id ids) now launchers =
    mark_access_keys_revalidated ids now
      (adjust launchers id (λ l. record l { last_access_key_check_at = now }))

unfoldable pub get_slave_startup_timeout : ℕ → ℕ → Launchers → Option ℕ
get_slave_startup_timeout launcher_id slave_app_id launchers = elim (get launchers launcher_id) [
  | none ↦ none
  | some l ↦ get l.slave_app_startup_timeouts slave_app_id
]
