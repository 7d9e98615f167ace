-- ===== src/Jobs/Claim.antt =====
-- app_v1/server/app/service/job_service.py: `claim_next_compatible_job`. The query joins the queued
-- jobs with the idle launchers of the same user, orders the pairs and takes the first.
use gpstation.Prelude.{
  ℕ, ◌+◌, Bool, true, false, ◌&&◌, not, Option, none, some, List, [], ◌∷◌, ◌++◌, ltb, leb, ◌==◌,
  if◌then◌else◌, is_none, filter, update_where, contains, map,
}
use gpstation.Jobs.Rows.{Job, Launcher, Db, assigned, busy, is_queued, is_ready}

abbrev pub Pair : Type 0
Pair = Job × Launcher

-- The conditions of the join and of the WHERE clause.
abbrev pub is_compatible : List ℕ → Pair → Bool
is_compatible idle (job, launcher) =
    (launcher.user_id == job.user_id)
    && (contains launcher.slave_app_ids job.slave_app_id)
    && (is_queued job.state)
    && (contains idle launcher.id)
    && (is_none launcher.disconnected_at)
    && (is_ready launcher.status)

abbrev pub pairs : List Job → List Launcher → List Pair
pairs [] launchers = []
pairs (job ∷ jobs) launchers = map (λ launcher. (job, launcher)) launchers ++ pairs jobs launchers

-- One key of ORDER BY: the later keys decide between equal values.
abbrev pub then_by : ℕ → ℕ → Bool → Bool
then_by a b rest = if ltb a b then true else if ltb b a then false else rest

-- ORDER BY: oldest job, job id, latest heartbeat, longest connected launcher, launcher id.
unfoldable pub precedes : Pair → Pair → Bool
precedes (j, l) (k, m) = then_by j.created_at k.created_at (
    then_by j.id k.id (
      then_by m.last_heartbeat_at l.last_heartbeat_at
        (then_by l.connected_at m.connected_at (leb l.id m.id))))

abbrev pub earlier : Pair → Option Pair → Pair
earlier p none = p
earlier p (some q) = if precedes p q then p else q

-- LIMIT 1.
unfoldable pub first_pair : List Pair → Option Pair
first_pair [] = none
first_pair (p ∷ ps) = some (earlier p (first_pair ps))

-- SKIP LOCKED: a row that another transaction holds is passed over.
abbrev pub candidates : (Pair → Bool) → List ℕ → Db → List Pair
candidates locked idle db =
    filter (λ p. is_compatible idle p && not (locked p)) (pairs db.jobs db.launchers)

abbrev pub assign_job : ℕ → ℕ → Job → Job
assign_job launcher_id now job = record job {
  launcher_id = some launcher_id;
  state = assigned;
  assigned_at = some now;
  attempt_count = job.attempt_count + 1;
  updated_at = now;
}

abbrev pub occupy : ℕ → Launcher → Launcher
occupy now launcher = record launcher { status = busy; updated_at = now }

-- The two rows are written by their keys.
unfoldable pub claim_rows : Pair → ℕ → Db → Db
claim_rows (job, launcher) now db = record {
  jobs = update_where (λ j. j.id == job.id) (assign_job launcher.id now) db.jobs;
  launchers = update_where (λ l. l.id == launcher.id) (occupy now) db.launchers;
}

unfoldable pub claim_first : Option Pair → ℕ → Db → Option (Job × ℕ) × Db
unfolding claim_rows
claim_first none now db = (none, db)
claim_first (some (job, launcher)) now db =
    (some (assign_job launcher.id now job, launcher.id), claim_rows (job, launcher) now db)

unfoldable pub claim_next_compatible_job : (Pair → Bool) → List ℕ → ℕ → Db → Option (Job × ℕ) × Db
unfolding claim_first
claim_next_compatible_job locked [] now db = (none, db)
claim_next_compatible_job locked (launcher ∷ idle) now db =
    claim_first (first_pair (candidates locked (launcher ∷ idle) db)) now db
