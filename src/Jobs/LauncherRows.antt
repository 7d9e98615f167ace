-- ===== src/Jobs/LauncherRows.antt =====
-- app_v1/server/app/service/launcher_service.py over the launchers table.
use gpstation.Prelude.{
  ℕ, ◌+◌, Bool, ◌&&◌, ◌||◌, not, Option, none, List, [], ◌∷◌, ◌++◌, map, ltb, ◌==◌, if◌then◌else◌,
  is_none, filter, update_where, contains,
}
use gpstation.Jobs.Rows.{LauncherStatus, ready, is_disconnected, Launcher, Db}
use gpstation.Jobs.Ending.{if_given}

-- `list(dict.fromkeys(xs))`: the first of equal items stays.
abbrev pub unique_onto : List ℕ → List ℕ → List ℕ
unique_onto seen [] = []
unique_onto seen (x ∷ xs) =
    let rest = unique_onto seen xs in
    let more = x ∷ unique_onto (x ∷ seen) xs in if contains seen x then rest else more

unfoldable pub create_connected_launcher : ℕ → ℕ → List ℕ → ℕ → Db → Launcher × Db
create_connected_launcher id user_id slave_app_ids now db =
    let launcher : Launcher = record {
      id = id;
      user_id = user_id;
      status = ready;
      slave_app_ids = unique_onto [] slave_app_ids;
      connected_at = now;
      last_heartbeat_at = now;
      disconnected_at = none;
      updated_at = now;
    } in
    (launcher, record db { launchers = db.launchers ++ launcher ∷ [] })

-- The row of the key, if there is one. ORM flushes also stamp `updated_at`.
unfoldable pub mark_heartbeat : ℕ → LauncherStatus → ℕ → Db → Db
mark_heartbeat launcher_id status now db = record db {
  launchers =
      update_where (λ l. l.id == launcher_id)
        (λ l. record l { status = status; last_heartbeat_at = now; updated_at = now }) db.launchers;
}

-- Thirty seconds.
abbrev pub reconcile_minimum_age : ℕ
reconcile_minimum_age = 30_000_000

-- `status IN ('ready', 'busy')` is every status but the third.
abbrev pub looks_disconnected : List ℕ → Option ℕ → ℕ → Launcher → Bool
looks_disconnected connected user_id now l =
    (not (is_disconnected l.status) || is_none l.disconnected_at)
    && (ltb (l.connected_at + reconcile_minimum_age) now)
    && not (contains connected l.id)
    && (if_given user_id (λ u. l.user_id == u))

unfoldable pub find_disconnected_launcher_ids : List ℕ → Option ℕ → ℕ → Db → List ℕ
find_disconnected_launcher_ids connected user_id now db =
    map (λ l. l.id) (filter (looks_disconnected connected user_id now) db.launchers)
