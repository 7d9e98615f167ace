-- ===== src/Jobs/Claims.antt =====
-- app_v1/server/app/service/job_service.py: what `claim_next_compatible_job` promises, without the code's own tests
-- and updates.

use gpstation.Prelude.{
  ℕ, ◌+◌, ◌<◌, ◌≤◌, Bool, true, false, Option, none, some, List, [], ◌∷◌, ◌≡◌, ◌≢◌, ◌⊎◌, inl, inr,
  refl, arith, Memᴰ, ◌==◌, ==_iff, update_where, contains, Bool-cases,
}
use gpstation.Jobs.Rows.{Job, queued, assigned, Launcher, ready, busy, Db}
use gpstation.Jobs.Claim.{Pair, is_compatible, precedes, claim_rows, claim_next_compatible_job}
use gpstation.Jobs.Choice.{Chosen, claim-Chosen}

-- The launcher can take the job.
pub record CanTake (idle : List ℕ) (job : Job) (launcher : Launcher) : Type 0 where
  pub same_user : launcher.user_id ≡ job.user_id
  pub has_app : contains launcher.slave_app_ids job.slave_app_id ≡ true
  pub job_waits : job.state ≡ queued
  pub is_offered : contains idle launcher.id ≡ true
  pub is_connected : launcher.disconnected_at ≡ none
  pub launcher_waits : launcher.status ≡ ready

-- The older job, the job's id, the later heartbeat, the longer connection, the launcher's id.
abbrev pub NotAfter : Pair → Pair → Type 0
NotAfter (j, l) (k, m) =
    (j.created_at < k.created_at)
    ⊎ ((j.created_at ≡ k.created_at)
        × ((j.id < k.id)
            ⊎ ((j.id ≡ k.id)
                × ((m.last_heartbeat_at < l.last_heartbeat_at)
                    ⊎ ((m.last_heartbeat_at ≡ l.last_heartbeat_at)
                        × ((l.connected_at < m.connected_at)
                            ⊎ ((l.connected_at ≡ m.connected_at) × (l.id ≤ m.id))))))))

-- The rows with the key `k` are changed by `f`, the others are as they were.
abbrev pub AreChanged : {A : Type 0} → (A → ℕ) → ℕ → (A → A) → List A → List A → Type 0
AreChanged key k f [] [] = Unit
AreChanged key k f [] (y ∷ ys) = ⊥
AreChanged key k f (x ∷ xs) [] = ⊥
AreChanged key k f (x ∷ xs) (y ∷ ys) =
    ((key x ≡ k → y ≡ f x) × (key x ≢ k → y ≡ x)) × AreChanged key k f xs ys

-- What stands in a job's row when the launcher has got the job.
abbrev pub given_to : ℕ → ℕ → Job → Job
given_to launcher now job = record job {
  state = assigned;
  launcher_id = some launcher;
  assigned_at = some now;
  attempt_count = job.attempt_count + 1;
  updated_at = now;
}

-- The outcomes of a claim: nothing is written, or a pair's two rows are.
pub data Claimed (locked : Pair → Bool) (idle : List ℕ) (now : ℕ) (db : Db)
    : Option (Job × ℕ) × Db → Type 0 where
  nothing :
      ((j : Job) (l : Launcher)
        → Memᴰ j db.jobs
        → Memᴰ l db.launchers
        → CanTake idle j l
        → locked (j, l) ≡ true)
      → Claimed locked idle now db (none, db)
  takes :
      (j : Job) (l : Launcher) (next : Db)
      → Memᴰ j db.jobs
      → Memᴰ l db.launchers
      → CanTake idle j l
      → locked (j, l) ≡ false
      → ((k : Job) (m : Launcher)
          → Memᴰ k db.jobs
          → Memᴰ m db.launchers
          → CanTake idle k m
          → locked (k, m) ≡ false
          → NotAfter (j, l) (k, m))
      → AreChanged (λ k. k.id) j.id (given_to l.id now) db.jobs next.jobs
      → AreChanged
          (λ m. m.id)
          l.id
          (λ m. record m { status = busy; updated_at = now })
          db.launchers
          next.launchers
      → Claimed locked idle now db (some (given_to l.id now j, l.id), next)

CanTake-is_compatible :
    (idle : List ℕ) (j : Job) (l : Launcher) → CanTake idle j l → is_compatible idle (j, l) ≡ true
CanTake-is_compatible idle j l c =
    ground
      (arith, c.same_user, c.has_app, c.job_waits, c.is_offered, c.is_connected, c.launcher_waits)

is_compatible-CanTake :
    (idle : List ℕ) (j : Job) (l : Launcher) → is_compatible idle (j, l) ≡ true → CanTake idle j l
is_compatible-CanTake idle j l h = record {
  same_user = ground (arith, h);
  has_app = ground (arith, h);
  job_waits = ground (arith, h);
  is_offered = ground (arith, h);
  is_connected = ground (arith, h);
  launcher_waits = ground (arith, h);
}

precedes-NotAfter : (p q : Pair) → precedes p q ≡ true → NotAfter p q
unfolding precedes
precedes-NotAfter (j, l) (k, m) h = ground (arith, h)

update_where-AreChanged :
    {A : Type 0} (key : A → ℕ) (k : ℕ) (f : A → A) (xs : List A)
    → AreChanged key k f xs (update_where (λ x. key x == k) f xs)
update_where-AreChanged key k f [] = tt
update_where-AreChanged key k f (x ∷ xs) = (
  elim (Bool-cases (key x == k)) [
    | inl same ↦ rw same (λ e. refl, λ n. absurd (n ((==_iff (key x) k).0 same)))
    | inr other ↦ rw other (λ e. absurd (ground (arith, e, other)), λ n. refl)
  ],
  update_where-AreChanged key k f xs,
)

Chosen-Claimed :
    {locked : Pair → Bool} {idle : List ℕ} {now : ℕ} {db : Db} {r : Option (Job × ℕ) × Db}
    → Chosen locked idle now db r
    → Claimed locked idle now db r
unfolding claim_rows
Chosen-Claimed {idle = idle} (Chosen.nothing h) =
    nothing (λ j l m n c. h j l m n (CanTake-is_compatible idle j l c))
Chosen-Claimed {idle = idle} {now = now} {db = db} (Chosen.takes j l t) =
    takes j l (claim_rows (j, l) now db) t.job_row t.launcher_row
      (is_compatible-CanTake idle j l t.compatible) t.unlocked
      (λ k m a b c u.
        precedes-NotAfter (j, l) (k, m) (t.first k m a b (CanTake-is_compatible idle k m c) u))
      (update_where-AreChanged (λ k. k.id) j.id (given_to l.id now) db.jobs)
      (update_where-AreChanged (λ m. m.id) l.id (λ m. record m { status = busy; updated_at = now })
        db.launchers)

-- A claim takes a pair of a queued job and a ready, connected, idle launcher of the same user that has the app and
-- that no other transaction holds, none of which comes before it (older job, job id, later heartbeat, longer
-- connection, launcher id). It assigns the job to the launcher, with time and attempt counted, and makes the launcher
-- busy, and no other row changes; or each such pair is held by another transaction, and nothing is written.
pub claim-Claimed :
    (locked : Pair → Bool) (idle : List ℕ) (now : ℕ) (db : Db)
    → Claimed locked idle now db (claim_next_compatible_job locked idle now db)
claim-Claimed locked idle now db = Chosen-Claimed (claim-Chosen locked idle now db)
