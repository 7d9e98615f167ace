-- ===== src/Orchestrator/Claiming.antt =====
-- The assignment of a job to an idle launcher keeps the database and the registry in step.
use gpstation.Prelude.{
  ℕ, Bool, true, Option, none, some, List, ◌≡◌, sym, ap, ◌∙◌, inl, inr, arith, Memᴰ,
  In-update_where, Bool-cases, Option-cases, ◌==◌, ==_iff, contains,
}
use gpstation.Prelude.Dict.{get, get-adjust, contains-select, holds}
use gpstation.Jobs.Rows.{Job, Launcher, Db, is_active}
use gpstation.Jobs.Claim.{Pair, assign_job, claim_rows}
use gpstation.Jobs.Effects.{Effect-Distinct, Effect-IsSound}
use gpstation.Jobs.Choice.{Taken, Chosen, nothing, takes, claim-Chosen, Chosen-Effect}
use gpstation.Registry.Launchers.{
  LauncherRuntime, Launchers, is_idle, idle_launcher_ids, note_job, mark_launcher_job,
}
use gpstation.Orchestrator.Ownership.{Owned, Coherent}
use gpstation.Orchestrator.Server.{Server}
use gpstation.Orchestrator.Dispatch.{take_up, claim_round}

-- The launchers that the registry offers are connected, without a job and not being reset.
pub idle_iff :
    (launchers : Launchers) (l : ℕ) (r : LauncherRuntime)
    → get launchers l ≡ some r
    → contains (idle_launcher_ids launchers) l ≡ is_idle r
unfolding idle_launcher_ids
idle_iff launchers l r g = contains-select launchers is_idle l ∙ ap (holds is_idle) g

module _ (locked : Pair → Bool) (now : ℕ) (db : Db) (launchers : Launchers)
    (c : Coherent db launchers) where
  abbrev offered : List ℕ
  offered = idle_launcher_ids launchers

  free :
      (j : Job) (l : Launcher) (r : LauncherRuntime)
      → Taken locked offered db j l
      → get launchers l.id ≡ some r
      → r.current_job_id ≡ none
  free j l r t g = ground (arith, t.compatible, idle_iff launchers l.id r g)

  abbrev set_up : Job → LauncherRuntime → LauncherRuntime
  set_up j = note_job (some j.id) (some j.slave_app_id) (some "assigned")

  abbrev marked : Job → Launcher → Launchers
  marked j l = mark_launcher_job l.id (some j.id) (some j.slave_app_id) (some "assigned") launchers

  taken :
      (j : Job) (l : Launcher) (i k : Job) (n : ℕ) (r : LauncherRuntime)
      → (i.id == j.id) ≡ true
      → k ≡ assign_job l.id now i
      → k.launcher_id ≡ some n
      → get (marked j l) n ≡ some r
      → r.current_job_id ≡ some k.id
  unfolding mark_launcher_job
  taken j l i k n r hit e on g = elim (Option-cases (get launchers n)) [
    | inl h ↦ absurd (ground (arith, get-adjust launchers l.id n (set_up j), h, g))
    | inr (q, h) ↦ ground (
      arith,
      get-adjust launchers l.id n (set_up j),
      h,
      g,
      ap (λ i. i.id) e,
      ap (λ i. i.launcher_id) e,
    )
  ]

  untouched :
      (j : Job) (l : Launcher) (i : Job) (n : ℕ) (r : LauncherRuntime)
      → Taken locked offered db j l
      → Memᴰ i db.jobs
      → is_active i.state ≡ true
      → i.launcher_id ≡ some n
      → get (marked j l) n ≡ some r
      → r.current_job_id ≡ some i.id
  unfolding mark_launcher_job
  untouched j l i n r t o a on g = elim (Bool-cases (l.id == n)) [
    | inl here ↦ elim (Option-cases (get launchers n)) [
      | inl h ↦ absurd (ground (arith, get-adjust launchers l.id n (set_up j), h, g))
      | inr (q, h) ↦ absurd (
          cc (
            c.owned i n q o a on h,
            free j l q t (ap (get launchers) ((==_iff l.id n).0 here) ∙ h),
          ))
    ]
    | inr there ↦
        c.owned i n r o a on (ground (arith, get-adjust launchers l.id n (set_up j), there, g))
  ]

  takes-Owned :
      (j : Job) (l : Launcher)
      → Taken locked offered db j l
      → Owned (marked j l) (claim_rows (j, l) now db).jobs
  unfolding claim_rows
  takes-Owned j l t k n r m a on g =
      let (i, o, why) =
        In-update_where (λ i. i.id == j.id) (assign_job l.id now) db.jobs {y = k} m in
      elim why [
        | inl (hit, e) ↦ taken j l i k n r hit e on g
        | inr (miss, e) ↦
            untouched j l i n r t o (ap (λ i. is_active i.state) (sym e) ∙ a)
              (ap (λ i. i.launcher_id) (sym e) ∙ on) g
            ∙ ap (λ i. some i.id) (sym e)
      ]

  pub claim-Coherent :
      {r : Option (Job × ℕ) × Db}
      → Chosen locked offered now db r
      → Coherent r.1 (take_up r.0 launchers)
  claim-Coherent (nothing h) = c
  claim-Coherent (takes j l t) = record {
    table = record {
      distinct = Effect-Distinct (Chosen-Effect c.table.distinct (takes j l t)) c.table.distinct;
      sound = Effect-IsSound (Chosen-Effect c.table.distinct (takes j l t)) c.table.sound;
    };
    owned = takes-Owned j l t;
  }

pub claim_round-Coherent :
    (locked : Pair → Bool) (now : ℕ) (s : Server)
    → Coherent s.db s.launchers
    → Coherent (claim_round locked now s).1.db (claim_round locked now s).1.launchers
unfolding claim_round
claim_round-Coherent locked now s c =
    claim-Coherent locked now s.db s.launchers c
      (claim-Chosen locked (idle_launcher_ids s.launchers) now s.db)
