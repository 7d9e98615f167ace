-- ===== src/Orchestrator/Awake.antt =====
-- app_v1/server/app/service/job_orchestrator.py: a request that waits for an answer does not sleep over it.
use mathlib.Core.Path.{subst}
use gpstation.Prelude.Memᴰ
use gpstation.Prelude.{
  ℕ, String, Bool, true, false, not, ◌&&◌, Option, List, [], ◌∷◌, ◌++◌, ◌≡◌, inl, inr, refl, sym,
  ap, ◌∙◌, arith, contains, In-update_where, keys-update_where, Distinct, Distinct-unique,
  Bool-cases, ◌==◌, ==_iff,
}
use gpstation.Protocol.{Json, Codec}
use gpstation.Jobs.Rows.{Job, Db, Outcome, returned, raised, after, is_queued}
use gpstation.Jobs.Reports.{create_job}
use gpstation.Jobs.Claim.{Pair, assign_job, claim_rows}
use gpstation.Jobs.Choice.{Chosen, nothing, takes, claim-Chosen}
use gpstation.Jobs.LauncherRows
use gpstation.Jobs.LauncherRows.{create_connected_launcher}
use gpstation.Jobs.Effects.{ids, Created, refused, stored, create-Created}
use gpstation.Registry.Events.{Events}
use gpstation.Registry.Launchers.{idle_launcher_ids, heartbeat_actions, key_of}
use gpstation.Orchestrator.Server.{Server}
use gpstation.Orchestrator.Handlers.{create, store_created}
use gpstation.Orchestrator.Dispatch.{claim_round}
use gpstation.Orchestrator.Connections.{
  connect_launcher, Heartbeat, handle_heartbeat, heartbeat_interval, key_is_active,
}
use gpstation.Orchestrator.Upkeep.{InStep}
use gpstation.Orchestrator.Actions.{
  Action, creates, kills, resets, reports, beats, connects, disconnects, claims, delivers, expires,
  revalidates, reconciles, act, act_all, IsFresh, AllFresh, act-InStep,
}
use gpstation.Orchestrator.Waiting.{is_unfinished}
use gpstation.Orchestrator.Telling.{Told, Louder-refl, Told-refl, Told-trans}
use gpstation.Orchestrator.Notices.{Tells, handle-Tells}
use gpstation.Orchestrator.Announcements.{kill-Tells, reset-Tells, deliver-Tells}
use gpstation.Orchestrator.MassEndings.{
  disconnected-Tells, expire-Tells, revalidate-Tells, reconcile-Tells,
}

added-Told :
    (e : Events) (js : List Job) (new : Job)
    → contains (ids js) new.id ≡ false
    → Told e js e (js ++ new ∷ [])
added-Told e js new fresh = record {
  louder = Louder-refl e;
  keeps_ids = λ id m. kept id js m;
  told = λ k m. elim (Memᴰ.append_cases js m) [
    | inl n ↦ inl (k, n, refl, refl)
    | inr n ↦ inr (inr (rw (Memᴰ.eq_of_singleton n) fresh))
  ];
}
  where
    kept :
        (id : ℕ) (is : List Job)
        → contains (ids is) id ≡ true
        → contains (ids (is ++ new ∷ [])) id ≡ true
    kept id [] m = cc
    kept id (i ∷ is) m = elim (Bool-cases (i.id == id)) [
      | inl here ↦ rw here refl
      | inr there ↦ rw there (kept id is (ground (arith, m, there)))
    ]

create_job-Told :
    (e : Events) {id : ℕ} {js ks : List Job}
    → contains (ids js) id ≡ false
    → Created id js ks
    → Told e js e ks
create_job-Told e {id} {js} fresh refused = Told-refl e js
create_job-Told e {id} {js} fresh (stored j same new sound) =
    added-Told e js j (ap (contains (ids js)) same ∙ fresh)

stored-Tells :
    (o : Outcome (Job × Db)) (s : Server)
    → Told s.events s.db.jobs s.events (after s.db o).jobs
    → Tells s (store_created o s).1
stored-Tells (raised message) s t = t
stored-Tells (returned (job, db)) s t = t

create-Tells :
    (c : Codec) (id user : ℕ) (handler name : String) (app : ℕ) (offer : Json) (now : ℕ)
    (s : Server)
    → contains (ids s.db.jobs) id ≡ false
    → Tells s (create c id user handler name app offer now s).1
unfolding create
create-Tells c id user handler name app offer now s fresh =
    stored-Tells (create_job c id user handler name app offer now s.db) s
      (create_job-Told s.events fresh (create-Created c id user handler name app offer now s.db))

assigned-unfinished :
    (l now : ℕ) (j : Job)
    → is_queued j.state ≡ true
    → is_unfinished (assign_job l now j) ≡ is_unfinished j
assigned-unfinished l now j q = ground (arith, q)

claim-Told :
    (e : Events) (locked : Pair → Bool) (idle : List ℕ) (now : ℕ) (db : Db)
    (r : Option (Job × ℕ) × Db)
    → Distinct (ids db.jobs)
    → Chosen locked idle now db r
    → Told e db.jobs e r.1.jobs
unfolding claim_rows
claim-Told e locked idle now db _ d (nothing h) = Told-refl e db.jobs
claim-Told e locked idle now db _ d (takes j l t) =
    let p : Job → Bool = λ k. k.id == j.id in
    let keys = keys-update_where (λ k. k.id) p (assign_job l.id now) db.jobs (λ k. refl) in
    record {
      louder = Louder-refl e;
      keeps_ids = λ id m. subst (λ x. contains x id ≡ true) (sym keys) m;
      told = λ k m.
          let (i, n, why) = In-update_where p (assign_job l.id now) db.jobs {y = k} m in
          elim why [
            | inl (hit, same) ↦
                let only : i ≡ j =
                  Distinct-unique (λ x. x.id) db.jobs d n t.job_row ((==_iff i.id j.id).0 hit) in
                let queued : is_queued i.state ≡ true =
                  ap (λ x. is_queued x.state) only ∙ ground (arith, t.compatible) in
                inl (
                  i,
                  n,
                  ap (λ x. x.id) same,
                  ap is_unfinished same ∙ assigned-unfinished l.id now i queued,
                )
            | inr (miss, same) ↦ inl (i, n, ap (λ x. x.id) same, ap is_unfinished same)
          ];
    }

claim-Tells :
    (locked : Pair → Bool) (now : ℕ) (s : Server) → InStep s → Tells s (claim_round locked now s).1
unfolding claim_round
claim-Tells locked now s v =
    claim-Told s.events locked (idle_launcher_ids s.launchers) now s.db _ v.table.distinct
      (claim-Chosen locked (idle_launcher_ids s.launchers) now s.db)

heartbeat-Tells :
    (active : ℕ → Bool) (launcher : ℕ) (message : Heartbeat) (clock now : ℕ) (s : Server)
    → Tells s (handle_heartbeat active launcher message clock now s).1
unfolding handle_heartbeat LauncherRows.mark_heartbeat
heartbeat-Tells active launcher message clock now s =
    let (persist, check, noted) =
      heartbeat_actions launcher message.status clock heartbeat_interval s.launchers in
    elim (Bool-cases (check && not (key_is_active active (key_of noted launcher)))) [
      | inl bad ↦ rw bad (Told-refl s.events s.db.jobs)
      | inr good ↦ elim (Bool-cases persist) [
        | inl y ↦ rw good (rw y (Told-refl s.events s.db.jobs))
        | inr n ↦ rw good (rw n (Told-refl s.events s.db.jobs))
      ]
    ]

act-Tells : (c : Codec) (s : Server) (a : Action) → IsFresh s a → InStep s → Tells s (act c s a)
unfolding act connect_launcher create_connected_launcher
act-Tells c s (creates id user handler name app offer now) f v =
    create-Tells c id user handler name app offer now s f
act-Tells c s (kills job user launcher send sent now later) f v =
    kill-Tells job user launcher send sent now later s
act-Tells c s (resets launcher user sent now later) f v = reset-Tells launcher user sent now later s
act-Tells c s (reports launcher user message now later) f v =
    handle-Tells c launcher user message now later s
act-Tells c s (beats active launcher message clock now) f v =
    heartbeat-Tells active launcher message clock now s
act-Tells c s (connects launcher user apps socket timeouts key clock now) f v =
    Told-refl s.events s.db.jobs
act-Tells c s (disconnects launcher now) f v = disconnected-Tells launcher now s
act-Tells c s (claims locked now) f v = claim-Tells locked now s v
act-Tells c s (delivers job launcher sent now) f v = deliver-Tells job launcher sent now s
act-Tells c s (expires locked now) f v = expire-Tells locked now s
act-Tells c s (revalidates active interval clock now) f v =
    revalidate-Tells active interval clock now s
act-Tells c s (reconciles connected user now) f v = reconcile-Tells connected user now s

pub act_all-Tells :
    (c : Codec) (s : Server) (actions : List Action)
    → AllFresh c s actions
    → InStep s
    → Tells s (act_all c s actions)
unfolding act_all
act_all-Tells c s [] f v = Told-refl s.events s.db.jobs
act_all-Tells c s (a ∷ rest) f v =
    Told-trans (act-Tells c s a f.0 v)
      (act_all-Tells c (act c s a) rest f.1 (act-InStep c s a f.0 v))
