-- ===== src/Orchestrator/Passes.antt =====
-- app_v1/server/app/service/job_orchestrator.py: a pass of `dispatch_available_jobs` over the queue. It
-- ends, and it leaves nothing behind that it could have assigned.
use gpstation.Prelude.{
  ℕ, zero, suc, ◌<◌, Bool, true, Option, none, some, List, [], ◌∷◌, ◌≡◌, refl, arith, Memᴰ, length,
  contains,
}
use gpstation.Prelude.Dict.{select-shrinks}
use gpstation.Jobs.Rows.{Job, Launcher, Db}
use gpstation.Jobs.Claim.{Pair, is_compatible, claim_next_compatible_job, assign_job}
use gpstation.Jobs.Choice.{Chosen, nothing, takes, claim-Chosen}
use gpstation.Registry.Launchers.{
  Launchers, is_idle, note_job, mark_launcher_job, idle_launcher_ids,
}
use gpstation.Orchestrator.Server.{Server}
use gpstation.Orchestrator.Dispatch.{take_up, claim_round, claim_loop}

-- No job waits that one of the idle launchers could take, but those that other transactions hold.
abbrev pub IsExhausted : (Pair → Bool) → Server → Type 0
IsExhausted locked s =
    (j : Job) (l : Launcher)
    → Memᴰ j s.db.jobs
    → Memᴰ l s.db.launchers
    → is_compatible (idle_launcher_ids s.launchers) (j, l) ≡ true
    → locked (j, l) ≡ true

abbrev idle_count : Server → ℕ
idle_count s = length (idle_launcher_ids s.launchers)

mark-shrinks :
    (launchers : Launchers) (l job app : ℕ)
    → contains (idle_launcher_ids launchers) l ≡ true
    → length
        (idle_launcher_ids (mark_launcher_job l (some job) (some app) (some "assigned") launchers))
      < length (idle_launcher_ids launchers)
unfolding idle_launcher_ids mark_launcher_job
mark-shrinks launchers l job app m =
    select-shrinks launchers is_idle (note_job (some job) (some app) (some "assigned")) l
      (λ r. refl) m

-- A round finds nothing, and changes nothing; or it assigns a job, and one launcher less is idle.
data Round (locked : Pair → Bool) (s : Server) : Option (Job × ℕ) × Server → Type 0 where
  finds_nothing : IsExhausted locked s → Round locked s (none, s)
  assigns : (a : Job × ℕ) (t : Server) → idle_count t < idle_count s → Round locked s (some a, t)

taken-Round :
    (locked : Pair → Bool) (now : ℕ) (s : Server) (r : Option (Job × ℕ) × Db)
    → Chosen locked (idle_launcher_ids s.launchers) now s.db r
    → Round locked s (r.0, record s { db = r.1; launchers = take_up r.0 s.launchers })
taken-Round locked now s _ (nothing held) = finds_nothing held
taken-Round locked now s _ (takes j l taken) =
    assigns (assign_job l.id now j, l.id) _
      (mark-shrinks s.launchers l.id j.id j.slave_app_id (ground (arith, taken.compatible)))

claim_round-Round :
    (locked : Pair → Bool) (now : ℕ) (s : Server) → Round locked s (claim_round locked now s)
unfolding claim_round
claim_round-Round locked now s =
    taken-Round locked now s
      (claim_next_compatible_job locked (idle_launcher_ids s.launchers) now s.db)
      (claim-Chosen locked (idle_launcher_ids s.launchers) now s.db)

-- What follows a round.
abbrev follow : ℕ → (Pair → Bool) → ℕ → Option (Job × ℕ) × Server → List (Job × ℕ) × Server
follow fuel locked now (assignment, t) =
    let (rest, u) = claim_loop fuel locked now t in
    elim assignment [ none ↦ ([], t) | some a ↦ (a ∷ rest, u) ]

follow-Exhausted :
    (fuel : ℕ) (locked : Pair → Bool) (now : ℕ) (s : Server) (r : Option (Job × ℕ) × Server)
    → ((t : Server) → idle_count t < fuel → IsExhausted locked (claim_loop fuel locked now t).1)
    → idle_count s < suc fuel
    → Round locked s r
    → IsExhausted locked (follow fuel locked now r).1
follow-Exhausted fuel locked now s _ ih h (finds_nothing held) = held
follow-Exhausted fuel locked now s _ ih h (assigns a t less) = ih t (omega (arith, h, less))

-- With more rounds than there are idle launchers, the loop ends because nothing is left to assign.
pub loop-Exhausted :
    (fuel : ℕ) (locked : Pair → Bool) (now : ℕ) (s : Server)
    → idle_count s < fuel
    → IsExhausted locked (claim_loop fuel locked now s).1
unfolding claim_loop
loop-Exhausted zero locked now s h = absurd (omega (arith, h))
loop-Exhausted (suc fuel) locked now s h =
    follow-Exhausted fuel locked now s (claim_round locked now s)
      (λ t less. loop-Exhausted fuel locked now t less) h (claim_round-Round locked now s)

-- The number of rounds that a pass is given is enough: after its claims, every job that waits and that
-- an idle launcher could take is held by another transaction.
pub pass-Exhausted :
    (locked : Pair → Bool) (now : ℕ) (s : Server)
    → IsExhausted locked (claim_loop (suc (length (idle_launcher_ids s.launchers))) locked now s).1
pass-Exhausted locked now s =
    loop-Exhausted (suc (length (idle_launcher_ids s.launchers))) locked now s (omega arith)
