-- ===== src/Jobs/Choice.antt =====
-- app_v1/server/app/service/job_service.py: which pair `claim_next_compatible_job` takes, by the code's own tests.
use mathlib.Core.Path.{subst}
use gpstation.Prelude.Memᴰ
use gpstation.Prelude.{
  inl, inr, ℕ, Bool, true, false, ◌&&◌, not, Option, none, some, List, [], ◌∷◌, ◌≡◌, refl, ◌∙◌, ap,
  arith, Memᴰ, All-In, Distinct, Distinct-unique, In-filter, filter-In, Bool-cases, ◌==◌, ==_iff,
}
use gpstation.Jobs.Rows.{Job, Launcher, Db, is_queued}
use gpstation.Jobs.Claim.{
  Pair, is_compatible, candidates, pairs, precedes, first_pair, assign_job, claim_rows, claim_first,
  claim_next_compatible_job,
}
use gpstation.Jobs.Order.{first_pair-IsFirst, first_pair-none, pairs-In, In-pairs}
use gpstation.Jobs.Sound.{assign-Good}
use gpstation.Jobs.Effects.{ids, Effect, same, rewrites}

-- The pair that the claim takes.
pub record Taken (locked : Pair → Bool) (idle : List ℕ) (db : Db) (job : Job) (launcher : Launcher)
    : Type 0 where
  pub job_row : Memᴰ job db.jobs
  pub launcher_row : Memᴰ launcher db.launchers
  pub compatible : is_compatible idle (job, launcher) ≡ true
  pub unlocked : locked (job, launcher) ≡ false
  pub first :
      (j : Job) (l : Launcher)
      → Memᴰ j db.jobs
      → Memᴰ l db.launchers
      → is_compatible idle (j, l) ≡ true
      → locked (j, l) ≡ false
      → precedes (job, launcher) (j, l) ≡ true

module _ (locked : Pair → Bool) (idle : List ℕ) (db : Db) where
  abbrev may_take : Pair → Bool
  may_take p = is_compatible idle p && not (locked p)

  In-candidates :
      (j : Job) (l : Launcher)
      → Memᴰ j db.jobs
      → Memᴰ l db.launchers
      → is_compatible idle (j, l) ≡ true
      → locked (j, l) ≡ false
      → Memᴰ {A = Pair} (j, l) (candidates locked idle db)
  In-candidates j l m n c u =
      filter-In may_take (pairs db.jobs db.launchers) (In-pairs db.jobs db.launchers j l m n)
        (ground (arith, c, u))

  candidates-Taken :
      (j : Job) (l : Launcher)
      → first_pair (candidates locked idle db) ≡ some (j, l)
      → Taken locked idle db j l
  candidates-Taken j l e =
      let (m, first) = first_pair-IsFirst (candidates locked idle db) e in
      let (row, fits) = In-filter may_take (pairs db.jobs db.launchers) m in
      let (job_row, launcher_row) = pairs-In db.jobs db.launchers j l row in
      record {
        job_row = job_row;
        launcher_row = launcher_row;
        compatible = ground (arith, fits);
        unlocked = ground (arith, fits);
        first = λ k n a b c u.
            All-In (λ q. precedes (j, l) q ≡ true) _ first (In-candidates k n a b c u);
      }

pub data Chosen (locked : Pair → Bool) (idle : List ℕ) (now : ℕ) (db : Db)
    : Option (Job × ℕ) × Db → Type 0 where
  nothing :
      ((j : Job) (l : Launcher)
        → Memᴰ j db.jobs
        → Memᴰ l db.launchers
        → is_compatible idle (j, l) ≡ true
        → locked (j, l) ≡ true)
      → Chosen locked idle now db (none, db)
  takes :
      (j : Job) (l : Launcher)
      → Taken locked idle db j l
      → Chosen locked idle now db (some (assign_job l.id now j, l.id), claim_rows (j, l) now db)

no_candidate :
    (locked : Pair → Bool) (idle : List ℕ) (db : Db) (j : Job) (l : Launcher)
    → candidates locked idle db ≡ []
    → Memᴰ j db.jobs
    → Memᴰ l db.launchers
    → is_compatible idle (j, l) ≡ true
    → locked (j, l) ≡ true
no_candidate locked idle db j l e m n c = elim (Bool-cases (locked (j, l))) [
  | inl held ↦ held
  | inr free ↦
      absurd (Memᴰ.not-nil (subst (Memᴰ (j, l)) e (In-candidates locked idle db j l m n c free)))
]

claim_first-Chosen :
    (locked : Pair → Bool) (idle : List ℕ) (now : ℕ) (db : Db) (o : Option Pair)
    → first_pair (candidates locked idle db) ≡ o
    → Chosen locked idle now db (claim_first o now db)
unfolding claim_first
claim_first-Chosen locked idle now db none e =
    nothing (λ j l. no_candidate locked idle db j l (first_pair-none _ e))
claim_first-Chosen locked idle now db (some (j, l)) e =
    takes j l (candidates-Taken locked idle db j l e)

pub claim-Chosen :
    (locked : Pair → Bool) (idle : List ℕ) (now : ℕ) (db : Db)
    → Chosen locked idle now db (claim_next_compatible_job locked idle now db)
unfolding claim_next_compatible_job
claim-Chosen locked [] now db = nothing (λ j l m n c. ground (arith, c))
claim-Chosen locked (id ∷ rest) now db = claim_first-Chosen locked (id ∷ rest) now db _ refl

Taken-queued :
    (locked : Pair → Bool) (idle : List ℕ) (db : Db) (j : Job) (l : Launcher)
    → Taken locked idle db j l
    → is_queued j.state ≡ true
Taken-queued locked idle db j l t = ground (arith, t.compatible)

pub Chosen-Effect :
    {locked : Pair → Bool} {idle : List ℕ} {now : ℕ} {db : Db} {r : Option (Job × ℕ) × Db}
    → Distinct (ids db.jobs)
    → Chosen locked idle now db r
    → Effect true db.jobs r.1.jobs
unfolding claim_rows
Chosen-Effect d (nothing h) = same
Chosen-Effect {locked} {idle} {now} {db} d (takes j l t) =
    rewrites (λ k. k.id == j.id) (assign_job l.id now) (λ k. refl)
      (λ k m h.
        let only : k ≡ j =
          Distinct-unique (λ k. k.id) db.jobs d m t.job_row ((==_iff k.id j.id).0 h) in
        assign-Good l.id now k
          (ap (λ k. is_queued k.state) only ∙ Taken-queued locked idle db j l t))

pub claim-Effect :
    (locked : Pair → Bool) (idle : List ℕ) (now : ℕ) (db : Db)
    → Distinct (ids db.jobs)
    → Effect true db.jobs (claim_next_compatible_job locked idle now db).1.jobs
claim-Effect locked idle now db d = Chosen-Effect d (claim-Chosen locked idle now db)
