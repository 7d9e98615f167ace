-- ===== src/Orchestrator/Ownership.antt =====
-- Which launcher works on which job, as the database and the registry each have it.
use gpstation.Prelude.{
  ℕ, true, false, some, List, ◌≡◌, refl, sym, ap, ◌∙◌, inl, inr, arith, Memᴰ, In-update_where,
  Bool-cases, Option-cases, ◌==◌,
}
use gpstation.Prelude.Memᴰ
use gpstation.Prelude.Dict.{get, get-pop, get-adjust, pop, adjust}
use gpstation.Jobs.Rows.{Job, Db, is_active}
use gpstation.Jobs.Effects.{Effect, same, adds, rewrites, Effect-Distinct, Effect-IsSound}
use gpstation.Jobs.Invariant.{IsConsistent}
use gpstation.Registry.Launchers.{LauncherRuntime, Launchers}

-- A connected launcher with an active job has that job as its current one.
abbrev pub Owned : Launchers → List Job → Type 0
Owned launchers js =
    (j : Job) (l : ℕ) (r : LauncherRuntime)
    → Memᴰ j js
    → is_active j.state ≡ true
    → j.launcher_id ≡ some l
    → get launchers l ≡ some r
    → r.current_job_id ≡ some j.id

pub record Coherent (db : Db) (launchers : Launchers) : Type 0 where
  pub table : IsConsistent db
  pub owned : Owned launchers db.jobs

-- An active row of the table after a call that is no claim was active before.
pub Effect-origin :
    {js ks : List Job} (k : Job)
    → Effect false js ks
    → Memᴰ k ks
    → is_active k.state ≡ true
    → (j : Job) × Memᴰ j js
      × (is_active j.state ≡ true)
      × (k.launcher_id ≡ j.launcher_id)
      × (k.id ≡ j.id)
Effect-origin k same m a = (k, m, a, refl, refl)
Effect-origin {js} k (adds j fresh new sound) m a = elim (Memᴰ.append_cases js m) [
  | inl n ↦ (k, n, a, refl, refl)
  | inr n ↦ absurd (ground (arith, new.waits, a, ap (λ i. i.state) (Memᴰ.eq_of_singleton n)))
]
Effect-origin {js} k (rewrites p f key good) m a =
    let (j, n, why) = In-update_where p f js {y = k} m in
    elim why [
      | inl (hit, e) ↦
          let g = good j n hit in
          let active : is_active j.state ≡ true =
            g.calm refl (ap (λ i. is_active i.state) (sym e) ∙ a) in
          (
            j,
            n,
            active,
            ap (λ i. i.launcher_id) e ∙ g.evolves.keeps_launcher (ground (arith, active)),
            ap (λ i. i.id) e ∙ g.evolves.same_id,
          )
      | inr (miss, e) ↦ (
        j,
        n,
        ap (λ i. is_active i.state) (sym e) ∙ a,
        ap (λ i. i.launcher_id) e,
        ap (λ i. i.id) e,
      )
    ]

pub Effect-Coherent :
    (db db' : Db) (launchers : Launchers)
    → Effect false db.jobs db'.jobs
    → Coherent db launchers
    → Coherent db' launchers
Effect-Coherent db db' launchers e c = record {
  table = record {
    distinct = Effect-Distinct e c.table.distinct;
    sound = Effect-IsSound e c.table.sound;
  };
  owned = λ k l r m a on g.
      let (j, n, active, launcher, id) = Effect-origin k e m a in
      c.owned j l r n active (sym launcher ∙ on) g ∙ ap some (sym id);
}

-- The registry may forget launchers and change what else it knows of them, but not their jobs.
abbrev pub Weaker : Launchers → Launchers → Type 0
Weaker before later =
    (l : ℕ) (r : LauncherRuntime)
    → get later l ≡ some r
    → (q : LauncherRuntime) × (get before l ≡ some q) × (r.current_job_id ≡ q.current_job_id)

pub Weaker-Coherent :
    (db : Db) (before later : Launchers)
    → Weaker before later
    → Coherent db before
    → Coherent db later
Weaker-Coherent db before later w c = record {
  table = c.table;
  owned = λ j l r m a on g. let (q, h, current) = w l r g in current ∙ c.owned j l q m a on h;
}

pub Weaker-pop : (launchers : Launchers) (id : ℕ) → Weaker launchers (pop launchers id)
Weaker-pop launchers id l r g = (r, ground (arith, get-pop launchers id l, g), refl)

pub Weaker-adjust :
    (launchers : Launchers) (id : ℕ) (f : LauncherRuntime → LauncherRuntime)
    → ((q : LauncherRuntime) → get launchers id ≡ some q → (f q).current_job_id ≡ q.current_job_id)
    → Weaker launchers (adjust launchers id f)
Weaker-adjust launchers id f keeps l r g = elim (Option-cases (get launchers l)) [
  | inl n ↦ absurd (ground (arith, get-adjust launchers id l f, g, n))
  | inr (q, h) ↦ (
    q,
    h,
    elim (Bool-cases (id == l)) [
      | inl e ↦ ground (arith, get-adjust launchers id l f, g, h, keeps q)
      | inr n ↦ ground (arith, get-adjust launchers id l f, g, h)
    ],
  )
]
