-- ===== src/Orchestrator/Telling.antt =====
-- app_v1/server/app/service/job_orchestrator.py: no change that a request waits for is made in silence.
use mathlib.Core.Path.{subst}
use gpstation.Prelude.{
  ℕ, Bool, true, false, some, List, [], ◌∷◌, ◌≡◌, ◌⊎◌, inl, inr, refl, sym, ap, ◌∙◌, arith, Memᴰ,
  contains, update_where, keys-update_where, In-update_where, Bool-cases,
}
use gpstation.Prelude.Dict.{get}
use gpstation.Jobs.Rows.{Job}
use gpstation.Jobs.Effects.{ids}
use gpstation.Registry.Events.{Events, set_job_event}
use gpstation.Orchestrator.Server.{Server, signal_job, signal_jobs}
use gpstation.Orchestrator.Waiting.{is_unfinished}

-- The event that the requests for the job wait on, if there is one, is set.
abbrev pub Woken : Events → Events → ℕ → Type 0
Woken e f id = (h : ℕ) → get e.job_events id ≡ some h → f.is_set h ≡ true

-- No event is forgotten, and none is unset.
pub record Louder (e f : Events) : Type 0 where
  pub same_events : (id : ℕ) → get f.job_events id ≡ get e.job_events id
  pub kept : (h : ℕ) → e.is_set h ≡ true → f.is_set h ≡ true

-- A row of the same job that is as finished as this one.
abbrev pub Same : List Job → Job → Type 0
Same js k = (j : Job) × Memᴰ j js × (k.id ≡ j.id) × (is_unfinished k ≡ is_unfinished j)

-- Every row is as finished as before, or its requests are woken, or it is new.
pub record Told (e : Events) (js : List Job) (f : Events) (ks : List Job) : Type 0 where
  pub louder : Louder e f
  pub keeps_ids : (id : ℕ) → contains (ids js) id ≡ true → contains (ids ks) id ≡ true
  pub told : (k : Job) → Memᴰ k ks → Same js k ⊎ (Woken e f k.id ⊎ (contains (ids js) k.id ≡ false))

pub Louder-refl : (e : Events) → Louder e e
Louder-refl e = record { same_events = λ id. refl; kept = λ h s. s }

pub Louder-trans : {e f g : Events} → Louder e f → Louder f g → Louder e g
Louder-trans l m = record {
  same_events = λ id. m.same_events id ∙ l.same_events id;
  kept = λ h s. m.kept h (l.kept h s);
}

-- Nothing changes, or nothing but events.
pub Louder-Told : {e f : Events} (js : List Job) → Louder e f → Told e js f js
Louder-Told js l = record {
  louder = l;
  keeps_ids = λ id m. m;
  told = λ k m. inl (k, m, refl, refl);
}

pub Told-refl : (e : Events) (js : List Job) → Told e js e js
Told-refl e js = Louder-Told js (Louder-refl e)

pub Told-trans :
    {e f g : Events} {js ks ls : List Job} → Told e js f ks → Told f ks g ls → Told e js g ls
Told-trans {e} {f} {g} {js} {ks} {ls} s t = record {
  louder = Louder-trans s.louder t.louder;
  keeps_ids = λ id m. t.keeps_ids id (s.keeps_ids id m);
  told = λ l m. elim (t.told l m) [
    | inl (k, n, id, as_finished) ↦ elim (s.told k n) [
      | inl (j, o, before, as_before) ↦ inl (j, o, id ∙ before, as_finished ∙ as_before)
      | inr (inl w) ↦ inr (inl (λ h r. t.louder.kept h (w h (ap (get e.job_events) (sym id) ∙ r))))
      | inr (inr new) ↦ inr (inr (ap (contains (ids js)) id ∙ new))
    ]
    | inr (inl w) ↦ inr (inl (λ h r. w h (s.louder.same_events l.id ∙ r)))
    | inr (inr new) ↦ elim (Bool-cases (contains (ids js) l.id)) [
      | inl old ↦ absurd (cc (s.keeps_ids l.id old, new))
      | inr fresh ↦ inr (inr fresh)
    ]
  ];
}

-- An update of rows whose requests are all woken.
pub update-Told :
    {e f : Events} (p : Job → Bool) (g : Job → Job) (js : List Job)
    → ((j : Job) → (g j).id ≡ j.id)
    → Louder e f
    → ((j : Job) → Memᴰ j js → p j ≡ true → Woken e f j.id)
    → Told e js f (update_where p g js)
update-Told {e} {f} p g js key l woken = record {
  louder = l;
  keeps_ids =
      λ id m. subst (λ x. contains x id ≡ true) (sym (keys-update_where (λ j. j.id) p g js key)) m;
  told = λ k m.
      let (j, n, why) = In-update_where p g js {y = k} m in
      elim why [
        | inl (hit, same) ↦
            inr (inl (subst (Woken e f) (sym (ap (λ i. i.id) same ∙ key j)) (woken j n hit)))
        | inr (miss, same) ↦ inl (j, n, ap (λ i. i.id) same, ap is_unfinished same)
      ];
}

pub set-Louder : (job : ℕ) (e : Events) → Louder e (set_job_event job e)
unfolding set_job_event
set-Louder job e = record { same_events = λ id. ground arith; kept = λ h s. ground (arith, s) }

pub set-Woken : (job : ℕ) (e : Events) → Woken e (set_job_event job e) job
unfolding set_job_event
set-Woken job e h r = rw (r, set_job_event) (ground arith)

pub signal_jobs-db : (js : List Job) (s : Server) → (signal_jobs js s).db ≡ s.db
signal_jobs-db [] s = refl
signal_jobs-db (j ∷ js) s = signal_jobs-db js (signal_job j.id s)

pub signal_jobs-Louder : (js : List Job) (s : Server) → Louder s.events (signal_jobs js s).events
signal_jobs-Louder [] s = Louder-refl s.events
signal_jobs-Louder (j ∷ js) s =
    Louder-trans (set-Louder j.id s.events) (signal_jobs-Louder js (signal_job j.id s))

pub signal_jobs-Woken :
    (js : List Job) (s : Server) {j : Job}
    → Memᴰ j js
    → Woken s.events (signal_jobs js s).events j.id
signal_jobs-Woken [] s {j} m h r = elim m [ ]
signal_jobs-Woken (i ∷ js) s {j} (Memᴰ.head same) h r =
    (signal_jobs-Louder js (signal_job i.id s)).kept h
      (set-Woken i.id s.events h (ap (λ x. get s.events.job_events x.id) (sym same) ∙ r))
signal_jobs-Woken (i ∷ js) s {j} (Memᴰ.tail m) h r =
    signal_jobs-Woken js (signal_job i.id s) m h ((set-Louder i.id s.events).same_events j.id ∙ r)
