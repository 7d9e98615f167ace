-- ===== src/Registry/Waiters.antt =====
-- The wake-up events of the registry against the list of requests that hold one: entries are shared
-- while anyone waits, gone when nobody does, and a wake-up reaches everyone.
use gpstation.Prelude.{
  ℕ, zero, suc, ◌-◌, ◌<◌, Bool, true, Option, none, some, List, [], ◌∷◌, ◌≡◌, refl, ap, inl, inr,
  arith, Memᴰ, All, All-In, Bool-cases, Option-cases, ◌==◌, ==_iff, ==_refl, ◌&&◌, if◌then◌else◌,
  or_default,
}
use gpstation.Prelude.Dict.{Dict, get, put, pop, get-put, get-pop, dict_laws}
use gpstation.Registry.Events.{
  Events, set_job_event, prepare_job_wait, release_prepared_job_event, count_waiter, create_event,
}

-- A request waits for a job on an event.
abbrev pub Holders : Type 0
Holders = List (ℕ × ℕ)

abbrev pub count_of : ℕ → Holders → ℕ
count_of j [] = 0
count_of j ((i, h) ∷ hs) = if i == j then suc (count_of j hs) else count_of j hs

-- One request less.
abbrev pub leave : ℕ → ℕ → Holders → Holders
leave j h [] = []
leave j h ((i, g) ∷ hs) = if (i == j) && (g == h) then hs else (i, g) ∷ leave j h hs

abbrev pub tally : ℕ → Option ℕ
tally zero = none
tally (suc n) = some (suc n)

pub record Tracks (s : Events) (hs : Holders) : Type 0 where
  pub counted : (j : ℕ) → get s.job_event_waiters j ≡ tally (count_of j hs)
  pub shared : All (λ w. get s.job_events w.0 ≡ some w.1) hs
  pub gone : (j : ℕ) → count_of j hs ≡ 0 → get s.job_events j ≡ none

-- What a request does: it prepares, it is woken, and it releases what it prepared.
pub data Step : Events → Holders → Events → Holders → Type 0 where
  prepares :
      (s : Events) (hs : Holders) (job : ℕ)
      → Step s hs (prepare_job_wait job s).1 ((job, (prepare_job_wait job s).0) ∷ hs)
  releases :
      (s : Events) (hs : Holders) (job event : ℕ)
      → Memᴰ {A = ℕ × ℕ} (job, event) hs
      → Step s hs (release_prepared_job_event job event s) (leave job event hs)
  wakes : (s : Events) (hs : Holders) (job : ℕ) → Step s hs (set_job_event job s) hs

abbrev Shared : Dict ℕ → Holders → Type 0
Shared e = All (λ w. get e w.0 ≡ some w.1)

none-count : (e : Dict ℕ) (j : ℕ) (hs : Holders) → Shared e hs → get e j ≡ none → count_of j hs ≡ 0
none-count e j [] a n = refl
none-count e j ((i, h) ∷ hs) a n = elim (Bool-cases (i == j)) [
  | inl s ↦ absurd (cc (a.0, n, ap (get e) ((==_iff i j).0 s)))
  | inr d ↦ rw d (none-count e j hs a.1 n)
]

tally-or_default : (n : ℕ) → or_default (tally n) 0 ≡ n
tally-or_default zero = refl
tally-or_default (suc n) = refl

Shared-put :
    (e : Dict ℕ) (j h : ℕ) (hs : Holders) → get e j ≡ none → Shared e hs → Shared (put e j h) hs
Shared-put e j h [] n a = tt
Shared-put e j h ((i, g) ∷ hs) n a =
    (rw get-put (ground (arith, a.0, n)), Shared-put e j h hs n a.1)

prepare-new :
    (s : Events) (hs : Holders) (job : ℕ)
    → get s.job_events job ≡ none
    → Tracks s hs
    → Tracks (count_waiter job (create_event job s)) ((job, s.next_event) ∷ hs)
prepare-new s hs job e t = record {
  counted =
      λ j. simp dict_laws (ground (arith, t.counted j, none-count s.job_events job hs t.shared e));
  shared = (rw get-put (ground arith), Shared-put s.job_events job s.next_event hs e t.shared);
  gone = λ j z. simp dict_laws (ground (arith, t.gone j));
}

prepare-shared :
    (s : Events) (hs : Holders) (job event : ℕ)
    → get s.job_events job ≡ some event
    → Tracks s hs
    → Tracks (count_waiter job s) ((job, event) ∷ hs)
prepare-shared s hs job event e t = record {
  counted = λ j.
      simp dict_laws
        (ground (arith, t.counted j, t.counted job, tally-or_default (count_of job hs)));
  shared = (e, t.shared);
  gone = λ j z. ground (arith, t.gone j);
}

pub prepare-Tracks :
    (s : Events) (hs : Holders) (job : ℕ)
    → Tracks s hs
    → Tracks (prepare_job_wait job s).1 ((job, (prepare_job_wait job s).0) ∷ hs)
unfolding prepare_job_wait
prepare-Tracks s hs job t = elim (Option-cases (get s.job_events job)) [
  | inl e ↦ rw (e, prepare_job_wait) (prepare-new s hs job e t)
  | inr (h, e) ↦ rw (e, prepare_job_wait) (prepare-shared s hs job h e t)
]

pub wake-Tracks :
    (s : Events) (hs : Holders) (job : ℕ) → Tracks s hs → Tracks (set_job_event job s) hs
unfolding set_job_event
wake-Tracks s hs job t = elim (Option-cases (get s.job_events job)) [
  | inl e ↦ rw (e, set_job_event) t
  | inr (h, e) ↦
      rw (e, set_job_event) (record { counted = t.counted; shared = t.shared; gone = t.gone })
]

count_pos : (job h : ℕ) (hs : Holders) → Memᴰ {A = ℕ × ℕ} (job, h) hs → 0 < count_of job hs
count_pos job h [] m = elim m [ ]
count_pos job h ((i, g) ∷ hs) (Memᴰ.head e) = ground (arith, ap (λ p. p.0) e)
count_pos job h ((i, g) ∷ hs) (Memᴰ.tail m) = ground (arith, count_pos job h hs m)

count_first :
    (i job j g h c : ℕ)
    → ((i == job) && (g == h)) ≡ true
    → c ≡ (if job == j then (if i == j then suc c else c) - 1 else (if i == j then suc c else c))
count_first i job j g h c e = ground arith

-- One entry in front of a list from which an entry leaves.
count_step :
    (here leaves : Bool) (c c' : ℕ)
    → c' ≡ (if leaves then c - 1 else c)
    → (leaves ≡ true → 0 < c)
    → (if here then suc c' else c')
      ≡ (if leaves then (if here then suc c else c) - 1 else (if here then suc c else c))
count_step here leaves c c' e p = ground arith

count_of-leave :
    (j job h : ℕ) (hs : Holders)
    → Memᴰ {A = ℕ × ℕ} (job, h) hs
    → count_of j (leave job h hs) ≡ (if job == j then count_of j hs - 1 else count_of j hs)
count_of-leave j job h [] m = elim m [ ]
count_of-leave j job h ((i, g) ∷ hs) (Memᴰ.head e) =
    ground (arith, ap (λ p. p.0) e, ap (λ p. p.1) e)
count_of-leave j job h ((i, g) ∷ hs) (Memᴰ.tail m) =
    let rest = count_of-leave j job h hs m in
    elim (Bool-cases ((i == job) && (g == h))) [
      | inl hit ↦ rw hit (count_first i job j g h (count_of j hs) hit)
      | inr miss ↦ rw miss (
          count_step (i == j) (job == j) (count_of j hs) (count_of j (leave job h hs)) rest
            (λ e. rw ((==_iff job j).0 e) at (count_pos job h hs m)))
    ]

Shared-leave : (e : Dict ℕ) (job h : ℕ) (hs : Holders) → Shared e hs → Shared e (leave job h hs)
Shared-leave e job h [] a = tt
Shared-leave e job h ((i, g) ∷ hs) a = elim (Bool-cases ((i == job) && (g == h))) [
  | inl hit ↦ rw hit (a.1)
  | inr miss ↦ rw miss (a.0, Shared-leave e job h hs a.1)
]

Shared-pop :
    (e : Dict ℕ) (j : ℕ) (hs : Holders) → count_of j hs ≡ 0 → Shared e hs → Shared (pop e j) hs
Shared-pop e j [] z a = tt
Shared-pop e j ((i, g) ∷ hs) z a =
    (rw get-pop (ground (arith, a.0)), Shared-pop e j hs (ground arith) a.1)

module _ (s : Events) (hs : Holders) (job event : ℕ) (t : Tracks s hs)
    (m : Memᴰ {A = ℕ × ℕ} (job, event) hs) where
  remaining : ℕ
  remaining = or_default (get s.job_event_waiters job) 1 - 1

  remaining_lem : remaining ≡ count_of job hs - 1
  unfolding remaining
  remaining_lem =
      ground (arith, t.counted job, count_pos job event hs m, tally-or_default (count_of job hs))

  held : get s.job_events job ≡ some event
  held = All-In (λ w. get s.job_events w.0 ≡ some w.1) hs t.shared m

  release-last :
      remaining ≡ 0
      → Tracks
          (record s {
            job_event_waiters = pop s.job_event_waiters job;
            job_events = pop s.job_events job;
          })
          (leave job event hs)
  release-last z = record {
    counted = λ j.
        simp dict_laws
          (ground (arith, t.counted j, count_of-leave j job event hs m, remaining_lem));
    shared =
        Shared-pop s.job_events job (leave job event hs)
          (ground (arith, count_of-leave job job event hs m, remaining_lem))
          (Shared-leave s.job_events job event hs t.shared);
    gone = λ j e. simp dict_laws (ground (arith, t.gone j, count_of-leave j job event hs m));
  }

  release-other :
      0 < remaining
      → Tracks
          (record s { job_event_waiters = put s.job_event_waiters job remaining })
          (leave job event hs)
  release-other p = record {
    counted = λ j.
        simp dict_laws
          (ground (arith, t.counted j, count_of-leave j job event hs m, remaining_lem));
    shared = Shared-leave s.job_events job event hs t.shared;
    gone = λ j e. ground (arith, t.gone j, count_of-leave j job event hs m, remaining_lem);
  }

  pub release-Tracks : Tracks (release_prepared_job_event job event s) (leave job event hs)
  unfolding release_prepared_job_event remaining
  release-Tracks = elim (Bool-cases (remaining == 0)) [
    | inl z ↦ rw (z, held, ==_refl event) (release-last ((==_iff remaining 0).0 z))
    | inr n ↦ rw n (release-other (ground arith))
  ]
