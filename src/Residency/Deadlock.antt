-- ===== src/Residency/Deadlock.antt =====
-- app_v1/slaves/ai/app/gpu_residency.py: some lease can always go on, if none is cancelled on its way in.
use mathlib.Core.Path.{subst}
use gpstation.Prelude.{
  ℕ, zero, suc, ◌+◌, ◌<◌, ◌≤◌, Bool, true, false, some, List, [], ◌∷◌, ◌≡◌, refl, sym, ◌∙◌, inl,
  inr, arith, ◌==◌, ==_iff, All, Bool-cases, Option-cases,
}
use gpstation.Prelude.Dict.{get, empty, get-put}
use gpstation.Residency.Leases.{
  Phase, acquiring, evicting, inside, clearing, Lease, Gpu, new_lease, normalize_device_ids, begin,
  take_lock, look_for_conflicts, evict_conflict, enter, release, look_for_co_residents,
  evict_co_resident, back_inside, Step, begins, takes_lock, looks_for_conflicts, evicts_conflict,
  gives_up, enters, looks_for_co_residents, evicts_co_resident, comes_back, leaves, is_cancelled,
  Reach, here, next,
}
use gpstation.Residency.Invariant.{waiting}
use gpstation.Residency.Soundness.{put-leases}
use gpstation.Residency.Steps.{start}
use gpstation.Residency.Order.{
  Above, Ascending, Below, normalize-Ascending, normalize-Below, InOrder, IsOrdered,
}
use gpstation.Residency.Progress.{
  InOrder-weaken, new_lease-InOrder, counted-put, put-backed, turn-IsOrdered, release-IsOrdered,
}

start-IsOrdered : IsOrdered 0 start
unfolding get empty
start-IsOrdered = record { leases = λ id l e. cc; backed = λ d id e. cc; counted = λ id l e. cc }

begin-IsOrdered :
    (n : ℕ) (g : Gpu) (count role key : ℕ) (exclusive : Bool) (ids : List ℕ)
    → IsOrdered n g
    → IsOrdered (n + count) (begin count role key exclusive ids g)
unfolding begin
begin-IsOrdered n g count role key exclusive ids v =
    let l = new_lease role key exclusive (normalize_device_ids count ids) in
    record {
      leases =
          put-leases g.leases g.next_lease l (λ j k. InOrder (n + count) k)
            (new_lease-InOrder n count role key exclusive (normalize_device_ids count ids)
              (normalize-Ascending count ids) (normalize-Below count ids))
            (λ j k f o. InOrder-weaken n (n + count) k (omega arith) (v.leases j k f));
      backed = λ d i f.
          let (m, at, c) = v.backed d i f in
          let old = v.counted i m at in
          let other : (g.next_lease == i) ≡ false = ground (arith, old) in
          (m, get-put g.leases g.next_lease i l ∙ rw other at, c);
      counted =
          put-leases g.leases g.next_lease l (λ j k. j < suc g.next_lease) (omega arith)
            (λ j k f o. omega (arith, v.counted j k f));
    }

take-IsOrdered :
    (n : ℕ) (g : Gpu) (id device : ℕ) (rest : List ℕ) (l : Lease)
    → IsOrdered n g
    → get g.leases id ≡ some l
    → l.phase ≡ acquiring (device ∷ rest)
    → IsOrdered n (take_lock id device rest l g)
unfolding take_lock
take-IsOrdered n g id device rest l v e p =
    let k = record l { held = device ∷ l.held; phase = acquiring rest } in
    let o = v.leases id l e in
    let (a, more) = subst (λ q. Ascending (waiting q)) p o.ascending in
    let (b, bs) = subst (λ q. Below n (waiting q)) p o.below in
    record {
      leases =
          put-leases g.leases id k (λ j x. InOrder n x)
            (record {
              ascending = more;
              above = λ h c. elim (Bool-cases (device == h)) [
                | inl s ↦ subst (λ x. Above x rest) ((==_iff device h).0 s) a
                | inr d ↦ (subst (λ q. Above h (waiting q)) p (o.above h (ground (arith, c, d)))).1
              ];
              below = bs;
            })
            (λ j x f d. v.leases j x f);
      backed = λ d i f. elim (Bool-cases (device == d)) [
        | inl s ↦
            let who = sym (get-put g.locks device d id) ∙ f in
            let same : some id ≡ some i = rw s at who in
            (k, get-put g.leases id i k ∙ ground (arith, same), ground (arith, s))
        | inr s ↦
            let who = sym (get-put g.locks device d id) ∙ f in
            put-backed n g v d i id l k e (λ c. ground (arith, c, s)) (rw s at who)
      ];
      counted = counted-put n g v id l k e;
    }

-- Whether the step cancels a lease on its way in.
abbrev pub is_cancel : {g h : Gpu} → Step g h → Bool
is_cancel (is_cancelled id l e p) = true
is_cancel _ = false

Step-IsOrdered :
    (n : ℕ) (g h : Gpu) (s : Step g h)
    → is_cancel s ≡ false
    → IsOrdered n g
    → (m : ℕ) × IsOrdered m h
unfolding look_for_conflicts evict_conflict enter look_for_co_residents evict_co_resident
    back_inside
Step-IsOrdered n g h (begins count role key exclusive ids) q v =
    (n + count, begin-IsOrdered n g count role key exclusive ids v)
Step-IsOrdered n g h (takes_lock id device rest l e p f) q v =
    (n, take-IsOrdered n g id device rest l v e p)
Step-IsOrdered n g h (looks_for_conflicts id l e p) q v =
    (n, turn-IsOrdered n g v h id l _ e refl refl refl refl refl)
Step-IsOrdered n g h (evicts_conflict id c rest l e p) q v =
    (n, turn-IsOrdered n g v h id l _ e refl refl refl refl refl)
Step-IsOrdered n g h (gives_up id c rest l e p) q v = (n, release-IsOrdered n g v id l e)
Step-IsOrdered n g h (enters id l e p) q v =
    (n, turn-IsOrdered n g v h id l _ e refl refl refl refl refl)
Step-IsOrdered n g h (looks_for_co_residents id l e p) q v =
    (n, turn-IsOrdered n g v h id l _ e refl refl refl refl refl)
Step-IsOrdered n g h (evicts_co_resident id c rest l e p) q v =
    (n, turn-IsOrdered n g v h id l _ e refl refl refl refl refl)
Step-IsOrdered n g h (comes_back id cs l e p) q v =
    (n, turn-IsOrdered n g v h id l _ e refl refl refl refl refl)
Step-IsOrdered n g h (leaves id l e p) q v = (n, release-IsOrdered n g v id l e)
Step-IsOrdered n g h (is_cancelled id l e p) q v = absurd (cc q)

-- Nobody was cancelled on the way in.
abbrev pub Uncancelled : {g : Gpu} → Reach start g → Type 0
Uncancelled here = Unit
Uncancelled (next r s) = Uncancelled r × (is_cancel s ≡ false)

pub Reach-IsOrdered : {g : Gpu} (r : Reach start g) → Uncancelled r → (n : ℕ) × IsOrdered n g
Reach-IsOrdered here c = (0, start-IsOrdered)
Reach-IsOrdered (next r s) (c, q) = let (n, v) = Reach-IsOrdered r c in Step-IsOrdered n _ _ s q v

-- Whether the step is one of a lease that is there and goes its way.
abbrev pub goes_on : {g h : Gpu} → Step g h → Bool
goes_on (begins count role key exclusive ids) = false
goes_on (is_cancelled id l e p) = false
goes_on _ = true

abbrev pub Advance : Gpu → Type 0
Advance g = (h : Gpu) × (s : Step g h) × (goes_on s ≡ true)

-- Locks within `fuel` of the highest.
abbrev Near : ℕ → ℕ → List ℕ → Type 0
Near n fuel = All (λ d. n ≤ d + fuel)

nearer : (n fuel d : ℕ) (ds : List ℕ) → n ≤ d + suc fuel → Above d ds → Near n fuel ds
nearer n fuel d [] h a = tt
nearer n fuel d (e ∷ es) h (a, rest) = (omega (arith, h, a), nearer n fuel d es h rest)

-- From a lease that waits one comes to a lease that has the lock, which waits, if at all, for a higher one.
chase :
    (n : ℕ) (g : Gpu) (fuel id : ℕ) (l : Lease) (p : Phase)
    → IsOrdered n g
    → get g.leases id ≡ some l
    → l.phase ≡ p
    → Near n fuel (waiting p)
    → Advance g
chase n g zero id l (acquiring (d ∷ ds)) v e q near =
    absurd (omega (arith, near.0, (subst (λ x. Below n (waiting x)) q (v.leases id l e).below).0))
chase n g (suc fuel) id l (acquiring (d ∷ ds)) v e q near = elim (Option-cases (get g.locks d)) [
  | inl free ↦ (take_lock id d ds l g, takes_lock id d ds l e q free, refl)
  | inr (j, taken) ↦
      let (m, at, c) = v.backed d j taken in
      chase n g fuel j m m.phase v at refl
        (nearer n fuel d (waiting m.phase) near.0 ((v.leases j m at).above d c))
]
chase n g fuel id l (acquiring []) v e q near =
    (look_for_conflicts id l g, looks_for_conflicts id l e q, refl)
chase n g fuel id l (evicting []) v e q near = (enter id l g, enters id l e q, refl)
chase n g fuel id l (evicting (c ∷ cs)) v e q near =
    (evict_conflict id c cs l g, evicts_conflict id c cs l e q, refl)
chase n g fuel id l inside v e q near = (release id l g, leaves id l e q, refl)
chase n g fuel id l (clearing cs) v e q near = (back_inside id l g, comes_back id cs l e q, refl)

whole-Near : (n : ℕ) (ds : List ℕ) → Near n n ds
whole-Near n [] = tt
whole-Near n (d ∷ ds) = (omega arith, whole-Near n ds)

-- In a state that is reached from the start with no lease cancelled on its way in, as long as there is a lease,
-- some lease that is there has a step other than its cancellation: leases never wait for each other in a circle.
pub no_deadlock :
    (g : Gpu) (id : ℕ) (l : Lease) (r : Reach start g)
    → Uncancelled r
    → get g.leases id ≡ some l
    → Advance g
no_deadlock g id l r c e =
    let (n, v) = Reach-IsOrdered r c in
    chase n g n id l l.phase v e refl (whole-Near n (waiting l.phase))
