-- ===== src/Residency/Steps.antt =====
-- app_v1/slaves/ai/app/gpu_residency.py: all leases, in any interleaving.
use mathlib.Core.Path.{subst}
use gpstation.Prelude.{ℕ, suc, ◌<◌, none, some, List, [], ◌∷◌, ◌≡◌, refl, ap, arith, All}
use gpstation.Prelude.Dict.{get, put, empty, get-empty}
use gpstation.Residency.Models.{Found, resident, evict}
use gpstation.Residency.Leases.{
  acquiring, evicting, inside, clearing, Lease, Gpu, new_lease, normalize_device_ids, begin,
  take_lock, look_for_conflicts, evict_conflict, enter, release, look_for_co_residents,
  evict_co_resident, back_inside, Step, begins, takes_lock, looks_for_conflicts, evicts_conflict,
  gives_up, enters, looks_for_co_residents, evicts_co_resident, comes_back, leaves, cancel,
  is_cancelled, Reach, here, next,
}
use gpstation.Residency.Invariant.{waiting, pending, PendingOk, LeaseOk, IsSound}
use gpstation.Residency.Evicting.{
  evict-Shrinks, Shrinks-TablesOk, evict-LeaseOk, evict_conflict-LeaseOk, evict_co_resident-LeaseOk,
}
use gpstation.Residency.Entering.{enter-TablesOk, enter-LeaseOk, entered-LeaseOk}
use gpstation.Residency.Soundness.{
  put-leases, pop-leases, new_lease-LeaseOk, with_locks, taken-LeaseOk, looking-LeaseOk,
  clearing-LeaseOk, back-LeaseOk, kept-lock, free-lock,
}

-- Before the first lease.
abbrev pub start : Gpu
start = record { locks = empty; loaded = empty; leases = empty; next_lease = 0; next_model = 0 }

no_model : (d r : ℕ) → resident start.loaded d r ≡ none
unfolding get empty
no_model d r = refl

start-IsSound : IsSound start
start-IsSound = record {
  tables = record {
    named = λ d r m e. cc (no_model d r, e);
    same = λ d r e q m n f g i. cc (no_model d r, f);
    apart = λ d r q m n f g o. cc (no_model d r, f);
  };
  leases = λ id l e. cc (get-empty {V = Lease} id, e);
  counted = λ id l e. cc (get-empty {V = Lease} id, e);
}

counted-put :
    (g : Gpu) (id : ℕ) (l k : Lease)
    → IsSound g
    → get g.leases id ≡ some l
    → (j : ℕ) (m : Lease) → get (put g.leases id k) j ≡ some m
    → j < g.next_lease
counted-put g id l k v e =
    put-leases g.leases id k (λ j m. j < g.next_lease) (v.counted id l e)
      (λ j m f o. v.counted j m f)

module _ (g : Gpu) (v : IsSound g) where
  release-IsSound : (id : ℕ) (l : Lease) → get g.leases id ≡ some l → IsSound (release id l g)
  unfolding release
  release-IsSound id l e = record {
    tables = v.tables;
    leases =
        pop-leases g.leases id (LeaseOk (release id l g).locks g.loaded g.next_model) (λ j k f o.
          with_locks g.locks (release id l g).locks g.loaded g.next_model j k
            (λ d h own. kept-lock g.locks g.loaded g.next_model id j l k d (v.leases id l e) o own)
            (v.leases j k f));
    counted = pop-leases g.leases id (λ j k. j < g.next_lease) (λ j k f o. v.counted j k f);
  }

  -- A lease that only looks, or goes back to its body.
  turn-IsSound :
      (id : ℕ) (l k : Lease)
      → get g.leases id ≡ some l
      → LeaseOk g.locks g.loaded g.next_model id k
      → IsSound (record g { leases = put g.leases id k })
  turn-IsSound id l k e a = record {
    tables = v.tables;
    leases =
        put-leases g.leases id k (LeaseOk g.locks g.loaded g.next_model) a
          (λ j m f o. v.leases j m f);
    counted = counted-put g id l k v e;
  }

  -- An eviction by a lease that has all its locks.
  evicts-IsSound :
      (id : ℕ) (l k : Lease) (c : Found)
      → get g.leases id ≡ some l
      → waiting l.phase ≡ []
      → PendingOk g.loaded g.next_model l.device_ids c
      → LeaseOk g.locks (evict c.1 g.loaded) g.next_model id k
      → IsSound (record g { loaded = evict c.1 g.loaded; leases = put g.leases id k })
  evicts-IsSound id l k c e w p a = record {
    tables = Shrinks-TablesOk (evict-Shrinks c.1 g.loaded) v.tables;
    leases =
        put-leases g.leases id k (LeaseOk g.locks (evict c.1 g.loaded) g.next_model) a (λ j m f o.
          evict-LeaseOk g.locks g.loaded g.next_model id j l m c (v.leases id l e) (v.leases j m f)
            o w p);
    counted = counted-put g id l k v e;
  }

  first-PendingOk :
      (id : ℕ) (l : Lease) (c : Found) (rest : List Found)
      → get g.leases id ≡ some l
      → pending l.phase ≡ c ∷ rest
      → PendingOk g.loaded g.next_model l.device_ids c
  first-PendingOk id l c rest e p =
      (subst (All (PendingOk g.loaded g.next_model l.device_ids)) p (v.leases id l e).found).0

pub Step-IsSound : (g h : Gpu) → Step g h → IsSound g → IsSound h
unfolding begin take_lock look_for_conflicts evict_conflict enter look_for_co_residents
    evict_co_resident back_inside cancel
Step-IsSound g h (begins count role key exclusive ids) v = record {
  tables = v.tables;
  leases =
      put-leases g.leases g.next_lease
        (new_lease role key exclusive (normalize_device_ids count ids))
        (LeaseOk g.locks g.loaded g.next_model)
        (new_lease-LeaseOk g.locks g.loaded g.next_model g.next_lease role key exclusive
          (normalize_device_ids count ids))
        (λ j k f o. v.leases j k f);
  counted =
      put-leases g.leases g.next_lease
        (new_lease role key exclusive (normalize_device_ids count ids))
        (λ j k. j < suc g.next_lease) (omega arith) (λ j k f o. omega (arith, v.counted j k f));
}
Step-IsSound g h (takes_lock id device rest l e p n) v = record {
  tables = v.tables;
  leases =
      put-leases g.leases id (record l { held = device ∷ l.held; phase = acquiring rest })
        (LeaseOk (put g.locks device id) g.loaded g.next_model)
        (taken-LeaseOk g.locks g.loaded g.next_model id device rest l (v.leases id l e) p)
        (λ j k f o.
          with_locks g.locks (put g.locks device id) g.loaded g.next_model j k
            (λ d held own. free-lock g.locks device d id j n own) (v.leases j k f));
  counted = counted-put g id l (record l { held = device ∷ l.held; phase = acquiring rest }) v e;
}
Step-IsSound g h (looks_for_conflicts id l e p) v =
    turn-IsSound g v id l _ e
      (looking-LeaseOk g.loaded g.next_model l v.tables g.locks id (v.leases id l e) p)
Step-IsSound g h (evicts_conflict id c rest l e p) v =
    evicts-IsSound g v id l (record l { phase = evicting rest }) c e (ap waiting p)
      (first-PendingOk g v id l c rest e (ap pending p))
      (evict_conflict-LeaseOk g.locks g.loaded g.next_model id l c rest v.tables (v.leases id l e)
        p)
Step-IsSound g h (gives_up id c rest l e p) v = release-IsSound g v id l e
Step-IsSound g h (enters id l e p) v = record {
  tables = enter-TablesOk g.locks g.loaded g.next_model id l v.tables (v.leases id l e) p;
  leases =
      put-leases g.leases id (record l { phase = inside; own = g.next_model }) _
        (entered-LeaseOk g.locks g.loaded g.next_model id l v.tables (v.leases id l e) p)
        (λ j k f o.
          enter-LeaseOk g.locks g.loaded g.next_model id l v.tables (v.leases id l e) p j k
            (v.leases j k f) o);
  counted = counted-put g id l (record l { phase = inside; own = g.next_model }) v e;
}
Step-IsSound g h (looks_for_co_residents id l e p) v =
    turn-IsSound g v id l _ e
      (clearing-LeaseOk g.loaded g.next_model l v.tables g.locks id (v.leases id l e) p)
Step-IsSound g h (evicts_co_resident id c rest l e p) v =
    evicts-IsSound g v id l (record l { phase = clearing rest }) c e (ap waiting p)
      (first-PendingOk g v id l c rest e (ap pending p))
      (evict_co_resident-LeaseOk g.locks g.loaded g.next_model id l c rest v.tables
        (v.leases id l e) p)
Step-IsSound g h (comes_back id cs l e p) v =
    turn-IsSound g v id l _ e
      (back-LeaseOk g.loaded g.next_model l v.tables g.locks id cs (v.leases id l e) p)
Step-IsSound g h (leaves id l e p) v = release-IsSound g v id l e
Step-IsSound g h (is_cancelled id l e p) v = record {
  tables = v.tables;
  leases =
      pop-leases g.leases id (LeaseOk g.locks g.loaded g.next_model) (λ j k f o. v.leases j k f);
  counted = pop-leases g.leases id (λ j k. j < g.next_lease) (λ j k f o. v.counted j k f);
}

pub Reach-IsSound : {g : Gpu} → Reach start g → IsSound g
Reach-IsSound here = start-IsSound
Reach-IsSound (next r s) = Step-IsSound _ _ s (Reach-IsSound r)
