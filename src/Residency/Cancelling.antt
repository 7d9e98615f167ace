-- ===== src/Residency/Cancelling.antt =====
-- app_v1/slaves/ai/app/gpu_residency.py: a task that is cancelled on its way into a lease.
use gpstation.Prelude.{
  ℕ, Bool, true, false, none, some, List, ◌∷◌, ◌≡◌, refl, ap, ◌∙◌, inl, inr, arith, ◌==◌, ==_iff,
  contains, Bool-cases, is_some,
}
use gpstation.Prelude.Dict.{Dict, get, put, get-put}
use gpstation.Residency.Leases.{
  Phase, acquiring, evicting, inside, clearing, Lease, Gpu, new_lease, normalize_device_ids, begin,
  take_lock, look_for_conflicts, evict_conflict, enter, release, look_for_co_residents,
  evict_co_resident, back_inside, cancel, Step, begins, takes_lock, looks_for_conflicts,
  evicts_conflict, gives_up, enters, looks_for_co_residents, evicts_co_resident, comes_back, leaves,
  is_cancelled, Reach, here, next,
}
use gpstation.Residency.Invariant.{IsSound}
use gpstation.Residency.Soundness.{put-leases, pop-leases, released-get}
use gpstation.Residency.Steps.{start, Reach-IsSound}

-- Whether a lease on its way in is suspended: it waits for a lock that is taken, or for a model's release.
abbrev pub is_suspended : Dict ℕ → Phase → Bool
is_suspended locks (acquiring (d ∷ ds)) = is_some (get locks d)
is_suspended locks (evicting (c ∷ cs)) = true
is_suspended locks _ = false

pub data Cancelled (id : ℕ) (l : Lease) (g : Gpu) : Gpu → Type 0 where
  cancelled :
      get g.leases id ≡ some l
      → is_suspended g.locks l.phase ≡ true
      → Cancelled id l g (cancel id g)

-- A lock whose lease is gone.
record Orphaned (d id : ℕ) (g : Gpu) : Type 0 where
  taken : get g.locks d ≡ some id
  missed : (j : ℕ) (k : Lease) → get g.leases j ≡ some k → contains k.held d ≡ false

module _ (d id : ℕ) (g : Gpu) (v : Orphaned d id g) where
  put-missed :
      (j : ℕ) (k : Lease)
      → contains k.held d ≡ false
      → (i : ℕ) (m : Lease) → get (put g.leases j k) i ≡ some m
      → contains m.held d ≡ false
  put-missed j k h =
      put-leases g.leases j k (λ i m. contains m.held d ≡ false) h (λ i m f o. v.missed i m f)

  release-Orphaned : (j : ℕ) (l : Lease) → get g.leases j ≡ some l → Orphaned d id (release j l g)
  unfolding release
  release-Orphaned j l e = record {
    taken = released-get l.held g.locks d (v.missed j l e) ∙ v.taken;
    missed = pop-leases g.leases j (λ i m. contains m.held d ≡ false) (λ i m f o. v.missed i m f);
  }

  take-Orphaned :
      (j device : ℕ) (rest : List ℕ) (l : Lease)
      → get g.leases j ≡ some l
      → get g.locks device ≡ none
      → Orphaned d id (take_lock j device rest l g)
  unfolding take_lock
  take-Orphaned j device rest l e n = elim (Bool-cases (device == d)) [
    | inl s ↦ cc (n, v.taken, ap (get g.locks) ((==_iff device d).0 s))
    | inr o ↦ record {
      taken = get-put g.locks device d j ∙ rw o v.taken;
      missed =
          put-missed j (record l { held = device ∷ l.held; phase = acquiring rest })
            (ground (arith, o, v.missed j l e));
    }
  ]

  new-Orphaned :
      (count role key : ℕ) (exclusive : Bool) (ids : List ℕ)
      → Orphaned d id (begin count role key exclusive ids g)
  unfolding begin
  new-Orphaned count role key exclusive ids = record {
    taken = v.taken;
    missed =
        put-missed g.next_lease (new_lease role key exclusive (normalize_device_ids count ids))
          refl;
  }

  Step-Orphaned : (h : Gpu) → Step g h → Orphaned d id h
  unfolding look_for_conflicts evict_conflict enter look_for_co_residents evict_co_resident
      back_inside cancel
  Step-Orphaned h (begins count role key exclusive ids) = new-Orphaned count role key exclusive ids
  Step-Orphaned h (takes_lock j device rest l e p n) = take-Orphaned j device rest l e n
  Step-Orphaned h (looks_for_conflicts j l e p) = record {
    taken = v.taken;
    missed = put-missed j _ (v.missed j l e);
  }
  Step-Orphaned h (evicts_conflict j c rest l e p) = record {
    taken = v.taken;
    missed = put-missed j (record l { phase = evicting rest }) (v.missed j l e);
  }
  Step-Orphaned h (gives_up j c rest l e p) = release-Orphaned j l e
  Step-Orphaned h (enters j l e p) = record {
    taken = v.taken;
    missed = put-missed j (record l { phase = inside; own = g.next_model }) (v.missed j l e);
  }
  Step-Orphaned h (looks_for_co_residents j l e p) = record {
    taken = v.taken;
    missed = put-missed j _ (v.missed j l e);
  }
  Step-Orphaned h (evicts_co_resident j c rest l e p) = record {
    taken = v.taken;
    missed = put-missed j (record l { phase = clearing rest }) (v.missed j l e);
  }
  Step-Orphaned h (comes_back j cs l e p) = record {
    taken = v.taken;
    missed = put-missed j (record l { phase = inside }) (v.missed j l e);
  }
  Step-Orphaned h (leaves j l e p) = release-Orphaned j l e
  Step-Orphaned h (is_cancelled j l e p) = record {
    taken = v.taken;
    missed = pop-leases g.leases j (λ i m. contains m.held d ≡ false) (λ i m f o. v.missed i m f);
  }

Reach-Orphaned : (d id : ℕ) {g h : Gpu} → Orphaned d id g → Reach g h → Orphaned d id h
Reach-Orphaned d id v here = v
Reach-Orphaned d id v (next r s) = Step-Orphaned d id _ (Reach-Orphaned d id v r) _ s

cancel-Orphaned :
    (g : Gpu) (id : ℕ) (l : Lease) (d : ℕ)
    → IsSound g
    → get g.leases id ≡ some l
    → contains l.held d ≡ true
    → Orphaned d id (cancel id g)
unfolding cancel
cancel-Orphaned g id l d v e h = record {
  taken = (v.leases id l e).owns d h;
  missed =
      pop-leases g.leases id (λ j k. contains k.held d ≡ false)
        (λ j k f o. elim (Bool-cases (contains k.held d)) [
          | inr n ↦ n
          | inl y ↦
              absurd (ground (arith, (v.leases id l e).owns d h, (v.leases j k f).owns d y, o))
        ]);
}

-- The locks of a lease that is cancelled on its way in are never let go: whatever happens after, each keeps the
-- name of the lease that is gone, and no other lease gets it.
pub lock_leak :
    (id other d : ℕ) (l k : Lease) (g c h : Gpu)
    → Reach start g
    → Cancelled id l g c
    → contains l.held d ≡ true
    → Reach c h
    → get h.leases other ≡ some k
    → (get h.locks d ≡ some id) × (contains k.held d ≡ false)
lock_leak id other d l k g c h r (cancelled e b) own after f =
    let v = Reach-Orphaned d id (cancel-Orphaned g id l d (Reach-IsSound r) e own) after in
    (v.taken, v.missed other k f)
