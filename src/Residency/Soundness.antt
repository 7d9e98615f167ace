-- ===== src/Residency/Soundness.antt =====
-- app_v1/slaves/ai/app/gpu_residency.py: every step keeps the tables and all leases in order.
use mathlib.Core.Path.{subst}
use gpstation.Prelude.{
  ℕ, ◌<◌, Bool, true, false, ◌||◌, none, some, List, [], ◌∷◌, ◌≡◌, refl, sym, ap, ◌∙◌, inl, inr,
  arith, ◌==◌, ==_iff, contains, All, Bool-cases,
}
use gpstation.Prelude.Dict.{Dict, get, put, pop, get-put, get-pop}
use gpstation.Residency.Models.{LoadedGpuModel, Loaded, Found, collect}
use gpstation.Residency.Leases.{
  acquiring, evicting, inside, clearing, Lease, conflicts, is_co_resident, new_lease, release_all,
}
use gpstation.Residency.Collecting.{collect-finds, All-collect}
use gpstation.Residency.Invariant.{waiting, is_inside, TablesOk, PendingOk, LeaseOk}
use gpstation.Residency.Evicting.{renew}

-- After one lease has been written: what must be shown of it, and of the others.
pub put-leases :
    (leases : Dict Lease) (id : ℕ) (l : Lease) (P : ℕ → Lease → Type 0)
    → P id l
    → ((j : ℕ) (k : Lease) → get leases j ≡ some k → (id == j) ≡ false → P j k)
    → (j : ℕ) (k : Lease) → get (put leases id l) j ≡ some k
    → P j k
put-leases leases id l P mine rest j k e =
    let e' = sym (get-put leases id j l) ∙ e in
    elim (Bool-cases (id == j)) [
      | inr o ↦ rest j k (rw o at e') o
      | inl s ↦
          let same : some l ≡ some k = rw s at e' in
          subst (λ x. P j x) (cc) (subst (λ x. P x l) ((==_iff id j).0 s) mine)
    ]

pub pop-leases :
    (leases : Dict Lease) (id : ℕ) (P : ℕ → Lease → Type 0)
    → ((j : ℕ) (k : Lease) → get leases j ≡ some k → (id == j) ≡ false → P j k)
    → (j : ℕ) (k : Lease) → get (pop leases id) j ≡ some k
    → P j k
pop-leases leases id P rest j k e =
    let e' = sym (get-pop leases id j) ∙ e in
    elim (Bool-cases (id == j)) [ inr o ↦ rest j k (rw o at e') o | inl s ↦ cc (rw s at e') ]

-- A new lease has no lock yet.
pub new_lease-LeaseOk :
    (locks : Dict ℕ) (loaded : Loaded) (next id role key : ℕ) (exclusive : Bool) (ds : List ℕ)
    → LeaseOk locks loaded next id (new_lease role key exclusive ds)
new_lease-LeaseOk locks loaded next id role key exclusive [] = record {
  owns = λ d h. cc;
  covers = λ d h. cc;
  found = tt;
  looked = λ h. cc;
  settled = λ h d c. cc;
  others = λ h. cc;
  cleared = λ h. cc;
}
new_lease-LeaseOk locks loaded next id role key exclusive (x ∷ ds) = record {
  owns = λ d h. cc;
  covers = λ d h. h;
  found = tt;
  looked = λ h. cc;
  settled = λ h. cc;
  others = λ h. cc;
  cleared = λ h. cc;
}

-- The invariants do not look at the locks except for the leases' own devices.
pub with_locks :
    (before after : Dict ℕ) (loaded : Loaded) (next id : ℕ) (l : Lease)
    → ((d : ℕ) → contains l.held d ≡ true → get before d ≡ some id → get after d ≡ some id)
    → LeaseOk before loaded next id l
    → LeaseOk after loaded next id l
with_locks before after loaded next id l keeps a = record {
  owns = λ d h. keeps d h (a.owns d h);
  covers = a.covers;
  found = a.found;
  looked = a.looked;
  settled = a.settled;
  others = a.others;
  cleared = a.cleared;
}

-- A lease that takes the next lock.
pub taken-LeaseOk :
    (locks : Dict ℕ) (loaded : Loaded) (next id device : ℕ) (rest : List ℕ) (l : Lease)
    → LeaseOk locks loaded next id l
    → l.phase ≡ acquiring (device ∷ rest)
    → LeaseOk
        (put locks device id)
        loaded
        next
        id
        (record l { held = device ∷ l.held; phase = acquiring rest })
taken-LeaseOk locks loaded next id device rest l a e = record {
  owns = λ d h. get-put locks device d id ∙ ground (arith, h, a.owns d);
  covers = λ d h. ground (arith, a.covers d h, ap (λ q. contains (waiting q) d) e);
  found = tt;
  looked = λ h. cc;
  settled = λ h. cc;
  others = λ h. cc;
  cleared = λ h. cc;
}

pub released-get :
    (ds : List ℕ) (locks : Dict ℕ) (d : ℕ)
    → contains ds d ≡ false
    → get (release_all ds locks) d ≡ get locks d
released-get [] locks d h = refl
released-get (x ∷ xs) locks d h =
    released-get xs (pop locks x) d (ground (arith, h)) ∙ ground (arith, h, get-pop locks x d)

-- What a lease finds on its devices.
module _ (loaded : Loaded) (next : ℕ) (l : Lease) (t : TablesOk loaded next) where
  found-PendingOk :
      (test : LoadedGpuModel → Bool)
      → All (PendingOk loaded next l.device_ids) (collect test loaded l.device_ids)
  found-PendingOk test =
      All-collect (PendingOk loaded next l.device_ids) test loaded l.device_ids (λ d r m c f x.
        record {
          old = (t.named d r m f).2;
          same = λ e q n g s. t.same e q d r n m g f s;
          ours = c;
          theirs = (t.named d r m f).1;
        })

  found-others :
      All (λ c. (c.1.role == l.role) ≡ false) (collect (is_co_resident l) loaded l.device_ids)
  found-others =
      All-collect (λ c. (c.1.role == l.role) ≡ false) (is_co_resident l) loaded l.device_ids
        (λ d r m c f x. ground (arith, x))

  pub looking-LeaseOk :
      (locks : Dict ℕ) (id : ℕ)
      → LeaseOk locks loaded next id l
      → l.phase ≡ acquiring []
      → LeaseOk locks loaded next id
          (record l { phase = evicting (collect (conflicts l) loaded l.device_ids) })
  looking-LeaseOk locks id a e = record {
    owns = a.owns;
    covers = λ d h. ap (λ q. contains l.held d || contains (waiting q) d) (sym e) ∙ a.covers d h;
    found = found-PendingOk (conflicts l);
    looked = λ h d r m c f x. collect-finds (conflicts l) loaded l.device_ids d r f c x;
    settled = λ h. cc;
    others = λ h. cc;
    cleared = λ h. cc;
  }

  -- The phases of a lease in its body.
  pub clearing-LeaseOk :
      (locks : Dict ℕ) (id : ℕ)
      → LeaseOk locks loaded next id l
      → l.phase ≡ inside
      → LeaseOk locks loaded next id
          (record l { phase = clearing (collect (is_co_resident l) loaded l.device_ids) })
  clearing-LeaseOk locks id a e = record {
    owns = a.owns;
    covers = λ d h. ap (λ q. contains l.held d || contains (waiting q) d) (sym e) ∙ a.covers d h;
    found = found-PendingOk (is_co_resident l);
    looked = λ h. cc;
    settled = λ h d c. renew (a.settled (ap is_inside e) d c);
    others = λ h. found-others;
    cleared = λ h d r m c f x. collect-finds (is_co_resident l) loaded l.device_ids d r f c x;
  }

  pub back-LeaseOk :
      (locks : Dict ℕ) (id : ℕ) (cs : List Found)
      → LeaseOk locks loaded next id l
      → l.phase ≡ clearing cs
      → LeaseOk locks loaded next id (record l { phase = inside })
  back-LeaseOk locks id cs a e = record {
    owns = a.owns;
    covers = λ d h. ap (λ q. contains l.held d || contains (waiting q) d) (sym e) ∙ a.covers d h;
    found = tt;
    looked = λ h. cc;
    settled = λ h d c. renew (a.settled (ap is_inside e) d c);
    others = λ h. cc;
    cleared = λ h. cc;
  }

abbrev CountedBelow : ℕ → ℕ → Lease → Type 0
CountedBelow n id l = id < n

-- A lease's lock is not let go by another.
pub kept-lock :
    (locks : Dict ℕ) (loaded : Loaded) (next i j : ℕ) (l k : Lease) (d : ℕ)
    → LeaseOk locks loaded next i l
    → (i == j) ≡ false
    → get locks d ≡ some j
    → get (release_all l.held locks) d ≡ some j
kept-lock locks loaded next i j l k d a o g = elim (Bool-cases (contains l.held d)) [
  | inr h ↦ released-get l.held locks d h ∙ g
  | inl h ↦ absurd (ground (arith, a.owns d h, g, o))
]

pub free-lock :
    (locks : Dict ℕ) (device d i j : ℕ)
    → get locks device ≡ none
    → get locks d ≡ some j
    → get (put locks device i) d ≡ some j
free-lock locks device d i j n g = elim (Bool-cases (device == d)) [
  | inr o ↦ get-put locks device d i ∙ rw o g
  | inl s ↦ cc (n, g, ap (get locks) ((==_iff device d).0 s))
]
