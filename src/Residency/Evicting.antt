-- ===== src/Residency/Evicting.antt =====
-- app_v1/slaves/ai/app/gpu_residency.py: an eviction keeps the tables and the leases in order.
use mathlib.Core.Path.{subst}
use gpstation.Prelude.{
  ℕ, true, false, ◌||◌, some, List, [], ◌∷◌, ◌≡◌, refl, sym, ap, ◌∙◌, inl, inr, arith, ◌==◌, ==_iff,
  ==_refl, contains, All, Bool-cases,
}
use gpstation.Prelude.Dict.{Dict}
use gpstation.Residency.Models.{LoadedGpuModel, Loaded, Found, resident, evict}
use gpstation.Residency.Leases.{Phase, acquiring, evicting, inside, clearing, Lease}
use gpstation.Residency.Collecting.{has_id}
use gpstation.Residency.Tables.{evict_all-before, evict_all-kept}
use gpstation.Residency.Invariant.{
  waiting, pending, is_evicting, is_inside, is_clearing, TablesOk, PendingOk, Settled, LeaseOk,
}

-- Nothing is resident that was not before.
abbrev pub Shrinks : Loaded → Loaded → Type 0
Shrinks before after =
    (d r : ℕ) (m : LoadedGpuModel) → resident after d r ≡ some m → resident before d r ≡ some m

pub evict-Shrinks : (c : LoadedGpuModel) (loaded : Loaded) → Shrinks loaded (evict c loaded)
unfolding evict
evict-Shrinks c loaded d r m e = (evict_all-before c c.device_ids loaded d r e).0

pub Shrinks-TablesOk :
    {before after : Loaded} {next : ℕ}
    → Shrinks before after
    → TablesOk before next
    → TablesOk after next
Shrinks-TablesOk s t = record {
  named = λ d r m e. t.named d r m (s d r m e);
  same = λ d r e q m n a b i. t.same d r e q m n (s d r m a) (s e q n b) i;
  apart = λ d r q m n a b o. t.apart d r q m n (s d r m a) (s d q n b) o;
}

pub Shrinks-PendingOk :
    (before after : Loaded) (next : ℕ) (ids : List ℕ) (cs : List Found)
    → Shrinks before after
    → All (PendingOk before next ids) cs
    → All (PendingOk after next ids) cs
Shrinks-PendingOk before after next ids [] s a = tt
Shrinks-PendingOk before after next ids (c ∷ cs) s (p, ps) = (
  record {
    old = p.old;
    same = λ d r m e i. p.same d r m (s d r m e) i;
    ours = p.ours;
    theirs = p.theirs;
  },
  Shrinks-PendingOk before after next ids cs s ps,
)

-- A lease whose own model has another id than the one evicted keeps it.
evict-Settled :
    (c : LoadedGpuModel) (loaded : Loaded) (l : Lease) (d : ℕ) (s : Settled loaded l d)
    → (s.model.id == c.id) ≡ false
    → Settled (evict c loaded) l d
unfolding evict
evict-Settled c loaded l d s o = record {
  model = s.model;
  is_there = evict_all-kept c c.device_ids loaded d l.role s.is_there o;
  is_own = s.is_own;
  has_key = s.has_key;
  everywhere = s.everywhere;
  as_asked = s.as_asked;
}

pub renew :
    {loaded : Loaded} {l : Lease} {d : ℕ} {p : Phase}
    → Settled loaded l d
    → Settled loaded (record l { phase = p }) d
renew s = record {
  model = s.model;
  is_there = s.is_there;
  is_own = s.is_own;
  has_key = s.has_key;
  everywhere = s.everywhere;
  as_asked = s.as_asked;
}

pub inside-waiting : (p : Phase) → is_inside p ≡ true → waiting p ≡ []
inside-waiting (acquiring ds) h = cc
inside-waiting (evicting cs) h = refl
inside-waiting inside h = refl
inside-waiting (clearing cs) h = refl

module _ (locks : Dict ℕ) (loaded : Loaded) (next : ℕ) where
  -- Two leases do not have the same device.
  pub one_owner :
      (i j : ℕ) (l k : Lease) (d : ℕ)
      → LeaseOk locks loaded next i l
      → LeaseOk locks loaded next j k
      → (i == j) ≡ false
      → waiting l.phase ≡ []
      → waiting k.phase ≡ []
      → contains l.device_ids d ≡ true
      → contains k.device_ids d ≡ true
      → ⊥
  one_owner i j l k d a b o w v c e =
      let held : contains l.held d ≡ true =
        ground (arith, a.covers d c, ap (λ ws. contains ws d) w) in
      let kept : contains k.held d ≡ true =
        ground (arith, b.covers d e, ap (λ ws. contains ws d) v) in
      ground (arith, a.owns d held, b.owns d kept, o)

  -- The model that another lease evicts is not this lease's own.
  own-not_found :
      (i j : ℕ) (l k : Lease) (c : Found) (d : ℕ) (s : Settled loaded k d)
      → LeaseOk locks loaded next i l
      → LeaseOk locks loaded next j k
      → (i == j) ≡ false
      → waiting l.phase ≡ []
      → waiting k.phase ≡ []
      → PendingOk loaded next l.device_ids c
      → (s.model.id == c.1.id) ≡ false
  own-not_found i j l k c d s a b o w v p = elim (Bool-cases (s.model.id == c.1.id)) [
    | inr h ↦ h
    | inl h ↦
        let is_it = p.same d k.role s.model s.is_there ((==_iff s.model.id c.1.id).0 h) in
        let ids : c.1.device_ids ≡ k.device_ids =
          ap (λ m. m.device_ids) (sym is_it) ∙ s.everywhere in
        absurd
          (one_owner i j l k c.0 a b o w v p.ours (ap (λ ds. contains ds c.0) (sym ids) ∙ p.theirs))
  ]

  -- An eviction by lease `i` leaves every other lease in order.
  pub evict-LeaseOk :
      (i j : ℕ) (l k : Lease) (c : Found)
      → LeaseOk locks loaded next i l
      → LeaseOk locks loaded next j k
      → (i == j) ≡ false
      → waiting l.phase ≡ []
      → PendingOk loaded next l.device_ids c
      → LeaseOk locks (evict c.1 loaded) next j k
  evict-LeaseOk i j l k c a b o w p = record {
    owns = b.owns;
    covers = b.covers;
    found =
        Shrinks-PendingOk loaded (evict c.1 loaded) next k.device_ids (pending k.phase)
          (evict-Shrinks c.1 loaded) b.found;
    looked = λ h d r m e f t. b.looked h d r m e (evict-Shrinks c.1 loaded d r m f) t;
    settled = λ h d e.
        let s = b.settled h d e in
        evict-Settled c.1 loaded k d s
          (own-not_found i j l k c d s a b o w (inside-waiting k.phase h) p);
    others = b.others;
    cleared = λ h d r m e f t. b.cleared h d r m e (evict-Shrinks c.1 loaded d r m f) t;
  }

  -- The model that is evicted leaves the devices of the lease, so the rest of the list is all that is left.
  gone-rest :
      (l : Lease) (c : Found) (rest : List Found) (d r : ℕ) (m : LoadedGpuModel)
      → TablesOk loaded next
      → PendingOk loaded next l.device_ids c
      → resident (evict c.1 loaded) d r ≡ some m
      → has_id m.id (c ∷ rest) ≡ true
      → has_id m.id rest ≡ true
  unfolding evict
  gone-rest l c rest d r m t p e h =
      let (before, out) = evict_all-before c.1 c.1.device_ids loaded d r e in
      elim (Bool-cases (c.1.id == m.id)) [
        | inr o ↦ rw o at h
        | inl i ↦
            let same = (==_iff c.1.id m.id).0 i in
            let is_it = p.same d r m before (sym same) in
            let (role, there, old) = t.named d r m before in
            absurd (
              ground (
                arith,
                out,
                ap (λ n. contains n.device_ids d) is_it,
                ap (λ n. n.role) is_it,
                role,
                there,
                same,
                ==_refl r,
                ==_refl m.id,
              ))
      ]

  -- The lease that evicts a conflict goes on with the rest.
  pub evict_conflict-LeaseOk :
      (i : ℕ) (l : Lease) (c : Found) (rest : List Found)
      → TablesOk loaded next
      → LeaseOk locks loaded next i l
      → l.phase ≡ evicting (c ∷ rest)
      → LeaseOk locks (evict c.1 loaded) next i (record l { phase = evicting rest })
  evict_conflict-LeaseOk i l c rest t a e =
      let (p, ps) = subst (λ q. All (PendingOk loaded next l.device_ids) (pending q)) e a.found in
      record {
        owns = a.owns;
        covers =
            λ d h. ap (λ q. contains l.held d || contains (waiting q) d) (sym e) ∙ a.covers d h;
        found =
            Shrinks-PendingOk loaded (evict c.1 loaded) next l.device_ids rest
              (evict-Shrinks c.1 loaded) ps;
        looked = λ h d r m inside f x. gone-rest l c rest d r m t p f (
            sym (ap (λ q. has_id m.id (pending q)) e)
            ∙ a.looked (ap is_evicting e) d r m inside (evict-Shrinks c.1 loaded d r m f) x);
        settled = λ h. cc;
        others = λ h. cc;
        cleared = λ h. cc;
      }

  not_own :
      (l : Lease) (c : Found) (d : ℕ) (s : Settled loaded l d)
      → TablesOk loaded next
      → PendingOk loaded next l.device_ids c
      → (c.1.role == l.role) ≡ false
      → (s.model.id == c.1.id) ≡ false
  not_own l c d s t p o = elim (Bool-cases (s.model.id == c.1.id)) [
    | inr h ↦ h
    | inl h ↦
        let is_it = p.same d l.role s.model s.is_there ((==_iff s.model.id c.1.id).0 h) in
        let (role, there, old) = t.named d l.role s.model s.is_there in
        absurd (ground (arith, o, role, ap (λ m. m.role) is_it, ==_refl l.role))
  ]

  -- The lease that evicts a co-resident model keeps its own.
  pub evict_co_resident-LeaseOk :
      (i : ℕ) (l : Lease) (c : Found) (rest : List Found)
      → TablesOk loaded next
      → LeaseOk locks loaded next i l
      → l.phase ≡ clearing (c ∷ rest)
      → LeaseOk locks (evict c.1 loaded) next i (record l { phase = clearing rest })
  evict_co_resident-LeaseOk i l c rest t a e =
      let (p, ps) = subst (λ q. All (PendingOk loaded next l.device_ids) (pending q)) e a.found in
      let (o, os) =
        subst (λ q. All (λ b. (b.1.role == l.role) ≡ false) (pending q)) e
          (a.others (ap is_clearing e)) in
      record {
        owns = a.owns;
        covers =
            λ d h. ap (λ q. contains l.held d || contains (waiting q) d) (sym e) ∙ a.covers d h;
        found =
            Shrinks-PendingOk loaded (evict c.1 loaded) next l.device_ids rest
              (evict-Shrinks c.1 loaded) ps;
        looked = λ h. cc;
        settled = λ h d inside.
            let s = a.settled (ap is_inside e) d inside in
            renew (evict-Settled c.1 loaded l d s (not_own l c d s t p o));
        others = λ h. os;
        cleared = λ h d r m here f x. gone-rest l c rest d r m t p f (
            sym (ap (λ q. has_id m.id (pending q)) e)
            ∙ a.cleared (ap is_clearing e) d r m here (evict-Shrinks c.1 loaded d r m f) x);
      }
