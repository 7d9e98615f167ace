-- ===== src/Residency/Entering.antt =====
-- app_v1/slaves/ai/app/gpu_residency.py: a lease that has evicted all conflicts puts its own model on its devices.
use gpstation.Prelude.{
  ℕ, suc, true, false, ◌&&◌, ◌||◌, some, List, [], ◌∷◌, ◌≡◌, ◌⊎◌, refl, sym, ap, ◌∙◌, inl, inr,
  arith, ◌==◌, ==_iff, ==_refl, contains, All, Bool-cases, if◌then◌else◌,
}
use gpstation.Prelude.Dict.{Dict}
use gpstation.Residency.Models.{LoadedGpuModel, Loaded, Found, resident, register}
use gpstation.Residency.Leases.{
  Phase, acquiring, evicting, inside, clearing, Lease, conflicts, loaded_model,
}
use gpstation.Residency.Tables.{resident-register_on}
use gpstation.Residency.Invariant.{
  waiting, pending, is_evicting, is_clearing, TablesOk, PendingOk, LeaseOk,
}
use gpstation.Residency.Evicting.{one_owner, inside-waiting}

evicting-waiting : (p : Phase) → is_evicting p ≡ true → waiting p ≡ []
evicting-waiting (acquiring ds) h = cc
evicting-waiting (evicting cs) h = refl
evicting-waiting inside h = refl
evicting-waiting (clearing cs) h = refl

clearing-waiting : (p : Phase) → is_clearing p ≡ true → waiting p ≡ []
clearing-waiting (acquiring ds) h = cc
clearing-waiting (evicting cs) h = refl
clearing-waiting inside h = refl
clearing-waiting (clearing cs) h = refl

module _ (locks : Dict ℕ) (loaded : Loaded) (next i : ℕ) (l : Lease) where
  abbrev new : LoadedGpuModel
  new = loaded_model next l

  abbrev after : Loaded
  after = register new loaded

  resident-after :
      (d r : ℕ)
      → resident after d r
        ≡ (if contains l.device_ids d && (l.role == r) then some new else resident loaded d r)
  unfolding register
  resident-after d r = resident-register_on new l.device_ids loaded d r

  -- A model that is resident afterwards is the new one, or was there before.
  new_or_old :
      (d r : ℕ) (m : LoadedGpuModel)
      → resident after d r ≡ some m
      → ((m ≡ new) × (contains l.device_ids d ≡ true) × (l.role ≡ r))
        ⊎ (resident loaded d r ≡ some m)
  new_or_old d r m e = elim (Bool-cases (contains l.device_ids d && (l.role == r))) [
    | inl h ↦
        let e' = sym (resident-after d r) ∙ e in
        inl (cc (rw h at e'), ground (arith, h), (==_iff l.role r).0 (ground (arith, h)))
    | inr h ↦ let e' = sym (resident-after d r) ∙ e in inr (rw h at e')
  ]

  elsewhere : (d r : ℕ) → contains l.device_ids d ≡ false → resident after d r ≡ resident loaded d r
  elsewhere d r h = resident-after d r ∙ rw h refl

  module _ (t : TablesOk loaded next) (a : LeaseOk locks loaded next i l)
      (e : l.phase ≡ evicting []) where
    no_conflict :
        (d r : ℕ) (m : LoadedGpuModel)
        → contains l.device_ids d ≡ true
        → resident loaded d r ≡ some m
        → conflicts l m ≡ false
    no_conflict d r m c f = elim (Bool-cases (conflicts l m)) [
      | inr h ↦ h
      | inl h ↦ cc (a.looked (ap is_evicting e) d r m c f h)
    ]

    -- A model of another role that does not conflict is not exclusive, nor is the new one.
    shared :
        (d q : ℕ) (m : LoadedGpuModel)
        → contains l.device_ids d ≡ true
        → resident loaded d q ≡ some m
        → (l.role == q) ≡ false
        → (m.exclusive ≡ false) × (l.exclusive ≡ false)
    shared d q m c f o =
        let (role, there, old) = t.named d q m f in
        let other : (m.role == l.role) ≡ false = ground (arith, role, o) in
        let calm = no_conflict d q m c f in
        (ground (arith, other, calm), ground (arith, other, calm))

    pub enter-TablesOk : TablesOk after (suc next)
    enter-TablesOk = record {
      named = λ d r m f. elim (new_or_old d r m f) [
        | inl (is_new, c, q) ↦ (
          ap (λ n. n.role) is_new ∙ q,
          ap (λ n. contains n.device_ids d) is_new ∙ c,
          ground (arith, ap (λ n. n.id) is_new),
        )
        | inr old ↦ let (q, c, b) = t.named d r m old in (q, c, ground (arith, b))
      ];
      same = λ d r x q m n f g s. elim (new_or_old d r m f) [
        | inl (is_new, c, w) ↦ elim (new_or_old x q n g) [
          | inl (is_too, b, v) ↦ is_new ∙ sym is_too
          | inr old ↦ absurd (ground (arith, ap (λ k. k.id) is_new, s, (t.named x q n old).2))
        ]
        | inr old ↦ elim (new_or_old x q n g) [
          | inl (is_too, b, v) ↦
              absurd (ground (arith, ap (λ k. k.id) is_too, s, (t.named d r m old).2))
          | inr old' ↦ t.same d r x q m n old old' s
        ]
      ];
      apart = λ d r q m n f g o. elim (new_or_old d r m f) [
        | inl (is_new, c, w) ↦ elim (new_or_old d q n g) [
          | inl (is_too, b, v) ↦ absurd (ground (arith, w, v, o))
          | inr old ↦ ap (λ k. k.exclusive) is_new ∙ (shared d q n c old (ap (λ k. k == q) w ∙ o)).1
        ]
        | inr old ↦ elim (new_or_old d q n g) [
          | inl (is_too, b, v) ↦ (shared d r m b old (ground (arith, v, o))).0
          | inr old' ↦ t.apart d r q m n old old' o
        ]
      ];
    }

    enter-PendingOk :
        (ids : List ℕ) (cs : List Found)
        → All (PendingOk loaded next ids) cs
        → All (PendingOk after (suc next) ids) cs
    enter-PendingOk ids [] p = tt
    enter-PendingOk ids (c ∷ cs) (p, ps) = (
      record {
        old = ground (arith, p.old);
        same = λ d r m f s. elim (new_or_old d r m f) [
          | inl (is_new, b, v) ↦ absurd (ground (arith, ap (λ k. k.id) is_new, s, p.old))
          | inr old ↦ p.same d r m old s
        ];
        ours = p.ours;
        theirs = p.theirs;
      },
      enter-PendingOk ids cs ps,
    )

    -- The devices of a lease that waits for no lock are not this lease's.
    not_mine :
        (j : ℕ) (k : Lease) (d : ℕ)
        → LeaseOk locks loaded next j k
        → (i == j) ≡ false
        → waiting k.phase ≡ []
        → contains k.device_ids d ≡ true
        → contains l.device_ids d ≡ false
    not_mine j k d b o v c = elim (Bool-cases (contains l.device_ids d)) [
      | inr h ↦ h
      | inl h ↦ absurd (one_owner locks loaded next i j l k d a b o (ap waiting e) v h c)
    ]

    -- Every other lease is still in order.
    pub enter-LeaseOk :
        (j : ℕ) (k : Lease)
        → LeaseOk locks loaded next j k
        → (i == j) ≡ false
        → LeaseOk locks after (suc next) j k
    enter-LeaseOk j k b o = record {
      owns = b.owns;
      covers = b.covers;
      found = enter-PendingOk k.device_ids (pending k.phase) b.found;
      looked = λ h d r m c f x.
          b.looked h d r m c
            (sym (elsewhere d r (not_mine j k d b o (evicting-waiting k.phase h) c)) ∙ f) x;
      settled = λ h d c.
          let s = b.settled h d c in
          record {
            model = s.model;
            is_there =
                elsewhere d k.role (not_mine j k d b o (inside-waiting k.phase h) c) ∙ s.is_there;
            is_own = s.is_own;
            has_key = s.has_key;
            everywhere = s.everywhere;
            as_asked = s.as_asked;
          };
      others = b.others;
      cleared = λ h d r m c f x.
          b.cleared h d r m c
            (sym (elsewhere d r (not_mine j k d b o (clearing-waiting k.phase h) c)) ∙ f) x;
    }

    -- The lease itself has its model on all its devices.
    pub entered-LeaseOk : LeaseOk locks after (suc next) i (record l { phase = inside; own = next })
    entered-LeaseOk = record {
      owns = a.owns;
      covers = λ d h. ap (λ q. contains l.held d || contains (waiting q) d) (sym e) ∙ a.covers d h;
      found = tt;
      looked = λ h. cc;
      settled = λ h d c. record {
        model = new;
        is_there = resident-after d l.role ∙ rw c (rw (==_refl l.role) refl);
        is_own = refl;
        has_key = refl;
        everywhere = refl;
        as_asked = refl;
      };
      others = λ h. cc;
      cleared = λ h. cc;
    }
