-- ===== src/Residency/Progress.antt =====
-- app_v1/slaves/ai/app/gpu_residency.py: leases do not wait for each other in a circle.
use mathlib.Core.Path.{subst}
use gpstation.Prelude.{
  ℕ, ◌+◌, ◌<◌, ◌≤◌, Bool, true, none, some, List, [], ◌∷◌, ◌≡◌, refl, sym, ap, ◌∙◌, inl, inr, arith,
  ◌==◌, ==_iff, contains, Bool-cases,
}
use gpstation.Prelude.Dict.{Dict, get, put, pop, get-put, get-pop}
use gpstation.Residency.Leases.{Lease, Gpu, new_lease, release, release_all}
use gpstation.Residency.Invariant.{waiting}
use gpstation.Residency.Soundness.{put-leases, pop-leases, released-get}
use gpstation.Residency.Order.{Ascending, Below, Below-weaken, InOrder, IsOrdered}

pub InOrder-weaken : (n k : ℕ) (l : Lease) → n ≤ k → InOrder n l → InOrder k l
InOrder-weaken n k l h o = record {
  ascending = o.ascending;
  above = o.above;
  below = Below-weaken n k (waiting l.phase) h o.below;
}

pub new_lease-InOrder :
    (n count role key : ℕ) (exclusive : Bool) (ds : List ℕ)
    → Ascending ds
    → Below count ds
    → InOrder (n + count) (new_lease role key exclusive ds)
new_lease-InOrder n count role key exclusive [] a b = record {
  ascending = tt;
  above = λ h c. tt;
  below = tt;
}
new_lease-InOrder n count role key exclusive (d ∷ ds) a b = record {
  ascending = a;
  above = λ h c. cc;
  below = Below-weaken count (n + count) (d ∷ ds) (omega arith) b;
}

calm-InOrder : (n : ℕ) (l : Lease) → waiting l.phase ≡ [] → InOrder n l
calm-InOrder n l w = record { ascending = rw w tt; above = λ h c. rw w tt; below = rw w tt }

module _ (n : ℕ) (g : Gpu) (v : IsOrdered n g) where
  pub counted-put :
      (id : ℕ) (l k : Lease)
      → get g.leases id ≡ some l
      → (j : ℕ) (m : Lease) → get (put g.leases id k) j ≡ some m
      → j < g.next_lease
  counted-put id l k e =
      put-leases g.leases id k (λ j m. j < g.next_lease) (v.counted id l e)
        (λ j m f o. v.counted j m f)

  pub put-backed :
      (d i id : ℕ) (l k : Lease)
      → get g.leases id ≡ some l
      → (contains l.held d ≡ true → contains k.held d ≡ true)
      → get g.locks d ≡ some i
      → (m : Lease) × (get (put g.leases id k) i ≡ some m) × (contains m.held d ≡ true)
  put-backed d i id l k e keeps f =
      let (m, at, c) = v.backed d i f in
      elim (Bool-cases (id == i)) [
        | inr o ↦ (m, get-put g.leases id i k ∙ rw o at, c)
        | inl s ↦
            let same : l ≡ m = cc (e, at, ap (get g.leases) ((==_iff id i).0 s)) in
            (
              k,
              get-put g.leases id i k ∙ rw s refl,
              keeps (subst (λ x. contains x.held d ≡ true) (sym same) c),
            )
      ]

  -- A lease that waits for no lock, before and after.
  pub turn-IsOrdered :
      (h : Gpu) (id : ℕ) (l k : Lease)
      → get g.leases id ≡ some l
      → h.locks ≡ g.locks
      → h.leases ≡ put g.leases id k
      → h.next_lease ≡ g.next_lease
      → k.held ≡ l.held
      → waiting k.phase ≡ []
      → IsOrdered n h
  turn-IsOrdered h id l k e locks leases count held w = record {
    leases = λ j m f.
        put-leases g.leases id k (λ i x. InOrder n x) (calm-InOrder n k w)
          (λ i x p o. v.leases i x p) j m (ap (λ t. get t j) (sym leases) ∙ f);
    backed = λ d i f.
        let (m, at, c) =
          put-backed d i id l k e (λ x. ap (λ t. contains t d) held ∙ x)
            (ap (λ t. get t d) (sym locks) ∙ f) in
        (m, ap (λ t. get t i) leases ∙ at, c);
    counted = λ j m f.
        subst (λ t. j < t) (sym count)
          (counted-put id l k e j m (ap (λ t. get t j) (sym leases) ∙ f));
  }

  released-none :
      (ds : List ℕ) (locks : Dict ℕ) (d : ℕ)
      → contains ds d ≡ true
      → get (release_all ds locks) d ≡ none
  released-none [] locks d h = cc
  released-none (x ∷ xs) locks d h = elim (Bool-cases (contains xs d)) [
    | inl c ↦ released-none xs (pop locks x) d c
    | inr c ↦ released-get xs (pop locks x) d c ∙ ground (arith, h, c, get-pop locks x d)
  ]

  pub release-IsOrdered :
      (id : ℕ) (l : Lease) → get g.leases id ≡ some l → IsOrdered n (release id l g)
  unfolding release
  release-IsOrdered id l e = record {
    leases = pop-leases g.leases id (λ j k. InOrder n k) (λ j k f o. v.leases j k f);
    backed = λ d i f. elim (Bool-cases (contains l.held d)) [
      | inl c ↦ cc (released-none l.held g.locks d c, f)
      | inr c ↦
          let (m, at, b) = v.backed d i (sym (released-get l.held g.locks d c) ∙ f) in
          elim (Bool-cases (id == i)) [
            | inr o ↦ (m, get-pop g.leases id i ∙ rw o at, b)
            | inl s ↦
                let same : l ≡ m = cc (e, at, ap (get g.leases) ((==_iff id i).0 s)) in
                cc (c, b, ap (λ x. contains x.held d) same)
          ]
    ];
    counted = pop-leases g.leases id (λ j k. j < g.next_lease) (λ j k f o. v.counted j k f);
  }
