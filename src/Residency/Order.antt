-- ===== src/Residency/Order.antt =====
-- app_v1/slaves/ai/app/gpu_residency.py: leases take their locks in ascending order.
use gpstation.Prelude.{
  ℕ, ◌<◌, ◌≤◌, Bool, true, some, List, [], ◌∷◌, ◌≡◌, inl, inr, arith, ltb, ◌==◌, contains, filter,
  All, Bool-cases,
}
use gpstation.Prelude.Dict.{get}
use gpstation.Residency.Leases.{Lease, Gpu, insert_id, sorted_set, normalize_device_ids}
use gpstation.Residency.Invariant.{waiting}

abbrev pub Above : ℕ → List ℕ → Type 0
Above x = All (λ d. x < d)

abbrev pub Ascending : List ℕ → Type 0
Ascending [] = Unit
Ascending (d ∷ ds) = Above d ds × Ascending ds

Above-weaken : (x y : ℕ) (ds : List ℕ) → x < y → Above y ds → Above x ds
Above-weaken x y [] h a = tt
Above-weaken x y (d ∷ ds) h (a, rest) = (omega (arith, h, a), Above-weaken x y ds h rest)

insert_id-Above : (x d : ℕ) (es : List ℕ) → x < d → Above x es → Above x (insert_id d es)
insert_id-Above x d [] h a = (h, tt)
insert_id-Above x d (e ∷ es) h (a, rest) = ground (arith, h, a, rest, insert_id-Above x d es h rest)

insert_id-Ascending : (d : ℕ) (es : List ℕ) → Ascending es → Ascending (insert_id d es)
insert_id-Ascending d [] a = (tt, tt)
insert_id-Ascending d (e ∷ es) (a, rest) = elim (Bool-cases (ltb d e)) [
  | inl h ↦ rw h ((ground (arith, h), Above-weaken d e es (ground (arith, h)) a), (a, rest))
  | inr h ↦ elim (Bool-cases (d == e)) [
    | inl s ↦ rw h (rw s (a, rest))
    | inr o ↦
        rw h (rw o (insert_id-Above e d es (ground (arith, h, o)) a, insert_id-Ascending d es rest))
  ]
]

sorted_set-Ascending : (ds : List ℕ) → Ascending (sorted_set ds)
sorted_set-Ascending [] = tt
sorted_set-Ascending (d ∷ ds) = insert_id-Ascending d (sorted_set ds) (sorted_set-Ascending ds)

filter-Above : (x : ℕ) (p : ℕ → Bool) (ds : List ℕ) → Above x ds → Above x (filter p ds)
filter-Above x p [] a = tt
filter-Above x p (d ∷ ds) (a, rest) = elim (Bool-cases (p d)) [
  | inl h ↦ rw h (a, filter-Above x p ds rest)
  | inr h ↦ rw h (filter-Above x p ds rest)
]

filter-Ascending : (p : ℕ → Bool) (ds : List ℕ) → Ascending ds → Ascending (filter p ds)
filter-Ascending p [] a = tt
filter-Ascending p (d ∷ ds) (a, rest) = elim (Bool-cases (p d)) [
  | inl h ↦ rw h (filter-Above d p ds a, filter-Ascending p ds rest)
  | inr h ↦ rw h (filter-Ascending p ds rest)
]

pub normalize-Ascending : (count : ℕ) (ds : List ℕ) → Ascending (normalize_device_ids count ds)
unfolding normalize_device_ids
normalize-Ascending count ds =
    filter-Ascending (λ d. ltb d count) (sorted_set ds) (sorted_set-Ascending ds)

abbrev pub Below : ℕ → List ℕ → Type 0
Below n = All (λ d. d < n)

filter-Below : (count : ℕ) (ds : List ℕ) → Below count (filter (λ d. ltb d count) ds)
filter-Below count [] = tt
filter-Below count (d ∷ ds) = elim (Bool-cases (ltb d count)) [
  | inl h ↦ rw h (ground (arith, h), filter-Below count ds)
  | inr h ↦ rw h (filter-Below count ds)
]

pub normalize-Below : (count : ℕ) (ds : List ℕ) → Below count (normalize_device_ids count ds)
unfolding normalize_device_ids
normalize-Below count ds = filter-Below count (sorted_set ds)

pub Below-weaken : (n k : ℕ) (ds : List ℕ) → n ≤ k → Below n ds → Below k ds
Below-weaken n k [] h b = tt
Below-weaken n k (d ∷ ds) h (b, rest) = (omega (arith, h, b), Below-weaken n k ds h rest)

-- A lease waits for locks above those that it holds, lowest first, and all below `n`.
pub record InOrder (n : ℕ) (l : Lease) : Type 0 where
  pub ascending : Ascending (waiting l.phase)
  pub above : (h : ℕ) → contains l.held h ≡ true → Above h (waiting l.phase)
  pub below : Below n (waiting l.phase)

-- Who has a lock is a lease that holds it.
pub record IsOrdered (n : ℕ) (g : Gpu) : Type 0 where
  pub leases : (id : ℕ) (l : Lease) → get g.leases id ≡ some l → InOrder n l
  pub backed :
      (d id : ℕ)
      → get g.locks d ≡ some id
      → (l : Lease) × (get g.leases id ≡ some l) × (contains l.held d ≡ true)
  pub counted : (id : ℕ) (l : Lease) → get g.leases id ≡ some l → id < g.next_lease
