-- ===== src/Residency/Collecting.antt =====
-- app_v1/slaves/ai/app/gpu_residency.py: what the search for conflicts, or for co-resident models, finds.

use gpstation.Prelude.{
  ℕ, Bool, true, false, ◌||◌, not, some, List, [], ◌∷◌, ◌++◌, ◌≡◌, inl, inr, refl, ap, ◌∙◌, arith,
  ◌==◌, ==_iff, ==_refl, filter, filter-In, In-filter, All, All-append, contains, Memᴰ, Bool-cases,
}
use gpstation.Prelude.Dict.{get, values, get-values, values-get}
use gpstation.Residency.Models.{
  LoadedGpuModel, Loaded, table, resident, Found, found_on, candidates, first_of_each, collect,
}

abbrev pub has_id : ℕ → List Found → Bool
has_id i [] = false
has_id i (c ∷ cs) = (c.1.id == i) || has_id i cs

has_id-append : (i : ℕ) (cs ds : List Found) → has_id i (cs ++ ds) ≡ (has_id i cs || has_id i ds)
has_id-append i [] ds = refl
has_id-append i (c ∷ cs) ds = ground (arith, has_id-append i cs ds)

has_id-other :
    (i j : ℕ) (cs : List Found)
    → (j == i) ≡ false
    → has_id i (filter (λ b. not (b.1.id == j)) cs) ≡ has_id i cs
has_id-other i j [] h = refl
has_id-other i j (c ∷ cs) h = ground (arith, has_id-other i j cs h)

has_id-first : (i : ℕ) (cs : List Found) → has_id i cs ≡ true → has_id i (first_of_each cs) ≡ true
has_id-first i [] h = h
has_id-first i (c ∷ cs) h = elim (Bool-cases (c.1.id == i)) [
  | inl e ↦ rw e refl
  | inr o ↦ ground (arith, o, h, has_id-other i c.1.id (first_of_each cs) o, has_id-first i cs)
]

has_id-found :
    (i d : ℕ) (ms : List LoadedGpuModel) {m : LoadedGpuModel}
    → Memᴰ m ms
    → m.id ≡ i
    → has_id i (found_on d ms) ≡ true
has_id-found i d [] m e = elim m [ ]
has_id-found i d (x ∷ xs) (Memᴰ.head s) e = ground (arith, ap (λ n. n.id) s, e)
has_id-found i d (x ∷ xs) (Memᴰ.tail m) e = ground (arith, has_id-found i d xs m e)

has_id-candidates :
    (test : LoadedGpuModel → Bool) (loaded : Loaded) (ds : List ℕ) (d r : ℕ) {m : LoadedGpuModel}
    → resident loaded d r ≡ some m
    → contains ds d ≡ true
    → test m ≡ true
    → has_id m.id (candidates test loaded ds) ≡ true
has_id-candidates test loaded [] d r e c t = cc
has_id-candidates test loaded (x ∷ xs) d r {m} e c t =
    let here = found_on x (filter test (values (table loaded x))) in
    has_id-append m.id here (candidates test loaded xs) ∙ (elim (Bool-cases (x == d)) [
      | inl s ↦
          let there : get (table loaded x) r ≡ some m =
            ap (λ k. resident loaded k r) ((==_iff x d).0 s) ∙ e in
          let found =
            has_id-found m.id x (filter test (values (table loaded x)))
              (filter-In test (values (table loaded x)) (get-values (table loaded x) r there) t)
              refl in
          rw found refl
      | inr o ↦
          let rest = has_id-candidates test loaded xs d r {m = m} e (rw o at c) t in
          ground (arith, rest)
    ])

-- Whatever of the kind sits on one of the devices is found.
pub collect-finds :
    (test : LoadedGpuModel → Bool) (loaded : Loaded) (ds : List ℕ) (d r : ℕ) {m : LoadedGpuModel}
    → resident loaded d r ≡ some m
    → contains ds d ≡ true
    → test m ≡ true
    → has_id m.id (collect test loaded ds) ≡ true
unfolding collect
collect-finds test loaded ds d r {m} e c t =
    has_id-first m.id (candidates test loaded ds)
      (has_id-candidates test loaded ds d r {m = m} e c t)

module _ {κ} (P : Found → Type κ) where
  All-filter : (p : Found → Bool) (cs : List Found) → All P cs → All P (filter p cs)
  All-filter p [] a = tt
  All-filter p (c ∷ cs) (a, rest) = elim (Bool-cases (p c)) [
    | inl h ↦ rw h (a, All-filter p cs rest)
    | inr h ↦ rw h (All-filter p cs rest)
  ]

  All-first_of_each : (cs : List Found) → All P cs → All P (first_of_each cs)
  All-first_of_each [] a = tt
  All-first_of_each (c ∷ cs) (a, rest) =
      (a, All-filter (λ b. not (b.1.id == c.1.id)) (first_of_each cs) (All-first_of_each cs rest))

  All-found_on :
      (d : ℕ) (ms : List LoadedGpuModel)
      → ((m : LoadedGpuModel) → Memᴰ m ms → P (d, m))
      → All P (found_on d ms)
  All-found_on d [] f = tt
  All-found_on d (m ∷ ms) f = (f m (Memᴰ.head refl), All-found_on d ms (λ n i. f n (Memᴰ.tail i)))

  All-candidates :
      (test : LoadedGpuModel → Bool) (loaded : Loaded) (ds : List ℕ)
      → ((d r : ℕ) (m : LoadedGpuModel)
          → contains ds d ≡ true
          → resident loaded d r ≡ some m
          → test m ≡ true
          → P (d, m))
      → All P (candidates test loaded ds)
  All-candidates test loaded [] f = tt
  All-candidates test loaded (x ∷ xs) f =
      All-append P (found_on x (filter test (values (table loaded x)))) (candidates test loaded xs)
        (All-found_on x (filter test (values (table loaded x))) (λ m i.
          let (inside, t) = In-filter test (values (table loaded x)) i in
          let (r, e) = values-get (table loaded x) inside in
          f x r m (ground (arith, ==_refl x)) e t))
        (All-candidates test loaded xs (λ d r m c e t. f d r m (ground (arith, c)) e t))

  -- Whatever holds of the models of the kind that sit on one of the devices holds of all that is found.
  pub All-collect :
      (test : LoadedGpuModel → Bool) (loaded : Loaded) (ds : List ℕ)
      → ((d r : ℕ) (m : LoadedGpuModel)
          → contains ds d ≡ true
          → resident loaded d r ≡ some m
          → test m ≡ true
          → P (d, m))
      → All P (collect test loaded ds)
  unfolding collect
  All-collect test loaded ds f =
      All-first_of_each (candidates test loaded ds) (All-candidates test loaded ds f)
