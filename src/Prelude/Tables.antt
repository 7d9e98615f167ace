-- ===== src/Prelude/Tables.antt =====
-- Tables: lists of rows, some of which an update rewrites, and the keys of the rows.
use Prim.Native.Nat.{ℕ}
use mathlib.Core.Path.{◌≡◌, refl, sym, ap, ◌∙◌}
use mathlib.Core.Logic.{◌⊎◌, inl, inr}
use mathlib.Core.Bool.{Bool, true, false}
use mathlib.Core.List.{List, [], ◌∷◌, ◌++◌, map, Memᴰ}
use mathlib.Core.List.Memᴰ
use mathlib.Core.Option.{none, some}
use native.Mathlib.Omega.{arith}
use gpstation.Prelude.Tests.{◌==◌, Bool-cases}
use gpstation.Prelude.Lists.{All, filter, find, update_where, contains}

-- No key stands twice.
abbrev pub Distinct : List ℕ → Type 0
Distinct [] = Unit
Distinct (a ∷ ks) = (contains ks a ≡ false) × Distinct ks

module _ {ℓ κ} {A : Type ℓ} (P : A → Type κ) where
  pub All-update_where :
      (p : A → Bool) (f : A → A) (xs : List A)
      → ((x : A) → Memᴰ x xs → p x ≡ true → P x → P (f x))
      → All P xs
      → All P (update_where p f xs)
  All-update_where p f [] keep h = tt
  All-update_where p f (x ∷ xs) keep h =
      let rest = All-update_where p f xs (λ y m. keep y (Memᴰ.tail m)) h.1 in
      elim (Bool-cases (p x)) [
        | inl hit ↦ rw hit (keep x (Memᴰ.head refl) hit h.0, rest)
        | inr miss ↦ rw miss (h.0, rest)
      ]

  pub All-append : (xs ys : List A) → All P xs → All P ys → All P (xs ++ ys)
  All-append [] ys h k = k
  All-append (x ∷ xs) ys h k = (h.0, All-append xs ys h.1 k)

  pub All-of_In : (xs : List A) → ((x : A) → Memᴰ x xs → P x) → All P xs
  All-of_In [] f = tt
  All-of_In (x ∷ xs) f = (f x (Memᴰ.head refl), All-of_In xs (λ y m. f y (Memᴰ.tail m)))

  pub All-In : (xs : List A) {x : A} → All P xs → Memᴰ x xs → P x
  All-In [] h m = elim m [ ]
  All-In (y ∷ ys) h (Memᴰ.head e) = rw e (h.0)
  All-In (y ∷ ys) h (Memᴰ.tail m) = All-In ys h.1 m

module _ {ℓ} {A : Type ℓ} where
  -- A row that `find` returns is in the table and passes the test.
  pub find-In : (p : A → Bool) (xs : List A) {x : A} → find p xs ≡ some x → Memᴰ x xs × (p x ≡ true)
  find-In p [] e = cc
  find-In p (y ∷ ys) {x} e = elim (Bool-cases (p y)) [
    | inl hit ↦ let same : x ≡ y = ground arith in (Memᴰ.head same, ap p same ∙ hit)
    | inr miss ↦ let found = find-In p ys {x = x} (ground arith) in (Memᴰ.tail found.0, found.1)
  ]

  pub find-none : (p : A → Bool) (xs : List A) → find p xs ≡ none → All (λ x. p x ≡ false) xs
  find-none p [] e = tt
  find-none p (x ∷ xs) e = elim (Bool-cases (p x)) [
    | inl hit ↦ cc (rw hit at e)
    | inr miss ↦ (miss, find-none p xs (ground arith))
  ]

  pub In-filter :
      (p : A → Bool) (xs : List A) {x : A} → Memᴰ x (filter p xs) → Memᴰ x xs × (p x ≡ true)
  In-filter p [] m = elim m [ ]
  In-filter p (y ∷ ys) {x} m = elim (Bool-cases (p y)) [
    | inl hit ↦ elim (Memᴰ.cases_cons (rw hit at m)) [
      | inl e ↦ (Memᴰ.head e, ap p e ∙ hit)
      | inr n ↦ let rest = In-filter p ys {x = x} n in (Memᴰ.tail rest.0, rest.1)
    ]
    | inr miss ↦ let rest = In-filter p ys {x = x} (rw miss at m) in (Memᴰ.tail rest.0, rest.1)
  ]

  pub filter-In :
      (p : A → Bool) (xs : List A) {x : A} → Memᴰ x xs → p x ≡ true → Memᴰ x (filter p xs)
  filter-In p [] m h = elim m [ ]
  filter-In p (y ∷ ys) {x} (Memᴰ.head e) h = rw (ap p (sym e) ∙ h) (Memᴰ.head e)
  filter-In p (y ∷ ys) {x} (Memᴰ.tail m) h = elim (Bool-cases (p y)) [
    | inl hit ↦ rw hit (Memᴰ.tail (filter-In p ys m h))
    | inr miss ↦ rw miss (filter-In p ys m h)
  ]

  -- An update that leaves the keys alone.
  pub keys-update_where :
      (key : A → ℕ) (p : A → Bool) (f : A → A) (xs : List A)
      → ((x : A) → key (f x) ≡ key x)
      → map key (update_where p f xs) ≡ map key xs
  keys-update_where key p f [] same = refl
  keys-update_where key p f (x ∷ xs) same =
      ground (arith, same x, keys-update_where key p f xs same)

  pub In-contains :
      (key : A → ℕ) (x : A) (xs : List A) → Memᴰ x xs → contains (map key xs) (key x) ≡ true
  In-contains key x [] m = elim m [ ]
  In-contains key x (y ∷ ys) (Memᴰ.head e) = ground (arith, ap key e)
  In-contains key x (y ∷ ys) (Memᴰ.tail m) = ground (arith, In-contains key x ys m)

  -- The key determines the row.
  pub Distinct-unique :
      (key : A → ℕ) (xs : List A) {x y : A}
      → Distinct (map key xs)
      → Memᴰ x xs
      → Memᴰ y xs
      → key x ≡ key y
      → x ≡ y
  Distinct-unique key [] d m n e = elim m [ ]
  Distinct-unique key (z ∷ zs) d (Memᴰ.head h) (Memᴰ.head k) e = h ∙ sym k
  Distinct-unique key (z ∷ zs) {x} {y} d (Memᴰ.head h) (Memᴰ.tail n) e =
      absurd (ground (arith, In-contains key y zs n, ap key h))
  Distinct-unique key (z ∷ zs) {x} {y} d (Memᴰ.tail m) (Memᴰ.head k) e =
      absurd (ground (arith, In-contains key x zs m, ap key k))
  Distinct-unique key (z ∷ zs) d (Memᴰ.tail m) (Memᴰ.tail n) e = Distinct-unique key zs d.1 m n e

contains-snoc :
    (ks : List ℕ) (a b : ℕ)
    → contains ks b ≡ false
    → (a == b) ≡ false
    → contains (ks ++ a ∷ []) b ≡ false
contains-snoc [] a b h n = ground arith
contains-snoc (c ∷ ks) a b h n = ground (arith, contains-snoc ks a b)

-- A fresh key at the end of the table.
pub Distinct-snoc :
    (ks : List ℕ) (a : ℕ) → Distinct ks → contains ks a ≡ false → Distinct (ks ++ a ∷ [])
Distinct-snoc [] a d h = (refl, tt)
Distinct-snoc (b ∷ ks) a d h =
    (contains-snoc ks a b d.0 (ground arith), Distinct-snoc ks a d.1 (ground arith))

module _ {ℓ} {A : Type ℓ} where
  -- Where a row of an updated table comes from.
  pub In-update_where :
      (p : A → Bool) (f : A → A) (xs : List A) {y : A}
      → Memᴰ y (update_where p f xs)
      → (x : A) × Memᴰ x xs × (((p x ≡ true) × (y ≡ f x)) ⊎ ((p x ≡ false) × (y ≡ x)))
  In-update_where p f [] m = elim m [ ]
  In-update_where p f (x ∷ xs) {y} m = elim (Memᴰ.cases_cons m) [
    | inl e ↦ elim (Bool-cases (p x)) [
      | inl hit ↦ (x, Memᴰ.head refl, inl (hit, ground arith))
      | inr miss ↦ (x, Memᴰ.head refl, inr (miss, ground arith))
    ]
    | inr n ↦ let (z, o, why) = In-update_where p f xs {y = y} n in (z, Memᴰ.tail o, why)
  ]

  -- A row that passes the test is in the updated table as it was rewritten.
  pub update_where-In :
      (p : A → Bool) (f : A → A) (xs : List A) {x : A}
      → Memᴰ x xs
      → p x ≡ true
      → Memᴰ (f x) (update_where p f xs)
  update_where-In p f [] m h = elim m [ ]
  update_where-In p f (y ∷ ys) {x} (Memᴰ.head e) h = Memᴰ.head (ground (arith, ap p e, ap f e))
  update_where-In p f (y ∷ ys) (Memᴰ.tail m) h = Memᴰ.tail (update_where-In p f ys m h)

pub All-map {ℓ κ} :
    {A : Type ℓ} (P Q : A → Type κ) (xs : List A) → ((x : A) → P x → Q x) → All P xs → All Q xs
All-map P Q [] f v = tt
All-map P Q (x ∷ xs) f (v, vs) = (f x v, All-map P Q xs f vs)
