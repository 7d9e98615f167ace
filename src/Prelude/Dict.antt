-- ===== src/Prelude/Dict.antt =====
-- A Python dict whose keys are ids, as an association list without a key twice.
use Prim.Native.Nat.{ℕ, ◌<◌}
use mathlib.Core.Path.{◌≡◌, refl, sym, ap, ◌∙◌}
use mathlib.Core.Logic.{inl, inr}
use mathlib.Core.Bool.{Bool, true, false, ◌&&◌}
use mathlib.Core.List.{List, [], ◌∷◌, map, Memᴰ}
use mathlib.Core.List.Memᴰ
use mathlib.Core.Option.{Option, none, some}
use native.Mathlib.Omega.{arith}
use gpstation.Prelude.Tests.{
  if◌then◌else◌, ◌==◌, ==_iff, is_some, Bool-cases, Option-cases, ==_refl,
}
use gpstation.Prelude.Lists.{contains, filter, length}
use gpstation.Prelude.Counts.{length-filter_strict}

pub record Dict {ℓ} (V : Type ℓ) : Type ℓ where
  entries : List (ℕ × V)

contains-filter :
    (q : ℕ → Bool) (ks : List ℕ) (k : ℕ) → contains (filter q ks) k ≡ (q k && contains ks k)
contains-filter q [] k = ground arith
contains-filter q (j ∷ ks) k = elim (Bool-cases (j == k)) [
  | inl e ↦ let same : q j ≡ q k = ap q ((==_iff j k).0 e) in ground (arith, contains-filter q ks k)
  | inr n ↦ ground (arith, contains-filter q ks k)
]

module _ {ℓ} {V : Type ℓ} where
  lookup : ℕ → List (ℕ × V) → Option V
  lookup k [] = none
  lookup k ((j, v) ∷ l) = if j == k then some v else lookup k l

  assign : ℕ → V → List (ℕ × V) → List (ℕ × V)
  assign k v [] = (k, v) ∷ []
  assign k v ((j, w) ∷ l) = if j == k then (k, v) ∷ l else (j, w) ∷ assign k v l

  without : ℕ → List (ℕ × V) → List (ℕ × V)
  without k [] = []
  without k ((j, v) ∷ l) = let rest = without k l in if j == k then rest else (j, v) ∷ rest

  change : ℕ → (V → V) → List (ℕ × V) → List (ℕ × V)
  change k f [] = []
  change k f ((j, v) ∷ l) = (j, if j == k then f v else v) ∷ change k f l

  keys : List (ℕ × V) → List ℕ
  keys [] = []
  keys ((j, v) ∷ l) = j ∷ keys l

  abbrev pub holds : (V → Bool) → Option V → Bool
  holds p none = false
  holds p (some v) = p v

  unfoldable pub empty : Dict V
  empty = record { entries = [] }

  -- d.get(k)
  unfoldable pub get : Dict V → ℕ → Option V
  unfolding lookup
  get d k = lookup k d.entries

  -- d[k] = v
  unfoldable pub put : Dict V → ℕ → V → Dict V
  unfolding assign
  put d k v = record { entries = assign k v d.entries }

  -- d.pop(k, None)
  unfoldable pub pop : Dict V → ℕ → Dict V
  unfolding without
  pop d k = record { entries = without k d.entries }

  -- What happens to the object under k, if there is one.
  unfoldable pub adjust : Dict V → ℕ → (V → V) → Dict V
  unfolding change
  adjust d k f = record { entries = change k f d.entries }

  -- {k for k, v in d.items() if p(v)}
  unfoldable pub select : Dict V → (V → Bool) → List ℕ
  unfolding keys lookup
  select d p = filter (λ k. holds p (lookup k d.entries)) (keys d.entries)

  present : List (Option V) → List V
  present [] = []
  present (none ∷ os) = present os
  present (some v ∷ os) = v ∷ present os

  -- list(d.values())
  unfoldable pub values : Dict V → List V
  unfolding keys lookup present
  values d = present (map (λ k. lookup k d.entries) (keys d.entries))

  abbrev no_entry : List (ℕ × V) → Bool
  no_entry [] = true
  no_entry (e ∷ l) = false

  -- not d
  unfoldable pub is_empty : Dict V → Bool
  is_empty d = no_entry d.entries

  abbrev pub map_option : (V → V) → Option V → Option V
  map_option f none = none
  map_option f (some v) = some (f v)

  pub get-empty : (k : ℕ) → get empty k ≡ none
  unfolding get empty
  get-empty k = refl

  lookup-assign :
      (k j : ℕ) (v : V) (l : List (ℕ × V))
      → lookup j (assign k v l) ≡ (if k == j then some v else lookup j l)
  unfolding lookup assign
  lookup-assign k j v [] = refl
  lookup-assign k j v ((i, w) ∷ l) = ground (arith, lookup-assign k j v l)

  lookup-without :
      (k j : ℕ) (l : List (ℕ × V)) → lookup j (without k l) ≡ (if k == j then none else lookup j l)
  unfolding lookup without
  lookup-without k j [] = ground arith
  lookup-without k j ((i, w) ∷ l) = ground (arith, lookup-without k j l)

  lookup-change :
      (k j : ℕ) (f : V → V) (l : List (ℕ × V))
      → lookup j (change k f l) ≡ (if k == j then map_option f (lookup j l) else lookup j l)
  unfolding lookup change
  lookup-change k j f [] = ground arith
  lookup-change k j f ((i, w) ∷ l) = ground (arith, lookup-change k j f l)

  pub get-put :
      (d : Dict V) (k j : ℕ) (v : V) → get (put d k v) j ≡ (if k == j then some v else get d j)
  unfolding get put
  get-put d k j v = lookup-assign k j v d.entries

  pub get-pop : (d : Dict V) (k j : ℕ) → get (pop d k) j ≡ (if k == j then none else get d j)
  unfolding get pop
  get-pop d k j = lookup-without k j d.entries

  pub get-adjust :
      (d : Dict V) (k j : ℕ) (f : V → V)
      → get (adjust d k f) j ≡ (if k == j then map_option f (get d j) else get d j)
  unfolding get adjust
  get-adjust d k j f = lookup-change k j f d.entries

  lookup-keys : (k : ℕ) (l : List (ℕ × V)) → is_some (lookup k l) ≡ contains (keys l) k
  unfolding lookup keys
  lookup-keys k [] = refl
  lookup-keys k ((j, v) ∷ l) = ground (arith, lookup-keys k l)

  holds-and : (p : V → Bool) (o : Option V) → (holds p o && is_some o) ≡ holds p o
  holds-and p none = refl
  holds-and p (some v) = ground arith

  pub contains-select :
      (d : Dict V) (p : V → Bool) (k : ℕ) → contains (select d p) k ≡ holds p (get d k)
  unfolding select get
  contains-select d p k =
      contains-filter _ (keys d.entries) k
      ∙ ground (arith, lookup-keys k d.entries, holds-and p (lookup k d.entries))

  keys-change : (k : ℕ) (f : V → V) (l : List (ℕ × V)) → keys (change k f l) ≡ keys l
  unfolding keys change
  keys-change k f [] = refl
  keys-change k f ((j, v) ∷ l) = ap (λ ks. j ∷ ks) (keys-change k f l)

  holds-change :
      (p : V → Bool) (f : V → V) (k j : ℕ) (l : List (ℕ × V))
      → ((v : V) → p (f v) ≡ false)
      → holds p (lookup j (change k f l)) ≡ (if k == j then false else holds p (lookup j l))
  holds-change p f k j l out = rw (lookup-change k j f l) (elim (Option-cases (lookup j l)) [
    | inl e ↦ rw e (ground arith)
    | inr (v, e) ↦ rw e (ground (arith, out v))
  ])

  -- A change that puts one entry out of a selection makes it shorter.
  pub select-shrinks :
      (d : Dict V) (p : V → Bool) (f : V → V) (k : ℕ)
      → ((v : V) → p (f v) ≡ false)
      → contains (select d p) k ≡ true
      → length (select (adjust d k f) p) < length (select d p)
  unfolding select adjust
  select-shrinks d p f k out m =
      let before : ℕ → Bool = λ j. holds p (lookup j d.entries) in
      let after : ℕ → Bool = λ j. holds p (lookup j (change k f d.entries)) in
      rw (keys-change k f d.entries) (
        length-filter_strict before after (keys d.entries) k
          (λ j h. ground (arith, h, holds-change p f k j d.entries out))
          (ground (arith, m, contains-filter before (keys d.entries) k))
          (ground (arith, m, contains-filter before (keys d.entries) k))
          (ground (arith, holds-change p f k k d.entries out, ==_refl k)))

  none_there : (l : List (ℕ × V)) (k : ℕ) → no_entry l ≡ true → lookup k l ≡ none
  unfolding lookup
  none_there [] k e = refl
  none_there (e ∷ l) k h = cc

  pub get-is_empty : (d : Dict V) (k : ℕ) → is_empty d ≡ true → get d k ≡ none
  unfolding get is_empty
  get-is_empty d k e = none_there d.entries k e

  present-In :
      (v : V) (k : ℕ) (l : List (ℕ × V)) (ks : List ℕ)
      → contains ks k ≡ true
      → lookup k l ≡ some v
      → Memᴰ v (present (map (λ j. lookup j l) ks))
  unfolding present
  present-In v k l [] m e = cc
  present-In v k l (j ∷ ks) m e = elim (Bool-cases (j == k)) [
    | inl h ↦
        let found : lookup j l ≡ some v = ap (λ i. lookup i l) ((==_iff j k).0 h) ∙ e in
        rw found (Memᴰ.head refl)
    | inr h ↦
        let rest = present-In v k l ks (rw h at m) e in
        elim (Option-cases (lookup j l)) [ inl n ↦ rw n rest | inr (w, n) ↦ rw n (Memᴰ.tail rest) ]
  ]

  pub get-values : (d : Dict V) (k : ℕ) {v : V} → get d k ≡ some v → Memᴰ v (values d)
  unfolding get values
  get-values d k {v} e =
      present-In v k d.entries (keys d.entries) (sym (lookup-keys k d.entries) ∙ ap is_some e) e

  In-present :
      (v : V) (l : List (ℕ × V)) (ks : List ℕ)
      → Memᴰ v (present (map (λ j. lookup j l) ks))
      → (k : ℕ) × (lookup k l ≡ some v)
  unfolding present
  In-present v l [] m = elim m [ ]
  In-present v l (j ∷ ks) m = elim (Option-cases (lookup j l)) [
    | inl n ↦ In-present v l ks (rw n at m)
    | inr (w, n) ↦ elim (Memᴰ.cases_cons (rw n at m)) [
      | inl same ↦ (j, n ∙ ap some (sym same))
      | inr rest ↦ In-present v l ks rest
    ]
  ]

  pub values-get : (d : Dict V) {v : V} → Memᴰ v (values d) → (k : ℕ) × (get d k ≡ some v)
  unfolding get values
  values-get d {v} m = In-present v d.entries (keys d.entries) m

pub ruleset dict_laws = (get-empty, get-put, get-pop, get-adjust)
