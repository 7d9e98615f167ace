-- ===== src/Residency/Tables.antt =====
-- app_v1/slaves/ai/app/gpu_residency.py: what is resident after an eviction and after a registration, and what
-- `collect` finds.

use gpstation.Prelude.{
  ℕ, true, false, ◌&&◌, Option, none, some, List, [], ◌∷◌, ◌≡◌, inl, inr, refl, sym, ap, ◌∙◌, arith,
  ◌==◌, ==_iff, if◌then◌else◌, contains, Bool-cases, Option-cases,
}
use gpstation.Prelude.Dict.{
  Dict, get, put, pop, is_empty, get-put, get-pop, get-empty, get-is_empty,
}
use gpstation.Residency.Models.{
  LoadedGpuModel, Loaded, table, resident, is_same, drop_role, evict_from, evict_all, register_on,
}

resident-put :
    (loaded : Loaded) (d e r : ℕ) (by_role : Dict LoadedGpuModel)
    → resident (put loaded d by_role) e r ≡ (if d == e then get by_role r else resident loaded e r)
resident-put loaded d e r by_role = elim (Bool-cases (d == e)) [
  | inl h ↦ rw (get-put loaded d e by_role) (rw h refl)
  | inr h ↦ rw (get-put loaded d e by_role) (rw h refl)
]

resident-pop :
    (loaded : Loaded) (d e r : ℕ)
    → resident (pop loaded d) e r ≡ (if d == e then none else resident loaded e r)
resident-pop loaded d e r = elim (Bool-cases (d == e)) [
  | inl h ↦ rw (get-pop loaded d e) (rw h (get-empty r))
  | inr h ↦ rw (get-pop loaded d e) (rw h refl)
]

resident-drop_role :
    (loaded : Loaded) (d e q r : ℕ) (by_role : Dict LoadedGpuModel)
    → resident (drop_role loaded d by_role q) e r
      ≡ (if d == e then (if q == r then none else get by_role r) else resident loaded e r)
resident-drop_role loaded d e q r by_role = elim (Bool-cases (is_empty (pop by_role q))) [
  | inl h ↦ rw h (
      resident-pop loaded d e r
      ∙ ground (arith, get-is_empty (pop by_role q) r h, get-pop by_role q r))
  | inr h ↦ rw h (resident-put loaded d e r (pop by_role q) ∙ ground (arith, get-pop by_role q r))
]

resident-missing : (loaded : Loaded) (d r : ℕ) → get loaded d ≡ none → resident loaded d r ≡ none
resident-missing loaded d r n = rw n (get-empty r)

resident-there :
    (loaded : Loaded) (d r : ℕ) {t : Dict LoadedGpuModel}
    → get loaded d ≡ some t
    → resident loaded d r ≡ get t r
resident-there loaded d r e = rw e refl

same-device :
    (loaded : Loaded) (d e r : ℕ) → (d == e) ≡ true → resident loaded d r ≡ resident loaded e r
same-device loaded d e r h = ap (λ k. resident loaded k r) ((==_iff d e).0 h)

same-role : (t : Dict LoadedGpuModel) (q r : ℕ) → (q == r) ≡ true → get t q ≡ get t r
same-role t q r h = ap (get t) ((==_iff q r).0 h)

abbrev after_eviction : LoadedGpuModel → ℕ → ℕ → ℕ → Loaded → Option LoadedGpuModel
after_eviction c d e r loaded =
    if (d == e) && (c.role == r) && is_same (resident loaded e r) c
    then none
    else resident loaded e r

kept-other :
    (c : LoadedGpuModel) (d e r : ℕ) (loaded : Loaded)
    → ((d == e) && (c.role == r) && is_same (resident loaded e r) c) ≡ false
    → after_eviction c d e r loaded ≡ resident loaded e r
kept-other c d e r loaded h = rw h refl

evicted-there :
    (c : LoadedGpuModel) (d e r : ℕ) (loaded : Loaded) (t : Dict LoadedGpuModel)
    → get loaded d ≡ some t
    → is_same (get t c.role) c ≡ true
    → resident (drop_role loaded d t c.role) e r ≡ after_eviction c d e r loaded
evicted-there c d e r loaded t g s = elim (Bool-cases (d == e)) [
  | inr h ↦ resident-drop_role loaded d e c.role r t ∙ rw h refl
  | inl h ↦
      let there : resident loaded e r ≡ get t r =
        sym (same-device loaded d e r h) ∙ resident-there loaded d r g in
      resident-drop_role loaded d e c.role r t
      ∙ rw there (elim (Bool-cases (c.role == r)) [
        | inl q ↦
            let same : is_same (get t r) c ≡ true =
              ap (λ o. is_same o c) (sym (same-role t c.role r q)) ∙ s in
            rw h (rw q (rw same refl))
        | inr q ↦ rw h (rw q refl)
      ])
]

kept-there :
    (c : LoadedGpuModel) (d e r : ℕ) (loaded : Loaded) (t : Dict LoadedGpuModel)
    → get loaded d ≡ some t
    → is_same (get t c.role) c ≡ false
    → ((d == e) && (c.role == r) && is_same (resident loaded e r) c) ≡ false
kept-there c d e r loaded t g s = elim (Bool-cases (d == e)) [
  | inr h ↦ rw h refl
  | inl h ↦ elim (Bool-cases (c.role == r)) [
    | inr q ↦ rw h (rw q refl)
    | inl q ↦ rw h (
        rw q (
          ap (λ o. is_same o c)
            (sym (same-device loaded d e r h)
              ∙ resident-there loaded d r g
              ∙ sym (same-role t c.role r q))
          ∙ s))
  ]
]

kept-missing :
    (c : LoadedGpuModel) (d e r : ℕ) (loaded : Loaded)
    → get loaded d ≡ none
    → ((d == e) && (c.role == r) && is_same (resident loaded e r) c) ≡ false
kept-missing c d e r loaded n = elim (Bool-cases (d == e)) [
  | inr h ↦ rw h refl
  | inl h ↦
      let gone : resident loaded e r ≡ none =
        sym (same-device loaded d e r h) ∙ resident-missing loaded d r n in
      rw gone (ground arith)
]

-- One device after an eviction: the role's model is gone if it was this one.
pub resident-evict_from :
    (c : LoadedGpuModel) (d e r : ℕ) (loaded : Loaded)
    → resident (evict_from c d loaded) e r ≡ after_eviction c d e r loaded
unfolding evict_from
resident-evict_from c d e r loaded = elim (Option-cases (get loaded d)) [
  | inl n ↦ rw (n, evict_from) (sym (kept-other c d e r loaded (kept-missing c d e r loaded n)))
  | inr (t, g) ↦ elim (Bool-cases (is_same (get t c.role) c)) [
    | inl s ↦ rw (g, evict_from) (rw s (evicted-there c d e r loaded t g s))
    | inr s ↦
        rw (g, evict_from)
          (rw s (sym (kept-other c d e r loaded (kept-there c d e r loaded t g s))))
  ]
]

-- A model that is still resident after an eviction was resident before.
pub evict_all-before :
    (c : LoadedGpuModel) (ds : List ℕ) (loaded : Loaded) (e r : ℕ) {m : LoadedGpuModel}
    → resident (evict_all c ds loaded) e r ≡ some m
    → (resident loaded e r ≡ some m) × ((contains ds e && (c.role == r) && (m.id == c.id)) ≡ false)
evict_all-before c [] loaded e r h = (h, refl)
evict_all-before c (d ∷ ds) loaded e r {m} h =
    let (k, out) = evict_all-before c ds (evict_from c d loaded) e r {m = m} h in
    let there = sym (resident-evict_from c d e r loaded) ∙ k in
    elim (Bool-cases ((d == e) && (c.role == r) && is_same (resident loaded e r) c)) [
      | inl gone ↦ cc (rw gone at there)
      | inr kept ↦
          let before : resident loaded e r ≡ some m = rw kept at there in
          (before, ground (arith, out, kept, ap (λ o. is_same o c) before))
    ]

-- A model with another id stays.
pub evict_all-kept :
    (c : LoadedGpuModel) (ds : List ℕ) (loaded : Loaded) (e r : ℕ) {m : LoadedGpuModel}
    → resident loaded e r ≡ some m
    → (m.id == c.id) ≡ false
    → resident (evict_all c ds loaded) e r ≡ some m
evict_all-kept c [] loaded e r h o = h
evict_all-kept c (d ∷ ds) loaded e r {m} h o =
    evict_all-kept c ds (evict_from c d loaded) e r
      (resident-evict_from c d e r loaded ∙ ground (arith, ap (λ x. is_same x c) h, o, h)) o

pub resident-register_on :
    (m : LoadedGpuModel) (ds : List ℕ) (loaded : Loaded) (e r : ℕ)
    → resident (register_on m ds loaded) e r
      ≡ (if contains ds e && (m.role == r) then some m else resident loaded e r)
resident-register_on m [] loaded e r = refl
resident-register_on m (d ∷ ds) loaded e r =
    resident-register_on m ds (put loaded d (put (table loaded d) m.role m)) e r
    ∙ ground (
      arith,
      resident-put loaded d e r (put (table loaded d) m.role m),
      get-put (table loaded d) m.role r m,
      same-device loaded d e r,
    )
