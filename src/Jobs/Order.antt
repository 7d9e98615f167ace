-- ===== src/Jobs/Order.antt =====
-- The order in which `claim_next_compatible_job` considers the pairs of a job and a launcher.
use mathlib.Core.Path.{subst}
use gpstation.Prelude.{
  sym, ℕ, Bool, true, false, none, some, List, [], ◌∷◌, map, ◌≡◌, refl, ap, ◌⊎◌, inl, inr, arith,
  Memᴰ, All, Bool-cases, Option-cases,
}
use gpstation.Prelude.Memᴰ
use gpstation.Jobs.Rows.{Job, Launcher}
use gpstation.Jobs.Claim.{Pair, pairs, then_by, precedes, earlier, first_pair}

then_by_trans :
    (a b c : ℕ) (r s t : Bool)
    → then_by a b r ≡ true
    → then_by b c s ≡ true
    → (r ≡ true → s ≡ true → t ≡ true)
    → then_by a c t ≡ true
then_by_trans a b c r s t h k rest = ground arith

then_by_total :
    (a b : ℕ) (r s : Bool) → then_by a b r ≡ false → (r ≡ false → s ≡ true) → then_by b a s ≡ true
then_by_total a b r s h rest = ground arith

pub precedes_trans :
    (p q r : Pair) → precedes p q ≡ true → precedes q r ≡ true → precedes p r ≡ true
unfolding precedes
precedes_trans (j, l) (k, m) (i, n) h e =
    then_by_trans j.created_at k.created_at i.created_at _ _ _ h e λ h e.
      then_by_trans j.id k.id i.id _ _ _ h e λ h e.
        then_by_trans n.last_heartbeat_at m.last_heartbeat_at l.last_heartbeat_at _ _ _ e h λ e h.
          then_by_trans l.connected_at m.connected_at n.connected_at _ _ _ h e λ h e. ground arith

pub precedes_refl : (p : Pair) → precedes p p ≡ true
unfolding precedes
precedes_refl (j, l) = ground arith

pub precedes_total : (p q : Pair) → precedes p q ≡ false → precedes q p ≡ true
unfolding precedes
precedes_total (j, l) (k, m) h = then_by_total j.created_at k.created_at _ _ h λ h.
    then_by_total j.id k.id _ _ h λ h.
      then_by_total m.last_heartbeat_at l.last_heartbeat_at _ _ h
        λ h. then_by_total l.connected_at m.connected_at _ _ h λ h. ground arith

earlier_left : (p q : Pair) → precedes (earlier p (some q)) p ≡ true
earlier_left p q = elim (Bool-cases (precedes p q)) [
  | inl h ↦ rw h (precedes_refl p)
  | inr h ↦ rw h (precedes_total p q h)
]

earlier_right : (p q : Pair) → precedes (earlier p (some q)) q ≡ true
earlier_right p q = elim (Bool-cases (precedes p q)) [
  | inl h ↦ rw h h
  | inr h ↦ rw h (precedes_refl q)
]

earlier_cases : (p q : Pair) → (earlier p (some q) ≡ p) ⊎ (earlier p (some q) ≡ q)
earlier_cases p q = ground arith

-- No pair of the list comes before `p`.
abbrev pub IsFirst : Pair → List Pair → Type 0
IsFirst p = All (λ q. precedes p q ≡ true)

IsFirst-trans : (p q : Pair) (ps : List Pair) → precedes p q ≡ true → IsFirst q ps → IsFirst p ps
IsFirst-trans p q [] h f = tt
IsFirst-trans p q (r ∷ rs) h f = (precedes_trans p q r h f.0, IsFirst-trans p q rs h f.1)

-- There is no first row only if there is no candidate.
pub first_pair-none : (ps : List Pair) → first_pair ps ≡ none → ps ≡ []
unfolding first_pair
first_pair-none [] e = refl
first_pair-none (p ∷ ps) e = cc

-- The query's first row is one of the candidates, and none comes before it.
pub first_pair-IsFirst :
    (ps : List Pair) {p : Pair} → first_pair ps ≡ some p → Memᴰ p ps × IsFirst p ps
unfolding first_pair
first_pair-IsFirst [] e = cc
first_pair-IsFirst (q ∷ qs) {p} e = elim (Option-cases (first_pair qs)) [
  | inl done ↦
      let same : p ≡ q = ground (arith, done) in
      (Memᴰ.head same, (rw same (precedes_refl q), rw (first_pair-none qs done) tt))
  | inr (r, found) ↦
      let (m, first) = first_pair-IsFirst qs found in
      let same : p ≡ earlier q (some r) = ground (arith, found) in
      subst (λ x. Memᴰ x (q ∷ qs) × IsFirst x (q ∷ qs)) (sym same)
        (
          chosen r m,
          (earlier_left q r, IsFirst-trans (earlier q (some r)) r qs (earlier_right q r) first),
        )
]
  where
    chosen : (r : Pair) → Memᴰ r qs → Memᴰ (earlier q (some r)) (q ∷ qs)
    chosen r m = elim (earlier_cases q r) [ inl e ↦ Memᴰ.head e | inr e ↦ Memᴰ.tail (rw e m) ]

pairs_with-In :
    (j k : Job) (l : Launcher) (ls : List Launcher)
    → Memᴰ {A = Pair} (k, l) (map (λ m. (j, m)) ls)
    → (k ≡ j) × Memᴰ l ls
pairs_with-In j k l [] m = elim m [ ]
pairs_with-In j k l (x ∷ xs) (Memᴰ.head e) = (ap (λ p. p.0) e, Memᴰ.head (ap (λ p. p.1) e))
pairs_with-In j k l (x ∷ xs) (Memᴰ.tail m) =
    let (same, rest) = pairs_with-In j k l xs m in (same, Memᴰ.tail rest)

-- A row of the join is a job of the one table with a launcher of the other.
pub pairs-In :
    (js : List Job) (ls : List Launcher) (j : Job) (l : Launcher)
    → Memᴰ {A = Pair} (j, l) (pairs js ls)
    → Memᴰ j js × Memᴰ l ls
pairs-In [] ls j l m = elim m [ ]
pairs-In (k ∷ ks) ls j l m = elim (Memᴰ.append_cases (map (λ m. (k, m)) ls) m) [
  | inl n ↦ let (same, rest) = pairs_with-In k j l ls n in (Memᴰ.head same, rest)
  | inr n ↦ let (rest, m) = pairs-In ks ls j l n in (Memᴰ.tail rest, m)
]

-- Every such pair is a row of the join.
pub In-pairs :
    (js : List Job) (ls : List Launcher) (j : Job) (l : Launcher)
    → Memᴰ j js
    → Memᴰ l ls
    → Memᴰ {A = Pair} (j, l) (pairs js ls)
In-pairs [] ls j l m n = elim m [ ]
In-pairs (k ∷ ks) ls j l (Memᴰ.head e) n =
    Memᴰ.append_left {s = map (λ m. (k, m)) ls} _ (rw e (Memᴰ.map (λ m. (k, m)) n))
In-pairs (k ∷ ks) ls j l (Memᴰ.tail m) n =
    Memᴰ.append_right (map (λ m. (k, m)) ls) (In-pairs ks ls j l m n)
