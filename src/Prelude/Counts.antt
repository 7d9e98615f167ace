-- ===== src/Prelude/Counts.antt =====
-- How many ids of a list pass a test, when the test gets stricter.
use Prim.Native.Nat.{ℕ, ◌≤◌, ◌<◌}
use mathlib.Core.Path.{◌≡◌}
use mathlib.Core.Logic.{inl, inr}
use mathlib.Core.Bool.{Bool, true, false}
use mathlib.Core.List.{List, [], ◌∷◌}
use native.Mathlib.Omega.{arith}
use gpstation.Prelude.Tests.{◌==◌, ==_iff, Bool-cases}
use gpstation.Prelude.Lists.{contains, filter, length}

pub length-filter_mono :
    (p q : ℕ → Bool) (ks : List ℕ)
    → ((k : ℕ) → q k ≡ true → p k ≡ true)
    → length (filter q ks) ≤ length (filter p ks)
length-filter_mono p q [] w = omega arith
length-filter_mono p q (k ∷ ks) w = ground (arith, length-filter_mono p q ks w, w k)

-- One id less.
pub length-filter_strict :
    (p q : ℕ → Bool) (ks : List ℕ) (k : ℕ)
    → ((j : ℕ) → q j ≡ true → p j ≡ true)
    → contains ks k ≡ true
    → p k ≡ true
    → q k ≡ false
    → length (filter q ks) < length (filter p ks)
length-filter_strict p q [] k w m a b = cc
length-filter_strict p q (j ∷ ks) k w m a b = elim (Bool-cases (j == k)) [
  | inl e ↦
      let same : j ≡ k = (==_iff j k).0 e in
      rw same (ground (arith, length-filter_mono p q ks w, a, b))
  | inr n ↦ ground (arith, length-filter_strict p q ks k w (ground (arith, m, n)) a b, w j)
]
