-- ===== src/Prelude/Entries.antt =====
-- Entries: what stands in a dictionary after an update.
use Prim.Native.Nat.{ℕ}
use mathlib.Core.Path.{◌≡◌, refl, sym, ap, ◌∙◌, subst}
use mathlib.Core.Logic.{inl, inr}
use mathlib.Core.Option.{none, some}
use gpstation.Prelude.Tests.{◌==◌, ==_iff, Bool-cases}
use gpstation.Prelude.Dict.{Dict, get, put, pop, get-put, get-pop}

pub some_inj : {V : Type 0} (v w : V) → some v ≡ some w → v ≡ w
some_inj v w e = cc

pub none_not_some : {V : Type 0} (x : V) → none ≡ some x → ⊥
none_not_some x e = cc

module _ {V : Type 0} (d : Dict V) where
  pub there-put : (k : ℕ) (v : V) → get (put d k v) k ≡ some v
  there-put k v = rw ((==_iff k k).1 refl) at (get-put d k k v)

  -- A new entry hides none.
  pub put-free :
      (k j : ℕ) (v w : V) → get d k ≡ none → get d j ≡ some w → get (put d k v) j ≡ some w
  put-free k j v w free e = elim (Bool-cases (k == j)) [
    | inl same ↦ absurd (none_not_some w (sym free ∙ ap (get d) ((==_iff k j).0 same) ∙ e))
    | inr other ↦ rw other at (get-put d k j v) ∙ e
  ]

  -- An entry after an update is the new one or an old one.
  pub put-cases :
      (P : ℕ → V → Type 0) (k : ℕ) (v : V)
      → P k v
      → ((j : ℕ) (w : V) → get d j ≡ some w → P j w)
      → (j : ℕ) (w : V) → get (put d k v) j ≡ some w
      → P j w
  put-cases P k v new old j w e = elim (Bool-cases (k == j)) [
    | inl same ↦
        let value : v ≡ w = some_inj v w (sym (rw same at (get-put d k j v)) ∙ e) in
        subst (λ i. P i w) ((==_iff k j).0 same) (subst (P k) value new)
    | inr other ↦ old j w (sym (rw other at (get-put d k j v)) ∙ e)
  ]

  pub pop-cases : (k j : ℕ) (w : V) → get (pop d k) j ≡ some w → get d j ≡ some w
  pop-cases k j w e = elim (Bool-cases (k == j)) [
    | inl same ↦ absurd (none_not_some w (sym (rw same at (get-pop d k j)) ∙ e))
    | inr other ↦ sym (rw other at (get-pop d k j)) ∙ e
  ]
