-- ===== src/Residency/Residents.antt =====
-- app_v1/slaves/ai/app/gpu_residency.py: what a lease can rely on in the body of its `async with`.
use gpstation.Prelude.{
  ℕ, true, false, some, [], ◌≡◌, ◌⊎◌, inl, inr, sym, ap, ◌∙◌, arith, ◌==◌, ==_iff, contains,
  Bool-cases,
}
use gpstation.Prelude.Dict.{get}
use gpstation.Residency.Models.{LoadedGpuModel, resident}
use gpstation.Residency.Leases.{clearing, Lease, Gpu, is_co_resident, Reach}
use gpstation.Residency.Invariant.{is_inside, is_clearing, IsSound}
use gpstation.Residency.Evicting.{one_owner, inside-waiting}
use gpstation.Residency.Steps.{start, Reach-IsSound}

-- Whatever other leases do, a lease in its body has a model of its role and key on each of its devices.
pub inside_resident :
    (g : Gpu) (id : ℕ) (l : Lease) (d : ℕ)
    → Reach start g
    → get g.leases id ≡ some l
    → is_inside l.phase ≡ true
    → contains l.device_ids d ≡ true
    → (m : LoadedGpuModel) × (resident g.loaded d l.role ≡ some m) × (m.model_key ≡ l.model_key)
inside_resident g id l d r e i c =
    let s = ((Reach-IsSound r).leases id l e).settled i d c in (s.model, s.is_there, s.has_key)

-- Different leases in their bodies have no device in common.
pub one_at_a_time :
    (g : Gpu) (id other : ℕ) (l k : Lease) (d : ℕ)
    → Reach start g
    → get g.leases id ≡ some l
    → get g.leases other ≡ some k
    → (id == other) ≡ false
    → is_inside l.phase ≡ true
    → is_inside k.phase ≡ true
    → contains l.device_ids d ≡ true
    → contains k.device_ids d ≡ false
one_at_a_time g id other l k d r e f o i j b = elim (Bool-cases (contains k.device_ids d)) [
  | inr n ↦ n
  | inl c ↦
      let v = Reach-IsSound r in
      absurd (
        one_owner g.locks g.loaded g.next_model id other l k d (v.leases id l e)
          (v.leases other k f) o (inside-waiting l.phase i) (inside-waiting k.phase j) b c)
]

-- Another role's model beside the lease's own: neither is exclusive.
beside :
    (g : Gpu) (id : ℕ) (l : Lease) (d r : ℕ) (m : LoadedGpuModel)
    → IsSound g
    → get g.leases id ≡ some l
    → is_inside l.phase ≡ true
    → contains l.device_ids d ≡ true
    → resident g.loaded d r ≡ some m
    → (l.role == r) ≡ false
    → (l.exclusive ≡ false) × (is_co_resident l m ≡ true)
beside g id l d r m v e i c f o =
    let s = (v.leases id l e).settled i d c in
    let mine = v.tables.apart d l.role r s.model m s.is_there f o in
    let back : (r == l.role) ≡ false = ground (arith, o) in
    let its = v.tables.apart d r l.role m s.model f s.is_there back in
    let (role, there, old) = v.tables.named d r m f in
    (sym s.as_asked ∙ mine, ground (arith, role, back, its))

-- An exclusive lease in its body has its devices to its model alone. So has any lease at the end of
-- `evict_co_resident_models`.
pub alone :
    (g : Gpu) (id : ℕ) (l : Lease) (d r : ℕ) (m : LoadedGpuModel)
    → Reach start g
    → get g.leases id ≡ some l
    → ((l.exclusive ≡ true) × (is_inside l.phase ≡ true)) ⊎ (l.phase ≡ clearing [])
    → contains l.device_ids d ≡ true
    → resident g.loaded d r ≡ some m
    → r ≡ l.role
alone g id l d r m reach e why c f = elim (Bool-cases (l.role == r)) [
  | inl s ↦ sym ((==_iff l.role r).0 s)
  | inr o ↦ elim why [
    | inl (x, i) ↦ cc (x, (beside g id l d r m (Reach-IsSound reach) e i c f o).0)
    | inr p ↦
        let v = Reach-IsSound reach in
        let co = (beside g id l d r m v e (ap is_inside p) c f o).1 in
        cc ((v.leases id l e).cleared (ap is_clearing p) d r m c f co)
  ]
]
