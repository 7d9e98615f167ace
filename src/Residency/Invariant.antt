-- ===== src/Residency/Invariant.antt =====
-- app_v1/slaves/ai/app/gpu_residency.py: what holds of the tables of loaded models, and of each lease.
use gpstation.Prelude.{ℕ, ◌<◌, Bool, true, false, ◌||◌, some, List, [], ◌≡◌, ◌==◌, contains, All}
use gpstation.Prelude.Dict.{Dict, get}
use gpstation.Residency.Models.{LoadedGpuModel, Loaded, Found, resident}
use gpstation.Residency.Leases.{
  Phase, acquiring, evicting, inside, clearing, Lease, Gpu, conflicts, is_co_resident,
}
use gpstation.Residency.Collecting.{has_id}

abbrev pub waiting : Phase → List ℕ
waiting (acquiring ds) = ds
waiting (evicting cs) = []
waiting inside = []
waiting (clearing cs) = []

abbrev pub pending : Phase → List Found
pending (acquiring ds) = []
pending (evicting cs) = cs
pending inside = []
pending (clearing cs) = cs

abbrev pub is_evicting : Phase → Bool
is_evicting (evicting cs) = true
is_evicting _ = false

abbrev pub is_inside : Phase → Bool
is_inside inside = true
is_inside (clearing cs) = true
is_inside _ = false

abbrev pub is_clearing : Phase → Bool
is_clearing (clearing cs) = true
is_clearing _ = false

-- A model stands under its role, on one of its devices; ids tell models apart; and two models share a device
-- only if neither is exclusive.
pub record TablesOk (loaded : Loaded) (next : ℕ) : Type 0 where
  pub named :
      (d r : ℕ) (m : LoadedGpuModel)
      → resident loaded d r ≡ some m
      → (m.role ≡ r) × (contains m.device_ids d ≡ true) × (m.id < next)
  pub same :
      (d r e q : ℕ) (m n : LoadedGpuModel)
      → resident loaded d r ≡ some m
      → resident loaded e q ≡ some n
      → m.id ≡ n.id
      → m ≡ n
  pub apart :
      (d r q : ℕ) (m n : LoadedGpuModel)
      → resident loaded d r ≡ some m
      → resident loaded d q ≡ some n
      → (r == q) ≡ false
      → m.exclusive ≡ false

-- A model that a lease is about to release: it was found on one of the lease's devices, `ids`.
pub record PendingOk (loaded : Loaded) (next : ℕ) (ids : List ℕ) (c : Found) : Type 0 where
  pub old : c.1.id < next
  pub same : (d r : ℕ) (m : LoadedGpuModel) → resident loaded d r ≡ some m → m.id ≡ c.1.id → m ≡ c.1
  pub ours : contains ids c.0 ≡ true
  pub theirs : contains c.1.device_ids c.0 ≡ true

-- The lease's own model is on the device.
pub record Settled (loaded : Loaded) (l : Lease) (d : ℕ) : Type 0 where
  pub model : LoadedGpuModel
  pub is_there : resident loaded d l.role ≡ some model
  pub is_own : model.id ≡ l.own
  pub has_key : model.model_key ≡ l.model_key
  pub everywhere : model.device_ids ≡ l.device_ids
  pub as_asked : model.exclusive ≡ l.exclusive

pub record LeaseOk (locks : Dict ℕ) (loaded : Loaded) (next id : ℕ) (l : Lease) : Type 0 where
  pub owns : (d : ℕ) → contains l.held d ≡ true → get locks d ≡ some id
  pub covers :
      (d : ℕ)
      → contains l.device_ids d ≡ true
      → (contains l.held d || contains (waiting l.phase) d) ≡ true
  pub found : All (PendingOk loaded next l.device_ids) (pending l.phase)
  pub looked :
      is_evicting l.phase ≡ true
      → (d r : ℕ) (m : LoadedGpuModel) → contains l.device_ids d ≡ true
      → resident loaded d r ≡ some m
      → conflicts l m ≡ true
      → has_id m.id (pending l.phase) ≡ true
  pub settled :
      is_inside l.phase ≡ true → (d : ℕ) → contains l.device_ids d ≡ true → Settled loaded l d
  pub others :
      is_clearing l.phase ≡ true → All (λ c. (c.1.role == l.role) ≡ false) (pending l.phase)
  pub cleared :
      is_clearing l.phase ≡ true
      → (d r : ℕ) (m : LoadedGpuModel) → contains l.device_ids d ≡ true
      → resident loaded d r ≡ some m
      → is_co_resident l m ≡ true
      → has_id m.id (pending l.phase) ≡ true

pub record IsSound (g : Gpu) : Type 0 where
  pub tables : TablesOk g.loaded g.next_model
  pub leases :
      (id : ℕ) (l : Lease) → get g.leases id ≡ some l → LeaseOk g.locks g.loaded g.next_model id l
  pub counted : (id : ℕ) (l : Lease) → get g.leases id ≡ some l → id < g.next_lease
