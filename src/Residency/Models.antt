-- ===== src/Residency/Models.antt =====
-- app_v1/slaves/ai/app/gpu_residency.py: `_loaded_models_by_device`, and the functions that change it. Roles and
-- model keys are opaque. A model has an id, for `id(current)` and `is`. What `release_loaded_model` does is outside.
use gpstation.Prelude.{
  ℕ, Bool, false, not, Option, none, some, List, [], ◌∷◌, ◌++◌, ◌==◌, if◌then◌else◌, or_default,
  filter, map,
}
use gpstation.Prelude.Dict.{Dict, get, put, pop, empty, values, is_empty}

pub record LoadedGpuModel : Type 0 where
  pub id : ℕ
  pub role : ℕ
  pub model_key : ℕ
  pub device_ids : List ℕ
  pub exclusive : Bool

abbrev pub Loaded : Type 0
Loaded = Dict (Dict LoadedGpuModel)

-- `_loaded_models_by_device.get(device_id, {})`
abbrev pub table : Loaded → ℕ → Dict LoadedGpuModel
table loaded device = or_default (get loaded device) empty

-- The model of a role on a device.
abbrev pub resident : Loaded → ℕ → ℕ → Option LoadedGpuModel
resident loaded device role = get (table loaded device) role

abbrev pub is_same : Option LoadedGpuModel → LoadedGpuModel → Bool
is_same none current = false
is_same (some m) current = m.id == current.id

-- A model that is released, with the device it was found on.
abbrev pub Found : Type 0
Found = ℕ × LoadedGpuModel

abbrev pub found_on : ℕ → List LoadedGpuModel → List Found
found_on device ms = map (λ m. (device, m)) ms

abbrev pub candidates : (LoadedGpuModel → Bool) → Loaded → List ℕ → List Found
candidates test loaded [] = []
candidates test loaded (d ∷ ds) =
    found_on d (filter test (values (table loaded d))) ++ candidates test loaded ds

-- `id(current) not in seen`
abbrev pub first_of_each : List Found → List Found
first_of_each [] = []
first_of_each (c ∷ cs) = c ∷ filter (λ b. not (b.1.id == c.1.id)) (first_of_each cs)

unfoldable pub collect : (LoadedGpuModel → Bool) → Loaded → List ℕ → List Found
collect test loaded device_ids = first_of_each (candidates test loaded device_ids)

abbrev pub drop_role : Loaded → ℕ → Dict LoadedGpuModel → ℕ → Loaded
drop_role loaded device by_role role =
    let rest = pop by_role role in
    if is_empty rest then pop loaded device else put loaded device rest

unfoldable pub evict_from : LoadedGpuModel → ℕ → Loaded → Loaded
evict_from current device loaded = elim (get loaded device) [
  | none ↦ loaded
  | some by_role ↦
      if is_same (get by_role current.role) current
      then drop_role loaded device by_role current.role
      else loaded
]

abbrev pub evict_all : LoadedGpuModel → List ℕ → Loaded → Loaded
evict_all current [] loaded = loaded
evict_all current (d ∷ ds) loaded = evict_all current ds (evict_from current d loaded)

unfoldable pub evict : LoadedGpuModel → Loaded → Loaded
evict current loaded = evict_all current current.device_ids loaded

abbrev pub register_on : LoadedGpuModel → List ℕ → Loaded → Loaded
register_on m [] loaded = loaded
register_on m (d ∷ ds) loaded = register_on m ds (put loaded d (put (table loaded d) m.role m))

unfoldable pub register : LoadedGpuModel → Loaded → Loaded
register m loaded = register_on m m.device_ids loaded
