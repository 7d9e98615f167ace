-- ===== src/Residency/Leases.antt =====
-- app_v1/slaves/ai/app/gpu_residency.py: `GpuModelLease`, cut at its awaits. Leases have ids, counted up.
use gpstation.Prelude.{
  ℕ, suc, Bool, true, false, ◌&&◌, ◌||◌, not, none, some, List, [], ◌∷◌, ◌≡◌, ltb, ◌==◌,
  if◌then◌else◌, filter,
}
use gpstation.Prelude.Dict.{Dict, get, put, pop}
use gpstation.Residency.Models.{LoadedGpuModel, Loaded, Found, collect, evict, register}

-- Where a lease is: before the lock of the first listed device; before the release of the first listed model, on
-- the way in; in the body of `async with`; or there, in `evict_co_resident_models`.
pub data Phase : Type 0 where
  acquiring : List ℕ → Phase
  evicting : List Found → Phase
  inside : Phase
  clearing : List Found → Phase

-- `held` are the devices whose locks the lease has got; `own` is the id of the model it has registered.
pub record Lease : Type 0 where
  pub role : ℕ
  pub model_key : ℕ
  pub exclusive : Bool
  pub device_ids : List ℕ
  pub held : List ℕ
  pub phase : Phase
  pub own : ℕ

pub record Gpu : Type 0 where
  pub locks : Dict ℕ
  pub loaded : Loaded
  pub leases : Dict Lease
  pub next_lease : ℕ
  pub next_model : ℕ

-- `sorted(set(device_ids))`, and the devices there are. A negative id is not a device either.
abbrev pub insert_id : ℕ → List ℕ → List ℕ
insert_id d [] = d ∷ []
insert_id d (e ∷ es) = if ltb d e then d ∷ e ∷ es else if d == e then e ∷ es else e ∷ insert_id d es

abbrev pub sorted_set : List ℕ → List ℕ
sorted_set [] = []
sorted_set (d ∷ ds) = insert_id d (sorted_set ds)

unfoldable pub normalize_device_ids : ℕ → List ℕ → List ℕ
normalize_device_ids device_count device_ids =
    filter (λ d. ltb d device_count) (sorted_set device_ids)

abbrev pub is_same_model : Lease → LoadedGpuModel → Bool
is_same_model l current = (current.role == l.role) && (current.model_key == l.model_key)

abbrev pub conflicts : Lease → LoadedGpuModel → Bool
conflicts l current =
    not (is_same_model l current) && ((current.role == l.role) || current.exclusive || l.exclusive)

abbrev pub is_co_resident : Lease → LoadedGpuModel → Bool
is_co_resident l current = not (current.role == l.role) && not current.exclusive

abbrev pub set_lease : ℕ → Lease → Gpu → Gpu
set_lease id l g = record g { leases = put g.leases id l }

abbrev pub is_nil : List ℕ → Bool
is_nil [] = true
is_nil (d ∷ ds) = false

-- A lease without devices needs no lock.
abbrev pub new_lease : ℕ → ℕ → Bool → List ℕ → Lease
new_lease role model_key exclusive device_ids = record {
  role = role;
  model_key = model_key;
  exclusive = exclusive;
  device_ids = device_ids;
  held = [];
  phase = if is_nil device_ids then inside else acquiring device_ids;
  own = 0;
}

unfoldable pub begin : ℕ → ℕ → ℕ → Bool → List ℕ → Gpu → Gpu
begin device_count role model_key exclusive device_ids g = record g {
  leases =
      put g.leases g.next_lease
        (new_lease role model_key exclusive (normalize_device_ids device_count device_ids));
  next_lease = suc g.next_lease;
}

unfoldable pub take_lock : ℕ → ℕ → List ℕ → Lease → Gpu → Gpu
take_lock id device rest l g = record g {
  locks = put g.locks device id;
  leases = put g.leases id (record l { held = device ∷ l.held; phase = acquiring rest });
}

unfoldable pub look_for_conflicts : ℕ → Lease → Gpu → Gpu
look_for_conflicts id l g =
    set_lease id (record l { phase = evicting (collect (conflicts l) g.loaded l.device_ids) }) g

-- After the model's `release_loaded_model` has returned.
unfoldable pub evict_conflict : ℕ → Found → List Found → Lease → Gpu → Gpu
evict_conflict id current rest l g =
    set_lease id (record l { phase = evicting rest })
      (record g { loaded = evict current.1 g.loaded })

abbrev pub loaded_model : ℕ → Lease → LoadedGpuModel
loaded_model model_id l = record {
  id = model_id;
  role = l.role;
  model_key = l.model_key;
  device_ids = l.device_ids;
  exclusive = l.exclusive;
}

unfoldable pub enter : ℕ → Lease → Gpu → Gpu
enter id l g =
    set_lease id (record l { phase = inside; own = g.next_model })
      (record g {
        loaded = register (loaded_model g.next_model l) g.loaded;
        next_model = suc g.next_model;
      })

abbrev pub release_all : List ℕ → Dict ℕ → Dict ℕ
release_all [] locks = locks
release_all (d ∷ ds) locks = release_all ds (pop locks d)

-- Both on an exception of `release_loaded_model` on the way in, and at the end of the body.
unfoldable pub release : ℕ → Lease → Gpu → Gpu
release id l g = record g { locks = release_all l.held g.locks; leases = pop g.leases id }

unfoldable pub look_for_co_residents : ℕ → Lease → Gpu → Gpu
look_for_co_residents id l g =
    set_lease id (record l { phase = clearing (collect (is_co_resident l) g.loaded l.device_ids) })
      g

unfoldable pub evict_co_resident : ℕ → Found → List Found → Lease → Gpu → Gpu
evict_co_resident id current rest l g =
    set_lease id (record l { phase = clearing rest })
      (record g { loaded = evict current.1 g.loaded })

unfoldable pub back_inside : ℕ → Lease → Gpu → Gpu
back_inside id l g = set_lease id (record l { phase = inside }) g

-- Whether a lease on its way in is at an await: of a lock, or of a model's release.
abbrev pub is_at_await : Phase → Bool
is_at_await (acquiring (d ∷ ds)) = true
is_at_await (evicting (c ∷ cs)) = true
is_at_await _ = false

-- A task that is cancelled on the way in: neither `__aexit__` nor `except Exception` runs. In the body of the
-- lease a cancelled task leaves it like any other.
unfoldable pub cancel : ℕ → Gpu → Gpu
cancel id g = record g { leases = pop g.leases id }

-- What may happen next. The number of devices may be another each time it is asked for.
pub data Step (g : Gpu) : Gpu → Type 0 where
  begins :
      (device_count role model_key : ℕ) (exclusive : Bool) (device_ids : List ℕ)
      → Step g (begin device_count role model_key exclusive device_ids g)
  takes_lock :
      (id device : ℕ) (rest : List ℕ) (l : Lease)
      → get g.leases id ≡ some l
      → l.phase ≡ acquiring (device ∷ rest)
      → get g.locks device ≡ none
      → Step g (take_lock id device rest l g)
  looks_for_conflicts :
      (id : ℕ) (l : Lease)
      → get g.leases id ≡ some l
      → l.phase ≡ acquiring []
      → Step g (look_for_conflicts id l g)
  evicts_conflict :
      (id : ℕ) (current : Found) (rest : List Found) (l : Lease)
      → get g.leases id ≡ some l
      → l.phase ≡ evicting (current ∷ rest)
      → Step g (evict_conflict id current rest l g)
  gives_up :
      (id : ℕ) (current : Found) (rest : List Found) (l : Lease)
      → get g.leases id ≡ some l
      → l.phase ≡ evicting (current ∷ rest)
      → Step g (release id l g)
  enters :
      (id : ℕ) (l : Lease)
      → get g.leases id ≡ some l
      → l.phase ≡ evicting []
      → Step g (enter id l g)
  looks_for_co_residents :
      (id : ℕ) (l : Lease)
      → get g.leases id ≡ some l
      → l.phase ≡ inside
      → Step g (look_for_co_residents id l g)
  evicts_co_resident :
      (id : ℕ) (current : Found) (rest : List Found) (l : Lease)
      → get g.leases id ≡ some l
      → l.phase ≡ clearing (current ∷ rest)
      → Step g (evict_co_resident id current rest l g)
  comes_back :
      (id : ℕ) (pending : List Found) (l : Lease)
      → get g.leases id ≡ some l
      → l.phase ≡ clearing pending
      → Step g (back_inside id l g)
  leaves :
      (id : ℕ) (l : Lease) → get g.leases id ≡ some l → l.phase ≡ inside → Step g (release id l g)
  -- Also after the lock that it waits for was released, before its turn.
  is_cancelled :
      (id : ℕ) (l : Lease)
      → get g.leases id ≡ some l
      → is_at_await l.phase ≡ true
      → Step g (cancel id g)

pub data Reach (g : Gpu) : Gpu → Type 0 where
  here : Reach g g
  next : {h k : Gpu} → Reach g h → Step h k → Reach g k
