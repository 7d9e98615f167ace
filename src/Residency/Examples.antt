-- ===== src/Residency/Examples.antt =====
-- app_v1/slaves/ai/app/gpu_residency.py: two leases of one GPU, and the theorems about them.
use gpstation.Prelude.{ℕ, true, false, some, none, List, [], ◌∷◌, ◌≡◌, refl, inl, contains}
use gpstation.Prelude.Dict.{get, put, empty, values}
use gpstation.Residency.Models.{LoadedGpuModel, resident, collect, register}
use gpstation.Residency.Leases.{
  acquiring, evicting, inside, Lease, Gpu, normalize_device_ids, begin, take_lock,
  look_for_conflicts, enter, begins, takes_lock, looks_for_conflicts, enters, Reach, here, next,
}
use gpstation.Residency.Steps.{start}
use gpstation.Residency.Residents.{inside_resident, one_at_a_time, alone}

-- Role 1 asks for model 5 on device 0 alone; two devices are there.
abbrev asked : Gpu
asked = begin 2 1 5 true (3 ∷ 0 ∷ []) start

abbrev lease_at : List ℕ → Lease
lease_at held = record {
  role = 1;
  model_key = 5;
  exclusive = true;
  device_ids = 0 ∷ [];
  held = held;
  phase = acquiring (0 ∷ []);
  own = 0;
}

asked_lease : get asked.leases 0 ≡ some (lease_at [])
unfolding begin normalize_device_ids get put empty
asked_lease = refl

abbrev locked : Gpu
locked = take_lock 0 0 [] (lease_at []) asked

abbrev locked_lease : Lease
locked_lease = record (lease_at (0 ∷ [])) { phase = acquiring [] }

locked_there : get locked.leases 0 ≡ some locked_lease
unfolding take_lock begin normalize_device_ids get put empty
locked_there = refl

unlocked : get asked.locks 0 ≡ none
unfolding begin get empty
unlocked = refl

to_locked : Reach start locked
to_locked =
    next (next here (begins 2 1 5 true (3 ∷ 0 ∷ [])))
      (takes_lock 0 0 [] (lease_at []) asked_lease refl unlocked)

abbrev looked : Gpu
looked = look_for_conflicts 0 locked_lease locked

abbrev looked_lease : Lease
looked_lease = record locked_lease { phase = evicting [] }

looked_there : get looked.leases 0 ≡ some looked_lease
unfolding look_for_conflicts take_lock begin normalize_device_ids collect values get put empty
looked_there = refl

abbrev entered : Gpu
entered = enter 0 looked_lease looked

abbrev entered_lease : Lease
entered_lease = record locked_lease { phase = inside; own = 0 }

entered_there : get entered.leases 0 ≡ some entered_lease
unfolding enter look_for_conflicts take_lock begin normalize_device_ids register get put empty
entered_there = refl

to_entered : Reach start entered
to_entered =
    next (next to_locked (looks_for_conflicts 0 locked_lease locked_there refl))
      (enters 0 looked_lease looked_there refl)

abbrev model : LoadedGpuModel
model = record { id = 0; role = 1; model_key = 5; device_ids = 0 ∷ []; exclusive = true }

model_there : resident entered.loaded 0 1 ≡ some model
unfolding enter look_for_conflicts take_lock begin normalize_device_ids register get put empty
model_there = refl

inside_resident_example :
    (m : LoadedGpuModel) × (resident entered.loaded 0 1 ≡ some m) × (m.model_key ≡ 5)
inside_resident_example =
    inside_resident entered 0 entered_lease 0 to_entered entered_there refl refl

alone_example : 1 ≡ entered_lease.role
alone_example =
    alone entered 0 entered_lease 0 1 model to_entered entered_there (inl (refl, refl)) refl
      model_there

-- Role 2 asks for model 6 on the other device.
abbrev asked_too : Gpu
asked_too = begin 2 2 6 false (1 ∷ []) entered

abbrev second_at : List ℕ → Lease
second_at held = record {
  role = 2;
  model_key = 6;
  exclusive = false;
  device_ids = 1 ∷ [];
  held = held;
  phase = acquiring (1 ∷ []);
  own = 0;
}

abbrev locked_too : Gpu
locked_too = take_lock 1 1 [] (second_at []) asked_too

abbrev second_locked : Lease
second_locked = record (second_at (1 ∷ [])) { phase = acquiring [] }

abbrev looked_too : Gpu
looked_too = look_for_conflicts 1 second_locked locked_too

abbrev second_looked : Lease
second_looked = record second_locked { phase = evicting [] }

abbrev both : Gpu
both = enter 1 second_looked looked_too

abbrev second_entered : Lease
second_entered = record second_locked { phase = inside; own = 1 }

asked_too_there : get asked_too.leases 1 ≡ some (second_at [])
unfolding enter look_for_conflicts take_lock begin normalize_device_ids get put empty
asked_too_there = refl

unlocked_too : get asked_too.locks 1 ≡ none
unfolding enter look_for_conflicts take_lock begin normalize_device_ids get put empty
unlocked_too = refl

locked_too_there : get locked_too.leases 1 ≡ some second_locked
unfolding enter look_for_conflicts take_lock begin normalize_device_ids get put empty
locked_too_there = refl

looked_too_there : get looked_too.leases 1 ≡ some second_looked
unfolding enter look_for_conflicts take_lock begin normalize_device_ids collect values register get
    put empty
looked_too_there = refl

both_there : (get both.leases 0 ≡ some entered_lease) × (get both.leases 1 ≡ some second_entered)
unfolding enter look_for_conflicts take_lock begin normalize_device_ids get put empty
both_there = (refl, refl)

to_both : Reach start both
to_both =
    next
      (next
        (next (next to_entered (begins 2 2 6 false (1 ∷ [])))
          (takes_lock 1 1 [] (second_at []) asked_too_there refl unlocked_too))
        (looks_for_conflicts 1 second_locked locked_too_there refl))
      (enters 1 second_looked looked_too_there refl)

one_at_a_time_example : contains second_entered.device_ids 0 ≡ false
one_at_a_time_example =
    one_at_a_time both 0 1 entered_lease second_entered 0 to_both both_there.0 both_there.1 refl
      refl refl refl
