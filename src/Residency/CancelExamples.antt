-- ===== src/Residency/CancelExamples.antt =====
-- app_v1/slaves/ai/app/gpu_residency.py: a lease that waits for another and is cancelled, and the theorems about it.
use gpstation.Prelude.{ℕ, true, false, some, none, List, [], ◌∷◌, ◌≡◌, refl, contains}
use gpstation.Prelude.Dict.{get, put, pop, empty}
use gpstation.Residency.Leases.{
  acquiring, Lease, Gpu, normalize_device_ids, begin, take_lock, cancel, begins, takes_lock, Reach,
  here, next,
}
use gpstation.Residency.Steps.{start}
use gpstation.Residency.Deadlock.{Uncancelled, Advance, no_deadlock}
use gpstation.Residency.Cancelling.{is_suspended, cancelled, lock_leak}

-- Role 2 asks for both devices, has the lock of device 1 to wait for, and is cancelled.
abbrev wide_at : List ℕ → List ℕ → Lease
wide_at held rest = record {
  role = 2;
  model_key = 6;
  exclusive = true;
  device_ids = 0 ∷ 1 ∷ [];
  held = held;
  phase = acquiring rest;
  own = 0;
}

abbrev narrow_at : List ℕ → List ℕ → Lease
narrow_at held rest = record {
  role = 1;
  model_key = 5;
  exclusive = true;
  device_ids = 1 ∷ [];
  held = held;
  phase = acquiring rest;
  own = 0;
}

abbrev narrow : Gpu
narrow = begin 2 1 5 true (1 ∷ []) start

abbrev one_has : Gpu
one_has = take_lock 0 1 [] (narrow_at [] (1 ∷ [])) narrow

abbrev two_ask : Gpu
two_ask = begin 2 2 6 true (0 ∷ 1 ∷ []) one_has

abbrev one_waits : Gpu
one_waits = take_lock 1 0 (1 ∷ []) (wide_at [] (0 ∷ 1 ∷ [])) two_ask

narrow_there : (get narrow.leases 0 ≡ some (narrow_at [] (1 ∷ []))) × (get narrow.locks 1 ≡ none)
unfolding begin normalize_device_ids get put empty
narrow_there = (refl, refl)

two_there : (get two_ask.leases 1 ≡ some (wide_at [] (0 ∷ 1 ∷ []))) × (get two_ask.locks 0 ≡ none)
unfolding take_lock begin normalize_device_ids get put empty
two_there = (refl, refl)

one_waits_there :
    (get one_waits.leases 1 ≡ some (wide_at (0 ∷ []) (1 ∷ [])))
    × (is_suspended one_waits.locks (acquiring (1 ∷ [])) ≡ true)
unfolding take_lock begin normalize_device_ids get put empty
one_waits_there = (refl, refl)

to_one_waits : Reach start one_waits
to_one_waits =
    next
      (next
        (next (next here (begins 2 1 5 true (1 ∷ [])))
          (takes_lock 0 1 [] (narrow_at [] (1 ∷ [])) narrow_there.0 refl narrow_there.1))
        (begins 2 2 6 true (0 ∷ 1 ∷ [])))
      (takes_lock 1 0 (1 ∷ []) (wide_at [] (0 ∷ 1 ∷ [])) two_there.0 refl two_there.1)

to_one_waits-Uncancelled : Uncancelled to_one_waits
unfolding to_one_waits
to_one_waits-Uncancelled = ((((tt, refl), refl), refl), refl)

no_deadlock_example : Advance one_waits
no_deadlock_example =
    no_deadlock one_waits 1 (wide_at (0 ∷ []) (1 ∷ [])) to_one_waits to_one_waits-Uncancelled
      one_waits_there.0

abbrev after_cancel : Gpu
after_cancel = begin 2 1 7 true (0 ∷ []) (cancel 1 one_waits)

abbrev third : Lease
third = record {
  role = 1;
  model_key = 7;
  exclusive = true;
  device_ids = 0 ∷ [];
  held = [];
  phase = acquiring (0 ∷ []);
  own = 0;
}

third_there : get after_cancel.leases 2 ≡ some third
unfolding cancel take_lock begin normalize_device_ids get put pop empty
third_there = refl

lock_leak_example : (get after_cancel.locks 0 ≡ some 1) × (contains third.held 0 ≡ false)
lock_leak_example =
    lock_leak 1 2 0 (wide_at (0 ∷ []) (1 ∷ [])) third one_waits (cancel 1 one_waits) after_cancel
      to_one_waits (cancelled one_waits_there.0 one_waits_there.1) refl
      (next here (begins 2 1 7 true (0 ∷ []))) third_there
