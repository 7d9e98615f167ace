-- ===== src/Keys/Revoking.antt =====
-- app_v1/server/app/routers/web/crud_access_keys.py: what a revoked key can still do.

use gpstation.Prelude.{
  ℕ, Bool, true, false, Option, some, List, [], ◌∷◌, ◌≡◌, ◌≢◌, inl, inr, refl, sym, ap, ◌∙◌, arith,
  ◌==◌, ==_iff, ==_refl, is_id, is_some, filter, filter-In, find, update_where, In-update_where,
  contains, Memᴰ, Bool-cases,
}
use gpstation.Prelude.Dict.{get, get-pop, select, contains-select, holds, pop}
use gpstation.Registry.Launchers.{
  Launchers, LauncherRuntime, pop_all, close_launchers_for_access_key,
}
use gpstation.Keys.Rows.{AccessKey, Tables, is_active}
use gpstation.Keys.Service.{
  is_target, revoke_row, close_all, revoke_access_keys, is_the_key, is_active_launcher_key,
}

none_passes :
    (q : AccessKey → Bool) (keys : List AccessKey)
    → ((k : AccessKey) → Memᴰ k keys → q k ≡ false)
    → is_some (find q keys) ≡ false
none_passes q [] h = refl
none_passes q (k ∷ ks) h =
    ground (arith, h k (Memᴰ.head refl), none_passes q ks (λ i m. h i (Memᴰ.tail m)))

revoked-fails :
    (ids : List ℕ) (owned : AccessKey → Bool) (now later id : ℕ) (user : Option ℕ) (t t' : Tables)
    (k : AccessKey)
    → contains ids id ≡ true
    → ((k : AccessKey) → k.id ≡ id → owned k ≡ true)
    → Memᴰ k (update_where (is_target ids owned) (revoke_row now) t.access_keys)
    → is_the_key later id user t' k ≡ false
revoked-fails ids owned now later id user t t' k named mine m =
    let (j, n, why) =
      In-update_where (is_target ids owned) (revoke_row now) t.access_keys {y = k} m in
    elim why [
      | inl (hit, same) ↦ ground (arith, ap (λ x. is_active x.status) same)
      | inr (miss, same) ↦ elim (Bool-cases (k.id == id)) [
        | inr other ↦ rw other refl
        | inl here ↦
            let e = (==_iff k.id id).0 here in
            absurd (
              ground
                (arith, miss, ap (is_target ids owned) same, ap (contains ids) e, named, mine k e))
      ]
    ]

-- A key that the request names, and that the user may revoke, is inactive for ever after: at any later
-- moment, for any user.
pub revoked-inactive :
    (ids : List ℕ) (owned : AccessKey → Bool) (now later id : ℕ) (user : Option ℕ) (t : Tables)
    (launchers : Launchers)
    → contains ids id ≡ true
    → ((k : AccessKey) → k.id ≡ id → owned k ≡ true)
    → is_active_launcher_key later id user (revoke_access_keys ids owned now t launchers).1 ≡ false
unfolding is_active_launcher_key revoke_access_keys
revoked-inactive ids owned now later id user t launchers named mine =
    let t' = record t {
      access_keys = update_where (is_target ids owned) (revoke_row now) t.access_keys;
    } in
    none_passes (is_the_key later id user t') t'.access_keys
      (λ k m. revoked-fails ids owned now later id user t t' k named mine m)

-- Closing takes away every connection of the key, and gives none.
pop_all-get :
    (ids : List ℕ) (launchers : Launchers) (l : ℕ) {r : LauncherRuntime}
    → get (pop_all ids launchers) l ≡ some r
    → (get launchers l ≡ some r) × (contains ids l ≡ false)
pop_all-get [] launchers l g = (g, refl)
pop_all-get (i ∷ is) launchers l g =
    let (h, out) = pop_all-get is (pop launchers i) l g in
    (ground (arith, h, get-pop launchers i l), ground (arith, h, get-pop launchers i l, out))

close-get :
    (key : ℕ) (launchers : Launchers) (l : ℕ) {r : LauncherRuntime}
    → get (close_launchers_for_access_key key launchers).1 l ≡ some r
    → (get launchers l ≡ some r) × (is_id r.access_key_id key ≡ false)
unfolding close_launchers_for_access_key
close-get key launchers l {r} g =
    let targets = select launchers (λ x. is_id x.access_key_id key) in
    let (h, out) = pop_all-get targets launchers l g in
    (
      h,
      sym (ap (holds (λ x. is_id x.access_key_id key)) h)
          ∙ sym (contains-select launchers (λ x. is_id x.access_key_id key) l)
          ∙ out,
    )

close_all-kept :
    (keys : List AccessKey) (launchers : Launchers) (l : ℕ) {r : LauncherRuntime}
    → get (close_all keys launchers) l ≡ some r
    → get launchers l ≡ some r
close_all-kept [] launchers l g = g
close_all-kept (i ∷ is) launchers l g =
    (close-get i.id launchers l
      (close_all-kept is (close_launchers_for_access_key i.id launchers).1 l g)).0

close_all-get :
    (keys : List AccessKey) (launchers : Launchers) (l : ℕ) {r : LauncherRuntime} (k : AccessKey)
    → get (close_all keys launchers) l ≡ some r
    → Memᴰ k keys
    → (get launchers l ≡ some r) × (is_id r.access_key_id k.id ≡ false)
close_all-get [] launchers l k g m = elim m [ ]
close_all-get (i ∷ is) launchers l k g (Memᴰ.head e) =
    let (h, out) =
      close-get i.id launchers l
        (close_all-kept is (close_launchers_for_access_key i.id launchers).1 l g) in
    (h, ap (is_id _) (ap (λ x. x.id) e) ∙ out)
close_all-get (i ∷ is) launchers l k g (Memᴰ.tail m) =
    let (h, out) = close_all-get is (close_launchers_for_access_key i.id launchers).1 l k g m in
    ((close-get i.id launchers l h).0, out)

-- No launcher stays connected with a key that has been revoked.
pub revoked-disconnected :
    (ids : List ℕ) (owned : AccessKey → Bool) (now : ℕ) (t : Tables) (launchers : Launchers) (l : ℕ)
    (r : LauncherRuntime) (k : AccessKey)
    → Memᴰ k t.access_keys
    → contains ids k.id ≡ true
    → owned k ≡ true
    → get (revoke_access_keys ids owned now t launchers).2 l ≡ some r
    → r.access_key_id ≢ some k.id
unfolding revoke_access_keys
revoked-disconnected ids owned now t launchers l r k m named mine g e =
    let (h, out) =
      close_all-get (filter (is_target ids owned) t.access_keys) launchers l k g
        (filter-In (is_target ids owned) t.access_keys m (ground (arith, named, mine))) in
    absurd (ground (arith, out, e, ==_refl k.id))
