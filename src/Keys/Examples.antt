-- ===== src/Keys/Examples.antt =====
-- app_v1/server/app/service/access_key_service.py, auth.py and routers/web/crud_access_keys.py: two keys of one
-- user, and the theorems about them.
use gpstation.Prelude.{
  ℕ, ◌+◌, Bool, true, false, ◌&&◌, contains, none, some, [], ◌∷◌, ◌≡◌, ◌≢◌, refl, Memᴰ,
}
use gpstation.Prelude.Dict.{get, empty, put, pop, select}
use gpstation.Registry.Launchers.{Launchers, new_launcher, close_launchers_for_access_key}
use gpstation.Keys.Rows.{AccessKey, Tables, client, launcher, active, user}
use gpstation.Keys.Service.{
  accepted, refused, principal_of, authenticate_access_key, active_launcher_key_ids,
  is_active_launcher_key, revoke_access_keys,
}
use gpstation.Jobs.Rows.{returned}
use gpstation.Keys.Creating.{new_key, has, create_user_access_key}
use gpstation.Keys.Created.{created-accepted}
use gpstation.Keys.Agreement.{accepted-active, queries-agree}
use gpstation.Keys.Revoking.{revoked-inactive, revoked-disconnected}

abbrev key_of : ℕ → AccessKey
key_of n = record {
  id = n;
  user_id = 1;
  key_hash = n + 100;
  scopes = client ∷ launcher ∷ [];
  status = active;
  last_used_at = none;
  expires_at = some 50;
  revoked_at = none;
}

abbrev tables : Tables
tables = record {
  access_keys = key_of 7 ∷ key_of 8 ∷ [];
  users = record { id = 1; status = active; role = user } ∷ [];
}

abbrev connected : Launchers
connected =
    put (put empty 3 (new_launcher 3 30 empty (some 7) 0)) 4 (new_launcher 4 40 empty (some 8) 0)

abbrev anyone : AccessKey → Bool
anyone k = true

signs_in : (authenticate_access_key anyone 107 20 tables).0 ≡ accepted (principal_of (key_of 7))
unfolding authenticate_access_key
signs_in = refl

late : (authenticate_access_key anyone 107 50 tables).0 ≡ refused
unfolding authenticate_access_key
late = refl

one_left :
    active_launcher_key_ids 20
      (7 ∷ 8 ∷ [])
      (revoke_access_keys (7 ∷ []) anyone 15 tables connected).1
    ≡ 8 ∷ []
unfolding active_launcher_key_ids revoke_access_keys
one_left = refl

stays :
    get (revoke_access_keys (7 ∷ []) anyone 15 tables connected).2 4
    ≡ some (new_launcher 4 40 empty (some 8) 0)
unfolding revoke_access_keys get put empty pop close_launchers_for_access_key select
stays = refl

queries-agree_example :
    contains (active_launcher_key_ids 20 (7 ∷ 9 ∷ []) tables) 7
    ≡ (contains (7 ∷ 9 ∷ []) 7 && is_active_launcher_key 20 7 none tables)
queries-agree_example = queries-agree 20 7 (7 ∷ 9 ∷ []) tables

accepted-active_example : is_active_launcher_key 20 7 (some 1) tables ≡ true
accepted-active_example =
    accepted-active anyone 107 20 tables (principal_of (key_of 7)) signs_in refl

revoked-inactive_example :
    is_active_launcher_key 30 7 none (revoke_access_keys (7 ∷ []) anyone 15 tables connected).1
    ≡ false
revoked-inactive_example =
    revoked-inactive (7 ∷ []) anyone 15 30 7 none tables connected refl (λ k e. refl)

revoked-disconnected_example : (new_launcher 4 40 empty (some 8) 0).access_key_id ≢ some 7
revoked-disconnected_example =
    revoked-disconnected (7 ∷ []) anyone 15 tables connected 4 (new_launcher 4 40 empty (some 8) 0)
      (key_of 7) (Memᴰ.head refl) refl refl stays

abbrev fresh_key : AccessKey
fresh_key = new_key 9 1 109 (launcher ∷ []) none

created-accepted_example :
    (t' : Tables) × (create_user_access_key
        (λ n. n)
        9
        109
        1
        "rig"
        (launcher ∷ launcher ∷ [])
        none
        tables
      ≡ returned (fresh_key, t'))
    × ((authenticate_access_key anyone 109 60 t').0 ≡ accepted (principal_of fresh_key))
    × (has client (launcher ∷ []) ≡ false)
created-accepted_example =
    created-accepted (λ n. n) anyone 9 109 1 60 "rig" client launcher (launcher ∷ []) none tables
      (record { id = 1; status = active; role = user }) refl refl refl (refl, (refl, tt)) refl refl
