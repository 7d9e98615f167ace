-- ===== src/Keys/Creating.antt =====
-- app_v1/server/app/service/access_key_service.py: how a key is created.
use gpstation.Prelude.{
  ℕ, String, Bool, true, false, ◌&&◌, ◌||◌, not, Option, none, some, List, [], ◌∷◌, ◌++◌, ◌==◌,
  filter, find,
}
use gpstation.Protocol.{is_blank}
use gpstation.Jobs.Rows.{Outcome, returned, raise_if, or_raise, ◌>>=◌, ◌>>◌}
use gpstation.Keys.Rows.{Scope, client, launcher, AccessKey, Tables, active}
use gpstation.Keys.Service.{is_good_user}

abbrev pub same : Scope → Scope → Bool
same client client = true
same launcher launcher = true
same client launcher = false
same launcher client = false

-- `list(dict.fromkeys(scopes))` keeps the first of each.
abbrev pub from_keys : List Scope → List Scope
from_keys [] = []
from_keys (s ∷ ss) = s ∷ filter (λ r. not (same s r)) (from_keys ss)

abbrev pub has : Scope → List Scope → Bool
has s [] = false
has s (r ∷ rs) = same s r || has s rs

abbrev pub is_allowed : Scope → Bool
is_allowed client = true
is_allowed launcher = true

abbrev pub all_allowed : List Scope → Bool
all_allowed [] = true
all_allowed (s ∷ ss) = is_allowed s && all_allowed ss

abbrev pub is_empty : List Scope → Bool
is_empty [] = true
is_empty (s ∷ ss) = false

abbrev pub new_key : ℕ → ℕ → ℕ → List Scope → Option ℕ → AccessKey
new_key id user_id key_hash scopes expires_at = record {
  id = id;
  user_id = user_id;
  key_hash = key_hash;
  scopes = scopes;
  status = active;
  last_used_at = none;
  expires_at = expires_at;
  revoked_at = none;
}

-- The row's id and the hash of its secret are made outside. `strip` is `str.strip`.
unfoldable pub create_user_access_key :
    (String → String)
    → ℕ
    → ℕ
    → ℕ
    → String
    → List Scope
    → Option ℕ
    → Tables
    → Outcome (AccessKey × Tables)
create_user_access_key strip id key_hash user_id name requested expires_at t = do
  user ← or_raise (find (λ u. u.id == user_id) t.users) "User not found"
  raise_if (not (is_good_user user)) "Access Tokens require an active admin or user account"
  raise_if (is_blank (some (strip name))) "Access Token name is required"
  let scopes = from_keys requested
  raise_if (is_empty scopes) "At least one scope is required"
  raise_if (not (all_allowed scopes)) "Invalid Access Token scope"
  let access_key = new_key id user_id key_hash scopes expires_at
  returned (access_key, record t { access_keys = t.access_keys ++ access_key ∷ [] })
