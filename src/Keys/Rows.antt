-- ===== src/Keys/Rows.antt =====
-- app_v1/server/app/db.py: the rows of access keys, and the part of a user's row that they depend on. A hash
-- is an opaque number. The rest of a key's row is for the network policy, the rate limit and the web page.
use gpstation.Prelude.{ℕ, Bool, true, false, Option, List, [], ◌∷◌, ◌||◌}

pub data Scope : Type 0 where
  client launcher : Scope

pub data Status : Type 0 where
  active revoked other_status : Status

pub data Role : Type 0 where
  admin user unauthorized : Role

pub record AccessKey : Type 0 where
  pub id : ℕ
  pub user_id : ℕ
  pub key_hash : ℕ
  pub scopes : List Scope
  pub status : Status
  pub last_used_at : Option ℕ
  pub expires_at : Option ℕ
  pub revoked_at : Option ℕ

pub record User : Type 0 where
  pub id : ℕ
  pub status : Status
  pub role : Role

pub record Tables : Type 0 where
  pub access_keys : List AccessKey
  pub users : List User

abbrev pub is_active : Status → Bool
is_active active = true
is_active revoked = false
is_active other_status = false

abbrev pub may_use : Role → Bool
may_use admin = true
may_use user = true
may_use unauthorized = false

abbrev pub is_launcher : Scope → Bool
is_launcher launcher = true
is_launcher client = false

-- `scopes @> '["launcher"]'`
abbrev pub for_launchers : List Scope → Bool
for_launchers [] = false
for_launchers (s ∷ ss) = is_launcher s || for_launchers ss
