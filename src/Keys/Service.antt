-- ===== src/Keys/Service.antt =====
-- app_v1/server/app/service/access_key_service.py, auth.py and routers/web/crud_access_keys.py: which keys are
-- active, how a token is checked, and how keys are revoked.
use gpstation.Prelude.{
  ℕ, ◌+◌, Bool, true, false, ◌&&◌, ◌||◌, not, Option, none, some, List, [], ◌∷◌, ltb, leb, ◌==◌,
  if◌then◌else◌, is_none, is_some, or_default, map, filter, find, update_where, contains, length,
}
use gpstation.Jobs.Ending.{if_given}
use gpstation.Registry.Launchers.{Launchers, close_launchers_for_access_key}
use gpstation.Keys.Rows.{Scope, AccessKey, User, Tables, revoked, is_active, may_use, for_launchers}

-- `expires_at IS NULL OR expires_at > now`
abbrev pub is_unexpired : ℕ → Option ℕ → Bool
is_unexpired now none = true
is_unexpired now (some at) = ltb now at

abbrev pub is_good_user : User → Bool
is_good_user u = is_active u.status && may_use u.role

-- The row that the key's row is joined with.
abbrev pub owner : AccessKey → Tables → Option User
owner key t = find (λ u. u.id == key.user_id) t.users

abbrev pub has_good_owner : AccessKey → Tables → Bool
has_good_owner key t = elim (owner key t) [ none ↦ false | some u ↦ is_good_user u ]

-- The conditions on a row of the query for a set of keys.
abbrev pub is_in_set : ℕ → List ℕ → Tables → AccessKey → Bool
is_in_set now ids t key =
    contains ids key.id
    && is_active key.status
    && is_none key.revoked_at
    && is_unexpired now key.expires_at
    && for_launchers key.scopes
    && elim (owner key t) [ none ↦ false | some u ↦ is_active u.status && may_use u.role ]

unfoldable pub active_launcher_key_ids : ℕ → List ℕ → Tables → List ℕ
active_launcher_key_ids now [] t = []
active_launcher_key_ids now (id ∷ ids) t =
    map (λ k. k.id) (filter (is_in_set now (id ∷ ids) t) t.access_keys)

-- The conditions on a row of the query for one key.
abbrev pub is_the_key : ℕ → ℕ → Option ℕ → Tables → AccessKey → Bool
is_the_key now id user_id t key =
    (key.id == id)
    && is_active key.status
    && is_none key.revoked_at
    && is_unexpired now key.expires_at
    && for_launchers key.scopes
    && elim (owner key t) [ none ↦ false | some u ↦ is_active u.status && may_use u.role ]
    && if_given user_id (λ u. key.user_id == u)

unfoldable pub is_active_launcher_key : ℕ → ℕ → Option ℕ → Tables → Bool
is_active_launcher_key now id user_id t = is_some (find (is_the_key now id user_id t) t.access_keys)

pub record Principal : Type 0 where
  pub access_key_id : ℕ
  pub user_id : ℕ
  pub scopes : List Scope

-- What a token comes to: unknown, refused, or accepted.
pub data Checked : Type 0 where
  unknown_key refused : Checked
  accepted : Principal → Checked

abbrev pub is_due : ℕ → Option ℕ → Bool
is_due now none = true
is_due now (some at) = leb (at + 60_000_000) now

-- UPDATE access_keys SET last_used_at, at most once a minute.
abbrev pub touch : ℕ → AccessKey → Tables → Tables
touch now key t = record t {
  access_keys =
      update_where (λ k. (k.id == key.id) && is_due now k.last_used_at)
        (λ k. record k { last_used_at = some now }) t.access_keys;
}

abbrev pub principal_of : AccessKey → Principal
principal_of key = record { access_key_id = key.id; user_id = key.user_id; scopes = key.scopes }

abbrev pub check_key : (AccessKey → Bool) → ℕ → AccessKey → Tables → Checked × Tables
check_key permitted now key t =
    if not (is_active key.status) || is_some key.revoked_at
    then (refused, t)
    else if not (is_unexpired now key.expires_at)
    then (refused, t)
    else if not (has_good_owner key t)
    then (refused, t)
    else if permitted key
    then (accepted (principal_of key), if is_due now key.last_used_at then touch now key t else t)
    else (refused, t)

abbrev pub check_found : (AccessKey → Bool) → ℕ → Option AccessKey → Tables → Checked × Tables
check_found permitted now none t = (unknown_key, t)
check_found permitted now (some key) t = check_key permitted now key t

-- `permitted` are the network policy and the rate limit of the key. The hash of the token is an argument.
unfoldable pub authenticate_access_key : (AccessKey → Bool) → ℕ → ℕ → Tables → Checked × Tables
authenticate_access_key permitted token_hash now t =
    check_found permitted now (find (λ k. k.key_hash == token_hash) t.access_keys) t

-- The rows to revoke, without the audit records: those of the request that the user may touch.
abbrev pub is_target : List ℕ → (AccessKey → Bool) → AccessKey → Bool
is_target ids owned key = contains ids key.id && owned key

abbrev pub revoke_row : ℕ → AccessKey → AccessKey
revoke_row now key = record key {
  status = revoked;
  revoked_at = some (or_default key.revoked_at now);
}

abbrev pub close_all : List AccessKey → Launchers → Launchers
close_all [] launchers = launchers
close_all (key ∷ keys) launchers =
    close_all keys (close_launchers_for_access_key key.id launchers).1

unfoldable pub revoke_access_keys :
    List ℕ → (AccessKey → Bool) → ℕ → Tables → Launchers → ℕ × Tables × Launchers
revoke_access_keys ids owned now t launchers =
    let rows = filter (is_target ids owned) t.access_keys in
    (
      length rows,
      record t { access_keys = update_where (is_target ids owned) (revoke_row now) t.access_keys },
      close_all rows launchers,
    )
