-- ===== src/Keys/Created.antt =====
-- app_v1/server/app/service/access_key_service.py with auth.py: what a created key is good for.
use gpstation.Prelude.{
  ℕ, String, Bool, true, false, not, Option, none, some, List, [], ◌∷◌, ◌++◌, ◌≡◌, refl, ap, ◌∙◌,
  arith, ◌==◌, ==_refl, filter, find, All,
}
use gpstation.Protocol.{is_blank}
use gpstation.Jobs.Rows.{returned}
use gpstation.Keys.Rows.{Scope, client, launcher, AccessKey, User, Tables}
use gpstation.Keys.Service.{
  is_good_user, has_good_owner, is_unexpired, accepted, authenticate_access_key,
}
use gpstation.Keys.Creating.{same, from_keys, has, all_allowed, new_key, create_user_access_key}

all-allowed : (ss : List Scope) → all_allowed ss ≡ true
all-allowed [] = refl
all-allowed (client ∷ ss) = all-allowed ss
all-allowed (launcher ∷ ss) = all-allowed ss

find-last :
    (p : AccessKey → Bool) (keys : List AccessKey) (k : AccessKey)
    → All (λ x. p x ≡ false) keys
    → p k ≡ true
    → find p (keys ++ k ∷ []) ≡ some k
find-last p [] k a h = ground (arith, h)
find-last p (x ∷ xs) k (a, rest) h = ground (arith, a, find-last p xs k rest h)

kept-has :
    (s r : Scope) (ss : List Scope)
    → same s r ≡ false
    → has r (filter (λ x. not (same s x)) ss) ≡ has r ss
kept-has s r [] e = refl
kept-has client launcher (client ∷ ss) e = kept-has client launcher ss e
kept-has client launcher (launcher ∷ ss) e = refl
kept-has launcher client (launcher ∷ ss) e = kept-has launcher client ss e
kept-has launcher client (client ∷ ss) e = refl
kept-has client client (x ∷ ss) e = cc
kept-has launcher launcher (x ∷ ss) e = cc

-- Taking out repeated scopes loses none and adds none.
from_keys-has : (r : Scope) (ss : List Scope) → has r (from_keys ss) ≡ has r ss
from_keys-has r [] = refl
from_keys-has client (client ∷ ss) = refl
from_keys-has launcher (launcher ∷ ss) = refl
from_keys-has client (launcher ∷ ss) =
    kept-has launcher client (from_keys ss) refl ∙ from_keys-has client ss
from_keys-has launcher (client ∷ ss) =
    kept-has client launcher (from_keys ss) refl ∙ from_keys-has launcher ss

owned :
    (key : AccessKey) (t : Tables) {u : User}
    → find (λ u. u.id == key.user_id) t.users ≡ some u
    → is_good_user u ≡ true
    → has_good_owner key t ≡ true
owned key t found good =
    ap (λ o. elim o as (λ x. Bool) [ none ↦ false | some u ↦ is_good_user u ]) found ∙ good

-- A request by an active user, with a name and a scope, succeeds, and the new key's secret signs its user in,
-- with exactly the scopes asked for, until the key expires. Its hash must be new, and the network policy must permit it.
pub created-accepted :
    (strip : String → String) (permitted : AccessKey → Bool) (id hash user_id now : ℕ)
    (name : String) (r s : Scope) (ss : List Scope) (expires : Option ℕ) (t : Tables) (u : User)
    → find (λ u. u.id == user_id) t.users ≡ some u
    → is_good_user u ≡ true
    → is_blank (some (strip name)) ≡ false
    → All (λ k. (k.key_hash == hash) ≡ false) t.access_keys
    → permitted (new_key id user_id hash (from_keys (s ∷ ss)) expires) ≡ true
    → is_unexpired now expires ≡ true
    → (t' : Tables) × (create_user_access_key strip id hash user_id name (s ∷ ss) expires t
        ≡ returned (new_key id user_id hash (from_keys (s ∷ ss)) expires, t'))
      × ((authenticate_access_key permitted hash now t').0
          ≡ accepted record { access_key_id = id; user_id = user_id; scopes = from_keys (s ∷ ss) })
      × (has r (from_keys (s ∷ ss)) ≡ has r (s ∷ ss))
unfolding create_user_access_key authenticate_access_key
created-accepted strip permitted id hash user_id now name r s ss expires t u found good named new ok
      fresh =
    let key = new_key id user_id hash (from_keys (s ∷ ss)) expires in
    let t' = record t { access_keys = t.access_keys ++ key ∷ [] } in
    (
      t',
      rw found (rw good (rw named (rw (all-allowed (from_keys (s ∷ ss))) refl))),
      rw (find-last (λ k. k.key_hash == hash) t.access_keys key new (==_refl hash))
          (rw fresh (rw (owned key t' found good) (rw ok refl))),
      from_keys-has r (s ∷ ss),
    )
