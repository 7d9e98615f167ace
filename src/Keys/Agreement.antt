-- ===== src/Keys/Agreement.antt =====
-- app_v1/server/app/service/access_key_service.py and auth.py: the three places that judge a key agree.

use gpstation.Prelude.{
  ℕ, Bool, true, false, ◌&&◌, ◌||◌, not, Option, none, some, List, [], ◌∷◌, ◌≡◌, inl, inr, refl,
  sym, ap, ◌∙◌, arith, ◌==◌, ==_iff, ==_refl, is_some, map, filter, find, find-In, contains, Memᴰ,
  Bool-cases, if◌then◌else◌,
}
use gpstation.Keys.Rows.{AccessKey, Tables, is_active, for_launchers}
use gpstation.Keys.Service.{
  is_unexpired, has_good_owner, is_in_set, is_the_key, active_launcher_key_ids,
  is_active_launcher_key, Principal, Checked, accepted, refused, check_key, check_found,
  principal_of, authenticate_access_key,
}

found-contains :
    (p q : AccessKey → Bool) (id : ℕ) (is : Bool) (keys : List AccessKey)
    → ((k : AccessKey) → k.id ≡ id → p k ≡ (is && q k))
    → ((k : AccessKey) → (k.id == id) ≡ false → q k ≡ false)
    → contains (map (λ k. k.id) (filter p keys)) id ≡ (is && is_some (find q keys))
found-contains p q id is [] h o = ground arith
found-contains p q id is (k ∷ ks) h o = elim (Bool-cases (k.id == id)) [
  | inl here ↦ ground (arith, found-contains p q id is ks h o, here, h k ((==_iff k.id id).0 here))
  | inr there ↦ ground (arith, found-contains p q id is ks h o, there, o k there)
]

-- Of a key of that id, the two queries ask the same.
same_conditions :
    (now id : ℕ) (ids : List ℕ) (t : Tables) (k : AccessKey)
    → k.id ≡ id
    → is_in_set now ids t k ≡ (contains ids id && is_the_key now id none t k)
same_conditions now id ids t k e =
    ground (arith, ap (contains ids) e, ==_refl id, ap (λ n. n == id) e)

-- The query for a set of keys finds exactly the keys of the set that the query for one key, with no user given,
-- finds.
pub queries-agree :
    (now id : ℕ) (ids : List ℕ) (t : Tables)
    → contains (active_launcher_key_ids now ids t) id
      ≡ (contains ids id && is_active_launcher_key now id none t)
unfolding active_launcher_key_ids is_active_launcher_key
queries-agree now id [] t = refl
queries-agree now id (i ∷ ids) t =
    found-contains (is_in_set now (i ∷ ids) t) (is_the_key now id none t) id (contains (i ∷ ids) id)
      t.access_keys (same_conditions now id (i ∷ ids) t) (λ k e. ground (arith, e))

find-some :
    (q : AccessKey → Bool) (keys : List AccessKey) {k : AccessKey}
    → Memᴰ k keys
    → q k ≡ true
    → is_some (find q keys) ≡ true
find-some q [] m h = elim m [ ]
find-some q (i ∷ is) {k} (Memᴰ.head e) h = ground (arith, ap q e, h)
find-some q (i ∷ is) {k} (Memᴰ.tail m) h = ground (arith, find-some q is m h)

abbrev verdict : Bool → Bool → Bool → Bool → Principal → Checked
verdict void late orphan allowed p =
    if void
    then refused
    else if late
    then refused
    else if orphan
    then refused
    else if allowed
    then accepted p
    else refused

verdict-accepted :
    (void late orphan allowed : Bool) (p q : Principal)
    → verdict void late orphan allowed p ≡ accepted q
    → (void ≡ false) × (late ≡ false) × (orphan ≡ false) × (allowed ≡ true) × (p ≡ q)
verdict-accepted true late orphan allowed p q e = cc
verdict-accepted false true orphan allowed p q e = cc
verdict-accepted false false true allowed p q e = cc
verdict-accepted false false false false p q e = cc
verdict-accepted false false false true p q e = (refl, refl, refl, refl, cc)

check-verdict :
    (permitted : AccessKey → Bool) (now : ℕ) (key : AccessKey) (t : Tables)
    → (check_key permitted now key t).0
      ≡ verdict
          (not (is_active key.status) || is_some key.revoked_at)
          (not (is_unexpired now key.expires_at))
          (not (has_good_owner key t))
          (permitted key)
          (principal_of key)
check-verdict permitted now key t =
    elim (Bool-cases (not (is_active key.status) || is_some key.revoked_at)) [
      | inl a ↦ rw a refl
      | inr a ↦ elim (Bool-cases (is_unexpired now key.expires_at)) [
        | inr b ↦ rw a (rw b refl)
        | inl b ↦ elim (Bool-cases (has_good_owner key t)) [
          | inr c ↦ rw a (rw b (rw c refl))
          | inl c ↦ elim (Bool-cases (permitted key)) [
            | inr d ↦ rw a (rw b (rw c (rw d refl)))
            | inl d ↦ rw a (rw b (rw c (rw d refl)))
          ]
        ]
      ]
    ]

found-active :
    (permitted : AccessKey → Bool) (now : ℕ) (t : Tables) (p : Principal) (o : Option AccessKey)
    → ((k : AccessKey) → o ≡ some k → Memᴰ k t.access_keys)
    → (check_found permitted now o t).0 ≡ accepted p
    → for_launchers p.scopes ≡ true
    → is_active_launcher_key now p.access_key_id (some p.user_id) t ≡ true
unfolding is_active_launcher_key
found-active permitted now t p none m e l = cc
found-active permitted now t p (some key) m e l =
    let (valid, fresh, owned, allowed, same) =
      verdict-accepted (not (is_active key.status) || is_some key.revoked_at)
        (not (is_unexpired now key.expires_at)) (not (has_good_owner key t)) (permitted key)
        (principal_of key) p (sym (check-verdict permitted now key t) ∙ e) in
    rw (sym same) (
      find-some _ t.access_keys (m key refl) (
        ground (
          arith,
          ==_refl key.id,
          ==_refl key.user_id,
          valid,
          fresh,
          owned,
          ap (λ q. for_launchers q.scopes) same,
          l,
        )))

-- A token that is accepted for a key with the launcher's scope belongs to a key that the later checks of the
-- same moment take for active, for that user.
pub accepted-active :
    (permitted : AccessKey → Bool) (token_hash now : ℕ) (t : Tables) (p : Principal)
    → (authenticate_access_key permitted token_hash now t).0 ≡ accepted p
    → for_launchers p.scopes ≡ true
    → is_active_launcher_key now p.access_key_id (some p.user_id) t ≡ true
unfolding authenticate_access_key
accepted-active permitted token_hash now t p e l =
    found-active permitted now t p (find (λ k. k.key_hash == token_hash) t.access_keys)
      (λ k found. (find-In (λ k. k.key_hash == token_hash) t.access_keys found).0) e l
