-- ===== src/Services/WebappAuth/Signed.antt =====
-- Whom the check of a launch lets through.
use sieshka.Prelude.{
  ℕ, ◌≡◌, refl, ap, true, false, ◌||◌, String, Option, none, some, List, [], ◌∷◌, arith, eq_iff,
  ◌==◌, string_eq, Bool-cases, inl, inr,
}
use sieshka.Prelude.Int.{ℤ}
use sieshka.Prelude.Table.{select}
use sieshka.Services.WebappAuth.{
  Launch, hashes, decoded, last_of, is_fresh, user_of, signed_user, with_hash, validate_init_data,
}

-- What stands behind a user id: a token, exactly one hash, which is the signature of everything else
-- under that token, a time among the signed values that is not too long ago, and the id itself, in the user
-- among the signed values.
pub record Signed (l : Launch) (token : String) (now max_age : ℤ) (web_app_data : String) (uid : ℕ)
    : Type 0 where
  pub hash : String
  pub user : String
  pub has_token : (token == "") ≡ false
  pub one_hash : hashes l (l.pairs web_app_data) ≡ ("hash", hash) ∷ []
  pub matches : l.signature token (l.launch_params (decoded l (l.pairs web_app_data))) ≡ hash
  pub fresh :
      is_fresh l now max_age (last_of l "auth_date" (decoded l (l.pairs web_app_data))) ≡ true
  pub user_signed : last_of l "user" (decoded l (l.pairs web_app_data)) ≡ some user
  pub user_is : l.user_id user ≡ some uid

module _ (l : Launch) where
  select_hash :
      (ps : List (String × String)) (k hash : String) → hashes l ps ≡ (k, hash) ∷ [] → k ≡ "hash"
  unfolding select
  select_hash [] k hash h = absurd (ground arith)
  select_hash ((j, v) ∷ ps) k hash h = ground (arith, eq_iff j "hash", select_hash ps k hash)

  user_lem :
      (raw : Option String) (uid : ℕ)
      → user_of l raw ≡ some uid
      → (user : String) × (raw ≡ some user) × (l.user_id user ≡ some uid)
  unfolding user_of
  user_lem none uid h = absurd (ground arith)
  user_lem (some raw) uid h = (raw, refl, ground arith)

  signed_lem :
      (token : String) (now max_age : ℤ) (hash : String) (values : List (String × String)) (uid : ℕ)
      → signed_user l token now max_age hash values ≡ some uid
      → (l.signature token (l.launch_params values) ≡ hash)
        × (is_fresh l now max_age (last_of l "auth_date" values) ≡ true)
        × (user_of l (last_of l "user" values) ≡ some uid)
  unfolding signed_user
  signed_lem token now max_age hash values uid h = (
    ground (arith, eq_iff (l.signature token (l.launch_params values)) hash, h),
    ground (arith, h),
    ground (arith, h),
  )

  one_lem :
      (found : List (String × String)) (next : String → Option ℕ) (uid : ℕ)
      → with_hash l found next ≡ some uid
      → ((k hash : String) → found ≡ (k, hash) ∷ [] → k ≡ "hash")
      → (hash : String) × (found ≡ ("hash", hash) ∷ []) × (next hash ≡ some uid)
  one_lem [] next uid h named = absurd (ground arith)
  one_lem ((k, hash) ∷ []) next uid h named =
      (hash, ap (λ j. (j, hash) ∷ []) (named k hash refl), h)
  one_lem (p ∷ q ∷ ps) next uid h named = absurd (ground arith)

  given :
      (token : String) (now max_age : ℤ) (web_app_data : String) (uid : ℕ)
      → (token == "" || (web_app_data == "")) ≡ false
      → validate_init_data l token now max_age web_app_data ≡ some uid
      → with_hash l
          (hashes l (l.pairs web_app_data))
          (λ hash. signed_user l token now max_age hash (decoded l (l.pairs web_app_data)))
        ≡ some uid
  unfolding validate_init_data
  given token now max_age web_app_data uid there h = ground (arith, there, h)

  with_hash_lem :
      (ps : List (String × String)) (next : String → Option ℕ) (uid : ℕ)
      → with_hash l (hashes l ps) next ≡ some uid
      → (hash : String) × (hashes l ps ≡ ("hash", hash) ∷ []) × (next hash ≡ some uid)
  with_hash_lem ps next uid h = one_lem (hashes l ps) next uid h (select_hash ps)

  -- A user id is returned only for a launch that is signed under the token, with one hash, whose time is within the
  -- limit, and only the id of the user that is signed.
  pub validate_init_data-Signed :
      (token : String) (now max_age : ℤ) (web_app_data : String) (uid : ℕ)
      → validate_init_data l token now max_age web_app_data ≡ some uid
      → Signed l token now max_age web_app_data uid
  unfolding validate_init_data
  validate_init_data-Signed token now max_age web_app_data uid h =
      elim (Bool-cases (token == "" || (web_app_data == ""))) [
        | inl missing ↦ absurd (ground (arith, missing, h))
        | inr there ↦
            let (hash, one, passed) =
              with_hash_lem (l.pairs web_app_data) _ uid
                (given token now max_age web_app_data uid there h) in
            let (matches, fresh, in_user) = signed_lem token now max_age hash _ uid passed in
            let (user, found, is) = user_lem _ uid in_user in
            record {
              hash = hash;
              user = user;
              has_token = ground (arith, there);
              one_hash = one;
              matches = matches;
              fresh = fresh;
              user_signed = found;
              user_is = is;
            }
      ]
