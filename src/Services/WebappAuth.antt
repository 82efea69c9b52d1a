-- ===== src/Services/WebappAuth.antt =====
-- app/services/max_webapp_auth.py: which user a launch of the mini app was signed for.
pub mod Signed
use sieshka.Prelude.{
  ℕ, Bool, true, false, not, ◌||◌, String, Option, none, some, List, [], ◌∷◌, ◌==◌, string_eq,
  if◌then◌else◌,
}
use sieshka.Prelude.Int.{ℤ, ◌-ℤ◌, ltb_ℤ}
use sieshka.Prelude.Table.{select}

-- What the code uses of Python: the pairs of a text, split at "&" and at the first "=", `unquote`,
-- `sorted` by key, the text that is signed ("key=value", joined by line ends), HMAC-SHA256 in hex under
-- the secret key of a token, `int`, and `int(json.loads(user)["id"])`, with ids of users as numbers from 0.
pub record Launch : Type 0 where
  pub pairs : String → List (String × String)
  pub unquote : String → String
  pub sorted : List (String × String) → List (String × String)
  pub launch_params : List (String × String) → String
  pub signature : (token params : String) → String
  pub to_int : String → Option ℤ
  pub user_id : String → Option ℕ

abbrev pub is_hash : String × String → Bool
is_hash (k, v) = k == "hash"

module _ (l : Launch) where
  -- The values of the key "hash".
  abbrev pub hashes : List (String × String) → List (String × String)
  hashes = select is_hash

  abbrev pub unquoted : List (String × String) → List (String × String)
  unquoted [] = []
  unquoted ((k, v) ∷ ps) = (k, l.unquote v) ∷ unquoted ps

  abbrev pub not_hash : String × String → Bool
  not_hash p = not (is_hash p)

  -- `decoded`: everything but the hash, by key.
  unfoldable pub decoded : List (String × String) → List (String × String)
  decoded ps = l.sorted (unquoted (select not_hash ps))

  -- `dict(decoded).get(key)`, where the last one of a key counts.
  unfoldable pub last_of : String → List (String × String) → Option String
  last_of key [] = none
  last_of key ((k, v) ∷ ps) = elim (last_of key ps) [
    | some later ↦ some later
    | none ↦ if k == key then some v else none
  ]

  unfoldable pub is_fresh : ℤ → ℤ → Option String → Bool
  is_fresh now max_age none = false
  is_fresh now max_age (some raw) = elim (l.to_int raw) [
    | none ↦ false
    | some auth_date ↦ not (ltb_ℤ max_age (now -ℤ auth_date))
  ]

  unfoldable pub user_of : Option String → Option ℕ
  user_of none = none
  user_of (some raw) = if raw == "" then none else l.user_id raw

  unfoldable pub signed_user : String → ℤ → ℤ → String → List (String × String) → Option ℕ
  unfolding is_fresh user_of
  signed_user token now max_age hash values =
      if not (l.signature token (l.launch_params values) == hash)
      then none
      else if not (is_fresh now max_age (last_of "auth_date" values))
      then none
      else user_of (last_of "user" values)

  abbrev pub with_hash : List (String × String) → (String → Option ℕ) → Option ℕ
  with_hash ((k, hash) ∷ []) next = next hash
  with_hash _ next = none

  -- `now` is `time.time()`, rounded up to a second.
  unfoldable pub validate_init_data : String → ℤ → ℤ → String → Option ℕ
  unfolding signed_user decoded
  validate_init_data token now max_age web_app_data =
      if token == "" || (web_app_data == "")
      then none
      else with_hash (hashes (l.pairs web_app_data))
          λ hash. signed_user token now max_age hash (decoded (l.pairs web_app_data))
