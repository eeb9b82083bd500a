-- ===== src/Accounts/Verification.antt =====
-- Tokens that verify an e-mail address: `generate_verification_token` and `verify_email_token`
-- (apps/authentication/services.py). A token is known by its UUID, and times are seconds.
use smart_stock_ai.Prelude.{
  ℕ, ◌+◌, ◌*◌, Bool, true, false, Option, none, some, List, [], ◌∷◌, ◌++◌, ◌≡◌, refl, arith, ltb,
  ◌==◌, if◌then◌else◌, inl, inr, ◌⊎◌,
}
use smart_stock_ai.Prelude.Table.{find, update}

pub record Account : Type 0 where
  pub id : ℕ
  pub email_verified : Bool

pub record EmailVerificationToken : Type 0 where
  pub token : ℕ
  pub user : ℕ
  pub expires_at : ℕ

pub record Accounts : Type 0 where
  pub users : List Account
  pub tokens : List EmailVerificationToken
  pub now : ℕ

abbrev pub token_key : EmailVerificationToken → ℕ
token_key v = v.token

abbrev pub account_key : Account → ℕ
account_key u = u.id

abbrev pub verification_token_ttl_hours : ℕ
verification_token_ttl_hours = 24

-- `filter(user=user).delete()`
abbrev pub delete_tokens_of : ℕ → List EmailVerificationToken → List EmailVerificationToken
delete_tokens_of user [] = []
delete_tokens_of user (v ∷ vs) =
    let rest = delete_tokens_of user vs in if v.user == user then rest else v ∷ rest

-- With the UUID that the new token gets.
unfoldable pub generate_verification_token : ℕ → ℕ → Accounts → Accounts
generate_verification_token uuid user a =
    let v : EmailVerificationToken = record {
      token = uuid;
      user = user;
      expires_at = a.now + verification_token_ttl_hours * 3600;
    } in
    record a { tokens = delete_tokens_of user a.tokens ++ v ∷ [] }

abbrev pub is_expired : EmailVerificationToken → ℕ → Bool
is_expired v now = ltb v.expires_at now

-- `verification.delete()`
abbrev pub delete_token : ℕ → List EmailVerificationToken → List EmailVerificationToken
delete_token token [] = []
delete_token token (v ∷ vs) =
    let rest = delete_token token vs in if v.token == token then rest else v ∷ rest

abbrev pub is_verified : Option Account → Bool
is_verified none = false
is_verified (some u) = u.email_verified

-- Whether it succeeds, and the status of the answer.
pub record Reply : Type 0 where
  pub success : Bool
  pub http_status : ℕ

abbrev pub granted : Reply
granted = record { success = true; http_status = 200 }

abbrev pub refused : Reply
refused = record { success = false; http_status = 400 }

abbrev pub without_token : ℕ → Accounts → Accounts
without_token token a = record a { tokens = delete_token token a.tokens }

abbrev pub verified_user : ℕ → Accounts → Accounts
verified_user user a = record a {
  users = update account_key user (λ u. record u { email_verified = true }) a.users;
}

abbrev pub verify_found : Option EmailVerificationToken → Accounts → Reply × Accounts
verify_found none a = (refused, a)
verify_found (some v) a =
    if is_expired v a.now
    then (refused, without_token v.token a)
    else (if is_verified (find account_key v.user a.users)
        then (granted, without_token v.token a)
        else (granted, without_token v.token (verified_user v.user a)))

unfoldable pub verify_email_token : ℕ → Accounts → Reply × Accounts
verify_email_token token a = verify_found (find token_key token a.tokens) a

find-append_fresh :
    (v : EmailVerificationToken) (user : ℕ) (vs : List EmailVerificationToken)
    → find token_key v.token vs ≡ none
    → find token_key v.token (delete_tokens_of user vs ++ v ∷ []) ≡ some v
find-append_fresh v user [] e = ground arith
find-append_fresh v user (x ∷ xs) e = ground (arith, find-append_fresh v user xs)

find-delete_token :
    (token : ℕ) (vs : List EmailVerificationToken)
    → find token_key token (delete_token token vs) ≡ none
find-delete_token token [] = refl
find-delete_token token (v ∷ vs) = ground (arith, find-delete_token token vs)

find-update_verified :
    (user : ℕ) (us : List Account) {u : Account}
    → find account_key user us ≡ some u
    → is_verified (
        find account_key user
          (update account_key user (λ x. record x { email_verified = true }) us))
      ≡ true
find-update_verified user [] e = cc e
find-update_verified user (x ∷ xs) {u} e = ground (arith, find-update_verified user xs {u = u})

abbrev pub at_time : ℕ → Accounts → Accounts
at_time now a = record a { now = now }

-- The token was used: the user is verified, or the token has expired; it does not work again.
abbrev pub Used : ℕ → ℕ → Bool → Reply × Accounts → Type 0
Used token user expired (r, a) =
    (r ≡ (if expired then refused else granted))
    × ((expired ≡ true) ⊎ (is_verified (find account_key user a.users) ≡ true))
    × (verify_email_token token a ≡ (refused, a))

used_up :
    (token : ℕ) (a : Accounts)
    → verify_email_token token (without_token token a) ≡ (refused, without_token token a)
unfolding verify_email_token
used_up token a = rw (find-delete_token token a.tokens) refl

module _ (uuid user : ℕ) (a : Accounts) (now : ℕ) where
  -- The token, and the accounts at the time of its use.
  abbrev made : EmailVerificationToken
  made = record { token = uuid; user = user; expires_at = a.now + 86400 }

  abbrev later_on : Accounts
  later_on = record a { tokens = delete_tokens_of user a.tokens ++ made ∷ []; now = now }

  by_case :
      (expired already : Bool)
      → is_verified (find account_key user a.users) ≡ already
      → {u : Account} → find account_key user a.users ≡ some u
      → Used uuid user expired (
          if◌then◌else◌ {A = Reply × Accounts} expired
            (refused, without_token uuid later_on)
            (if◌then◌else◌ {A = Reply × Accounts} already
              (granted, without_token uuid later_on)
              (granted, without_token uuid (verified_user user later_on))))
  by_case true already e k = (refl, inl refl, used_up uuid later_on)
  by_case false true e k = (refl, inr e, used_up uuid later_on)
  by_case false false e k =
      (refl, inr (find-update_verified user a.users k), used_up uuid (verified_user user later_on))

  -- A token with a new UUID that was made for a known user is accepted for 24 hours and refused from
  -- then on. If it is accepted the user is verified afterwards. It never works a second time.
  pub verify_email_token-generate_verification_token :
      find token_key uuid a.tokens ≡ none
      → {u : Account} → find account_key user a.users ≡ some u
      → Used uuid user
          (ltb (a.now + 86400) now)
          (verify_email_token uuid (at_time now (generate_verification_token uuid user a)))
  unfolding verify_email_token generate_verification_token
  verify_email_token-generate_verification_token fresh known =
      rw (find-append_fresh made user a.tokens fresh)
        (by_case (ltb (a.now + 86400) now) (is_verified (find account_key user a.users)) refl known)
