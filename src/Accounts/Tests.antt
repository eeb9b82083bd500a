-- ===== src/Accounts/Tests.antt =====
-- A user who signs up.
use smart_stock_ai.Prelude.{true, false, some, [], ◌∷◌, ◌≡◌, ◌≤◌, ◌⊎◌, ◌↔◌, refl, ltb}
use smart_stock_ai.Accounts.Permissions.{
  Role, Request, has_permission, read_only, user_role_level, has_permission_lem,
}
use smart_stock_ai.Accounts.Verification.{
  Accounts, Used, at_time, verify_email_token, generate_verification_token,
  verify_email_token-generate_verification_token,
}

abbrev new_user : Accounts
new_user = record {
  users = record { id = 3; email_verified = false } ∷ [];
  tokens = record { token = 8; user = 3; expires_at = 50 } ∷ [];
  now = 100;
}

verify_email_token-generate_verification_token_example :
    Used 9 3
      (ltb 86500 5000)
      (verify_email_token 9 (at_time 5000 (generate_verification_token 9 3 new_user)))
verify_email_token-generate_verification_token_example =
    verify_email_token-generate_verification_token 9 3 new_user 5000 refl refl

abbrev viewer_posts : Request
viewer_posts = record {
  user = some (record { is_authenticated = true; role = some Role.viewer });
  method = "POST";
}

has_permission_lem_example : (has_permission read_only viewer_posts ≡ true) ↔ (
    (2 ≤ user_role_level viewer_posts.user)
    × ((false ≡ false) ⊎ (user_role_level viewer_posts.user ≡ 2)))
has_permission_lem_example = has_permission_lem read_only viewer_posts
