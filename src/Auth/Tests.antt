-- ===== src/Auth/Tests.antt =====
-- Ann registers, logs in, refreshes and logs out.
use ticketing_system.Prelude.{ℕ, ◌+◌, ◌≡◌, refl, true, List, [], ◌∷◌, none, some, arith}
use ticketing_system.Prelude.Text.{Text, strip, same_text, same_text_refl, is_space, to_lower}
use ticketing_system.Errors.{ok, err, unauthorized}
use ticketing_system.Table.{scalar, exists, update}
use ticketing_system.Schema.{Database, Account, AuthRefreshSession, Role}
use ticketing_system.Auth.{
  Security, config, UserCreate, Draws, Times, LoginResponse, logs_out_all, refreshes, create_user,
  authenticate_user, login_user, refresh_tokens, logout_with_refresh, run_auth, flush_account,
  get_user_by_email, renew, touch_session, create_access_token, expire_at,
  get_active_session_by_hash, AuthRequest,
}
use ticketing_system.Auth.Login.{authenticate_user-create_user, refresh_tokens-login_user}
use ticketing_system.Auth.Retired.{refresh_tokens_retires, logout_with_refresh_retires}
use ticketing_system.Samples.{start}

abbrev tail_of : Text → Text
tail_of [] = []
tail_of (c ∷ s) = s

-- A hash that keeps the text after its salt, and one of tokens that adds one.
abbrev plain : Security
plain = record {
  hash_password = λ salt password. salt ∷ password;
  verify_password = λ password hashed. same_text password (tail_of hashed);
  hash_refresh_token = λ token. token + 1;
}

-- " Ann@x"
abbrev ann : UserCreate
ann = record {
  email = 32 ∷ 65 ∷ 110 ∷ 110 ∷ 64 ∷ 120 ∷ [];
  password = 80 ∷ 119 ∷ 33 ∷ 49 ∷ [];
  first_name = 65 ∷ 110 ∷ 110 ∷ [];
  last_name = 76 ∷ 101 ∷ 101 ∷ [];
  phone_number = none;
  birth_date = none;
}

-- "ann@X"
abbrev other_spelling : Text
other_spelling = 97 ∷ 110 ∷ 110 ∷ 64 ∷ 88 ∷ []

abbrev ann_account : Account
ann_account = record {
  user = record { id = 1; is_active = true; roles = Role.customer ∷ []; organizers = [] };
  email = 97 ∷ 110 ∷ 110 ∷ 64 ∷ 120 ∷ [];
  phone_number = none;
  first_name = ann.first_name;
  last_name = ann.last_name;
  password_hash = 5 ∷ ann.password;
  birth_date = none;
}

abbrev registered : Database
registered = record start {
  accounts = ann_account ∷ [];
  next = record (start.next) { user_id = 2 };
}

abbrev times : ℕ → Times
times n = record { started = n; queried = n; renewed = n; written = n; issued = n }

abbrev draws : ℕ → Draws
draws n = record { refresh_token = n; session_id = n + 100; jti = n + 200 }

abbrev session : ℕ → ℕ → AuthRefreshSession
session token used = record {
  id = 111;
  user_id = 1;
  token_hash = token + 1;
  created_at = 1000;
  last_used_at = some used;
  expires_at = 2592000001000;
  revoked_at = none;
  ip = none;
  user_agent = none;
}

abbrev logged_in : Database
logged_in = record registered { sessions = session 11 1000 ∷ [] }

abbrev answer : ℕ → ℕ → LoginResponse
answer token now = record {
  access_token = record { sub = 1; iat = 0; nbf = 0; exp = 900; jti = token + 200; sid = 111 };
  expires_in = 900;
  refresh_token = token;
  refresh_expires_in = 2592000;
  sid = 111;
}

-- Another request refreshes a token that is not there, then Ann ends all her sessions.
abbrev afterwards : List AuthRequest
afterwards = refreshes 50 (draws 60) (times 3000) ∷ logs_out_all ann_account.user 4000 ∷ []

authenticate_user-create_user_example :
    authenticate_user plain config registered other_spelling ann.password ≡ ok ann_account
unfolding create_user flush_account exists strip same_text to_lower is_space
authenticate_user-create_user_example =
    authenticate_user-create_user plain config (λ salt password. same_text_refl password)
      (Role.customer ∷ []) start ann 5 other_spelling (ann_account, registered) refl refl

refresh_tokens-login_user_example :
    (next : LoginResponse × Database) × (refresh_tokens plain config logged_in 11
        (draws 12)
        (times 2000)
      ≡ ok next)
    × (next.0.sid ≡ 111)
    × (next.0.access_token.sub ≡ 1)
unfolding login_user authenticate_user get_user_by_email scalar exists strip same_text to_lower
    is_space create_access_token expire_at
refresh_tokens-login_user_example =
    refresh_tokens-login_user plain config registered other_spelling ann.password none none
      (draws 11) (draws 12) (times 1000) (times 2000) (answer 11 1000, logged_in) refl (omega arith)
      refl

refresh_tokens_retires_example :
    refresh_tokens plain config
      (run_auth plain config [] (record registered { sessions = session 12 2000 ∷ [] }) afterwards)
      11
      (draws 14)
      (times 5000)
    ≡ err (unauthorized "Invalid refresh token")
unfolding refresh_tokens get_active_session_by_hash scalar exists renew touch_session update
    create_access_token
refresh_tokens_retires_example =
    refresh_tokens_retires plain config [] logged_in 11 afterwards (draws 14) (times 5000)
      (draws 12) (times 2000)
      (
        record (answer 12 2000) { refresh_expires_in = 2591999 },
        record registered { sessions = session 12 2000 ∷ [] },
      )
      refl (refl, tt) (omega arith) (omega arith, (tt, tt)) refl

logout_with_refresh_retires_example :
    refresh_tokens plain config
      (run_auth plain config []
        (logout_with_refresh plain config logged_in 11 2000 2001).1
        afterwards)
      11
      (draws 14)
      (times 5000)
    ≡ err (unauthorized "Invalid refresh token")
unfolding get_active_session_by_hash scalar exists
logout_with_refresh_retires_example =
    logout_with_refresh_retires plain config [] logged_in 11 afterwards (draws 14) (times 5000) 2000
      2001 (session 11 1000) (refl, tt) (omega arith, (tt, tt)) refl
