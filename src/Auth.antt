-- ===== src/Auth.antt =====
-- app/services/auth_service.py, app/core/security.py and app/domain/auth/crud.py: registration, login
-- and the sessions behind refresh tokens.
pub mod Login
pub mod Retired
pub mod Revoked
mod Tests
use ticketing_system.Prelude.{
  ℕ, suc, ◌+◌, ◌-◌, ◌*◌, ◌/◌, Bool, true, false, not, ◌&&◌, ◌||◌, List, [], ◌∷◌, ◌++◌, Option, none,
  some, String, ltb, ◌==◌, is_some, if◌then◌else◌,
}
use ticketing_system.Prelude.Text.{Text, strip, lower, same_text}
use ticketing_system.Errors.{
  Result, ok, ◌>>=◌, ◌>>◌, raise_if, or_raise, on_integrity_error, unauthorized, forbidden,
  conflict, internal, integrity_error, get_db,
}
use ticketing_system.Table.{scalar, exists, update}
use ticketing_system.Schema.{Database, Account, AuthRefreshSession, User, Role, is_role}

-- What the libraries argon2 and hmac compute. The number is the salt that is drawn.
pub record Security : Type 0 where
  pub hash_password : ℕ → Text → Text
  pub verify_password : Text → Text → Bool
  pub hash_refresh_token : ℕ → ℕ

-- The constants of app/core/config.py.
pub record Config : Type 0 where
  pub refresh_rotate : Bool
  pub refresh_sliding : Bool
  pub refresh_token_ttl_days : ℕ
  pub access_token_expire_minutes : ℕ

abbrev pub config : Config
config = record {
  refresh_rotate = true;
  refresh_sliding = false;
  refresh_token_ttl_days = 30;
  access_token_expire_minutes = 15;
}

-- The random values of a request: the refresh token, the keys of the session and the access token.
pub record Draws : Type 0 where
  pub refresh_token : ℕ
  pub session_id : ℕ
  pub jti : ℕ

-- The times that a request reads, in order.
pub record Times : Type 0 where
  pub started : ℕ
  pub queried : ℕ
  pub renewed : ℕ
  pub written : ℕ
  pub issued : ℕ

abbrev second : ℕ
second = 1000000

-- The claims that jwt.encode signs; type, issuer and audience are constants.
pub record AccessToken : Type 0 where
  pub sub : ℕ
  pub iat : ℕ
  pub nbf : ℕ
  pub exp : ℕ
  pub jti : ℕ
  pub sid : ℕ

pub record LoginResponse : Type 0 where
  pub access_token : AccessToken
  pub expires_in : ℕ
  pub refresh_token : ℕ
  pub refresh_expires_in : ℕ
  pub sid : ℕ

-- UserCreateDTO, after validation.
pub record UserCreate : Type 0 where
  pub email : Text
  pub password : Text
  pub first_name : Text
  pub last_name : Text
  pub phone_number : Option Text
  pub birth_date : Option ℕ

-- email.strip().lower()
abbrev pub normal_email : Text → Text
normal_email email = lower (strip email)

pub get_user_by_email : Database → Text → Option Account
get_user_by_email db email = scalar (λ a. same_text a.email email) db.accounts

-- NULL is no duplicate.
abbrev pub same_phone : Option Text → Option Text → Bool
same_phone (some p) (some q) = same_text p q
same_phone _ _ = false

-- A flush of a new user, under the unique columns email and phone_number.
pub flush_account : Database → Account → Result Database
flush_account db a = do
  raise_if (exists (λ b. same_text b.email a.email) db.accounts) integrity_error
  raise_if (exists (λ b. same_phone b.phone_number a.phone_number) db.accounts) integrity_error
  ok (record db {
    accounts = db.accounts ++ a ∷ [];
    next = record (db.next) { user_id = suc db.next.user_id };
  })

pub expire_at : ℕ → ℕ → ℕ
expire_at days now = now + days * (24 * 3600 * second)

-- A session that its token opens at the time.
abbrev pub opens : ℕ → ℕ → AuthRefreshSession → Bool
opens token_hash now s =
    s.token_hash == token_hash && (ltb now s.expires_at && not (is_some s.revoked_at))

pub get_active_session_by_hash : Database → ℕ → ℕ → Option AuthRefreshSession
get_active_session_by_hash db token_hash now = scalar (opens token_hash now) db.sessions

abbrev pub or_kept : Option ℕ → ℕ → ℕ
or_kept none old = old
or_kept (some new) old = new

abbrev pub touched : Option ℕ → Option ℕ → ℕ → AuthRefreshSession → AuthRefreshSession
touched new_hash new_expires now s = record s {
  last_used_at = some now;
  token_hash = or_kept new_hash s.token_hash;
  expires_at = or_kept new_expires s.expires_at;
}

pub touch_session : Database → AuthRefreshSession → Option ℕ → Option ℕ → ℕ → Database
touch_session db session new_hash new_expires now = record db {
  sessions = update (λ s. s.id == session.id) (touched new_hash new_expires now) db.sessions;
}

abbrev pub revoked : ℕ → AuthRefreshSession → AuthRefreshSession
revoked now s = record s { revoked_at = some now }

pub revoke_session : Database → AuthRefreshSession → ℕ → Database
revoke_session db session now = record db {
  sessions = update (λ s. s.id == session.id) (revoked now) db.sessions;
}

pub revoke_all_for_user : Database → ℕ → ℕ → Database
revoke_all_for_user db user_id now = record db {
  sessions =
      update (λ s. s.user_id == user_id && not (is_some s.revoked_at)) (revoked now) db.sessions;
}

-- if not session: return
abbrev pub revoke_found : Database → Option AuthRefreshSession → ℕ → Database
revoke_found db none now = db
revoke_found db (some session) now = revoke_session db session now

-- The requests of app/api/v1/routes/auth.py, with what they draw and the times that they read.
pub data AuthRequest : Type 0 where
  registers : UserCreate → ℕ → AuthRequest
  logs_in : Text → Text → Option String → Option String → Draws → Times → AuthRequest
  refreshes : ℕ → Draws → Times → AuthRequest
  logs_out : ℕ → ℕ → ℕ → AuthRequest
  logs_out_all : User → ℕ → AuthRequest

module _ (sec : Security) (cfg : Config) where
  abbrev pub new_account : Database → UserCreate → ℕ → Account
  new_account db schema salt = record {
    user = record {
      id = db.next.user_id;
      is_active = true;
      roles = Role.customer ∷ [];
      organizers = [];
    };
    email = normal_email schema.email;
    phone_number = schema.phone_number;
    first_name = schema.first_name;
    last_name = schema.last_name;
    password_hash = sec.hash_password salt schema.password;
    birth_date = schema.birth_date;
  }

  -- `roles` are the names in the table of roles.
  pub create_user : List Role → Database → UserCreate → ℕ → Result (Account × Database)
  create_user roles db schema salt = do
    raise_if (not (exists (is_role Role.customer) roles)) (internal "Role CUSTOMER not found")
    let account = new_account db schema salt
    db1 ← on_integrity_error (flush_account db account) (conflict "User already exists")
    ok (account, db1)

  pub authenticate_user : Database → Text → Text → Result Account
  authenticate_user db email password = do
    account ←
        or_raise (get_user_by_email db (normal_email email))
          (unauthorized "Incorrect email or password")
    raise_if (not (sec.verify_password password account.password_hash))
        (unauthorized "Incorrect email or password")
    raise_if (not account.user.is_active) (forbidden "Account is inactive")
    ok account

  pub create_access_token : ℕ → ℕ → ℕ → ℕ → AccessToken
  create_access_token subject sid jti now = record {
    sub = subject;
    iat = now / second;
    nbf = now / second;
    exp = (now + cfg.access_token_expire_minutes * (60 * second)) / second;
    jti = jti;
    sid = sid;
  }

  abbrev pub new_session : ℕ → Draws → ℕ → ℕ → Option String → Option String → AuthRefreshSession
  new_session user_id draws expires_at now ip user_agent = record {
    id = draws.session_id;
    user_id = user_id;
    token_hash = sec.hash_refresh_token draws.refresh_token;
    created_at = now;
    last_used_at = some now;
    expires_at = expires_at;
    revoked_at = none;
    ip = ip;
    user_agent = user_agent;
  }

  pub login_user :
      Database
      → Text
      → Text
      → Option String
      → Option String
      → Draws
      → Times
      → Result (LoginResponse × Database)
  login_user db email password ip user_agent draws t = do
    account ← authenticate_user db email password
    let expires_at = expire_at cfg.refresh_token_ttl_days t.renewed
    let session = new_session account.user.id draws expires_at t.written ip user_agent
    ok (
      record {
        access_token = create_access_token account.user.id session.id draws.jti t.issued;
        expires_in = cfg.access_token_expire_minutes * 60;
        refresh_token = draws.refresh_token;
        refresh_expires_in = (expires_at - t.issued) / second;
        sid = session.id;
      },
      record db { sessions = db.sessions ++ session ∷ [] },
    )

  -- The token, its expiry and the touched session, by the two switches.
  pub renew : Database → AuthRefreshSession → ℕ → Draws → Times → (ℕ × ℕ) × Database
  renew db session raw draws t =
      let slid = expire_at cfg.refresh_token_ttl_days t.renewed in
      if cfg.refresh_rotate
      then (let expires = if cfg.refresh_sliding then slid else session.expires_at in
          (
            (draws.refresh_token, expires),
            touch_session db session (some (sec.hash_refresh_token draws.refresh_token))
                (some expires) t.written,
          ))
      else if cfg.refresh_sliding
      then ((raw, slid), touch_session db session none (some slid) t.written)
      else ((raw, session.expires_at), touch_session db session none none t.written)

  pub refresh_tokens : Database → ℕ → Draws → Times → Result (LoginResponse × Database)
  refresh_tokens db raw draws t = do
    session ←
        or_raise (get_active_session_by_hash db (sec.hash_refresh_token raw) t.queried)
          (unauthorized "Invalid refresh token")
    let renewed = renew db session raw draws t
    ok (
      record {
        access_token = create_access_token session.user_id session.id draws.jti t.issued;
        expires_in = cfg.access_token_expire_minutes * 60;
        refresh_token = renewed.0.0;
        refresh_expires_in = (renewed.0.1 - t.started) / second;
        sid = session.id;
      },
      renewed.1,
    )

  pub logout_with_refresh : Database → ℕ → ℕ → ℕ → Unit {0} × Database
  logout_with_refresh db raw now later =
      (tt, revoke_found db (get_active_session_by_hash db (sec.hash_refresh_token raw) now) later)

  pub logout_all : Database → User → ℕ → Unit {0} × Database
  logout_all db user now = (tt, revoke_all_for_user db user.id now)

  pub auth_step : List Role → Database → AuthRequest → Database
  auth_step roles db (registers schema salt) = (get_db db (create_user roles db schema salt)).1
  auth_step roles db (logs_in email password ip user_agent draws t) =
      (get_db db (login_user db email password ip user_agent draws t)).1
  auth_step roles db (refreshes raw draws t) = (get_db db (refresh_tokens db raw draws t)).1
  auth_step roles db (logs_out raw now later) = (logout_with_refresh db raw now later).1
  auth_step roles db (logs_out_all user now) = (logout_all db user now).1

  pub run_auth : List Role → Database → List AuthRequest → Database
  run_auth roles db [] = db
  run_auth roles db (r ∷ rs) = run_auth roles (auth_step roles db r) rs
