-- ===== src/Auth/Login.antt =====
-- Registration and login: who is let in.
use ticketing_system.Prelude.{
  ℕ, ◌≡◌, ◌<◌, ◌==◌, Option, String, refl, Bool, true, false, not, List, [], ◌∷◌, ◌++◌, some, arith,
  sym,
}
use ticketing_system.Prelude.Text.{Text, same_text, same_text_refl}
use ticketing_system.Errors.{
  ok, on_integrity_error, Ensures, Ensures-bind, Ensures-raise_if, Ensures_ok,
  Ensures-on_integrity_error, returned,
}
use ticketing_system.Table.{scalar, exists}
use ticketing_system.Table.Laws.{exists_less}
use ticketing_system.Schema.{Database, Account, AuthRefreshSession, Role, is_role}
use ticketing_system.Auth.{
  Draws, Times, LoginResponse, login_user, refresh_tokens, create_access_token, expire_at,
  new_session, opens, get_active_session_by_hash, Security, Config, UserCreate, normal_email,
  get_user_by_email, flush_account, same_phone, new_account, create_user, authenticate_user,
}

scalar-new {ℓ} :
    {A : Type ℓ} (p : A → Bool) (rs : List A) (r : A)
    → exists p rs ≡ false
    → p r ≡ true
    → scalar p (rs ++ r ∷ []) ≡ some r
unfolding scalar exists
scalar-new p [] r new fits = rw fits refl
scalar-new p (x ∷ rs) r new fits = ground (arith, new, fits, scalar-new p rs r)

flush_account-found :
    (db : Database) (a : Account)
    → Ensures (λ (db' : Database). get_user_by_email db' a.email ≡ some a) (flush_account db a)
unfolding flush_account get_user_by_email
flush_account-found db a =
    Ensures-raise_if (exists (λ b. same_text b.email a.email) db.accounts) _ _ λ new.
      Ensures-raise_if (exists (λ b. same_phone b.phone_number a.phone_number) db.accounts) _ _ λ _.
        returned
          (scalar-new (λ b. same_text b.email a.email) db.accounts a new (same_text_refl a.email))

module _ (sec : Security) (cfg : Config) where
  create_user-found :
      (roles : List Role) (db : Database) (schema : UserCreate) (salt : ℕ)
      → Ensures
          (λ (r : Account × Database).
            (r.0 ≡ new_account sec cfg db schema salt)
            × (get_user_by_email r.1 (normal_email schema.email) ≡ some r.0))
          (create_user sec cfg roles db schema salt)
  unfolding create_user
  create_user-found roles db schema salt =
      let a = new_account sec cfg db schema salt in
      Ensures-raise_if (not (exists (is_role Role.customer) roles)) _ _ λ _.
        Ensures-bind (on_integrity_error (flush_account db a) _) _ λ db1 flushed. returned (
          refl,
          Ensures_ok _
              (Ensures-on_integrity_error (flush_account db a) _ (flush_account-found db a))
              flushed,
        )

  -- Who has registered logs in with the password and the email in any case and with any white space
  -- around it, if a password verifies against its own hash.
  pub authenticate_user-create_user :
      ((salt : ℕ) (password : Text)
        → sec.verify_password password (sec.hash_password salt password) ≡ true)
      → (roles : List Role) (db : Database) (schema : UserCreate) (salt : ℕ) (email : Text)
        (r : Account × Database)
      → normal_email email ≡ normal_email schema.email
      → create_user sec cfg roles db schema salt ≡ ok r
      → authenticate_user sec cfg r.1 email schema.password ≡ ok r.0
  unfolding authenticate_user
  authenticate_user-create_user verifies roles db schema salt email r same e =
      let (made, found) = Ensures_ok _ (create_user-found roles db schema salt) e in
      rw (same, found, made, verifies salt schema.password) refl

  login_user-opens :
      (db : Database) (email password : Text) (ip user_agent : Option String) (draws : Draws)
      (t : Times) (now : ℕ)
      → exists (λ s. s.token_hash == sec.hash_refresh_token draws.refresh_token) db.sessions ≡ false
      → now < expire_at cfg.refresh_token_ttl_days t.renewed
      → Ensures
          (λ (r : LoginResponse × Database).
            (s : AuthRefreshSession) × (get_active_session_by_hash r.1
                (sec.hash_refresh_token draws.refresh_token)
                now
              ≡ some s)
            × (r.0.sid ≡ s.id)
            × (r.0.access_token.sub ≡ s.user_id))
          (login_user sec cfg db email password ip user_agent draws t)
  unfolding login_user get_active_session_by_hash create_access_token
  login_user-opens db email password ip user_agent draws t now new in_time =
      let h = sec.hash_refresh_token draws.refresh_token in
      Ensures-bind (authenticate_user sec cfg db email password) _ λ account _.
        let s =
          new_session sec cfg account.user.id draws (expire_at cfg.refresh_token_ttl_days t.renewed)
            t.written ip user_agent in
        returned (
          s,
          scalar-new (opens h now) db.sessions s
              (exists_less (opens h now) (λ s. s.token_hash == h) db.sessions
                (λ r e. ground (arith, e)) new)
              (ground (arith, in_time)),
          refl,
          refl,
        )

  -- The token that a login answers opens the session until it expires: a refresh in time returns, for
  -- the same user and session, if the hash of the token was not in use.
  pub refresh_tokens-login_user :
      (db : Database) (email password : Text) (ip user_agent : Option String) (draws draws' : Draws)
      (t t' : Times) (r : LoginResponse × Database)
      → exists (λ s. s.token_hash == sec.hash_refresh_token draws.refresh_token) db.sessions ≡ false
      → t'.queried < expire_at cfg.refresh_token_ttl_days t.renewed
      → login_user sec cfg db email password ip user_agent draws t ≡ ok r
      → (answer : LoginResponse × Database) × (refresh_tokens sec cfg r.1 draws.refresh_token draws'
            t'
          ≡ ok answer)
        × (answer.0.sid ≡ r.0.sid)
        × (answer.0.access_token.sub ≡ r.0.access_token.sub)
  unfolding refresh_tokens create_access_token
  refresh_tokens-login_user db email password ip user_agent draws draws' t t' r new in_time e =
      let (s, found, same_sid, same_user) =
        Ensures_ok _
          (login_user-opens db email password ip user_agent draws t t'.queried new in_time) e in
      rw found ((_, refl, sym same_sid, sym same_user))
