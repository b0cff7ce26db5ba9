-- ===== src/Auth/Retired.antt =====
-- What rotation and logout do to a refresh token, whatever requests come later.
use ticketing_system.Prelude.{ℕ, ◌≡◌, ◌≢◌, refl, true, List, some, arith, All}
use ticketing_system.Errors.{
  ok, err, unauthorized, or_raise, or_raise_ok, Ensures, Ensures-bind, Ensures_ok, returned,
}
use ticketing_system.Table.{Unique}
use ticketing_system.Schema.{Database, AuthRefreshSession, Role}
use ticketing_system.Auth.{
  Security, Config, Draws, Times, LoginResponse, AuthRequest, get_active_session_by_hash,
  touch_session, revoked, revoke_session, renew, refresh_tokens, logout_with_refresh, run_auth,
}
use ticketing_system.Auth.Revoked.{DrawsOther, IsDead, IsDead-closed, renewed_gone, run_auth-IsDead}

module _ (sec : Security) (cfg : Config) (raw : ℕ) (db : Database) where
  abbrev hash : ℕ
  hash = sec.hash_refresh_token raw

  -- A dead token is refused.
  refused :
      (draws : Draws) (t : Times)
      → IsDead hash db
      → refresh_tokens sec cfg db raw draws t ≡ err (unauthorized "Invalid refresh token")
  unfolding refresh_tokens
  refused draws t dead = rw (IsDead-closed db hash t.queried dead) refl

  rotated :
      (draws : Draws) (t : Times)
      → cfg.refresh_rotate ≡ true
      → Unique (λ s. s.token_hash) db.sessions
      → sec.hash_refresh_token draws.refresh_token ≢ hash
      → Ensures
          (λ (r : LoginResponse × Database). IsDead hash r.1)
          (refresh_tokens sec cfg db raw draws t)
  unfolding refresh_tokens renew touch_session get_active_session_by_hash
  rotated draws t rotate one other =
      let found = get_active_session_by_hash db hash t.queried in
      Ensures-bind (or_raise found (unauthorized "Invalid refresh token")) _ λ s e. returned (
        rw rotate (
          renewed_gone hash t.queried _ (λ r. ground (arith, other)) s db.sessions one
            (or_raise_ok found _ s e)))

  logged_out :
      (now later : ℕ) (s : AuthRefreshSession)
      → Unique (λ s. s.token_hash) db.sessions
      → get_active_session_by_hash db hash now ≡ some s
      → IsDead hash (logout_with_refresh sec cfg db raw now later).1
  unfolding logout_with_refresh revoke_session get_active_session_by_hash
  logged_out now later s one found =
      rw found (renewed_gone hash now (revoked later) (λ r. ground arith) s db.sessions one found)

module _ (sec : Security) (cfg : Config) (roles : List Role) (db : Database) (raw : ℕ)
    (rs : List AuthRequest) (later_draws : Draws) (later : Times) where
  -- With rotation, where no two sessions have one hash, a refresh that returns has used the token up:
  -- after any later requests it is refused, unless one of them or the refresh drew a token with its hash.
  pub refresh_tokens_retires :
      (draws : Draws) (t : Times) (r : LoginResponse × Database)
      → cfg.refresh_rotate ≡ true
      → Unique (λ s. s.token_hash) db.sessions
      → sec.hash_refresh_token draws.refresh_token ≢ sec.hash_refresh_token raw
      → All (DrawsOther sec (sec.hash_refresh_token raw)) rs
      → refresh_tokens sec cfg db raw draws t ≡ ok r
      → refresh_tokens sec cfg (run_auth sec cfg roles r.1 rs) raw later_draws later
        ≡ err (unauthorized "Invalid refresh token")
  refresh_tokens_retires draws t r rotate one other others e =
      let dead = Ensures_ok _ (rotated sec cfg raw db draws t rotate one other) e in
      refused sec cfg raw (run_auth sec cfg roles r.1 rs) later_draws later
        (run_auth-IsDead sec cfg (sec.hash_refresh_token raw) roles r.1 rs others dead)

  -- Where no two sessions have one hash, the logout of a token that opens a session ends it for good:
  -- after any later requests the token is refused, unless one of them drew a token with its hash.
  pub logout_with_refresh_retires :
      (now written : ℕ) (s : AuthRefreshSession)
      → Unique (λ s. s.token_hash) db.sessions
      → All (DrawsOther sec (sec.hash_refresh_token raw)) rs
      → get_active_session_by_hash db (sec.hash_refresh_token raw) now ≡ some s
      → refresh_tokens sec cfg
          (run_auth sec cfg roles (logout_with_refresh sec cfg db raw now written).1 rs)
          raw
          later_draws
          later
        ≡ err (unauthorized "Invalid refresh token")
  logout_with_refresh_retires now written s one others found =
      let db1 = (logout_with_refresh sec cfg db raw now written).1 in
      refused sec cfg raw (run_auth sec cfg roles db1 rs) later_draws later (
        run_auth-IsDead sec cfg (sec.hash_refresh_token raw) roles db1 rs others
          (logged_out sec cfg raw db now written s one found))
