-- ===== src/Auth/Revoked.antt =====
-- Tokens that open no session any more.
use ticketing_system.Prelude.{
  String, ℕ, ◌≡◌, ◌≢◌, refl, Bool, true, false, not, ◌&&◌, List, [], ◌∷◌, Option, none, some, arith,
  ◌==◌, is_some, All, Bool-cases, inl, inr, ==_iff, ==_refl, subst, sym, ◌∙◌,
}
use ticketing_system.Errors.{
  or_raise, unauthorized, get_db-Keeps, Ensures, Ensures-bind, Ensures_ok,
  Ensures-on_integrity_error, on_integrity_error, returned, Ensures-raise_if,
}
use ticketing_system.Table.{scalar, exists, update, Unique}
use ticketing_system.Table.Laws.{
  exists_less, exists-update_less, scalar-none, exists-append, scalar_holds,
}
use ticketing_system.Table.Keys.{exists_found}
use ticketing_system.Schema.{Database, Account, AuthRefreshSession, Role, User, is_role}
use ticketing_system.Prelude.Text.{Text, same_text}
use ticketing_system.Auth.{
  LoginResponse, UserCreate, Security, Config, Draws, Times, AuthRequest, registers, logs_in,
  refreshes, logs_out, logs_out_all, opens, get_active_session_by_hash, touch_session, revoked,
  revoke_session, revoke_all_for_user, renew, refresh_tokens, logout_with_refresh, logout_all,
  login_user, create_user, authenticate_user, auth_step, run_auth, revoke_found, flush_account,
  same_phone, new_account,
}

-- The session of the hash is not revoked.
abbrev pub is_live : ℕ → AuthRefreshSession → Bool
is_live token_hash s = s.token_hash == token_hash && not (is_some s.revoked_at)

-- No session that is not revoked has the hash.
abbrev pub IsDead : ℕ → Database → Type 0
IsDead token_hash db = exists (is_live token_hash) db.sessions ≡ false

-- The token that a request draws, if it draws one.
abbrev pub DrawsOther : Security → ℕ → AuthRequest → Type 0
DrawsOther sec token_hash (logs_in _ _ _ _ draws _) =
    sec.hash_refresh_token draws.refresh_token ≢ token_hash
DrawsOther sec token_hash (refreshes _ draws _) =
    sec.hash_refresh_token draws.refresh_token ≢ token_hash
DrawsOther sec token_hash _ = Unit {0}

-- A dead hash opens nothing.
pub IsDead-closed :
    (db : Database) (h now : ℕ) → IsDead h db → get_active_session_by_hash db h now ≡ none
unfolding get_active_session_by_hash
IsDead-closed db h now dead =
    scalar-none (opens h now) db.sessions
      (exists_less (opens h now) (is_live h) db.sessions (λ r e. ground (arith, e)) dead)

IsDead-update :
    (q : AuthRefreshSession → Bool) (f : AuthRefreshSession → AuthRefreshSession) (h : ℕ)
    (rs : List AuthRefreshSession)
    → ((r : AuthRefreshSession) → is_live h (f r) ≡ true → is_live h r ≡ true)
    → exists (is_live h) rs ≡ false
    → exists (is_live h) (update q f rs) ≡ false
IsDead-update q f h rs keeps =
    exists-update_less (is_live h) q f rs λ r e. elim (Bool-cases (q r)) [
      | inl hit ↦ keeps r (rw (hit) at e)
      | inr miss ↦ rw (miss) at e
    ]

module _ (sec : Security) (cfg : Config) (h : ℕ) where
  renew-IsDead :
      (db : Database) (s : AuthRefreshSession) (raw : ℕ) (draws : Draws) (t : Times)
      → sec.hash_refresh_token draws.refresh_token ≢ h
      → IsDead h db
      → IsDead h (renew sec cfg db s raw draws t).1
  unfolding renew touch_session
  renew-IsDead db s raw draws t other dead = elim (Bool-cases cfg.refresh_rotate) [
    | inl rotate ↦
        rw rotate
          (IsDead-update (λ r. r.id == s.id) _ h db.sessions (λ r e. ground (arith, e, other)) dead)
    | inr keep ↦ elim (Bool-cases cfg.refresh_sliding) [
      | inl slide ↦
          rw (keep, slide)
            (IsDead-update (λ r. r.id == s.id) _ h db.sessions (λ r e. ground (arith, e)) dead)
      | inr fixed ↦
          rw (keep, fixed)
            (IsDead-update (λ r. r.id == s.id) _ h db.sessions (λ r e. ground (arith, e)) dead)
    ]
  ]

  revoke_session-IsDead :
      (db : Database) (s : AuthRefreshSession) (now : ℕ)
      → IsDead h db
      → IsDead h (revoke_session db s now)
  unfolding revoke_session
  revoke_session-IsDead db s now dead =
      IsDead-update (λ r. r.id == s.id) (revoked now) h db.sessions (λ r e. ground (arith, e)) dead

  revoke_found-IsDead :
      (db : Database) (o : Option AuthRefreshSession) (now : ℕ)
      → IsDead h db
      → IsDead h (revoke_found db o now)
  revoke_found-IsDead db none now dead = dead
  revoke_found-IsDead db (some s) now dead = revoke_session-IsDead db s now dead

  flush_account-sessions :
      (db : Database) (a : Account)
      → Ensures (λ (db' : Database). db'.sessions ≡ db.sessions) (flush_account db a)
  unfolding flush_account
  flush_account-sessions db a =
      Ensures-raise_if (exists (λ b. same_text b.email a.email) db.accounts) _ _ λ _.
        Ensures-raise_if (exists (λ b. same_phone b.phone_number a.phone_number) db.accounts) _ _
          λ _. returned refl

  create_user-IsDead :
      (roles : List Role) (db : Database) (schema : UserCreate) (salt : ℕ)
      → IsDead h db
      → Ensures
          (λ (r : Account × Database). IsDead h r.1)
          (create_user sec cfg roles db schema salt)
  unfolding create_user
  create_user-IsDead roles db schema salt dead =
      let flush = flush_account db (new_account sec cfg db schema salt) in
      Ensures-raise_if (not (exists (is_role Role.customer) roles)) _ _ λ _.
        Ensures-bind (on_integrity_error flush _) _ λ db1 flushed.
          let same =
            Ensures_ok _
              (Ensures-on_integrity_error flush _
                (flush_account-sessions db (new_account sec cfg db schema salt)))
              flushed in
          returned (subst (λ ss. exists (is_live h) ss ≡ false) (sym same) dead)

  login_user-IsDead :
      (db : Database) (email password : Text) (ip user_agent : Option String) (draws : Draws)
      (t : Times)
      → sec.hash_refresh_token draws.refresh_token ≢ h
      → IsDead h db
      → Ensures
          (λ (r : LoginResponse × Database). IsDead h r.1)
          (login_user sec cfg db email password ip user_agent draws t)
  unfolding login_user exists
  login_user-IsDead db email password ip user_agent draws t other dead =
      Ensures-bind (authenticate_user sec cfg db email password) _
        λ account _. returned (exists-append (is_live h) db.sessions _ dead ∙ ground (arith, other))

  refresh_tokens-IsDead :
      (db : Database) (raw : ℕ) (draws : Draws) (t : Times)
      → sec.hash_refresh_token draws.refresh_token ≢ h
      → IsDead h db
      → Ensures
          (λ (r : LoginResponse × Database). IsDead h r.1)
          (refresh_tokens sec cfg db raw draws t)
  unfolding refresh_tokens
  refresh_tokens-IsDead db raw draws t other dead =
      let found = get_active_session_by_hash db (sec.hash_refresh_token raw) t.queried in
      Ensures-bind (or_raise found (unauthorized "Invalid refresh token")) _
        λ session _. returned (renew-IsDead db session raw draws t other dead)

  logout_with_refresh-IsDead :
      (db : Database) (raw now later : ℕ)
      → IsDead h db
      → IsDead h (logout_with_refresh sec cfg db raw now later).1
  unfolding logout_with_refresh
  logout_with_refresh-IsDead db raw now later dead = revoke_found-IsDead db _ later dead

  logout_all-IsDead :
      (db : Database) (user : User) (now : ℕ)
      → IsDead h db
      → IsDead h (logout_all sec cfg db user now).1
  unfolding logout_all revoke_all_for_user
  logout_all-IsDead db user now dead =
      IsDead-update (λ s. s.user_id == user.id && not (is_some s.revoked_at)) (revoked now) h
        db.sessions (λ r e. ground (arith, e)) dead

  auth_step-IsDead :
      (roles : List Role) (db : Database) (r : AuthRequest)
      → DrawsOther sec h r
      → IsDead h db
      → IsDead h (auth_step sec cfg roles db r)
  unfolding auth_step
  auth_step-IsDead roles db (registers schema salt) other dead =
      get_db-Keeps (IsDead h) db _ dead (create_user-IsDead roles db schema salt dead)
  auth_step-IsDead roles db (logs_in email password ip user_agent draws t) other dead =
      get_db-Keeps (IsDead h) db _ dead
        (login_user-IsDead db email password ip user_agent draws t other dead)
  auth_step-IsDead roles db (refreshes raw draws t) other dead =
      get_db-Keeps (IsDead h) db _ dead (refresh_tokens-IsDead db raw draws t other dead)
  auth_step-IsDead roles db (logs_out raw now later) other dead =
      logout_with_refresh-IsDead db raw now later dead
  auth_step-IsDead roles db (logs_out_all user now) other dead = logout_all-IsDead db user now dead

  pub run_auth-IsDead :
      (roles : List Role) (db : Database) (rs : List AuthRequest)
      → All (DrawsOther sec h) rs
      → IsDead h db
      → IsDead h (run_auth sec cfg roles db rs)
  unfolding run_auth
  run_auth-IsDead roles db [] other dead = dead
  run_auth-IsDead roles db (r ∷ rs) other dead =
      run_auth-IsDead roles (auth_step sec cfg roles db r) rs other.1
        (auth_step-IsDead roles db r other.0 dead)

-- The row that is changed is the only one that had the hash.
module _ (h now : ℕ) (f : AuthRefreshSession → AuthRefreshSession)
    (gone : (r : AuthRefreshSession) → is_live h (f r) ≡ false) where
  others_gone :
      (s : AuthRefreshSession) (rs : List AuthRefreshSession)
      → exists (λ r. r.token_hash == h) rs ≡ false
      → exists (is_live h) (update (λ r. r.id == s.id) f rs) ≡ false
  others_gone s rs none_there =
      IsDead-update (λ r. r.id == s.id) f h rs (λ r e. ground (arith, e, gone r))
        (exists_less (is_live h) (λ r. r.token_hash == h) rs (λ r e. ground (arith, e)) none_there)

  no_other :
      (s r : AuthRefreshSession) (rs : List AuthRefreshSession)
      → exists (λ x. x.token_hash == r.token_hash) rs ≡ false
      → scalar (opens h now) rs ≡ some s
      → is_live h r ≡ false
  no_other s r rs new found = elim (Bool-cases (r.token_hash == h)) [
    | inl same ↦
        let at_h : r.token_hash ≡ h = (==_iff r.token_hash h).0 same in
        let there =
          exists_found (λ x. x.id) (opens h now) (λ x. x.token_hash == h) rs s found
            (ground (arith, scalar_holds (opens h now) rs s found)) in
        absurd
          (ground (arith, there, subst (λ k. exists (λ x. x.token_hash == k) rs ≡ false) at_h new))
    | inr other ↦ ground (arith, other)
  ]

  pub renewed_gone :
      (s : AuthRefreshSession) (rs : List AuthRefreshSession)
      → Unique (λ r. r.token_hash) rs
      → scalar (opens h now) rs ≡ some s
      → exists (is_live h) (update (λ r. r.id == s.id) f rs) ≡ false
  unfolding scalar exists update
  renewed_gone s [] u found = cc
  renewed_gone s (r ∷ rs) u found = elim (Bool-cases (opens h now r)) [
    | inl hit ↦
        let same : r ≡ s = ground (arith, found, hit) in
        let at_h : r.token_hash ≡ h = ground (arith, hit) in
        let rest =
          others_gone s rs (subst (λ k. exists (λ x. x.token_hash == k) rs ≡ false) at_h u.0) in
        let here : (r.id == s.id) ≡ true = rw same (==_refl s.id) in rw (here, gone r) rest
    | inr miss ↦
        let rest = renewed_gone s rs u.1 (ground (arith, found, miss)) in
        let head = no_other s r rs u.0 (ground (arith, found, miss)) in
        rw rest (ground (arith, head, gone r))
  ]
