-- ===== src/Safety/Login.antt =====
-- What a session of harness/server/auth.py is good for.
use mi_harness.Prelude.{
  ℕ, suc, ◌+◌, ◌*◌, String, ◌≡◌, refl, sym, ap, subst, ◌∙◌, inl, inr, true, false, some, arith, ltb,
  same, same_refl, Bool-cases,
}
use mi_harness.Exec.{Result, World, undo, transaction, ◌>>=◌, require, or_raise, ok, err, integrity}
use mi_harness.Exec.Atomic.{Result-cases}
use mi_harness.Store.Schema.{AuthSession, Payload, Database, Db}
use mi_harness.Server.Auth.{
  AuthState, within_store, in_store, AuthConfig, Credentials, admit, is_open_session,
  create_session, exchange_local, authenticate, check_csrf,
}
use mi_harness.Safety.Pairing.{view-put, Finds}
use mi_harness.Safety.Documents.{put_outcome}
use mi_harness.Store.Records.{get, put}

admitted_at :
    (peer : String) (w : World AuthState) (now : ℕ)
    → (admit peer w).0 ≡ ok now
    → now ≡ w.clock w.ticks
unfolding admit ◌>>=◌ require
admitted_at peer w now h = ground arith

undo_returned :
    {A : Type 0} (before : Database) (r : Result A) (w : World Database) (a : A)
    → (undo before (r, w)).0 ≡ ok a
    → undo before (r, w) ≡ (r, w)
undo_returned before (ok x) w a h = refl
undo_returned before (err c) w a h = cc

-- A transaction that returns is its body.
committed :
    {A : Type 0} (m : Db A) (w : World Database) (a : A)
    → (transaction m w).0 ≡ ok a
    → transaction m w ≡ m w
unfolding transaction
committed m w a h = undo_returned w.db (m w).0 (m w).1 a h

module _ (config : AuthConfig) where
  abbrev pub issued : String → ℕ → String → Credentials → AuthSession
  issued owner now source c = record {
    owner_id = owner;
    csrf_hash = config.digest c.csrf;
    expires_at = now + config.session_ttl * 1000;
    revoked = false;
    source = source;
  }

  abbrev drawn : World Database → Credentials
  drawn w = record { session = w.ids w.ticks; csrf = w.ids (suc w.ticks) }

  abbrev after_drawing : World Database → World Database
  after_drawing w = record w { ticks = suc (suc w.ticks) }

  abbrev saving : String → ℕ → String → World Database → Result Unit × World Database
  saving owner now source w =
      put "auth_sessions" (config.digest (drawn w).session)
        (Payload.auth_session (issued owner now source (drawn w))) (after_drawing w)

  create_session_saved :
      (owner : String) (now : ℕ) (source : String) (w : World Database)
      → (saving owner now source w).0 ≡ ok tt
      → create_session config owner now source w ≡ (ok (drawn w), (saving owner now source w).1)
  unfolding create_session ◌>>=◌
  create_session_saved owner now source w returned = rw returned

  create_session_unsaved :
      (owner : String) (now : ℕ) (source : String) (w : World Database)
      → (saving owner now source w).0 ≡ err integrity
      → (create_session config owner now source w).0 ≡ err integrity
  unfolding create_session ◌>>=◌
  create_session_unsaved owner now source w raised = rw raised

  abbrev Opens : String → ℕ → String → Database → Credentials → Type 0
  Opens owner now source d c =
      Finds (λ found. found ≡ some (Payload.auth_session (issued owner now source c)))
        "auth_sessions" (config.digest c.session) d

  create_session-Opens :
      (owner : String) (now : ℕ) (source : String) (w : World Database) (c : Credentials)
      → (create_session config owner now source w).0 ≡ ok c
      → Opens owner now source (create_session config owner now source w).1.db c
  create_session-Opens owner now source w c h =
      elim (put_outcome "auth_sessions" (config.digest (drawn w).session)
        (Payload.auth_session (issued owner now source (drawn w))) (after_drawing w)) [
          | inl (returned, after) ↦
              let step = create_session_saved owner now source w returned in
              let same_credentials : drawn w ≡ c = ground (arith, step) in
              let opened : Opens owner now source (saving owner now source w).1.db (drawn w) =
                ground (
                  arith,
                  view-put "auth_sessions" (config.digest (drawn w).session) "auth_sessions"
                      (config.digest (drawn w).session)
                      (Payload.auth_session (issued owner now source (drawn w))) (after_drawing w)
                      after,
                  same_refl "auth_sessions",
                  same_refl (config.digest (drawn w).session),
                ) in
              subst (Opens owner now source (create_session config owner now source w).1.db)
                same_credentials
                (subst
                  (λ (x : Result Credentials × World Database).
                    Opens owner now source x.1.db (drawn w))
                  (sym step) opened)
          | inr (raised, after) ↦
              let absurd : ⊥ = ground (arith, create_session_unsaved owner now source w raised) in
              elim absurd [ ]
        ]

  authenticate_found :
      (token : String) (s : AuthSession) (w : World Database)
      → same token "" ≡ false
      → Finds
          (λ found. found ≡ some (Payload.auth_session s))
          "auth_sessions"
          (config.digest token)
          w.db
      → is_open_session (w.clock w.ticks) s ≡ true
      → (authenticate config token w).0 ≡ ok s
  unfolding authenticate get ◌>>=◌ require or_raise
  authenticate_found token s w real found unexpired = ground arith

  local_step :
      (peer : String) (w : World AuthState) (now : ℕ)
      → config.is_loopback peer ≡ true
      → (admit peer w).0 ≡ ok now
      → exchange_local config peer w
        ≡ in_store
            (transaction (create_session config config.owner_id now "loopback_auto"))
            (admit peer w).1
  unfolding exchange_local ◌>>=◌ require
  local_step peer w now near admitted = rw (near, admitted)

  local_stopped :
      (peer : String) (w : World AuthState) (c : Credentials)
      → (exchange_local config peer w).0 ≡ ok c
      → (config.is_loopback peer ≡ true) × ((now : ℕ) × ((admit peer w).0 ≡ ok now))
  unfolding exchange_local ◌>>=◌ require
  local_stopped peer w c h = elim (Bool-cases (config.is_loopback peer)) [
    | inl near ↦ elim (Result-cases (admit peer w).0) [
      | inl admitted ↦ (near, admitted)
      | inr (code, refused) ↦ let absurd : ⊥ = ground (arith, near, refused) in elim absurd [ ]
    ]
    | inr far ↦ let absurd : ⊥ = ground (arith, far) in elim absurd [ ]
  ]

  local-Opens :
      (peer : String) (w : World AuthState) (now : ℕ) (c : Credentials)
      → config.is_loopback peer ≡ true
      → (admit peer w).0 ≡ ok now
      → (exchange_local config peer w).0 ≡ ok c
      → Opens config.owner_id now "loopback_auto" (exchange_local config peer w).1.db.store c
  unfolding in_store
  local-Opens peer w now c near admitted h =
      let m = create_session config config.owner_id now "loopback_auto" in
      let step = local_step peer w now near admitted in
      let inside = within_store (admit peer w).1 in
      let done : (transaction m inside).0 ≡ ok c =
        sym (ap (λ (x : Result Credentials × World AuthState). x.0) step) ∙ h in
      let whole = committed m inside c done in
      let opened : Opens config.owner_id now "loopback_auto" (transaction m inside).1.db c =
        subst
          (λ (x : Result Credentials × World Database).
            Opens config.owner_id now "loopback_auto" x.1.db c)
          (sym whole)
          (create_session-Opens config.owner_id now "loopback_auto" inside c
            (sym (ap (λ (x : Result Credentials × World Database). x.0) whole) ∙ done)) in
      subst
        (λ (x : Result Credentials × World AuthState).
          Opens config.owner_id now "loopback_auto" x.1.db.store c)
        (sym step) opened

  -- A session that `exchange_local` returns serves its owner until it expires: the peer is a loopback
  -- address, `authenticate` of its token, at a time before the end of its lifetime and from the
  -- store that `exchange_local` left, returns a session of the owner, and `check_csrf` accepts the
  -- CSRF token that came with it. The two tokens are not empty.
  pub local_session_serves :
      (peer : String) (w : World AuthState) (later : World Database) (c : Credentials)
      → (exchange_local config peer w).0 ≡ ok c
      → later.db ≡ (exchange_local config peer w).1.db.store
      → ltb (later.clock later.ticks) (w.clock w.ticks + config.session_ttl * 1000) ≡ true
      → same c.session "" ≡ false
      → same c.csrf "" ≡ false
      → (config.is_loopback peer ≡ true)
        × ((s : AuthSession) × ((authenticate config c.session later).0 ≡ ok s)
            × (s.owner_id ≡ config.owner_id)
            × ((check_csrf config s c.csrf later).0 ≡ ok tt))
  unfolding check_csrf require
  local_session_serves peer w later c h start early real real_csrf =
      let (near, (now, admitted)) = local_stopped peer w c h in
      let s = issued config.owner_id now "loopback_auto" c in
      let opened : Opens config.owner_id now "loopback_auto" later.db c =
        subst (λ (d : Database). Opens config.owner_id now "loopback_auto" d c) (sym start)
          (local-Opens peer w now c near admitted h) in
      let in_time : is_open_session (later.clock later.ticks) s ≡ true =
        rw (admitted_at peer w now admitted, early) in
      (
        near,
        (
          s,
          authenticate_found c.session s later real opened in_time,
          refl,
          ground (arith, same_refl (config.digest c.csrf)),
        ),
      )
