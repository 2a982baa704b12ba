-- ===== src/Server/Auth.antt =====
-- AuthService of harness/server/auth.py: pairing tickets, sessions and the limit on pairing
-- attempts. Times are milliseconds; `digest` is a SHA-256, and the tokens are read from the stream
-- of identifiers.
use mi_harness.Prelude.{
  ℕ, ◌+◌, ◌*◌, String, Bool, true, false, not, ◌&&◌, Option, none, some, List, [], ◌∷◌, ◌++◌, ltb,
  leb, if◌then◌else◌, same, length,
}
use mi_harness.Exec.{
  World, Exec, pure, gets, transaction, modify, new_id, utc_now, after_seconds, ◌>>=◌, ◌>>◌,
  require, or_raise, pairing_rate_limit, pairing_invalid, local_pairing_denied, auth_required,
  csrf_rejected,
}
use mi_harness.Store.Schema.{AuthTicket, AuthSession, Payload, Database, Db}
use mi_harness.Store.Records.{get, put}

-- The store, and the times of the recent attempts of each peer, in memory.
pub record AuthState : Type 0 where
  pub store : Database
  pub attempts : List (String × List ℕ)

abbrev pub Auth : Type 0 → Type 0
Auth A = Exec AuthState A

abbrev pub within_store : World AuthState → World Database
within_store w = record { db = w.db.store; ids = w.ids; clock = w.clock; ticks = w.ticks }

-- A method of the store.
unfoldable pub in_store : {A : Type 0} → Db A → Auth A
in_store m w =
    let (r, after) = m (within_store w) in
    (
      r,
      record {
        db = record w.db { store = after.db };
        ids = w.ids;
        clock = w.clock;
        ticks = after.ticks;
      },
    )

pub record AuthConfig : Type 0 where
  pub owner_id : String
  pub session_ttl : ℕ
  pub digest : String → String
  -- ipaddress.ip_address(peer).is_loopback, False where the text is no address
  pub is_loopback : String → Bool

pub record Credentials : Type 0 where
  pub session : String
  pub csrf : String

-- `self._attempts[peer]`
unfoldable pub attempts_of : String → List (String × List ℕ) → List ℕ
attempts_of peer [] = []
attempts_of peer ((p, ts) ∷ rest) = if same p peer then ts else attempts_of peer rest

unfoldable pub set_attempts : String → List ℕ → List (String × List ℕ) → List (String × List ℕ)
set_attempts peer ts [] = (peer, ts) ∷ []
set_attempts peer ts ((p, old) ∷ rest) =
    if same p peer then (p, ts) ∷ rest else (p, old) ∷ set_attempts peer ts rest

-- The loop that forgets the attempts of more than a minute ago.
unfoldable pub recent : ℕ → List ℕ → List ℕ
recent now [] = []
recent now (t ∷ ts) = let rest = recent now ts in if ltb (t + 60000) now then rest else t ∷ ts

-- AuthService._admit
unfoldable pub admit : String → Auth ℕ
admit peer = do
  now ← utc_now
  before ← gets (λ s. recent now (attempts_of peer s.attempts))
  modify (λ s. record s { attempts = set_attempts peer before s.attempts })
  require (not (leb 10 (length before))) pairing_rate_limit
  modify (λ s. record s { attempts = set_attempts peer (before ++ now ∷ []) s.attempts })
  pure now

abbrev pub as_ticket : Option Payload → Option AuthTicket
as_ticket (some (Payload.auth_ticket t)) = some t
as_ticket _ = none

abbrev pub as_session : Option Payload → Option AuthSession
as_session (some (Payload.auth_session s)) = some s
as_session _ = none

abbrev pub is_open_ticket : ℕ → AuthTicket → Bool
is_open_ticket now t = not t.consumed && ltb now t.expires_at

abbrev pub is_open_session : ℕ → AuthSession → Bool
is_open_session now s = not s.revoked && ltb now s.expires_at

module _ (config : AuthConfig) where
  -- AuthService.issue_ticket
  unfoldable pub issue_ticket : ℕ → Db String
  issue_ticket ttl_seconds = do
    ticket ← new_id
    expiry ← after_seconds ttl_seconds
    put "auth_tickets" (config.digest ticket) (
        Payload.auth_ticket
          (record { owner_id = config.owner_id; expires_at = expiry; consumed = false }))
    pure ticket

  -- AuthService._create_session
  unfoldable pub create_session : String → ℕ → String → Db Credentials
  create_session owner now source = do
    session ← new_id
    csrf ← new_id
    put "auth_sessions" (config.digest session) (
        Payload.auth_session (record {
          owner_id = owner;
          csrf_hash = config.digest csrf;
          expires_at = now + config.session_ttl * 1000;
          revoked = false;
          source = source;
        }))
    pure (record { session = session; csrf = csrf })

  -- The transaction of AuthService.exchange.
  unfoldable pub redeem : String → ℕ → Db Credentials
  redeem ticket now = transaction (do
    saved ← get "auth_tickets" (config.digest ticket)
    t ← or_raise pairing_invalid (as_ticket saved)
    require (is_open_ticket now t) pairing_invalid
    put "auth_tickets" (config.digest ticket) (Payload.auth_ticket (record t { consumed = true }))
    create_session t.owner_id now "ticket_exchange")

  -- AuthService.exchange
  unfoldable pub exchange : String → String → Auth Credentials
  exchange ticket peer = do now ← admit peer; in_store (redeem ticket now)

  -- AuthService.exchange_local
  unfoldable pub exchange_local : String → Auth Credentials
  exchange_local peer = do
    require (config.is_loopback peer) local_pairing_denied
    now ← admit peer
    in_store (transaction (create_session config.owner_id now "loopback_auto"))

  -- AuthService.authenticate; a missing token is the empty text
  unfoldable pub authenticate : String → Db AuthSession
  authenticate token = do
    require (not (same token "")) auth_required
    saved ← get "auth_sessions" (config.digest token)
    s ← or_raise auth_required (as_session saved)
    now ← utc_now
    require (is_open_session now s) auth_required
    pure s

  -- AuthService.check_csrf; a missing token is the empty text
  unfoldable pub check_csrf : AuthSession → String → Db Unit
  check_csrf s token =
      require (not (same token "") && same s.csrf_hash (config.digest token)) csrf_rejected

  -- AuthService.logout
  unfoldable pub logout : String → Db Unit
  logout token = transaction (do
    s ← authenticate token
    put "auth_sessions" (config.digest token) (Payload.auth_session (record s { revoked = true })))
