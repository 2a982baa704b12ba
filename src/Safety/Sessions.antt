-- ===== src/Safety/Sessions.antt =====
-- The sessions of harness/server/auth.py after they are issued, and the limit on the attempts.
use mi_harness.Prelude.{
  ℕ, suc, ◌≤◌, String, ◌≡◌, refl, sym, subst, inl, inr, true, Option, some, List, [], ◌∷◌, ◌++◌,
  arith, leb, if◌then◌else◌, same, same→eq, same_refl, Bool-cases, Option-cases, length,
}
use mi_harness.Exec.{World, ◌>>=◌, require, or_raise, ok, err, auth_required}
use mi_harness.Exec.Keeps.{Keeps, keeps_rules}
use mi_harness.Server.Auth.{
  AuthState, in_store, AuthConfig, Credentials, attempts_of, set_attempts, recent, admit,
  as_session, exchange, exchange_local, authenticate, logout,
}
use mi_harness.Exec.Establishes.{Establishes, Establishes-later, Establishes-transaction}
use mi_harness.Store.Schema.{AuthSession, Payload, Database, Db}
use mi_harness.Store.Records.{get}
use mi_harness.Store.Records.View.{view}
use mi_harness.Safety.Pairing.{Finds, put-Establishes}

abbrev IsRevoked : Option Payload → Type 0
IsRevoked found = (s : AuthSession) → as_session found ≡ some s → s.revoked ≡ true

module _ (config : AuthConfig) where
  logout-Establishes :
      (token : String)
      → Establishes (Finds IsRevoked "auth_sessions" (config.digest token)) (logout config token)
  unfolding logout
  logout-Establishes token = Establishes-transaction _ (
      Establishes-later _ _ (λ s.
        put-Establishes IsRevoked "auth_sessions" (config.digest token)
          (Payload.auth_session (record s { revoked = true })) (λ u same_session. ground arith)))

  revoked_lem :
      (token : String) (w : World Database)
      → Finds IsRevoked "auth_sessions" (config.digest token) w.db
      → ((authenticate config token w).0 ≡ err auth_required)
        × ((authenticate config token w).1.db ≡ w.db)
  unfolding authenticate get ◌>>=◌ require or_raise
  revoked_lem token w h =
      elim (Option-cases (as_session (view w.db "auth_sessions" (config.digest token)))) [
        | inl missing ↦ ground arith
        | inr (s, known) ↦ let ended : s.revoked ≡ true = h s known in ground arith
      ]

  -- After a `logout` that returns, every `authenticate` of its token from the store that it left
  -- raises AUTH_REQUIRED, at whatever time, and changes nothing.
  pub logout_ends_session :
      (token : String) (w later : World Database)
      → (logout config token w).0 ≡ ok tt
      → later.db ≡ (logout config token w).1.db
      → ((authenticate config token later).0 ≡ err auth_required)
        × ((authenticate config token later).1.db ≡ later.db)
  logout_ends_session token w later done start = revoked_lem token later (
      subst (Finds IsRevoked "auth_sessions" (config.digest token)) (sym start)
        ((logout-Establishes token).at w tt done))

abbrev pub HasFewAttempts : List (String × List ℕ) → Type 0
HasFewAttempts attempts = (peer : String) → length (attempts_of peer attempts) ≤ 10

attempts_of-set_attempts :
    (peer other : String) (ts : List ℕ) (attempts : List (String × List ℕ))
    → attempts_of other (set_attempts peer ts attempts)
      ≡ (if same peer other then ts else attempts_of other attempts)
unfolding attempts_of set_attempts
attempts_of-set_attempts peer other ts [] = ground arith
attempts_of-set_attempts peer other ts ((p, old) ∷ rest) = ground (
  arith,
  attempts_of-set_attempts peer other ts rest,
  same→eq p peer,
  same→eq peer other,
  same_refl peer,
  same_refl other,
)

length-recent : (now : ℕ) (ts : List ℕ) → length (recent now ts) ≤ length ts
unfolding recent
length-recent now [] = ground arith
length-recent now (t ∷ ts) = ground (arith, length-recent now ts)

length-append : (ts : List ℕ) (now : ℕ) → length (ts ++ now ∷ []) ≡ suc (length ts)
length-append [] now = refl
length-append (t ∷ ts) now = rw (length-append ts now)

abbrev pub IsLimited : AuthState → Type 0
IsLimited s = HasFewAttempts s.attempts

set_attempts-HasFewAttempts :
    (peer : String) (ts : List ℕ) (attempts : List (String × List ℕ))
    → length ts ≤ 10
    → HasFewAttempts attempts
    → HasFewAttempts (set_attempts peer ts attempts)
set_attempts-HasFewAttempts peer ts attempts few h other =
    ground (arith, attempts_of-set_attempts peer other ts attempts, h other)

module _ (peer : String) (w : World AuthState) where
  fresh : List ℕ
  fresh = recent (w.clock w.ticks) (attempts_of peer w.db.attempts)

  attempts-admit : (admit peer w).1.db.attempts ≡ (
      if leb 10 (length fresh)
      then set_attempts peer fresh w.db.attempts
      else set_attempts peer
          (fresh ++ w.clock w.ticks ∷ [])
          (set_attempts peer fresh w.db.attempts))
  unfolding fresh admit ◌>>=◌ require
  attempts-admit = elim (Bool-cases (leb 10 (length fresh))) [
    | inl full ↦ ground arith
    | inr room ↦ ground arith
  ]

  fresh-HasFewAttempts :
      HasFewAttempts w.db.attempts → HasFewAttempts (set_attempts peer fresh w.db.attempts)
  unfolding fresh
  fresh-HasFewAttempts h =
      set_attempts-HasFewAttempts peer fresh w.db.attempts
        (ground (arith, h peer, length-recent (w.clock w.ticks) (attempts_of peer w.db.attempts))) h

  admitted-HasFewAttempts :
      HasFewAttempts w.db.attempts → HasFewAttempts (admit peer w).1.db.attempts
  admitted-HasFewAttempts h =
      subst HasFewAttempts (sym attempts-admit) (elim (Bool-cases (leb 10 (length fresh))) [
        | inl full ↦ rw full (fresh-HasFewAttempts h)
        | inr room ↦ rw room (
            set_attempts-HasFewAttempts peer (fresh ++ w.clock w.ticks ∷ [])
              (set_attempts peer fresh w.db.attempts)
              (ground (arith, length-append fresh (w.clock w.ticks))) (fresh-HasFewAttempts h))
      ])

in_store-IsLimited : {A : Type 0} (m : Db A) → Keeps IsLimited (in_store m)
unfolding in_store
in_store-IsLimited m = record { at = λ w h. h }

admit-IsLimited : (peer : String) → Keeps IsLimited (admit peer)
admit-IsLimited peer = record { at = λ w h. admitted-HasFewAttempts peer w h }

-- No peer is ever recorded with more than ten attempts: `exchange` and `exchange_local` keep that,
-- whether they return or raise.
pub attempts_bounded :
    (config : AuthConfig) (ticket peer : String)
    → Keeps IsLimited (exchange config ticket peer) × Keeps IsLimited (exchange_local config peer)
unfolding exchange exchange_local
attempts_bounded config ticket peer = (
  search (keeps_rules, admit-IsLimited, (λ (m : Db Credentials). in_store-IsLimited m)) depth 14,
  search (keeps_rules, admit-IsLimited, (λ (m : Db Credentials). in_store-IsLimited m)) depth 14,
)
