-- ===== src/Safety/Pairing.antt =====
-- The pairing tickets, sessions and attempts of harness/server/auth.py.
use mi_harness.Prelude.{
  ℕ, String, ◌≡◌, refl, sym, ap, subst, ◌∙◌, ◌≢◌, inl, inr, true, false, ◌&&◌, Option, some, arith,
  same, same_refl, Option-cases,
}
use mi_harness.Store.Schema.{AuthTicket, Payload, Database}
use mi_harness.Server.Auth.{
  AuthState, within_store, in_store, AuthConfig, Credentials, admit, as_ticket, create_session,
  redeem, exchange,
}
use mi_harness.Exec.Keeps.{Keeps, keeps_rules}
use mi_harness.Exec.Establishes.{
  Establishes, Establishes-later, Establishes-now, Establishes-transaction,
}
use mi_harness.Exec.Atomic.{Result-cases}
use mi_harness.Safety.Documents.{next_row, written, put_outcome, view-written}
use mi_harness.Store.Records.{get, put}
use mi_harness.Store.Records.View.{View, view, assign}
use mi_harness.Exec.{
  Code, Result, World, transaction, ◌>>=◌, require, or_raise, ok, err, pairing_invalid,
}

-- A look at one key after a write.
pub view-put :
    (m j n k : String) (value : Payload) (w : World Database)
    → (put m j value w).1.db ≡ written (next_row m j value w.db) w.db
    → view (put m j value w).1.db n k ≡ assign (view w.db) m j (some value) n k
view-put m j n k value w after =
    ap (λ (d : Database). view d n k) after ∙ ap (λ (v : View). v n k) (view-written m j value w.db)

-- What a SELECT of one key finds.
abbrev pub Finds : (Option Payload → Type 0) → String → String → Database → Type 0
Finds P n k d = P (view d n k)

pub put-Finds :
    (P : Option Payload → Type 0) (n k m j : String) (value : Payload)
    → (same m n && same j k) ≡ false
    → Keeps (Finds P n k) (put m j value)
put-Finds P n k m j value elsewhere = record {
  at = λ w h. elim (put_outcome m j value w) [
    | inl (returned, after) ↦
        let kept : view (put m j value w).1.db n k ≡ view w.db n k =
          rw (view-put m j n k value w after, elsewhere) in
        subst P (sym kept) h
    | inr (raised, after) ↦ subst (Finds P n k) (sym after) h
  ];
}

pub put-Establishes :
    (P : Option Payload → Type 0) (n k : String) (value : Payload)
    → P (some value)
    → Establishes (Finds P n k) (put n k value)
put-Establishes P n k value h = record {
  at = λ w _ returned. elim (put_outcome n k value w) [
    | inl (_, after) ↦
        let found : view (put n k value w).1.db n k ≡ some value =
          rw (view-put n k n k value w after, same_refl n, same_refl k) in
        subst P (sym found) h
    | inr (raised, after) ↦ let absurd : ⊥ = ground arith in elim absurd [ ]
  ];
}

module _ (config : AuthConfig) where
  abbrev IsRedeemed : Option Payload → Type 0
  IsRedeemed found = (t : AuthTicket) → as_ticket found ≡ some t → t.consumed ≡ true

  create_session-Keeps :
      (k owner : String) (now : ℕ) (source : String)
      → Keeps (Finds IsRedeemed "auth_tickets" k) (create_session config owner now source)
  unfolding create_session same
  create_session-Keeps k owner now source =
      search
        (
          keeps_rules,
          (λ (j : String) (value : Payload).
              put-Finds IsRedeemed "auth_tickets" k "auth_sessions" j value refl),
        )
        depth 14

  redeem-Establishes :
      (ticket : String) (now : ℕ)
      → Establishes
          (Finds IsRedeemed "auth_tickets" (config.digest ticket))
          (redeem config ticket now)
  unfolding redeem
  redeem-Establishes ticket now = Establishes-transaction _ (
      Establishes-later _ _ (λ saved. Establishes-later _ _ (λ t. Establishes-later _ _ (λ _.
        Establishes-now _ _
          (put-Establishes IsRedeemed "auth_tickets" (config.digest ticket)
            (Payload.auth_ticket (record t { consumed = true })) (λ u same_ticket. ground arith))
          (λ _. create_session-Keeps (config.digest ticket) t.owner_id now "ticket_exchange")))))

  redeem_again :
      (ticket : String) (now : ℕ) (w : World Database)
      → Finds IsRedeemed "auth_tickets" (config.digest ticket) w.db
      → ((redeem config ticket now w).0 ≡ err pairing_invalid)
        × ((redeem config ticket now w).1.db ≡ w.db)
  unfolding redeem get transaction ◌>>=◌ require or_raise
  redeem_again ticket now w h =
      elim (Option-cases (as_ticket (view w.db "auth_tickets" (config.digest ticket)))) [
        | inl missing ↦ ground arith
        | inr (t, known) ↦ let used : t.consumed ≡ true = h t known in ground arith
      ]

  pub admit_store : (peer : String) (w : World AuthState) → (admit peer w).1.db.store ≡ w.db.store
  unfolding admit ◌>>=◌ require
  admit_store peer w = ground arith

  pub exchange_step :
      (ticket peer : String) (w : World AuthState) (now : ℕ)
      → (admit peer w).0 ≡ ok now
      → exchange config ticket peer w ≡ in_store (redeem config ticket now) (admit peer w).1
  unfolding exchange ◌>>=◌
  exchange_step ticket peer w now admitted = rw admitted

  pub exchange_refused :
      (ticket peer : String) (w : World AuthState) (code : Code)
      → (admit peer w).0 ≡ err code
      → exchange config ticket peer w ≡ (err code, (admit peer w).1)
  unfolding exchange ◌>>=◌
  exchange_refused ticket peer w code refused = rw refused

  module _ (ticket : String) where
    abbrev Spent : Database → Type 0
    Spent = Finds IsRedeemed "auth_tickets" (config.digest ticket)

    exchange-Establishes :
        (peer : String) (w : World AuthState) (c : Credentials)
        → (exchange config ticket peer w).0 ≡ ok c
        → Spent (exchange config ticket peer w).1.db.store
    unfolding in_store
    exchange-Establishes peer w c once = elim (Result-cases (admit peer w).0) [
      | inl (now, admitted) ↦
          let step = exchange_step ticket peer w now admitted in
          let redeemed : (redeem config ticket now (within_store (admit peer w).1)).0 ≡ ok c =
            sym (ap (λ (x : Result Credentials × World AuthState). x.0) step) ∙ once in
          subst (λ (x : Result Credentials × World AuthState). Spent x.1.db.store) (sym step)
            ((redeem-Establishes ticket now).at (within_store (admit peer w).1) c redeemed)
      | inr (code, refused) ↦
          let absurd : ⊥ = ground (arith, exchange_refused ticket peer w code refused) in
          elim absurd [ ]
    ]

    exchange_again :
        (peer : String) (w : World AuthState)
        → Spent w.db.store
        → ((again : Credentials) → (exchange config ticket peer w).0 ≢ ok again)
          × ((exchange config ticket peer w).1.db.store ≡ w.db.store)
    unfolding in_store
    exchange_again peer w h = elim (Result-cases (admit peer w).0) [
      | inl (now, admitted) ↦
          let step = exchange_step ticket peer w now admitted in
          let invalid =
            redeem_again ticket now (within_store (admit peer w).1)
              (subst Spent (sym (admit_store peer w)) h) in
          (
            (λ again returned. ground (arith, step, invalid)),
            (ap (λ (x : Result Credentials × World AuthState). x.1.db.store) step
                ∙ invalid.1
                ∙ admit_store peer w),
          )
      | inr (code, refused) ↦
          let stopped = exchange_refused ticket peer w code refused in
          (
            (λ again returned. ground (arith, stopped)),
            (ap (λ (x : Result Credentials × World AuthState). x.1.db.store) stopped
                ∙ admit_store peer w),
          )
    ]

  -- A pairing ticket is redeemed at most once: after `exchange` has returned a session for it, no
  -- later `exchange` of the same ticket from the store that it left returns, whoever calls it and at
  -- whatever time, and the store stays as it was.
  pub ticket_redeemed_once :
      (ticket peer other : String) (w later : World AuthState) (c : Credentials)
      → (exchange config ticket peer w).0 ≡ ok c
      → later.db.store ≡ (exchange config ticket peer w).1.db.store
      → ((again : Credentials) → (exchange config ticket other later).0 ≢ ok again)
        × ((exchange config ticket other later).1.db.store ≡ later.db.store)
  ticket_redeemed_once ticket peer other w later c once start = exchange_again ticket other later (
      subst (Finds IsRedeemed "auth_tickets" (config.digest ticket)) (sym start)
        (exchange-Establishes ticket peer w c once))
