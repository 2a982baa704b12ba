-- ===== src/Store/Events.antt =====
-- The durable event log, the messages and the outbox of harness/storage/store.py. The sequence of
-- a run's events is numbered from 1 by the run's own counter.
pub mod Numbering
use mi_harness.Prelude.{
  ℕ, ◌+◌, String, Bool, not, ◌&&◌, ◌||◌, Option, none, some, List, [], ◌∷◌, ◌++◌, ltb, leb, ◌==◌,
  if◌then◌else◌, same, is_some, take, select, any, find_row, update_rows, order_by,
}
use mi_harness.Exec.{
  pure, gets, transaction, modify, new_id, utc_now, ◌>>=◌, ◌>>◌, require, when, message_conflict,
  integrity,
}
use mi_harness.Store.Schema.{
  Document, ContentPart, RunRow, MessageRow, EventRow, OutboxRow, Db, num, text,
}
use mi_harness.Store.Runs.{with_run_id, owned_by, run}

-- Store.outbox: INSERT OR IGNORE.
unfoldable pub outbox : String → String → Document → Db Unit
outbox consumer key payload = do
  identity ← new_id
  now ← utc_now
  taken ← gets (λ d.
      any
        (λ (o : OutboxRow).
          same o.id identity || same o.consumer consumer && same o.business_key key)
        d.outbox)
  when (not taken) (
      modify (λ d. record d {
        outbox =
            d.outbox
            ++ record {
              id = identity;
              consumer = consumer;
              business_key = key;
              payload = payload;
              delivered_at = none;
              created_at = now;
            }
              ∷ [];
      }))

abbrev envelope : EventRow → Document
envelope e =
    ("schema_version", num 1)
    ∷ ("event_id", text e.event_id)
    ∷ ("run_id", text e.run_id)
    ∷ ("type", text e.kind)
    ∷ ("timestamp", num e.timestamp)
    ∷ ("durability", text "durable")
    ∷ ("seq", num e.seq)
    ∷ e.payload

abbrev pub bump_seq : RunRow → RunRow
bump_seq r = record r { next_event_seq = r.next_event_seq + 1 }

abbrev event_clashes : EventRow → EventRow → Bool
event_clashes e x = same x.event_id e.event_id || same x.run_id e.run_id && x.seq == e.seq

-- The INSERT into run_events, with its primary key and its unique pair (run, seq).
insert_event : EventRow → Db Unit
insert_event e = do
  taken ← gets (λ d. any (event_clashes e) d.run_events)
  require (not taken) integrity
  modify (λ d. record d { run_events = d.run_events ++ e ∷ [] })

-- Store.event
unfoldable pub event : String → String → Document → Db EventRow
unfolding insert_event
event run_id kind payload = transaction (do
  row ← run run_id none
  modify (λ d. record d { runs = update_rows (with_run_id run_id) bump_seq d.runs })
  eid ← new_id
  now ← utc_now
  let e : EventRow = record {
    event_id = eid;
    run_id = run_id;
    seq = row.next_event_seq;
    kind = kind;
    payload = payload;
    timestamp = now;
  }
  insert_event e
  outbox "events" eid (envelope e)
  pure e)

-- Store.events: the first `limit` events after a cursor.
unfoldable pub events : String → ℕ → ℕ → Db (List EventRow)
events run_id after limit = gets (λ d. take limit (
    order_by (λ (a b : EventRow). leb a.seq b.seq)
      (select (λ (e : EventRow). same e.run_id run_id && ltb after e.seq) d.run_events)))

abbrev min_seq : List EventRow → Option ℕ
min_seq [] = none
min_seq (e ∷ es) = elim (min_seq es) [
  | none ↦ some e.seq
  | some m ↦ some (if ltb e.seq m then e.seq else m)
]

abbrev max_seq : List EventRow → Option ℕ
max_seq [] = none
max_seq (e ∷ es) = elim (max_seq es) [
  | none ↦ some e.seq
  | some m ↦ some (if ltb m e.seq then e.seq else m)
]

-- `value or default`: 0 is replaced too.
abbrev or_default : Option ℕ → ℕ → ℕ
or_default none d = d
or_default (some n) d = if n == 0 then d else n

-- Store.event_range
unfoldable pub event_range : String → Db (ℕ × ℕ)
event_range run_id = do
  rows ← gets (λ d. select (λ (e : EventRow). same e.run_id run_id) d.run_events)
  pure (or_default (min_seq rows) 1, or_default (max_seq rows) 0)

-- Store.pending_outbox
unfoldable pub pending_outbox : String → Db (List OutboxRow)
pending_outbox consumer = gets (λ d. take 200 (
    order_by (λ (a b : OutboxRow). leb a.created_at b.created_at)
      (select (λ (o : OutboxRow). same o.consumer consumer && not (is_some o.delivered_at))
        d.outbox)))

-- Store.deliver_outbox
unfoldable pub deliver_outbox : String → Db Unit
deliver_outbox identity = do
  now ← utc_now
  modify (λ d. record d {
    outbox =
        update_rows (λ (o : OutboxRow). same o.id identity)
          (λ o. record o { delivered_at = some now }) d.outbox;
  })

-- Store.publish_event_outbox
unfoldable pub publish_event_outbox : Db Unit
publish_event_outbox = do
  now ← utc_now
  modify (λ d. record d {
    outbox =
        update_rows
          (λ (o : OutboxRow).
            same o.consumer "events"
            && not (is_some o.delivered_at)
            && any (λ (e : EventRow). same e.event_id o.business_key) d.run_events)
          (λ o. record o { delivered_at = some now }) d.outbox;
  })

unfoldable pub commit_message :
    String → String → String → String → List ContentPart → String → Db Unit
commit_message run_id message_id role payload parts branch_id = do
  now ← utc_now
  modify (λ d. record d {
    messages =
        d.messages
        ++ record {
          id = message_id;
          run_id = run_id;
          branch_id = branch_id;
          role = role;
          payload = payload;
          content_parts = parts;
          created_at = now;
        }
          ∷ [];
  })
  event run_id "message.committed" (("payload", text payload) ∷ [])
  pure tt

-- A message that is stored already is accepted again only with the same content.
unfoldable pub commit_or_check : Option MessageRow → String → Db Unit → Db Unit
commit_or_check none payload commit = commit
commit_or_check (some m) payload commit = require (same m.payload payload) message_conflict

-- Store.add_message: the payload as canonical JSON text, with its content parts.
unfoldable pub add_message : String → String → String → String → List ContentPart → Db Unit
unfolding commit_message commit_or_check
add_message run_id message_id role payload parts = transaction (do
  row ← run run_id none
  existing ← gets (λ d. find_row (λ (m : MessageRow). same m.id message_id) d.messages)
  commit_or_check existing payload
      (commit_message run_id message_id role payload parts row.branch_id))

-- Store.messages
unfoldable pub messages : String → Option String → Db (List MessageRow)
messages branch_id run_id = gets (λ d.
    select (λ (m : MessageRow). same m.branch_id branch_id && owned_by run_id m.run_id) d.messages)
