-- ===== src/Store/Records/Kept.antt =====
-- What the other tables and the other keys of harness/storage/store.py leave of the generic records.
use mi_harness.Prelude.{String, ◌≡◌, refl, ap, ◌∙◌, inl, inr, false, ◌&&◌, Option, List, same}
use mi_harness.Exec.Keeps.{Keeps, Keeps-modify, keeps_rules}
use mi_harness.Store.Schema.{Payload, RecordRow, Document, Database}
use mi_harness.Store.Records.{find_record, payload_of, put}
use mi_harness.Store.Records.View.{view}
use mi_harness.Store.Runs.{run}
use mi_harness.Store.Events.{outbox, event}
use mi_harness.Safety.Documents.{next_row, put_outcome, find_written}

-- A statement of the records of a database.
module _ (P : List RecordRow → Type 0) where
  abbrev pub OfRecords : Database → Type 0
  OfRecords d = P d.records

  outbox-Keeps : (c k : String) (payload : Document) → Keeps OfRecords (outbox c k payload)
  unfolding outbox
  outbox-Keeps c k payload = search (keeps_rules, Keeps-modify)

  pub event-Keeps : (k kind : String) (payload : Document) → Keeps OfRecords (event k kind payload)
  unfolding event run
  event-Keeps k kind payload = search (keeps_rules, Keeps-modify, outbox-Keeps) depth 14

-- A SELECT of one key finds the same document.
abbrev pub Shows : String → String → Option Payload → Database → Type 0
Shows n k p d = view d n k ≡ p

module _ (n k : String) (p : Option Payload) where
  pub put-Keeps :
      (namespace key : String) (value : Payload)
      → (same namespace n && same key k) ≡ false
      → Keeps (Shows n k p) (put namespace key value)
  put-Keeps namespace key value other = record {
    at = λ w shown. elim (put_outcome namespace key value w) [
      | inl (_, after) ↦
          ap payload_of (
            ap (find_record n k) after
            ∙ find_written n k (next_row namespace key value w.db) w.db
            ∙ rw other refl)
          ∙ shown
      | inr (_, after) ↦ ap (λ (d : Database). view d n k) after ∙ shown
    ];
  }
