-- ===== src/Model/Protocol.antt =====
-- validate_history of harness/model_gateway/protocol.py. The two sets of identifiers are lists.
use mi_harness.Prelude.{
  String, Bool, true, false, ◌||◌, Option, none, some, List, [], ◌∷◌, if◌then◌else◌, same, contains,
}
use mi_harness.Exec.{Result, ok, err, invalid_history}

-- A ToolMessage with its tool_call_id, an AIMessage with the identifiers of its tool calls, or any
-- other message.
pub data Message : Type 0 where
  tool_result : String → Message
  assistant : List (Option String) → Message
  other : Message

-- `pending.remove`
unfoldable pub remove : String → List String → List String
remove id [] = []
remove id (x ∷ xs) = if same x id then xs else x ∷ remove id xs

-- The loop over the calls of one message, with the sets `pending` and `seen`.
unfoldable pub add_calls :
    List (Option String) → List String → List String → Result (List String × List String)
add_calls [] pending seen = ok (pending, seen)
add_calls (none ∷ calls) pending seen = err invalid_history
add_calls (some id ∷ calls) pending seen =
    let rest = add_calls calls (id ∷ pending) (id ∷ seen) in
    if same id "" || contains id seen then err invalid_history else rest

abbrev pub is_empty : List String → Bool
is_empty [] = true
is_empty (_ ∷ _) = false

abbrev pub and_then : {A B : Type 0} → Result A → (A → Result B) → Result B
and_then (ok a) f = f a
and_then (err c) f = err c

-- The loop over the messages.
unfoldable pub validate_messages : List Message → List String → List String → Result (List String)
validate_messages [] pending seen = ok pending
validate_messages (Message.tool_result id ∷ rest) pending seen =
    let further = validate_messages rest (remove id pending) seen in
    if contains id pending then further else err invalid_history
validate_messages (Message.assistant calls ∷ rest) pending seen =
    let further =
      and_then (add_calls calls pending seen) (λ sets. validate_messages rest sets.0 sets.1) in
    if is_empty pending then further else err invalid_history
validate_messages (Message.other ∷ rest) pending seen =
    let further = validate_messages rest pending seen in
    if is_empty pending then further else err invalid_history

-- validate_history
unfoldable pub validate_history : List Message → Bool → Result (List String)
validate_history messages allow_pending =
    and_then (validate_messages messages [] [])
      (λ pending. if is_empty pending || allow_pending then ok pending else err invalid_history)
