-- ===== src/Safety/History.antt =====
-- The histories that validate_history of harness/model_gateway/protocol.py accepts.
use mi_harness.Prelude.{
  ℕ, ◌+◌, ◌≤◌, String, ◌≡◌, refl, sym, subst, inl, inr, true, false, Option, none, some, List, [],
  ◌∷◌, arith, if◌then◌else◌, same, same→eq, same_refl, Bool-cases, contains,
}
use mi_harness.Exec.Atomic.{Result-cases}
use mi_harness.Model.Protocol.{
  Message, remove, add_calls, is_empty, and_then, validate_messages, validate_history,
}
use mi_harness.Exec.{ok}

-- How often an identifier occurs in a list, among the calls and among the results of a history.
unfoldable pub occurrences : String → List String → ℕ
occurrences id [] = 0
occurrences id (x ∷ xs) = (if same x id then 1 else 0) + occurrences id xs

unfoldable pub calls_in : String → List (Option String) → ℕ
calls_in id [] = 0
calls_in id (none ∷ calls) = calls_in id calls
calls_in id (some x ∷ calls) = (if same x id then 1 else 0) + calls_in id calls

unfoldable pub calls_of : String → List Message → ℕ
calls_of id [] = 0
calls_of id (Message.tool_result x ∷ rest) = calls_of id rest
calls_of id (Message.assistant calls ∷ rest) = calls_in id calls + calls_of id rest
calls_of id (Message.other ∷ rest) = calls_of id rest

unfoldable pub results_of : String → List Message → ℕ
results_of id [] = 0
results_of id (Message.tool_result x ∷ rest) = (if same x id then 1 else 0) + results_of id rest
results_of id (Message.assistant calls ∷ rest) = results_of id rest
results_of id (Message.other ∷ rest) = results_of id rest

absent : (id : String) (xs : List String) → contains id xs ≡ false → occurrences id xs ≡ 0
unfolding occurrences
absent id [] h = refl
absent id (x ∷ xs) h = ground (arith, absent id xs)

removed :
    (x id : String) (xs : List String)
    → contains x xs ≡ true
    → occurrences id xs ≡ (if same x id then 1 else 0) + occurrences id (remove x xs)
unfolding occurrences remove
removed x id [] h = ground arith
removed x id (y ∷ ys) h = ground (arith, removed x id ys, same→eq y x, same→eq x id, same_refl x)

abbrev Counted :
    String → List (Option String) → List String → List String → List String × List String → Type 0
Counted id calls pending seen sets =
    (occurrences id sets.0 ≡ calls_in id calls + occurrences id pending)
    × (occurrences id sets.1 ≡ calls_in id calls + occurrences id seen)
    × (occurrences id seen ≤ 1 → occurrences id sets.1 ≤ 1)

fresh_once :
    (id x : String) (seen : List String)
    → contains x seen ≡ false
    → occurrences id seen ≤ 1
    → occurrences id (x ∷ seen) ≤ 1
unfolding occurrences
fresh_once id x seen h once = elim (Bool-cases (same x id)) [
  | inl here ↦
      let same_id : x ≡ id = same→eq x id here in
      let none_yet : occurrences id seen ≡ 0 = absent id seen (rw (sym same_id, h)) in
      rw (here, none_yet) (omega arith)
  | inr elsewhere ↦ rw elsewhere (omega (arith, once))
]

add_calls_lem :
    (id : String) (calls : List (Option String)) (pending seen : List String)
    (sets : List String × List String)
    → add_calls calls pending seen ≡ ok sets
    → Counted id calls pending seen sets
unfolding add_calls calls_in occurrences
add_calls_lem id [] pending seen sets h =
    let same_sets : (pending, seen) ≡ sets = ground arith in
    subst (Counted id [] pending seen) same_sets (omega arith, omega arith, λ once. once)
add_calls_lem id (none ∷ calls) pending seen sets h =
    let absurd : ⊥ = ground arith in elim absurd [ ]
add_calls_lem id (some x ∷ calls) pending seen sets h =
    let unseen : contains x seen ≡ false = ground arith in
    let rest : add_calls calls (x ∷ pending) (x ∷ seen) ≡ ok sets = ground arith in
    let (in_pending, in_seen, once) = add_calls_lem id calls (x ∷ pending) (x ∷ seen) sets rest in
    (
      ground (arith, in_pending),
      ground (arith, in_seen),
      λ before. once (fresh_once id x seen unseen before),
    )

-- What a call of the loop has counted of one identifier.
abbrev Balanced : String → List Message → List String → List String → List String → Type 0
Balanced id messages pending seen final =
    (calls_of id messages + occurrences id pending ≡ results_of id messages + occurrences id final)
    × (calls_of id messages + occurrences id seen ≤ 1)

calls_checked :
    (calls : List (Option String)) (rest : List Message) (pending seen final : List String)
    → and_then (add_calls calls pending seen) (λ sets. validate_messages rest sets.0 sets.1)
      ≡ ok final
    → (sets : List String × List String) × (add_calls calls pending seen ≡ ok sets)
      × (validate_messages rest sets.0 sets.1 ≡ ok final)
calls_checked calls rest pending seen final h = elim (Result-cases (add_calls calls pending seen)) [
  | inl (sets, added) ↦ (sets, added, ground arith)
  | inr (code, failed) ↦ let absurd : ⊥ = ground arith in elim absurd [ ]
]

messages_lem :
    (id : String) (messages : List Message) (pending seen final : List String)
    → validate_messages messages pending seen ≡ ok final
    → occurrences id seen ≤ 1
    → Balanced id messages pending seen final
unfolding validate_messages calls_of results_of
messages_lem id [] pending seen final h once =
    let same_set : pending ≡ final = ground arith in (rw same_set, omega (arith, once))
messages_lem id (Message.tool_result x ∷ rest) pending seen final h once =
    let open_call : contains x pending ≡ true = ground arith in
    let further : validate_messages rest (remove x pending) seen ≡ ok final = ground arith in
    let (balance, bound) = messages_lem id rest (remove x pending) seen final further once in
    (ground (arith, removed x id pending open_call, balance), bound)
messages_lem id (Message.assistant calls ∷ rest) pending seen final h once =
    let run : and_then (add_calls calls pending seen) (λ sets. validate_messages rest sets.0 sets.1)
        ≡ ok final =
      ground arith in
    let (sets, added, further) = calls_checked calls rest pending seen final run in
    let (in_pending, in_seen, still) = add_calls_lem id calls pending seen sets added in
    let (balance, bound) = messages_lem id rest sets.0 sets.1 final further (still once) in
    (ground (arith, in_pending, balance), ground (arith, in_seen, bound))
messages_lem id (Message.other ∷ rest) pending seen final h once =
    messages_lem id rest pending seen final (ground arith) once

nothing : (id : String) (xs : List String) → is_empty xs ≡ true → occurrences id xs ≡ 0
unfolding occurrences
nothing id [] h = refl
nothing id (x ∷ xs) h = let absurd : ⊥ = ground arith in elim absurd [ ]

-- In a history that `validate_history` accepts for a model call, every tool call is answered exactly
-- once: each identifier has as many results as calls, and at most one call.
pub history_answers_calls :
    (messages : List Message) (pending : List String)
    → validate_history messages false ≡ ok pending
    → (id : String) → (results_of id messages ≡ calls_of id messages) × (calls_of id messages ≤ 1)
unfolding validate_history occurrences
history_answers_calls messages pending h id =
    elim (Result-cases (validate_messages messages [] [])) [
      | inl (final, done) ↦
          let (balance, bound) = messages_lem id messages [] [] final done (omega arith) in
          let closed : is_empty final ≡ true = ground arith in
          let settled : occurrences id final ≡ 0 = nothing id final closed in
          (omega (arith, balance, settled), omega (arith, bound))
      | inr (code, failed) ↦ let absurd : ⊥ = ground arith in elim absurd [ ]
    ]
