-- ===== src/Rpc/Answers.antt =====
-- The answers of lib/capn-rpc.c that are kept until `Finish`, and the targets that name a capability,
-- in an answer or by the index of an export.
pub mod Pipelining
use c_capnproto.Common.{
  ℕ, ◌+◌, Bool, true, false, not, ◌&&◌, Option, none, some, List, [], ◌∷◌, ltb, ◌==◌, length,
  if◌then◌else◌, ℤ, pos, negsuc, get_or, ◌>>=◌, ◌>>◌, guard,
}
use c_capnproto.Rpc.Messages.{
  Content, null, interface, struct, other, Payload, empty_payload, CapDescriptor, sender_hosted, Op,
  noop, step, PromisedAnswer, Outcome, Target, imported_cap, promised_answer, other_target, Reason,
  Return, results, exception, Message, return, pointer_field, no_bootstrap, export_table_full,
}
use c_capnproto.Rpc.Table.{find_slot, update}
use c_capnproto.Rpc.Conn.{
  Conn, Env, Answer, no_answer, Export, no_export, Handled, max_exports, max_answer_bytes,
  transmit_frame, send_message,
}
use c_capnproto.Rpc.Exports.{export}

abbrev pub is_free : Answer → Bool
is_free a = not a.used

abbrev pub answers : ℕ → Answer → Bool
answers qid a = a.used && (a.question_id == qid)

abbrev pub keep_answer : ℕ → List ℕ → Answer → Answer
keep_answer qid frame a = record { used = true; question_id = qid; frame = frame }

-- The loop of `send_answer`: with no slot left the answer is not kept.
unfoldable pub keep_frame : Conn → ℕ → List ℕ → Option ℕ → Conn
keep_frame c qid frame none = c
keep_frame c qid frame (some i) = record c { answers = update i (keep_answer qid frame) c.answers }

-- `send_answer`.
unfoldable pub send_answer : Env → Conn → ℕ → Message → Handled
unfolding keep_frame
send_answer env c qid m =
    let frame = env.encode m in
    if ltb max_answer_bytes (length frame)
    then (c, negsuc 0)
    else transmit_frame env (keep_frame c qid frame (find_slot is_free c.answers)) frame

-- `answer_find`, as the index of the slot.
unfoldable pub answer_find : Conn → ℕ → Option ℕ
answer_find c qid = find_slot (answers qid) c.answers

abbrev pub free_answer : Answer → Answer
free_answer a = record a { used = false }

unfoldable pub drop_slot : Conn → Option ℕ → Conn
drop_slot c none = c
drop_slot c (some i) = record c { answers = update i free_answer c.answers }

-- `answer_drop`.
unfoldable pub answer_drop : Conn → ℕ → Conn
unfolding drop_slot answer_find
answer_drop c qid = drop_slot c (answer_find c qid)

-- The payload of a Return of results.
abbrev pub payload_of : Outcome → Option Payload
payload_of (results none) = some empty_payload
payload_of (results (some pl)) = some pl
payload_of o = none

abbrev pub results_of : Message → Option Payload
results_of (return r) = payload_of r.outcome
results_of m = none

-- The steps of a transform: one into something without pointers leads nowhere.
unfoldable pub walk : Content → List Op → Option Content
walk cursor [] = some cursor
walk cursor (noop ∷ ops) = walk cursor ops
walk (struct words ps) (step off ∷ ops) = walk (pointer_field ps off) ops
walk cursor (step off ∷ ops) = none

-- The index of an export in use.
unfoldable pub hosted : List Export → ℕ → Option ℕ
hosted exports id =
    if ltb id max_exports && (get_or exports id no_export).used then some id else none

unfoldable pub sender_export : List Export → CapDescriptor → Option ℕ
sender_export exports (sender_hosted id) = hosted exports id
sender_export exports cd = none

-- The descriptor that a capability pointer names.
unfoldable pub descriptor_at : List CapDescriptor → ℕ → Option CapDescriptor
descriptor_at cds i = if ltb i (length cds) then some (get_or cds i (sender_hosted 0)) else none

unfoldable pub cap_descriptor : List CapDescriptor → Content → Option CapDescriptor
cap_descriptor cds (interface (pos i)) = descriptor_at cds i
cap_descriptor cds cursor = none

-- `resolve_promised_answer`, from the message of the answer on.
unfoldable pub resolve_answer : List Export → Message → List Op → Option ℕ
resolve_answer exports m ops = do
  pl ← results_of m
  cursor ← walk pl.content ops
  cd ← cap_descriptor pl.cap_table cursor
  sender_export exports cd

-- `resolve_promised_answer`.
unfoldable pub resolve_promised_answer : Env → Conn → Option PromisedAnswer → Option ℕ
resolve_promised_answer env c none = none
resolve_promised_answer env c (some pa) = do
  i ← answer_find c pa.question_id
  m ← env.decode (get_or c.answers i no_answer).frame
  resolve_answer c.exports m pa.transform

-- `resolve_target`.
unfoldable pub resolve_target : Env → Conn → Option Target → Option ℕ
resolve_target env c none = none
resolve_target env c (some (promised_answer pa)) = resolve_promised_answer env c pa
resolve_target env c (some (imported_cap id)) = hosted c.exports id
resolve_target env c (some other_target) = none

-- What `write_cap_payload` puts into a capTable and a pointer.
abbrev pub cap_table_of : ℕ → List CapDescriptor
cap_table_of eid = sender_hosted eid ∷ []

abbrev pub cap_pointer : Content
cap_pointer = interface (pos 0)

abbrev pub return_results : ℕ → Payload → Message
return_results qid pl = return (record { answer_id = qid; outcome = results (some pl) })

-- A Return of one capability.
abbrev pub return_cap : ℕ → ℕ → Message
return_cap qid eid =
    return_results qid (record { content = cap_pointer; cap_table = cap_table_of eid })

abbrev pub return_exception : ℕ → Reason → Message
return_exception qid reason = return (record { answer_id = qid; outcome = exception reason })

-- `send_return_exception`.
unfoldable pub send_return_exception : Env → Conn → ℕ → Reason → Handled
send_return_exception env c qid reason = send_message env c (return_exception qid reason)

-- `handle_bootstrap` after `capn_rpc_export`.
unfoldable pub answer_bootstrap : Env → Conn → ℕ → Option ℕ → Handled
answer_bootstrap env c qid none = send_return_exception env c qid export_table_full
answer_bootstrap env c qid (some eid) = send_answer env c qid (return_cap qid eid)

unfoldable pub bootstrap_with : Env → Conn → ℕ → Option ℕ → Handled
unfolding answer_bootstrap
bootstrap_with env c qid none = send_return_exception env c qid no_bootstrap
bootstrap_with env c qid (some server) =
    let exported = export c server c.bootstrap_dispatch in
    answer_bootstrap env exported.0 qid exported.1

-- `handle_bootstrap`.
unfoldable pub handle_bootstrap : Env → Conn → ℕ → Handled
unfolding bootstrap_with
handle_bootstrap env c qid = bootstrap_with env c qid c.bootstrap
