-- ===== src/Rpc/Questions.antt =====
-- The client side of lib/capn-rpc.c: questions, their answers, and the messages that ask them.
pub mod Ids
pub mod Returns
use c_capnproto.Common.{
  ℕ, suc, ◌+◌, ◌-◌, ◌^◌, ◌%◌, Bool, true, false, not, ◌&&◌, Option, none, some, List, [], ◌∷◌, ltb,
  ◌==◌, length, if◌then◌else◌, ℤ, pos, negsuc, to_int, get_or, ◌>>=◌, ◌>>◌, guard,
}
use c_capnproto.Rpc.Messages.{
  Content, Payload, VatId, RecipientId, CapDescriptor, sender_hosted, Target, imported_cap, Outcome,
  results, Return, Message, bootstrap, call, finish, disembargo, provide, provides, accepts,
}
use c_capnproto.Rpc.Table.{find_slot, update}
use c_capnproto.Rpc.Conn.{Conn, Env, Question, no_question, Handled, max_answer_bytes, send_message}
use c_capnproto.Rpc.Answers.{results_of, cap_descriptor}
use c_capnproto.Rpc.Introductions.{note_introductions}
use c_capnproto.Rpc.Calls.{rc_ok, note_params}

abbrev pub is_free : Question → Bool
is_free q = not q.used

abbrev pub asks : ℕ → Question → Bool
asks qid q = q.used && (q.question_id == qid)

abbrev pub question_at : Conn → ℕ → Question
question_at c i = get_or c.questions i no_question

abbrev pub set_question : Conn → ℕ → (Question → Question) → Conn
set_question c i f = record c { questions = update i f c.questions }

abbrev pub new_question : ℕ → Question → Question
new_question qid q = record no_question { used = true; question_id = qid }

-- `q->used = 0`.
abbrev pub free_question : Question → Question
free_question q = record q { used = false }

-- What `question_claim` does to the slot that it finds.
unfoldable pub claim_question : Conn → ℕ → Conn
claim_question c i = record c {
  questions = update i (new_question c.next_question_id) c.questions;
  next_question_id = (c.next_question_id + 1) % 2 ^ 32;
}

-- `question_find`, as the index of the slot.
unfoldable pub question_find : Conn → ℕ → Option ℕ
question_find c qid = find_slot (asks qid) c.questions

-- `(uint32_t) -1`.
abbrev pub no_id : ℕ
no_id = 2 ^ 32 - 1

-- After `send_message`: a message that is not sent asks nothing.
unfoldable pub asked : ℕ → ℕ → Handled → Conn × ℕ
asked i qid sent =
    if rc_ok sent.1 then (sent.0, qid) else (set_question sent.0 i free_question, no_id)

unfoldable pub ask_in : Env → Conn → (ℕ → Message) → Option ℕ → Conn × ℕ
unfolding claim_question asked
ask_in env c build none = (c, no_id)
ask_in env c build (some i) =
    let qid = c.next_question_id in asked i qid (send_message env (claim_question c i) (build qid))

-- What the senders of a question share: `question_claim`, a message with the id, and its result.
unfoldable pub ask : Env → Conn → (ℕ → Message) → Conn × ℕ
unfolding ask_in
ask env c build = ask_in env c build (find_slot is_free c.questions)

-- `capn_rpc_send_bootstrap`.
unfoldable pub send_bootstrap : Env → Conn → Conn × ℕ
send_bootstrap env c = ask env c bootstrap

-- `capn_rpc_send_call`, with the content that `fill` writes.
unfoldable pub send_call : Env → Conn → ℕ → ℕ → ℕ → Content → Conn × ℕ
send_call env c imported interface_id method_id params =
    let pl : Payload = record { content = params; cap_table = [] } in
    ask env c (λ qid. call qid (some (imported_cap imported)) interface_id method_id (some pl))

-- `capn_rpc_send_provide`.
unfoldable pub send_provide : Env → Conn → ℕ → Option (List ℕ) → ℕ → ℕ → Conn × ℕ
send_provide env c imported none port nonce = (c, no_id)
send_provide env c imported (some host) port nonce =
    let vat : VatId = record { host = host; port = port } in
    let rid : RecipientId = record { vat = some vat; nonce = nonce } in
    ask env c (λ qid. provides qid (some (imported_cap imported)) (some rid))

-- `capn_rpc_send_accept`.
unfoldable pub send_accept : Env → Conn → ℕ → Bool → Conn × ℕ
send_accept env c nonce embargo = ask env c (λ qid. accepts qid (some nonce) embargo)

-- `capn_rpc_send_disembargo_provide`.
unfoldable pub send_disembargo_provide : Env → Conn → ℕ → Handled
send_disembargo_provide env c qid = send_message env c (disembargo none (provide qid))

unfoldable pub free_slot : Conn → Option ℕ → Conn
free_slot c none = c
free_slot c (some i) = set_question c i free_question

-- `capn_rpc_send_finish`.
unfoldable pub send_finish : Env → Conn → ℕ → Handled
unfolding free_slot
send_finish env c qid = send_message env (free_slot c (question_find c qid)) (finish qid)

unfoldable pub slot_answered : List Question → Option ℕ → Bool
slot_answered qs none = false
slot_answered qs (some i) = (get_or qs i no_question).answered

unfoldable pub slot_failed : List Question → Option ℕ → Bool
slot_failed qs none = false
slot_failed qs (some i) = (get_or qs i no_question).answered && (get_or qs i no_question).failed

-- `capn_rpc_is_answered` and `capn_rpc_is_failed`.
unfoldable pub is_answered : Conn → ℕ → Bool
unfolding slot_answered
is_answered c qid = slot_answered c.questions (question_find c qid)

unfoldable pub is_failed : Conn → ℕ → Bool
unfolding slot_failed
is_failed c qid = slot_failed c.questions (question_find c qid)

-- The payload of an answer that has come and is no exception.
unfoldable pub answer_payload : Env → Conn → ℕ → Option Payload
answer_payload env c qid = do
  i ← question_find c qid
  guard (question_at c i).answered
  guard (not (question_at c i).failed)
  m ← env.decode (question_at c i).reply
  results_of m

abbrev pub cap_id : Option CapDescriptor → ℤ
cap_id (some (sender_hosted id)) = to_int id
cap_id cd = negsuc 0

-- `capn_rpc_answer_cap_id`.
unfoldable pub answer_cap_id : Env → Conn → ℕ → ℤ
unfolding answer_payload
answer_cap_id env c qid =
    cap_id (answer_payload env c qid >>= λ pl. cap_descriptor pl.cap_table pl.content)

-- `capn_rpc_answer_content`, with the content that it stores.
unfoldable pub answer_content : Env → Conn → ℕ → Option Content
unfolding answer_payload
answer_content env c qid = do pl ← answer_payload env c qid; some pl.content

abbrev pub is_results : Outcome → Bool
is_results (results pl) = true
is_results o = false

abbrev pub outcome_payload : Outcome → Option Payload
outcome_payload (results pl) = pl
outcome_payload o = none

abbrev pub record_answer : Return → List ℕ → Question → Question
record_answer r frame q = record q {
  answered = true;
  failed = not (is_results r.outcome);
  reply = frame;
}

unfoldable pub return_to : Conn → Return → List ℕ → Option ℕ → Conn
return_to c r frame none = c
return_to c r frame (some i) =
    if ltb max_answer_bytes (length frame)
    then c
    else note_params (set_question c i (record_answer r frame)) (outcome_payload r.outcome)

-- `handle_return`.
unfoldable pub handle_return : Conn → Return → List ℕ → Conn
unfolding return_to
handle_return c r frame = return_to c r frame (question_find c r.answer_id)
