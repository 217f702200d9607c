-- ===== src/Rpc/Handle/Tables.antt =====
-- The invariant of a connection: its tables, and what sends a message or exports a capability.
use c_capnproto.Common.{
  ℕ, ◌≡◌, sym, subst, ◌∙◌, Bool, true, false, Option, none, some, List, length, ltb, All,
  if◌then◌else◌, negsuc,
}
use c_capnproto.Rpc.Messages.{Message, Reason}
use c_capnproto.Rpc.Table.{find_slot, length-update}
use c_capnproto.Rpc.Conn.{
  Conn, Env, Export, Answer, Question, Provision, Introduction, Join, max_answers, max_questions,
  max_provisions, max_introductions, max_joins, max_answer_bytes, send_message, transmit_frame,
}
use c_capnproto.Rpc.Exports.{
  export, export_as, claim_export, set_export, add_reference, handle_release,
}
use c_capnproto.Rpc.Exports
use c_capnproto.Rpc.Exports.Valid.{
  export-IsValid, export-changes, add_reference-IsValid, handle_release-IsValid,
}
use c_capnproto.Rpc.Exports.Valid
use c_capnproto.Rpc.Answers.{
  send_answer, keep_frame, answer_drop, drop_slot, answer_find, handle_bootstrap, bootstrap_with,
  answer_bootstrap, send_return_exception, resolve_target,
}
use c_capnproto.Rpc.Answers
use c_capnproto.Rpc.Joins.Valid.{IsOk}

-- Each table has the size that the header declares; the exports are valid; a join in use is open.
pub record Tables (exports : List Export) (answers : List Answer) (questions : List Question)
    (provisions : List Provision) (introductions : List Introduction) (joins : List Join)
    : Type 0 where
  pub exports_valid : Exports.Valid.IsValid exports
  pub answers_size : length answers ≡ max_answers
  pub questions_size : length questions ≡ max_questions
  pub provisions_size : length provisions ≡ max_provisions
  pub introductions_size : length introductions ≡ max_introductions
  pub joins_size : length joins ≡ max_joins
  pub joins_ok : All IsOk joins

abbrev pub IsValid : Conn → Type 0
IsValid c = Tables c.exports c.answers c.questions c.provisions c.introductions c.joins

-- One table exchanged for another that is as good.
pub with_exports :
    {exports : List Export} {answers : List Answer} {questions : List Question}
    {provisions : List Provision} {introductions : List Introduction} {joins : List Join}
    (exports' : List Export)
    → Tables exports answers questions provisions introductions joins
    → Exports.Valid.IsValid exports'
    → Tables exports' answers questions provisions introductions joins
with_exports exports' v h = record {
  exports_valid = h;
  answers_size = v.answers_size;
  questions_size = v.questions_size;
  provisions_size = v.provisions_size;
  introductions_size = v.introductions_size;
  joins_size = v.joins_size;
  joins_ok = v.joins_ok;
}

pub with_answers :
    {exports : List Export} {answers : List Answer} {questions : List Question}
    {provisions : List Provision} {introductions : List Introduction} {joins : List Join}
    (answers' : List Answer)
    → Tables exports answers questions provisions introductions joins
    → length answers' ≡ max_answers
    → Tables exports answers' questions provisions introductions joins
with_answers answers' v h = record {
  exports_valid = v.exports_valid;
  answers_size = h;
  questions_size = v.questions_size;
  provisions_size = v.provisions_size;
  introductions_size = v.introductions_size;
  joins_size = v.joins_size;
  joins_ok = v.joins_ok;
}

pub with_questions :
    {exports : List Export} {answers : List Answer} {questions : List Question}
    {provisions : List Provision} {introductions : List Introduction} {joins : List Join}
    (questions' : List Question)
    → Tables exports answers questions provisions introductions joins
    → length questions' ≡ max_questions
    → Tables exports answers questions' provisions introductions joins
with_questions questions' v h = record {
  exports_valid = v.exports_valid;
  answers_size = v.answers_size;
  questions_size = h;
  provisions_size = v.provisions_size;
  introductions_size = v.introductions_size;
  joins_size = v.joins_size;
  joins_ok = v.joins_ok;
}

pub with_provisions :
    {exports : List Export} {answers : List Answer} {questions : List Question}
    {provisions : List Provision} {introductions : List Introduction} {joins : List Join}
    (provisions' : List Provision)
    → Tables exports answers questions provisions introductions joins
    → length provisions' ≡ max_provisions
    → Tables exports answers questions provisions' introductions joins
with_provisions provisions' v h = record {
  exports_valid = v.exports_valid;
  answers_size = v.answers_size;
  questions_size = v.questions_size;
  provisions_size = h;
  introductions_size = v.introductions_size;
  joins_size = v.joins_size;
  joins_ok = v.joins_ok;
}

pub with_introductions :
    {exports : List Export} {answers : List Answer} {questions : List Question}
    {provisions : List Provision} {introductions : List Introduction} {joins : List Join}
    (introductions' : List Introduction)
    → Tables exports answers questions provisions introductions joins
    → length introductions' ≡ max_introductions
    → Tables exports answers questions provisions introductions' joins
with_introductions introductions' v h = record {
  exports_valid = v.exports_valid;
  answers_size = v.answers_size;
  questions_size = v.questions_size;
  provisions_size = v.provisions_size;
  introductions_size = h;
  joins_size = v.joins_size;
  joins_ok = v.joins_ok;
}

pub with_joins :
    {exports : List Export} {answers : List Answer} {questions : List Question}
    {provisions : List Provision} {introductions : List Introduction} {joins : List Join}
    (joins' : List Join)
    → Tables exports answers questions provisions introductions joins
    → length joins' ≡ max_joins
    → All IsOk joins'
    → Tables exports answers questions provisions introductions joins'
with_joins joins' v h ok = record {
  exports_valid = v.exports_valid;
  answers_size = v.answers_size;
  questions_size = v.questions_size;
  provisions_size = v.provisions_size;
  introductions_size = v.introductions_size;
  joins_size = h;
  joins_ok = ok;
}

pub send_message-IsValid :
    (env : Env) (c : Conn) (m : Message) → IsValid c → IsValid (send_message env c m).0
unfolding send_message transmit_frame
send_message-IsValid env c m v = by_test (ltb max_answer_bytes (length (env.encode m)))
  where
    by_test :
        (t : Bool) → IsValid (if t then (c, negsuc 0) else transmit_frame env c (env.encode m)).0
    by_test true = v
    by_test false = v

pub send_answer-IsValid :
    (env : Env) (c : Conn) (qid : ℕ) (m : Message) → IsValid c → IsValid (send_answer env c qid m).0
unfolding send_answer transmit_frame keep_frame
send_answer-IsValid env c qid m v =
    by_test (ltb max_answer_bytes (length (env.encode m))) (find_slot Answers.is_free c.answers)
  where
    frame : List ℕ
    frame = env.encode m

    by_test :
        (t : Bool) (o : Option ℕ)
        → IsValid
            (if t then (c, negsuc 0) else transmit_frame env (keep_frame c qid frame o) frame).0
    by_test true o = v
    by_test false none = v
    by_test false (some i) = with_answers _ v (length-update i _ c.answers ∙ v.answers_size)

pub send_return_exception-IsValid :
    (env : Env) (c : Conn) (qid : ℕ) (r : Reason)
    → IsValid c
    → IsValid (send_return_exception env c qid r).0
unfolding send_return_exception
send_return_exception-IsValid env c qid r v = send_message-IsValid env c _ v

-- `capn_rpc_export` changes the exports alone.
pub export-Conn-IsValid :
    (c : Conn) (server dispatch : ℕ) → IsValid c → IsValid (export c server dispatch).0
export-Conn-IsValid c server dispatch v =
    subst IsValid (sym (export-changes c server dispatch))
      (with_exports _ v (export-IsValid c server dispatch v.exports_valid))
