-- ===== src/Rpc/Handle/Steps.antt =====
-- What each handler of `capn_rpc_handle` does to the invariant of a connection.
use c_capnproto.Common.{
  ℕ, ◌≡◌, refl, sym, subst, ◌∙◌, Bool, true, false, ◌&&◌, Option, none, some, List, [], ◌∷◌, length,
  ltb, if◌then◌else◌, ℤ,
}
use c_capnproto.Rpc.Messages.{
  Target, Context, Payload, CapDescriptor, Return, Content, RecipientId, provide, sender_loopback,
  receiver_loopback, accept, call_failed,
}
use c_capnproto.Rpc.Table.{find_slot, length-update}
use c_capnproto.Rpc.Conn.{Conn, Env, Introduction, max_exports, max_answer_bytes}
use c_capnproto.Rpc.Exports.{export_at, set_export, add_reference, drop_references, handle_release}
use c_capnproto.Rpc.Exports.Valid.{add_reference-IsValid, handle_release-IsValid}
use c_capnproto.Rpc.Answers.{
  answer_drop, drop_slot, answer_find, handle_bootstrap, bootstrap_with, answer_bootstrap,
  resolve_target, send_answer, send_return_exception, return_results,
}
use c_capnproto.Rpc.Introductions.{
  note_introductions, note_introduction, put_introduction, introduction_of,
}
use c_capnproto.Rpc.Introductions
use c_capnproto.Rpc.Calls.{
  handle_call, call_export, answer_call, note_params, params_content, log_call, rc_ok,
}
use c_capnproto.Rpc.Handoff.{
  handle_disembargo, release_provide_embargo, lift_embargo, awaits, send_accepted_cap,
  handle_provide, provide_target, provide_in, send_empty_return, handle_accept, accept_slot,
  claim_slot, claimable, provision_at, set_provision, hold,
}
use c_capnproto.Rpc.Handoff
use c_capnproto.Rpc.Questions.{
  handle_return, return_to, question_find, set_question, record_answer, outcome_payload,
}
use c_capnproto.Rpc.Handle.Tables.{
  IsValid, with_exports, with_answers, with_questions, with_provisions, with_introductions,
  send_message-IsValid, send_answer-IsValid, send_return_exception-IsValid, export-Conn-IsValid,
}

pub set_export-Conn-IsValid :
    (c : Conn) (i : ℕ) → IsValid c → IsValid (set_export c i add_reference)
set_export-Conn-IsValid c i v = with_exports _ v (add_reference-IsValid c.exports i v.exports_valid)

pub handle_release-Conn-IsValid :
    (c : Conn) (id count : ℕ) → IsValid c → IsValid (handle_release c id count)
unfolding handle_release
handle_release-Conn-IsValid c id count v =
    subst IsValid (sym same) (with_exports _ v (handle_release-IsValid c id count v.exports_valid))
  where
    by_test :
        (t : Bool)
        → (if t then set_export c id (drop_references count) else c) ≡ record c {
          exports = (if t then set_export c id (drop_references count) else c).exports;
        }
    by_test true = refl
    by_test false = refl

    same : handle_release c id count ≡ record c { exports = (handle_release c id count).exports }
    same = by_test (ltb id max_exports && (export_at c id).used)

pub answer_drop-IsValid : (c : Conn) (qid : ℕ) → IsValid c → IsValid (answer_drop c qid)
unfolding answer_drop drop_slot
answer_drop-IsValid c qid v = dropped (answer_find c qid)
  where
    dropped : (o : Option ℕ) → IsValid (drop_slot c o)
    dropped none = v
    dropped (some i) = with_answers _ v (length-update i _ c.answers ∙ v.answers_size)

pub handle_bootstrap-IsValid :
    (env : Env) (c : Conn) (qid : ℕ) → IsValid c → IsValid (handle_bootstrap env c qid).0
unfolding handle_bootstrap bootstrap_with answer_bootstrap
handle_bootstrap-IsValid env c qid v = with_server c.bootstrap
  where
    answered : (c' : Conn) (o : Option ℕ) → IsValid c' → IsValid (answer_bootstrap env c' qid o).0
    answered c' none w = send_return_exception-IsValid env c' qid _ w
    answered c' (some eid) w = send_answer-IsValid env c' qid _ w

    with_server : (o : Option ℕ) → IsValid (bootstrap_with env c qid o).0
    with_server none = send_return_exception-IsValid env c qid _ v
    with_server (some server) = answered _ _ (export-Conn-IsValid c server c.bootstrap_dispatch v)

pub note_introductions-IsValid :
    (c : Conn) (cds : List CapDescriptor) → IsValid c → IsValid (note_introductions c cds)
unfolding note_introductions note_introduction put_introduction
note_introductions-IsValid c [] v = v
note_introductions-IsValid c (cd ∷ cds) v =
    note_introductions-IsValid (note_introduction c (introduction_of cd)) cds
      (noted (introduction_of cd))
  where
    stored : (x : Introduction) (o : Option ℕ) → IsValid (put_introduction c x o)
    stored x none = v
    stored x (some j) =
        with_introductions _ v (length-update j _ c.introductions ∙ v.introductions_size)

    noted : (o : Option Introduction) → IsValid (note_introduction c o)
    noted none = v
    noted (some x) = stored x (find_slot Introductions.is_free c.introductions)

note_params-IsValid : (c : Conn) (o : Option Payload) → IsValid c → IsValid (note_params c o)
unfolding note_params
note_params-IsValid c none v = v
note_params-IsValid c (some pl) v = note_introductions-IsValid c pl.cap_table v

pub handle_call-IsValid :
    (env : Env) (c : Conn) (qid : ℕ) (target : Option Target) (interface_id method_id : ℕ)
    (params : Option Payload)
    → IsValid c
    → IsValid (handle_call env c qid target interface_id method_id params).0
unfolding handle_call call_export answer_call
handle_call-IsValid env c qid target interface_id method_id params v =
    called (note_params c params) (note_params-IsValid c params v)
      (resolve_target env (note_params c params) target)
  where
    content : Content
    content = params_content params

    replied :
        (c' : Conn) (reply : ℤ × Content) → IsValid c' → IsValid (answer_call env c' qid reply).0
    replied c' reply w = by_test (rc_ok reply.0)
      where
        by_test :
            (t : Bool)
            → IsValid
                (if t
                  then send_answer env c' qid
                      (return_results qid (record { content = reply.1; cap_table = [] }))
                  else send_return_exception env c' qid call_failed).0
        by_test true = send_answer-IsValid env c' qid _ w
        by_test false = send_return_exception-IsValid env c' qid _ w

    called :
        (c' : Conn)
        → IsValid c'
        → (o : Option ℕ) → IsValid (call_export env c' qid interface_id method_id content o).0
    called c' w none = send_return_exception-IsValid env c' qid _ w
    called c' w (some eid) =
        replied (log_call c' (export_at c' eid) interface_id method_id content)
          (env.dispatch c'.log (export_at c' eid).dispatch (export_at c' eid).server interface_id
            method_id content)
          w

pub handle_return-IsValid :
    (c : Conn) (r : Return) (frame : List ℕ) → IsValid c → IsValid (handle_return c r frame)
unfolding handle_return return_to
handle_return-IsValid c r frame v = returned (question_find c r.answer_id)
  where
    by_test :
        (i : ℕ) (t : Bool)
        → IsValid (
            if t
            then c
            else note_params (set_question c i (record_answer r frame)) (outcome_payload r.outcome))
    by_test i true = v
    by_test i false =
        note_params-IsValid (set_question c i (record_answer r frame)) (outcome_payload r.outcome)
          (with_questions _ v (length-update i _ c.questions ∙ v.questions_size))

    returned : (o : Option ℕ) → IsValid (return_to c r frame o)
    returned none = v
    returned (some i) = by_test i (ltb max_answer_bytes (length frame))

release_provide_embargo-IsValid :
    (env : Env) (c : Conn) (qid : ℕ) → IsValid c → IsValid (release_provide_embargo env c qid).0
unfolding release_provide_embargo lift_embargo send_accepted_cap
release_provide_embargo-IsValid env c qid v = lifted (find_slot (awaits qid) c.provisions)
  where
    lifted : (o : Option ℕ) → IsValid (lift_embargo env c o).0
    lifted none = v
    lifted (some i) =
        send_answer-IsValid env _ _ _
          (with_provisions _ v (length-update i _ c.provisions ∙ v.provisions_size))

pub handle_disembargo-IsValid :
    (env : Env) (c : Conn) (target : Option Target) (x : Context)
    → IsValid c
    → IsValid (handle_disembargo env c target x).0
unfolding handle_disembargo
handle_disembargo-IsValid env c target (provide qid) v = release_provide_embargo-IsValid env c qid v
handle_disembargo-IsValid env c target (sender_loopback id) v = send_message-IsValid env c _ v
handle_disembargo-IsValid env c target (receiver_loopback id) v = v
handle_disembargo-IsValid env c target accept v = v

pub handle_provide-IsValid :
    (env : Env) (c : Conn) (qid : ℕ) (target : Option Target) (recipient : Option RecipientId)
    → IsValid c
    → IsValid (handle_provide env c qid target recipient).0
unfolding handle_provide provide_target provide_in send_empty_return
handle_provide-IsValid env c qid target recipient v =
    provided recipient (resolve_target env c target)
  where
    held : (nonce eid : ℕ) (o : Option ℕ) → IsValid (provide_in env c qid nonce eid o).0
    held nonce eid none = send_return_exception-IsValid env c qid _ v
    held nonce eid (some i) = send_answer-IsValid env _ qid _ (
        set_export-Conn-IsValid (set_provision c i (hold nonce qid eid (export_at c eid))) eid
          (with_provisions _ v (length-update i _ c.provisions ∙ v.provisions_size)))

    provided :
        (rid : Option RecipientId) (o : Option ℕ) → IsValid (provide_target env c qid rid o).0
    provided rid none = send_return_exception-IsValid env c qid _ v
    provided none (some eid) = send_return_exception-IsValid env c qid _ v
    provided (some rid) (some eid) = held rid.nonce eid (find_slot Handoff.is_free c.provisions)

pub handle_accept-IsValid :
    (env : Env) (c : Conn) (qid : ℕ) (provision : Option ℕ) (embargo : Bool)
    → IsValid c
    → IsValid (handle_accept env c qid provision embargo).0
unfolding handle_accept accept_slot claim_slot
handle_accept-IsValid env c qid none embargo v = send_return_exception-IsValid env c qid _ v
handle_accept-IsValid env c qid (some nonce) embargo v =
    accepted (find_slot (claimable nonce) c.provisions)
  where
    claimed :
        (c' : Conn) (e : Bool) (i : ℕ) (o : Option ℕ)
        → IsValid c'
        → IsValid (claim_slot env c' qid e i o).0
    claimed c' e i none w = send_return_exception-IsValid env c' qid _ w
    claimed c' true i (some eid) w =
        with_provisions _ w (length-update i _ c'.provisions ∙ w.provisions_size)
    claimed c' false i (some eid) w =
        send_answer-IsValid env _ qid _
          (with_provisions _ w (length-update i _ c'.provisions ∙ w.provisions_size))

    accepted : (o : Option ℕ) → IsValid (accept_slot env c qid embargo o).0
    accepted none = send_return_exception-IsValid env c qid _ v
    accepted (some i) =
        claimed _ embargo i _
          (export-Conn-IsValid c (provision_at c i).server (provision_at c i).dispatch v)
