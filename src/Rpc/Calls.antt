-- ===== src/Rpc/Calls.antt =====
-- `handle_call` of lib/capn-rpc.c.
use c_capnproto.Common.{
  ℕ, zero, suc, Bool, true, false, Option, none, some, [], ◌∷◌, if◌then◌else◌, ℤ, pos, negsuc,
}
use c_capnproto.Rpc.Messages.{Content, Payload, empty_payload, Target, no_such_export, call_failed}
use c_capnproto.Rpc.Conn.{Conn, Env, Export, Handled, served}
use c_capnproto.Rpc.Exports.{export_at}
use c_capnproto.Rpc.Answers.{send_answer, send_return_exception, return_results, resolve_target}
use c_capnproto.Rpc.Introductions.{note_introductions}

-- `rc == 0`.
abbrev pub rc_ok : ℤ → Bool
rc_ok (pos zero) = true
rc_ok (pos (suc n)) = false
rc_ok (negsuc n) = false

unfoldable pub note_params : Conn → Option Payload → Conn
note_params c none = c
note_params c (some pl) = note_introductions c pl.cap_table

abbrev pub params_content : Option Payload → Content
params_content none = empty_payload.content
params_content (some pl) = pl.content

abbrev pub log_call : Conn → Export → ℕ → ℕ → Content → Conn
log_call c e interface_id method_id params = record c {
  log = served e.dispatch e.server interface_id method_id params ∷ c.log;
}

-- What follows the call of the server, with its return code and the results that it wrote. The
-- capTable of the results stays null.
unfoldable pub answer_call : Env → Conn → ℕ → ℤ × Content → Handled
answer_call env c qid reply =
    if rc_ok reply.0
    then send_answer env c qid (return_results qid (record { content = reply.1; cap_table = [] }))
    else send_return_exception env c qid call_failed

-- `handle_call` from `if (eid < 0)` on.
unfoldable pub call_export : Env → Conn → ℕ → ℕ → ℕ → Content → Option ℕ → Handled
unfolding answer_call
call_export env c qid interface_id method_id params none =
    send_return_exception env c qid no_such_export
call_export env c qid interface_id method_id params (some eid) =
    let e = export_at c eid in
    answer_call env (log_call c e interface_id method_id params) qid
      (env.dispatch c.log e.dispatch e.server interface_id method_id params)

-- `handle_call`.
unfoldable pub handle_call : Env → Conn → ℕ → Option Target → ℕ → ℕ → Option Payload → Handled
unfolding note_params call_export
handle_call env c qid target interface_id method_id params =
    let noted = note_params c params in
    call_export env noted qid interface_id method_id (params_content params)
      (resolve_target env noted target)
