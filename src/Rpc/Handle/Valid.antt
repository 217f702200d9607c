-- ===== src/Rpc/Handle/Valid.antt =====
-- `capn_rpc_handle` keeps the invariant of a connection, over any sequence of frames.
use c_capnproto.Common.{
  ℕ, ◌≡◌, refl, ap, ◌∙◌, true, Option, none, some, List, replicate, length-replicate,
  get_or-replicate, All, get_or, zero, suc, sym, Bool-clash,
}
use c_capnproto.Rpc.Messages.{
  Message, bootstrap, call, finish, release, join, return, resolve, disembargo, provides, accepts,
  unimplemented, others,
}
use c_capnproto.Rpc.Conn.{
  Conn, Env, Export, init, no_export, no_answer, no_question, no_provision, no_introduction,
  no_join, max_exports, max_answers, max_questions, max_provisions, max_introductions, max_joins,
}
use c_capnproto.Rpc.Exports.Valid as Exports
use c_capnproto.Rpc.Joins.Valid as Join
use c_capnproto.Rpc.Handle.{handle, handle_decoded, handle_message, send_unimplemented}
use c_capnproto.Rpc.Handle.Tables.{IsValid, send_message-IsValid}
use c_capnproto.Rpc.Handle.Steps.{
  handle_release-Conn-IsValid, answer_drop-IsValid, handle_bootstrap-IsValid, handle_call-IsValid,
  handle_return-IsValid, handle_disembargo-IsValid, handle_provide-IsValid, handle_accept-IsValid,
}
use c_capnproto.Rpc.Handle.Joining.{handle_join-IsValid}

handle_message-IsValid :
    (env : Env) (c : Conn) (frame : List ℕ) (m : Message)
    → IsValid c
    → IsValid (handle_message env c frame m).0
unfolding handle_message send_unimplemented
handle_message-IsValid env c frame (bootstrap qid) v = handle_bootstrap-IsValid env c qid v
handle_message-IsValid env c frame (call qid target interface_id method_id params) v =
    handle_call-IsValid env c qid target interface_id method_id params v
handle_message-IsValid env c frame (finish qid) v = answer_drop-IsValid c qid v
handle_message-IsValid env c frame (release id count) v = handle_release-Conn-IsValid c id count v
handle_message-IsValid env c frame (join qid target key) v =
    handle_join-IsValid env c qid target key v
handle_message-IsValid env c frame (return r) v = handle_return-IsValid c r frame v
handle_message-IsValid env c frame (resolve body) v = send_message-IsValid env c _ v
handle_message-IsValid env c frame (disembargo target context) v =
    handle_disembargo-IsValid env c target context v
handle_message-IsValid env c frame (provides qid target recipient) v =
    handle_provide-IsValid env c qid target recipient v
handle_message-IsValid env c frame (accepts qid provision embargo) v =
    handle_accept-IsValid env c qid provision embargo v
handle_message-IsValid env c frame (unimplemented m) v = send_message-IsValid env c _ v
handle_message-IsValid env c frame (others body) v = send_message-IsValid env c _ v

-- Whatever the frame, `capn_rpc_handle` keeps the invariant: each table has its declared size; an
-- export in use has a reference, and no two have one server; a join under way misses a part.
pub handle-IsValid :
    (env : Env) (c : Conn) (frame : List ℕ) → IsValid c → IsValid (handle env c frame).0
unfolding handle handle_decoded
handle-IsValid env c frame v = decoded (env.decode frame)
  where
    decoded : (o : Option Message) → IsValid (handle_decoded env c frame o).0
    decoded none = v
    decoded (some m) = handle_message-IsValid env c frame m v

empty-IsValid : Exports.IsValid (replicate max_exports no_export)
empty-IsValid = record {
  size = length-replicate max_exports no_export;
  distinct = λ i j u w e. unused i u;
}
  where
    unused :
        {A : Type 0} (i : ℕ)
        → (get_or (replicate max_exports no_export) i no_export).used ≡ true
        → A
    unused i u =
        Bool-clash true refl
          (sym u ∙ ap (λ (x : Export). x.used) (get_or-replicate max_exports i no_export))

All-replicate : {A : Type 0} (P : A → Type 0) (n : ℕ) (a : A) → P a → All P (replicate n a)
All-replicate P zero a p = tt
All-replicate P (suc n) a p = (p, All-replicate P n a p)

free : Join.IsOk no_join
free u = cc

pub init-IsValid : IsValid init
unfolding init
init-IsValid = record {
  exports_valid = empty-IsValid;
  answers_size = length-replicate max_answers no_answer;
  questions_size = length-replicate max_questions no_question;
  provisions_size = length-replicate max_provisions no_provision;
  introductions_size = length-replicate max_introductions no_introduction;
  joins_size = length-replicate max_joins no_join;
  joins_ok = All-replicate Join.IsOk max_joins no_join free;
}
