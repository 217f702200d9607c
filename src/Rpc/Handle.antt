-- ===== src/Rpc/Handle.antt =====
-- `capn_rpc_handle` of lib/capn-rpc.c: what each message does to a connection.
pub mod Tables
pub mod Steps
pub mod Joining
pub mod Valid
pub mod Reachable
use c_capnproto.Common.{ℕ, Option, none, some, List, ℤ, pos, negsuc}
use c_capnproto.Rpc.Messages.{
  Message, bootstrap, call, finish, release, join, return, resolve, disembargo, provides, accepts,
  unimplemented, others,
}
use c_capnproto.Rpc.Conn.{Conn, Env, Handled, send_message}
use c_capnproto.Rpc.Exports.{handle_release}
use c_capnproto.Rpc.Answers.{answer_drop, handle_bootstrap}
use c_capnproto.Rpc.Calls.{handle_call}
use c_capnproto.Rpc.Joins.{handle_join}
use c_capnproto.Rpc.Handoff.{handle_disembargo, handle_provide, handle_accept}
use c_capnproto.Rpc.Questions.{handle_return}

-- `send_unimplemented`. The struct that it puts into the field `unimplemented` has the message in its
-- pointer, and in its data a zero, the discriminant of `unimplemented`: it is a message of that kind.
unfoldable pub send_unimplemented : Env → Conn → Message → Handled
send_unimplemented env c m = send_message env c (unimplemented (unimplemented m))

-- The `switch` of `capn_rpc_handle`.
unfoldable pub handle_message : Env → Conn → List ℕ → Message → Handled
unfolding send_unimplemented
handle_message env c frame (bootstrap qid) = handle_bootstrap env c qid
handle_message env c frame (call qid target interface_id method_id params) =
    handle_call env c qid target interface_id method_id params
handle_message env c frame (finish qid) = (answer_drop c qid, pos 0)
handle_message env c frame (release id count) = (handle_release c id count, pos 0)
handle_message env c frame (join qid target key) = handle_join env c qid target key
handle_message env c frame (return r) = (handle_return c r frame, pos 0)
handle_message env c frame (resolve body) = send_unimplemented env c (resolve body)
handle_message env c frame (disembargo target context) = handle_disembargo env c target context
handle_message env c frame (provides qid target recipient) =
    handle_provide env c qid target recipient
handle_message env c frame (accepts qid provision embargo) =
    handle_accept env c qid provision embargo
handle_message env c frame (unimplemented m) = send_unimplemented env c (unimplemented m)
handle_message env c frame (others body) = send_unimplemented env c (others body)

unfoldable pub handle_decoded : Env → Conn → List ℕ → Option Message → Handled
unfolding handle_message
handle_decoded env c frame none = (c, negsuc 0)
handle_decoded env c frame (some m) = handle_message env c frame m

-- `capn_rpc_handle`.
unfoldable pub handle : Env → Conn → List ℕ → Handled
unfolding handle_decoded
handle env c frame = handle_decoded env c frame (env.decode frame)
