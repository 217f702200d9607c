-- ===== src/Rpc/Streams.antt =====
-- The flow control of `-> stream` methods in lib/capn-rpc.c.
pub mod Window
use c_capnproto.Common.{
  ℕ, zero, suc, ◌+◌, ◌-◌, ◌^◌, Bool, true, false, not, ◌&&◌, ◌||◌, Option, none, some, List, [],
  ◌∷◌, ◌++◌, ltb, leb, ◌==◌, length, if◌then◌else◌, ℤ, pos, negsuc, min, max,
}
use c_capnproto.Rpc.Messages.{Content}
use c_capnproto.Rpc.Conn.{Conn, Env}
use c_capnproto.Rpc.Questions.{no_id, send_call, send_finish, is_answered, is_failed}

-- `struct capn_rpc_stream`: the array `qids` up to `nout`, whose length is `nout`.
pub record RpcStream : Type 0 where
  pub window : ℕ
  pub qids : List ℕ
  pub failed : Bool
  pub first_failure : ℕ
  pub have_failure : Bool

abbrev pub max_window : ℕ
max_window = 64

-- `capn_rpc_stream_init`.
abbrev pub clamp : ℤ → ℕ
clamp (pos n) = min (max n 1) max_window
clamp (negsuc n) = 1

unfoldable pub stream_init : ℤ → RpcStream
stream_init window = record {
  window = clamp window;
  qids = [];
  failed = false;
  first_failure = 0;
  have_failure = false;
}

-- A call that is not answered, or with an exception, fails the stream; the first one is kept.
unfoldable pub note_outcome : Bool → ℕ → RpcStream → RpcStream
note_outcome lost qid s =
    if lost
    then record s {
      failed = true;
      first_failure = if s.have_failure then s.first_failure else qid;
      have_failure = true;
    }
    else s

unfoldable pub retire : Env → Conn → RpcStream → List ℕ → Conn × RpcStream
unfolding note_outcome
retire env c s [] = (c, s)
retire env c s (qid ∷ qids) = (
  (send_finish env c qid).0,
  note_outcome (not (is_answered c qid) || is_failed c qid) qid (record s { qids = qids }),
)

-- `stream_retire_oldest`.
unfoldable pub stream_retire_oldest : Env → Conn → RpcStream → Conn × RpcStream
unfolding retire
stream_retire_oldest env c s = retire env c s s.qids

abbrev pub add_call : RpcStream → Conn × ℕ → (Conn × RpcStream) × ℤ
add_call s (c, qid) =
    if qid == no_id
    then ((c, s), negsuc 0)
    else ((c, record s { qids = s.qids ++ (qid ∷ []) }), pos 0)

-- The test of `failed`, and the call.
unfoldable pub send_open : Env → Conn × RpcStream → ℕ → ℕ → ℕ → Content → (Conn × RpcStream) × ℤ
send_open env cs imported interface_id method_id params =
    if cs.1.failed
    then (cs, negsuc 0)
    else add_call cs.1 (send_call env cs.0 imported interface_id method_id params)

-- `capn_rpc_stream_send`: a full window retires its oldest call first.
unfoldable pub stream_send : Env → Conn → RpcStream → ℕ → ℕ → ℕ → Content → (Conn × RpcStream) × ℤ
unfolding send_open stream_retire_oldest
stream_send env c s imported interface_id method_id params =
    if s.failed
    then ((c, s), negsuc 0)
    else send_open env
        (if leb s.window (length s.qids) then stream_retire_oldest env c s else (c, s)) imported
        interface_id method_id params

-- The loop of `capn_rpc_stream_finish`, on fuel.
unfoldable pub retire_all : ℕ → Env → Conn × RpcStream → Conn × RpcStream
retire_all zero env cs = cs
retire_all (suc n) env cs = retire_all n env (stream_retire_oldest env cs.0 cs.1)

-- `capn_rpc_stream_finish`: each round retires one call.
unfoldable pub stream_finish : Env → Conn → RpcStream → (Conn × RpcStream) × ℤ
unfolding retire_all
stream_finish env c s =
    let done = retire_all (length s.qids) env (c, s) in
    (done, if done.1.have_failure then negsuc 0 else pos 0)
