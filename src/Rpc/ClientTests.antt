-- ===== src/Rpc/ClientTests.antt =====
-- Runs of the client side of lib/capn-rpc.c at concrete inputs, and its theorems there.
use c_capnproto.Common.{
  ℕ, ◌≡◌, ◌≢◌, ◌↔◌, ◌⊎◌, refl, sym, ap, ◌∙◌, true, false, not, none, some, [], ◌∷◌, get_or,
  replicate, pos, arith, get_or-replicate,
}
use c_capnproto.Rpc.Messages.{Content, bootstrap, Return, results}
use c_capnproto.Rpc.Table.{find_slot, update}
use c_capnproto.Rpc.Conn.{Env, Conn, Question, init, no_question, send_message, transmit_frame}
use c_capnproto.Rpc.Answers.{return_cap}
use c_capnproto.Rpc.Questions.{
  ask, no_id, question_find, is_answered, is_failed, slot_answered, slot_failed, ask_in, asked,
  claim_question, handle_return, is_results,
}
use c_capnproto.Rpc.Questions.Ids.{IsFresh, ask-new}
use c_capnproto.Rpc.Questions.Returns.{handle_return-answers}
use c_capnproto.Rpc.Streams.{RpcStream, stream_init, stream_send, stream_finish}
use c_capnproto.Rpc.Streams.Window.{
  IsValid, stream_init-IsValid, stream_send-IsValid, stream_finish_lem, first_lost, failure,
  or_else,
}

-- A peer that takes every frame, and a codec whose frames all stand for one Return.
abbrev peer : Env
peer = record {
  encode = λ m. 1 ∷ [];
  decode = λ frame. some (return_cap 7 0);
  transmit = λ l frame. pos 0;
  dispatch = λ l f server interface_id method_id params. (pos 0, params);
}

init-IsFresh : IsFresh init.questions init.next_question_id
unfolding init
init-IsFresh = record {
  below = λ i u. absurd (unused i u);
  distinct = λ i j u w e. absurd (unused i u);
}
  where
    unused : (i : ℕ) → (get_or (replicate 64 no_question) i no_question).used ≢ true
    unused i u = clash (sym (ap (λ (q : Question). q.used) (get_or-replicate 64 i no_question)) ∙ u)
      where
        clash : false ≢ true
        clash e = cc

ask-new_example :
    IsFresh (ask peer init bootstrap).0.questions (ask peer init bootstrap).0.next_question_id
    × (((ask peer init bootstrap).1 ≡ no_id)
        ⊎ ((question_find init (ask peer init bootstrap).1 ≡ none)
            × (question_find (ask peer init bootstrap).0 (ask peer init bootstrap).1 ≢ none)
            × (is_answered (ask peer init bootstrap).0 (ask peer init bootstrap).1 ≡ false)))
unfolding init
ask-new_example = ask-new peer init bootstrap (omega arith) init-IsFresh

-- The state after one question, whose id is 0.
abbrev asking : Conn
asking = (ask peer init bootstrap).0

abbrev reply : Return
reply = record { answer_id = 0; outcome = results none }

handle_return-answers_example :
    ((question_find asking 0 ≡ none) → handle_return asking reply (1 ∷ []) ≡ asking)
    × ((question_find asking 0 ≢ none)
        → (is_answered (handle_return asking reply (1 ∷ [])) 0 ≡ true)
          × (is_failed (handle_return asking reply (1 ∷ [])) 0 ≡ not (is_results (results none))))
    × ((qid : ℕ)
        → qid ≢ 0
        → (is_answered (handle_return asking reply (1 ∷ [])) qid ≡ is_answered asking qid)
          × (is_failed (handle_return asking reply (1 ∷ [])) qid ≡ is_failed asking qid))
handle_return-answers_example = handle_return-answers asking reply (1 ∷ []) (omega arith)

stream_send-IsValid_example :
    IsValid (stream_send peer init (stream_init (pos 100)) 4 5 6 Content.null).0.1
stream_send-IsValid_example =
    stream_send-IsValid peer init (stream_init (pos 100)) 4 5 6 Content.null
      (stream_init-IsValid (pos 100))

-- Two calls wait, and the first has no answer yet.
abbrev two_calls : RpcStream
two_calls = record {
  window = 2;
  qids = 0 ∷ 1 ∷ [];
  failed = false;
  first_failure = 0;
  have_failure = false;
}

two_calls_lost : first_lost asking two_calls.qids ≡ some 0
unfolding first_lost is_answered slot_answered is_failed slot_failed question_find find_slot ask
    ask_in asked claim_question send_message transmit_frame update init
two_calls_lost = refl

stream_finish_lem_example :
    ((stream_finish peer asking two_calls).0.1.qids ≡ [])
    × (failure (stream_finish peer asking two_calls).0.1
        ≡ or_else none (first_lost asking two_calls.qids))
    × (((stream_finish peer asking two_calls).1 ≡ pos 0)
        ↔ (or_else none (first_lost asking two_calls.qids) ≡ none))
stream_finish_lem_example =
    stream_finish_lem peer asking two_calls ((λ e. omega (arith, e), tt), (tt, tt))
