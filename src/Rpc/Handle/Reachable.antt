-- ===== src/Rpc/Handle/Reachable.antt =====
-- What a vat does with a connection besides handling frames, and the states that are reached.
use c_capnproto.Common.{
  ℕ, ◌≡◌, ◌∙◌, subst, Bool, true, false, Option, none, some, List, length, get_or, sym,
  if◌then◌else◌, ℤ,
}
use c_capnproto.Rpc.Messages.{Message}
use c_capnproto.Rpc.Conn.{
  Conn, Env, Provision, max_provisions, init, set_vat, set_bootstrap, send_message, no_introduction,
}
use c_capnproto.Rpc.Table.{find_slot, update, length-update}
use c_capnproto.Rpc.Exports.{export}
use c_capnproto.Rpc.Introductions.{introduction_done, finish_introduction, send_release, has_nonce}
use c_capnproto.Rpc.Calls.{rc_ok}
use c_capnproto.Rpc.Questions.{
  ask, ask_in, asked, claim_question, set_question, free_question, no_id, send_finish,
  send_disembargo_provide, free_slot, question_find,
}
use c_capnproto.Rpc.Questions
use c_capnproto.Rpc.Handle.{handle}
use c_capnproto.Rpc.Handle.Tables.{
  IsValid, send_message-IsValid, export-Conn-IsValid, with_questions, with_introductions,
  with_provisions,
}
use c_capnproto.Rpc.Handle.Valid.{handle-IsValid, init-IsValid}

ask-IsValid : (env : Env) (c : Conn) (build : ℕ → Message) → IsValid c → IsValid (ask env c build).0
unfolding ask ask_in asked claim_question
ask-IsValid env c build v = asks (find_slot Questions.is_free c.questions)
  where
    by_test :
        (d : Conn) (i qid : ℕ) (rc : ℤ) (t : Bool)
        → IsValid d
        → IsValid
            (if◌then◌else◌ {A = Conn × ℕ} t (d, qid) (set_question d i free_question, no_id)).0
    by_test d i qid rc true w = w
    by_test d i qid rc false w =
        with_questions _ w (length-update i _ d.questions ∙ w.questions_size)

    asks : (o : Option ℕ) → IsValid (ask_in env c build o).0
    asks none = v
    asks (some i) =
        by_test (send_message env (claim_question c i) (build c.next_question_id)).0 i
          c.next_question_id (send_message env (claim_question c i) (build c.next_question_id)).1
          (rc_ok (send_message env (claim_question c i) (build c.next_question_id)).1)
          (send_message-IsValid env (claim_question c i) _
            (with_questions _ v (length-update i _ c.questions ∙ v.questions_size)))

send_finish-IsValid :
    (env : Env) (c : Conn) (qid : ℕ) → IsValid c → IsValid (send_finish env c qid).0
unfolding send_finish free_slot
send_finish-IsValid env c qid v =
    send_message-IsValid env (free_slot c (question_find c qid)) _ (freed (question_find c qid))
  where
    freed : (o : Option ℕ) → IsValid (free_slot c o)
    freed none = v
    freed (some i) = with_questions _ v (length-update i _ c.questions ∙ v.questions_size)

introduction_done-IsValid :
    (env : Env) (c : Conn) (nonce : ℕ) → IsValid c → IsValid (introduction_done env c nonce).0
unfolding introduction_done finish_introduction send_release
introduction_done-IsValid env c nonce v = finished (find_slot (has_nonce nonce) c.introductions)
  where
    finished : (o : Option ℕ) → IsValid (finish_introduction env c o).0
    finished none = v
    finished (some i) =
        cleared (send_release env c (get_or c.introductions i no_introduction).vine_id 1).0
          (send_message-IsValid env c _ v)
      where
        cleared :
            (d : Conn)
            → IsValid d
            → IsValid (record d { introductions = update i (λ x. no_introduction) d.introductions })
        cleared d w =
            with_introductions _ w (length-update i _ d.introductions ∙ w.introductions_size)

-- A connection from `capn_rpc_init` on: what its peer sends, and what its vat does with it. `shares` is
-- `capn_rpc_set_vat`, at any time and with any contents of the table, which has the size of the array:
-- with it come all changes that the other connections of the vat make to a table that they share.
pub data Step (env : Env) (c : Conn) (d : Conn) : Type 0 where
  receives : (frame : List ℕ) → d ≡ (handle env c frame).0 → Step env c d
  sets_bootstrap :
      (server : Option ℕ) (dispatch : ℕ) → d ≡ set_bootstrap c server dispatch → Step env c d
  exports : (server dispatch : ℕ) → d ≡ (export c server dispatch).0 → Step env c d
  asks : (build : ℕ → Message) → d ≡ (ask env c build).0 → Step env c d
  finishes : (qid : ℕ) → d ≡ (send_finish env c qid).0 → Step env c d
  releases : (id count : ℕ) → d ≡ (send_release env c id count).0 → Step env c d
  disembargoes : (qid : ℕ) → d ≡ (send_disembargo_provide env c qid).0 → Step env c d
  shares : (vat : List Provision) → length vat ≡ max_provisions → d ≡ set_vat c vat → Step env c d
  picks_up : (nonce : ℕ) → d ≡ (introduction_done env c nonce).0 → Step env c d

pub data Reach (env : Env) : Conn → Type 0 where
  start : Reach env init
  next : {c d : Conn} → Reach env c → Step env c d → Reach env d

Step-IsValid : (env : Env) {c d : Conn} → Step env c d → IsValid c → IsValid d
unfolding set_bootstrap send_release set_vat send_disembargo_provide
Step-IsValid env {c} (receives frame e) v = subst IsValid (sym e) (handle-IsValid env c frame v)
Step-IsValid env {c} (sets_bootstrap server dispatch e) v = subst IsValid (sym e) v
Step-IsValid env {c} (exports server dispatch e) v =
    subst IsValid (sym e) (export-Conn-IsValid c server dispatch v)
Step-IsValid env {c} (asks build e) v = subst IsValid (sym e) (ask-IsValid env c build v)
Step-IsValid env {c} (finishes qid e) v = subst IsValid (sym e) (send_finish-IsValid env c qid v)
Step-IsValid env {c} (releases id count e) v =
    subst IsValid (sym e) (send_message-IsValid env c _ v)
Step-IsValid env {c} (disembargoes qid e) v = subst IsValid (sym e) (send_message-IsValid env c _ v)
Step-IsValid env {c} (shares vat l e) v = subst IsValid (sym e) (with_provisions vat v l)
Step-IsValid env {c} (picks_up nonce e) v =
    subst IsValid (sym e) (introduction_done-IsValid env c nonce v)

-- In every state that a connection reaches from `capn_rpc_init`, by any frames of its peer, any use by its vat
-- and any changes of the table that the connections of a vat share, its tables are valid: each has the
-- size of its array, no server is exported under two ids, and a join that is under way misses a part.
pub Reach-IsValid : (env : Env) {c : Conn} → Reach env c → IsValid c
Reach-IsValid env start = init-IsValid
Reach-IsValid env (next r s) = Step-IsValid env s (Reach-IsValid env r)
