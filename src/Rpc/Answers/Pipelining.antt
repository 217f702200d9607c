-- ===== src/Rpc/Answers/Pipelining.antt =====
-- A call may name a capability in an answer from the time the answer is sent until its `Finish`.
use c_capnproto.Common.{
  ℕ, ◌≤◌, ◌<◌, ◌≡◌, refl, sym, ap, ◌∙◌, Bool, true, false, Option, none, some, List, [], ltb,
  length, if◌then◌else◌, negsuc, get_or, arith, Bool-cases, Bool-clash, eq→==, ltb→lt, ltb→le,
  lt→ltb, le→ltb, get_or-past, inl, inr,
}
use c_capnproto.Rpc.Messages.{Op, promised_answer, Message}
use c_capnproto.Rpc.Table.{
  find_slot, update, update_cases, get-update, find_slot-holds, find_slot-misses, find_slot_unique,
  find_slot-none, length-update,
}
use c_capnproto.Rpc.Conn.{
  Conn, Env, Answer, no_answer, Export, no_export, Handled, max_exports, max_answer_bytes,
  transmit_frame,
}
use c_capnproto.Rpc.Exports.{export_at, export}
use c_capnproto.Rpc.Exports.Valid.{IsValid, export-changes}
use c_capnproto.Rpc.Exports.References.{export-Exported}
use c_capnproto.Rpc.Answers.{
  is_free, answers, keep_answer, keep_frame, send_answer, answer_find, free_answer, drop_slot,
  answer_drop, walk, hosted, resolve_answer, resolve_promised_answer, resolve_target, return_cap,
  handle_bootstrap, bootstrap_with, answer_bootstrap, sender_export, cap_descriptor, descriptor_at,
}

-- Where the answer of a question that has none yet is kept.
module _ (env : Env) (c : Conn) (qid k : ℕ) (m : Message)
    (fits : length (env.encode m) ≤ max_answer_bytes) (room : find_slot is_free c.answers ≡ some k)
    (fresh : answer_find c qid ≡ none) where
  -- `send_answer` keeps the frame in the first free slot.
  kept : List Answer
  kept = update k (keep_answer qid (env.encode m)) c.answers

  pub send_answer-keeps :
      send_answer env c qid m
      ≡ transmit_frame env
          (record c { answers = update k (keep_answer qid (env.encode m)) c.answers })
          (env.encode m)
  unfolding send_answer keep_frame
  send_answer-keeps = rw (le→ltb max_answer_bytes (length (env.encode m)) fits, room) refl

  slot : k < length c.answers
  slot = (find_slot-holds is_free c.answers no_answer room).0

  others :
      (i : ℕ)
      → answers qid (get_or (update k (keep_answer qid (env.encode m)) c.answers) i no_answer)
        ≡ true
      → i ≡ k
  unfolding answer_find
  others i =
      update_cases (λ a. answers qid a ≡ true → i ≡ k) k (keep_answer qid (env.encode m)) c.answers
        no_answer i (λ e l h. sym e) (λ n h. none_before h) (λ h. cc)
    where
      none_before : answers qid (get_or c.answers i no_answer) ≡ true → i ≡ k
      none_before h = elim (Bool-cases (ltb i (length c.answers))) [
        | inl l ↦
            Bool-clash (answers qid (get_or c.answers i no_answer)) h
              (find_slot-misses (answers qid) c.answers no_answer fresh i (ltb→lt _ _ l))
        | inr g ↦
            Bool-clash (answers qid (get_or c.answers i no_answer)) h
              (ap (answers qid) (get_or-past c.answers i no_answer (ltb→le _ _ g)))
      ]

  there :
      get_or (update k (keep_answer qid (env.encode m)) c.answers) k no_answer
      ≡ keep_answer qid (env.encode m) (get_or c.answers k no_answer)
  there = get-update k (keep_answer qid (env.encode m)) c.answers no_answer slot

  pub send_answer-find :
      find_slot (answers qid) (update k (keep_answer qid (env.encode m)) c.answers) ≡ some k
  send_answer-find =
      find_slot_unique (answers qid) _ no_answer k
        (omega (arith, slot, length-update k (keep_answer qid (env.encode m)) c.answers))
        (rw (there, eq→== qid qid refl) refl) (λ j l. others j)

  -- Once it is dropped, no answer has the id.
  pub send_answer-drop :
      find_slot
        (answers qid)
        (update k free_answer (update k (keep_answer qid (env.encode m)) c.answers))
      ≡ none
  send_answer-drop = find_slot-none (answers qid) _ no_answer (λ j l. gone j)
    where
      gone :
          (j : ℕ)
          → answers qid (
              get_or
                (update k free_answer (update k (keep_answer qid (env.encode m)) c.answers))
                j
                no_answer)
            ≡ false
      gone j =
          update_cases (λ a. answers qid a ≡ false) k free_answer
            (update k (keep_answer qid (env.encode m)) c.answers) no_answer j (λ e l. refl)
            (λ n.
              elim (Bool-cases (
                answers qid
                  (get_or (update k (keep_answer qid (env.encode m)) c.answers) j no_answer))) [
                    | inl h ↦ absurd (n (sym (others j h)))
                    | inr h ↦ h
                  ])
            refl

-- What a promise on the answer `qid` finds after `send_answer`, and after `Finish`.
pub send_answer-resolves :
    (env : Env) (c : Conn) (qid k : ℕ) (m : Message) (ops : List Op)
    → length (env.encode m) ≤ max_answer_bytes
    → find_slot is_free c.answers ≡ some k
    → answer_find c qid ≡ none
    → env.decode (env.encode m) ≡ some m
    → (resolve_promised_answer env
          (send_answer env c qid m).0
          (some (record { question_id = qid; transform = ops }))
        ≡ resolve_answer (send_answer env c qid m).0.exports m ops)
      × (resolve_promised_answer env
            (answer_drop (send_answer env c qid m).0 qid)
            (some (record { question_id = qid; transform = ops }))
          ≡ none)
unfolding resolve_promised_answer answer_find answer_drop drop_slot transmit_frame
send_answer-resolves env c qid k m ops fits room fresh codec =
    rw
      (
        send_answer-keeps env c qid k m fits room fresh,
        send_answer-find env c qid k m fits room fresh,
        there env c qid k m fits room fresh,
        send_answer-drop env c qid k m fits room fresh,
        codec,
      )
      (refl, refl)

export-answers : (c : Conn) (server dispatch : ℕ) → (export c server dispatch).0.answers ≡ c.answers
export-answers c server dispatch = ap (λ d. d.answers) (export-changes c server dispatch)

-- A Return of the export `eid` resolves to it while the export is in use.
pub resolve-return_cap :
    (exports : List Export) (qid eid : ℕ)
    → eid < max_exports
    → (get_or exports eid no_export).used ≡ true
    → resolve_answer exports (return_cap qid eid) [] ≡ some eid
unfolding resolve_answer walk cap_descriptor descriptor_at sender_export hosted
resolve-return_cap exports qid eid l u = rw (lt→ltb eid 64 l, u) refl

-- An answer changes the answers and the log alone.
pub send_answer-changes :
    (env : Env) (c : Conn) (qid : ℕ) (m : Message)
    → (send_answer env c qid m).0 ≡ record c {
      answers = (send_answer env c qid m).0.answers;
      log = (send_answer env c qid m).0.log;
    }
unfolding send_answer transmit_frame keep_frame
send_answer-changes env c qid m =
    by_test (ltb max_answer_bytes (length (env.encode m))) (find_slot is_free c.answers)
  where
    frame : List ℕ
    frame = env.encode m

    outcome : Bool → Option ℕ → Handled
    outcome t o = if t then (c, negsuc 0) else transmit_frame env (keep_frame c qid frame o) frame

    by_test :
        (t : Bool) (o : Option ℕ)
        → (outcome t o).0
          ≡ record c { answers = (outcome t o).0.answers; log = (outcome t o).0.log }
    by_test true o = refl
    by_test false none = refl
    by_test false (some i) = refl

handle_bootstrap-sends :
    (env : Env) (c : Conn) (qid server eid : ℕ)
    → c.bootstrap ≡ some server
    → (export c server c.bootstrap_dispatch).1 ≡ some eid
    → handle_bootstrap env c qid
      ≡ send_answer env (export c server c.bootstrap_dispatch).0 qid (return_cap qid eid)
unfolding handle_bootstrap bootstrap_with answer_bootstrap
handle_bootstrap-sends env c qid server eid b x =
    ap (bootstrap_with env c qid) b
    ∙ ap (answer_bootstrap env (export c server c.bootstrap_dispatch).0 qid) x

-- If the vat has a bootstrap capability, room for it among the exports and room for the answer, the
-- question id is not that of an answer that is kept, and the codec reads back the Return: a promise on
-- the answer to Bootstrap finds the export of that capability at once, and nothing after `Finish`.
pub handle_bootstrap-pipelines :
    (env : Env) (c : Conn) (qid server eid k : ℕ)
    → IsValid c.exports
    → c.bootstrap ≡ some server
    → (export c server c.bootstrap_dispatch).1 ≡ some eid
    → find_slot is_free c.answers ≡ some k
    → answer_find c qid ≡ none
    → length (env.encode (return_cap qid eid)) ≤ max_answer_bytes
    → env.decode (env.encode (return_cap qid eid)) ≡ some (return_cap qid eid)
    → (resolve_target env
          (handle_bootstrap env c qid).0
          (some (promised_answer (some (record { question_id = qid; transform = [] }))))
        ≡ some eid)
      × ((export_at (handle_bootstrap env c qid).0 eid).server ≡ server)
      × (resolve_target env
            (answer_drop (handle_bootstrap env c qid).0 qid)
            (some (promised_answer (some (record { question_id = qid; transform = [] }))))
          ≡ none)
unfolding resolve_target answer_find
handle_bootstrap-pipelines env c qid server eid k v b x room fresh fits codec =
    rw (handle_bootstrap-sends env c qid server eid b x) (
      both.0
          ∙ resolve-return_cap _ qid eid (omega (arith, at.0, v.size))
              (ap (λ e. e.used) same ∙ at.1),
      ap (λ e. e.server) same ∙ at.2,
      both.1,
    )
  where
    c' : Conn
    c' = (export c server c.bootstrap_dispatch).0

    at :
        (eid < length c.exports)
        × ((export_at c' eid).used ≡ true)
        × ((export_at c' eid).server ≡ server)
    at = export-Exported c server c.bootstrap_dispatch eid x

    same : export_at (send_answer env c' qid (return_cap qid eid)).0 eid ≡ export_at c' eid
    same =
        ap (λ xs. get_or xs eid no_export)
          (ap (λ (d : Conn). d.exports) (send_answer-changes env c' qid (return_cap qid eid)))

    both :
        (resolve_promised_answer env
            (send_answer env c' qid (return_cap qid eid)).0
            (some (record { question_id = qid; transform = [] }))
          ≡ resolve_answer
              (send_answer env c' qid (return_cap qid eid)).0.exports
              (return_cap qid eid)
              [])
        × (resolve_promised_answer env
              (answer_drop (send_answer env c' qid (return_cap qid eid)).0 qid)
              (some (record { question_id = qid; transform = [] }))
            ≡ none)
    both =
        send_answer-resolves env c' qid k (return_cap qid eid) [] fits
          (ap (find_slot is_free) (export-answers c server c.bootstrap_dispatch) ∙ room)
          (ap (find_slot (answers qid)) (export-answers c server c.bootstrap_dispatch) ∙ fresh)
          codec
