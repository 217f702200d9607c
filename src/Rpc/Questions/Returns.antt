-- ===== src/Rpc/Questions/Returns.antt =====
-- What `handle_return` does to the questions.
use c_capnproto.Common.{
  ℕ, ◌≤◌, ◌<◌, ◌≡◌, ◌≢◌, refl, sym, ap, subst, ◌∙◌, true, false, not, ◌&&◌, Option, none, some,
  List, [], ◌∷◌, length, get_or, le→ltb, Bool-cases, Bool-clash, inl, inr,
}
use c_capnproto.Rpc.Messages.{Return, Payload, CapDescriptor, finish}
use c_capnproto.Rpc.Table.{
  find_slot, update, get-update, get-update_other, find_slot-holds, find_slot-update,
}
use c_capnproto.Rpc.Conn.{
  Conn, Env, send_message-changes, Question, no_question, max_answer_bytes, Introduction,
}
use c_capnproto.Rpc.Introductions.{
  note_introductions, note_introduction, put_introduction, introduction_of,
}
use c_capnproto.Rpc.Introductions
use c_capnproto.Rpc.Calls.{note_params}
use c_capnproto.Rpc.Questions.Ids.{asks-holds}
use c_capnproto.Rpc.Questions.{
  asks, free_question, free_slot, send_finish, question_at, set_question, question_find,
  slot_answered, slot_failed, is_answered, is_failed, is_results, outcome_payload, record_answer,
  return_to, handle_return,
}

-- What a payload introduces changes the introductions alone.
note_introductions-questions :
    (c : Conn) (cds : List CapDescriptor) → (note_introductions c cds).questions ≡ c.questions
unfolding note_introductions note_introduction put_introduction
note_introductions-questions c [] = refl
note_introductions-questions c (cd ∷ cds) =
    note_introductions-questions (note_introduction c (introduction_of cd)) cds
    ∙ noted (introduction_of cd)
  where
    stored : (x : Introduction) (o : Option ℕ) → (put_introduction c x o).questions ≡ c.questions
    stored x none = refl
    stored x (some j) = refl

    noted : (o : Option Introduction) → (note_introduction c o).questions ≡ c.questions
    noted none = refl
    noted (some x) = stored x (find_slot Introductions.is_free c.introductions)

note_params-questions : (c : Conn) (o : Option Payload) → (note_params c o).questions ≡ c.questions
unfolding note_params
note_params-questions c none = refl
note_params-questions c (some pl) = note_introductions-questions c pl.cap_table

-- Whether a question is answered, and whether it failed, depends on the questions alone.
same_questions :
    (d e : Conn) (qid : ℕ)
    → d.questions ≡ e.questions
    → (is_answered d qid ≡ is_answered e qid) × (is_failed d qid ≡ is_failed e qid)
unfolding is_answered is_failed slot_answered slot_failed question_find
same_questions d e qid h = (
  ap (λ xs. slot_answered xs (find_slot (asks qid) xs)) h,
  ap (λ xs. slot_failed xs (find_slot (asks qid) xs)) h,
)

handle_return-to :
    (c : Conn) (r : Return) (frame : List ℕ) (o : Option ℕ)
    → question_find c r.answer_id ≡ o
    → handle_return c r frame ≡ return_to c r frame o
unfolding handle_return
handle_return-to c r frame o e = ap (return_to c r frame) e

-- `capn_rpc_send_finish` leaves the other questions alone.
pub send_finish-other :
    (env : Env) (c : Conn) (q qid : ℕ)
    → qid ≢ q
    → (is_answered (send_finish env c q).0 qid ≡ is_answered c qid)
      × (is_failed (send_finish env c q).0 qid ≡ is_failed c qid)
unfolding send_finish free_slot question_find is_answered is_failed slot_answered slot_failed
send_finish-other env c q qid n =
    subst
      (λ xs.
        (slot_answered xs (find_slot (asks qid) xs) ≡ is_answered c qid)
        × (slot_failed xs (find_slot (asks qid) xs) ≡ is_failed c qid))
      (sym (
        ap (λ (d : Conn). d.questions)
          (send_message-changes env (free_slot c (question_find c q)) (finish q))))
      (freed (question_find c q) refl)
  where
    freed :
        (o : Option ℕ)
        → question_find c q ≡ o
        → (slot_answered (free_slot c o).questions (find_slot (asks qid) (free_slot c o).questions)
            ≡ is_answered c qid)
          × (slot_failed (free_slot c o).questions (find_slot (asks qid) (free_slot c o).questions)
              ≡ is_failed c qid)
    freed none e = (refl, refl)
    freed (some i) e = rw (same) (closed (find_slot (asks qid) c.questions) refl)
      where
        at : (i < length c.questions) × (asks q (question_at c i) ≡ true)
        at = find_slot-holds (asks q) c.questions no_question e

        not_asked : asks qid (question_at c i) ≡ false
        not_asked = elim (Bool-cases (asks qid (question_at c i))) [
          | inl h ↦ absurd (
              n (
                sym (asks-holds qid (question_at c i) h).1
                ∙ (asks-holds q (question_at c i) at.1).1))
          | inr h ↦ h
        ]

        same :
            find_slot (asks qid) (update i free_question c.questions)
            ≡ find_slot (asks qid) c.questions
        same =
            find_slot-update (asks qid) i free_question c.questions no_question (λ l. sym not_asked)

        closed :
            (o : Option ℕ)
            → find_slot (asks qid) c.questions ≡ o
            → (slot_answered (update i free_question c.questions) o ≡ slot_answered c.questions o)
              × (slot_failed (update i free_question c.questions) o ≡ slot_failed c.questions o)
        closed none g = (refl, refl)
        closed (some k) g = (
          ap (λ (x : Question). x.answered) kept,
          ap (λ (x : Question). x.answered && x.failed) kept,
        )
          where
            kept : get_or (update i free_question c.questions) k no_question ≡ question_at c k
            kept = get-update_other i k free_question c.questions no_question (λ h.
                Bool-clash (asks qid (question_at c k))
                  (find_slot-holds (asks qid) c.questions no_question g).1
                  (ap (λ j. asks qid (question_at c j)) (sym h) ∙ not_asked))

-- The questions after a Return to the slot `i`.
module _ (c : Conn) (r : Return) (frame : List ℕ) (i : ℕ)
    (found : question_find c r.answer_id ≡ some i) where
  answered : List Question
  answered = update i (record_answer r frame) c.questions

  held : (i < length c.questions) × (asks r.answer_id (question_at c i) ≡ true)
  unfolding question_find
  held = find_slot-holds (asks r.answer_id) c.questions no_question found

  return_to-questions :
      length frame ≤ max_answer_bytes
      → (handle_return c r frame).questions ≡ update i (record_answer r frame) c.questions
  unfolding return_to
  return_to-questions fits =
      ap (λ (d : Conn). d.questions) (handle_return-to c r frame (some i) found)
      ∙ rw (le→ltb max_answer_bytes (length frame) fits) (
          note_params-questions (set_question c i (record_answer r frame))
            (outcome_payload r.outcome))

  find-answered :
      (qid : ℕ)
      → find_slot (asks qid) (update i (record_answer r frame) c.questions)
        ≡ find_slot (asks qid) c.questions
  find-answered qid =
      find_slot-update (asks qid) i (record_answer r frame) c.questions no_question (λ l. refl)

  there :
      get_or (update i (record_answer r frame) c.questions) i no_question
      ≡ record_answer r frame (question_at c i)
  there = get-update i (record_answer r frame) c.questions no_question held.0

  -- The question that the Return names.
  return_to-known :
      (slot_answered
          (update i (record_answer r frame) c.questions)
          (find_slot (asks r.answer_id) (update i (record_answer r frame) c.questions))
        ≡ true)
      × (slot_failed
            (update i (record_answer r frame) c.questions)
            (find_slot (asks r.answer_id) (update i (record_answer r frame) c.questions))
          ≡ not (is_results r.outcome))
  unfolding question_find slot_answered slot_failed
  return_to-known =
      rw (find-answered r.answer_id, found)
        (
          ap (λ (x : Question). x.answered) there,
          ap (λ (x : Question). x.answered && x.failed) there,
        )

  return_to-other :
      (qid : ℕ)
      → qid ≢ r.answer_id
      → (o : Option ℕ) → find_slot (asks qid) c.questions ≡ o
      → (slot_answered (update i (record_answer r frame) c.questions) o
          ≡ slot_answered c.questions o)
        × (slot_failed (update i (record_answer r frame) c.questions) o ≡ slot_failed c.questions o)
  unfolding slot_answered slot_failed
  return_to-other qid n none e = (refl, refl)
  return_to-other qid n (some k) e =
      (ap (λ (x : Question). x.answered) same, ap (λ (x : Question). x.answered && x.failed) same)
    where
      apart : i ≢ k
      apart h = n (
          sym
            (asks-holds qid (question_at c k)
              (find_slot-holds (asks qid) c.questions no_question e).1).1
          ∙ sym (ap (λ j. (question_at c j).question_id) h)
          ∙ (asks-holds r.answer_id (question_at c i) held.1).1)

      same : get_or (update i (record_answer r frame) c.questions) k no_question ≡ question_at c k
      same = get-update_other i k (record_answer r frame) c.questions no_question apart

-- A Return that fits answers the open question that it names, and no other: the question failed unless
-- the Return is of results. A Return for a question that is not open changes nothing.
pub handle_return-answers :
    (c : Conn) (r : Return) (frame : List ℕ)
    → length frame ≤ max_answer_bytes
    → ((question_find c r.answer_id ≡ none) → handle_return c r frame ≡ c)
      × ((question_find c r.answer_id ≢ none)
          → (is_answered (handle_return c r frame) r.answer_id ≡ true)
            × (is_failed (handle_return c r frame) r.answer_id ≡ not (is_results r.outcome)))
      × ((qid : ℕ)
          → qid ≢ r.answer_id
          → (is_answered (handle_return c r frame) qid ≡ is_answered c qid)
            × (is_failed (handle_return c r frame) qid ≡ is_failed c qid))
unfolding return_to is_answered is_failed question_find
handle_return-answers c r frame fits = (
  unknown,
  λ h. known (question_find c r.answer_id) refl h,
  λ qid n. others (question_find c r.answer_id) refl qid n,
)
  where
    unknown : question_find c r.answer_id ≡ none → handle_return c r frame ≡ c
    unknown e = handle_return-to c r frame none e

    known :
        (o : Option ℕ)
        → question_find c r.answer_id ≡ o
        → question_find c r.answer_id ≢ none
        → (is_answered (handle_return c r frame) r.answer_id ≡ true)
          × (is_failed (handle_return c r frame) r.answer_id ≡ not (is_results r.outcome))
    known none e h = absurd (h e)
    known (some i) e h =
        subst
          (λ xs.
            (slot_answered xs (find_slot (asks r.answer_id) xs) ≡ true)
            × (slot_failed xs (find_slot (asks r.answer_id) xs) ≡ not (is_results r.outcome)))
          (sym (return_to-questions c r frame i e fits)) (return_to-known c r frame i e)

    others :
        (o : Option ℕ)
        → question_find c r.answer_id ≡ o
        → (qid : ℕ) → qid ≢ r.answer_id
        → (is_answered (handle_return c r frame) qid ≡ is_answered c qid)
          × (is_failed (handle_return c r frame) qid ≡ is_failed c qid)
    others none e qid n =
        (ap (λ d. is_answered d qid) (unknown e), ap (λ d. is_failed d qid) (unknown e))
    others (some i) e qid n =
        subst
          (λ xs.
            (slot_answered xs (find_slot (asks qid) xs) ≡ is_answered c qid)
            × (slot_failed xs (find_slot (asks qid) xs) ≡ is_failed c qid))
          (sym (return_to-questions c r frame i e fits))
          (rw (find-answered c r frame i e qid)
            (return_to-other c r frame i e qid n (find_slot (asks qid) c.questions) refl))
