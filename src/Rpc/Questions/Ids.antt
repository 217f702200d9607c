-- ===== src/Rpc/Questions/Ids.antt =====
-- The ids of questions: each is new while the counter does not wrap, and an answer finds its question.
use c_capnproto.Common.{
  ℕ, suc, ◌+◌, ◌-◌, ◌^◌, ◌%◌, ◌<◌, ◌≡◌, ◌≢◌, refl, sym, ap, subst, ◌∙◌, Bool, true, false, Option,
  none, some, List, length, if◌then◌else◌, get_or, arith, Bool-cases, inl, inr, ◌⊎◌, &&-true, ==→eq,
  eq→==,
}
use c_capnproto.Rpc.Messages.{Message}
use c_capnproto.Rpc.Table.{
  find_slot, update, update_cases, length-update, get-update, find_slot-holds, find_slot_unique,
  find_slot-none,
}
use c_capnproto.Rpc.Conn.{
  Conn, Env, Question, no_question, Handled, send_message, send_message-changes,
}
use c_capnproto.Rpc.Calls.{rc_ok}
use c_capnproto.Rpc.Questions.{
  is_free, asks, question_at, set_question, new_question, free_question, claim_question,
  question_find, no_id, asked, ask_in, ask, slot_answered, is_answered,
}

-- The ids of the questions that are open are below the counter, and no two are the same.
pub record IsFresh (xs : List Question) (counter : ℕ) : Type 0 where
  pub below :
      (i : ℕ)
      → (get_or xs i no_question).used ≡ true
      → (get_or xs i no_question).question_id < counter
  pub distinct :
      (i j : ℕ)
      → (get_or xs i no_question).used ≡ true
      → (get_or xs j no_question).used ≡ true
      → (get_or xs i no_question).question_id ≡ (get_or xs j no_question).question_id
      → i ≡ j

pub asks-holds :
    (qid : ℕ) (q : Question) → asks qid q ≡ true → (q.used ≡ true) × (q.question_id ≡ qid)
asks-holds qid q h = ((&&-true q.used _ h).0, ==→eq q.question_id qid (&&-true q.used _ h).1)

claim-IsFresh :
    (xs : List Question) (counter k : ℕ)
    → IsFresh xs counter
    → IsFresh (update k (new_question counter) xs) (suc counter)
claim-IsFresh xs counter k v = record {
  below = λ i u. elim (before i u) [
    | inl (e, h) ↦ omega (arith, h)
    | inr (w, h) ↦ omega (arith, h, v.below i w)
  ];
  distinct = λ i j ui uj e. apart i j (before i ui) (before j uj) e;
}
  where
    Source : ℕ → ℕ → Type 0
    Source i id =
        ((k ≡ i) × (id ≡ counter))
        ⊎ (((get_or xs i no_question).used ≡ true) × (id ≡ (get_or xs i no_question).question_id))

    before :
        (i : ℕ)
        → (get_or (update k (new_question counter) xs) i no_question).used ≡ true
        → Source i (get_or (update k (new_question counter) xs) i no_question).question_id
    before i =
        update_cases (λ (x : Question). x.used ≡ true → Source i x.question_id) k
          (new_question counter) xs no_question i (λ e l h. inl (e, refl)) (λ n h. inr (h, refl))
          (λ h. cc)

    apart : (i j : ℕ) {s t : ℕ} → Source i s → Source j t → s ≡ t → i ≡ j
    apart i j (inl (e, a)) (inl (g, b)) h = sym e ∙ g
    apart i j (inl (e, a)) (inr (u, b)) h = absurd (omega (arith, a, b, h, v.below j u))
    apart i j (inr (u, a)) (inl (g, b)) h = absurd (omega (arith, a, b, h, v.below i u))
    apart i j (inr (u, a)) (inr (w, b)) h = v.distinct i j u w (sym a ∙ h ∙ b)

-- An assignment that keeps the id of an open question, or closes it.
keep-IsFresh :
    (xs : List Question) (counter k : ℕ) (f : Question → Question)
    → ((x : Question) → (f x).used ≡ true → (x.used ≡ true) × ((f x).question_id ≡ x.question_id))
    → IsFresh xs counter
    → IsFresh (update k f xs) counter
keep-IsFresh xs counter k f same v = record {
  below = λ i u. omega (arith, (before i u).1, v.below i (before i u).0);
  distinct = λ i j ui uj e.
      v.distinct i j (before i ui).0 (before j uj).0 (sym (before i ui).1 ∙ e ∙ (before j uj).1);
}
  where
    before :
        (i : ℕ)
        → (get_or (update k f xs) i no_question).used ≡ true
        → ((get_or xs i no_question).used ≡ true)
          × ((get_or (update k f xs) i no_question).question_id
              ≡ (get_or xs i no_question).question_id)
    before i =
        update_cases
          (λ (x : Question).
            x.used ≡ true
            → ((get_or xs i no_question).used ≡ true)
              × (x.question_id ≡ (get_or xs i no_question).question_id))
          k f xs no_question i (λ e l h. same _ h) (λ n h. (h, refl)) (λ h. cc)

-- In a fresh table the question of a slot is found by its id.
pub IsFresh-find :
    (c : Conn) (i : ℕ)
    → IsFresh c.questions c.next_question_id
    → i < length c.questions
    → (question_at c i).used ≡ true
    → question_find c (question_at c i).question_id ≡ some i
unfolding question_find
IsFresh-find c i v l u =
    find_slot_unique (asks (question_at c i).question_id) c.questions no_question i l
      (rw (u, eq→== (question_at c i).question_id (question_at c i).question_id refl) refl)
      (λ j m h.
        v.distinct j i (asks-holds (question_at c i).question_id (question_at c j) h).0 u
          (asks-holds (question_at c i).question_id (question_at c j) h).1)

-- A question that is open and has no answer yet.
abbrev Open : Conn → ℕ → Type 0
Open c qid = (i : ℕ) × (question_find c qid ≡ some i) × ((question_at c i).answered ≡ false)

claimed-Open :
    (env : Env) (c : Conn) (i : ℕ) (m : Message)
    → IsFresh c.questions c.next_question_id
    → i < length c.questions
    → Open (send_message env (claim_question c i) m).0 c.next_question_id
unfolding claim_question question_find
claimed-Open env c i m v l =
    subst (λ (d : Conn). Open d c.next_question_id)
      (sym (send_message-changes env (claim_question c i) m))
      (i, found, ap (λ (q : Question). q.answered) there)
  where
    there :
        get_or (update i (new_question c.next_question_id) c.questions) i no_question
        ≡ new_question c.next_question_id (question_at c i)
    there = get-update i (new_question c.next_question_id) c.questions no_question l

    w : IsFresh (update i (new_question c.next_question_id) c.questions) (suc c.next_question_id)
    w = claim-IsFresh c.questions c.next_question_id i v

    is :
        (j : ℕ)
        → asks c.next_question_id
            (get_or (update i (new_question c.next_question_id) c.questions) j no_question)
          ≡ true
        → j ≡ i
    is j h =
        w.distinct j i (holds j h).0 (ap (λ (q : Question). q.used) there)
          ((holds j h).1 ∙ sym (ap (λ (q : Question). q.question_id) there))
      where
        holds :
            (j : ℕ)
            → asks c.next_question_id
                (get_or (update i (new_question c.next_question_id) c.questions) j no_question)
              ≡ true
            → ((get_or (update i (new_question c.next_question_id) c.questions) j no_question).used
                ≡ true)
              × ((get_or
                    (update i (new_question c.next_question_id) c.questions)
                    j
                    no_question).question_id
                  ≡ c.next_question_id)
        holds j =
            asks-holds c.next_question_id
              (get_or (update i (new_question c.next_question_id) c.questions) j no_question)

    found :
        find_slot (asks c.next_question_id) (update i (new_question c.next_question_id) c.questions)
        ≡ some i
    found =
        find_slot_unique (asks c.next_question_id)
          (update i (new_question c.next_question_id) c.questions) no_question i
          (omega (arith, l, length-update i (new_question c.next_question_id) c.questions))
          (rw (there, eq→== c.next_question_id c.next_question_id refl) refl) (λ j m h. is j h)

-- No open question has the id that comes next.
IsFresh-next :
    (c : Conn) → IsFresh c.questions c.next_question_id → question_find c c.next_question_id ≡ none
unfolding question_find
IsFresh-next c v = find_slot-none (asks c.next_question_id) c.questions no_question unknown
  where
    unknown : (j : ℕ) → j < length c.questions → asks c.next_question_id (question_at c j) ≡ false
    unknown j l = elim (Bool-cases (asks c.next_question_id (question_at c j))) [
      | inl h ↦ absurd (
          omega (
            arith,
            v.below j (asks-holds c.next_question_id (question_at c j) h).0,
            (asks-holds c.next_question_id (question_at c j) h).1,
          ))
      | inr h ↦ h
    ]

-- A question that was asked: it is new, open and not answered, or the asking failed.
abbrev Opens : Conn → Conn × ℕ → Type 0
Opens c (d, qid) =
    IsFresh d.questions d.next_question_id
    × ((qid ≡ no_id) ⊎ ((qid ≡ c.next_question_id) × (question_find c qid ≡ none) × Open d qid))

asked-Opens :
    (c : Conn) (i : ℕ) (sent : Handled)
    → IsFresh c.questions c.next_question_id
    → IsFresh sent.0.questions sent.0.next_question_id
    → Open sent.0 c.next_question_id
    → Opens c (asked i c.next_question_id sent)
unfolding asked
asked-Opens c i sent v w o = by_test (rc_ok sent.1)
  where
    by_test :
        (t : Bool)
        → Opens c (
            if t
            then (sent.0, c.next_question_id)
            else (set_question sent.0 i free_question, no_id))
    by_test true = (w, inr (refl, IsFresh-next c v, o))
    by_test false = (
      keep-IsFresh sent.0.questions sent.0.next_question_id i free_question (λ x u. cc) w,
      inl refl,
    )

claimed-IsFresh :
    (env : Env) (c : Conn) (i : ℕ) (m : Message)
    → c.next_question_id < 2 ^ 32 - 1
    → IsFresh c.questions c.next_question_id
    → IsFresh
        (send_message env (claim_question c i) m).0.questions
        (send_message env (claim_question c i) m).0.next_question_id
unfolding claim_question
claimed-IsFresh env c i m small v =
    subst (λ (d : Conn). IsFresh d.questions d.next_question_id)
      (sym (send_message-changes env (claim_question c i) m))
      (subst (IsFresh (update i (new_question c.next_question_id) c.questions))
        {x = suc c.next_question_id} {y = (c.next_question_id + 1) % 2 ^ 32} (omega arith)
        (claim-IsFresh c.questions c.next_question_id i v))

ask-Opens :
    (env : Env) (c : Conn) (build : ℕ → Message)
    → c.next_question_id < 2 ^ 32 - 1
    → IsFresh c.questions c.next_question_id
    → Opens c (ask env c build)
unfolding ask ask_in
ask-Opens env c build small v = asked_in (find_slot is_free c.questions) refl
  where
    asked_in : (o : Option ℕ) → find_slot is_free c.questions ≡ o → Opens c (ask_in env c build o)
    asked_in none e = (v, inl refl)
    asked_in (some i) e =
        asked-Opens c i (send_message env (claim_question c i) (build c.next_question_id)) v
          (claimed-IsFresh env c i (build c.next_question_id) small v)
          (claimed-Open env c i (build c.next_question_id) v
            (find_slot-holds is_free c.questions no_question e).0)

Open-answered : (c : Conn) (qid : ℕ) → Open c qid → is_answered c qid ≡ false
unfolding is_answered slot_answered
Open-answered c qid (i, e, a) = subst (λ o. slot_answered c.questions o ≡ false) (sym e) a

-- While the counter is below 2^32 - 1, what asks a question either fails, or its id is that of no
-- other open question and the question is open and not answered; in both cases the ids of the open
-- questions stay distinct and below the counter.
pub ask-new :
    (env : Env) (c : Conn) (build : ℕ → Message)
    → c.next_question_id < 2 ^ 32 - 1
    → IsFresh c.questions c.next_question_id
    → IsFresh (ask env c build).0.questions (ask env c build).0.next_question_id
      × (((ask env c build).1 ≡ no_id)
          ⊎ ((question_find c (ask env c build).1 ≡ none)
              × (question_find (ask env c build).0 (ask env c build).1 ≢ none)
              × (is_answered (ask env c build).0 (ask env c build).1 ≡ false)))
ask-new env c build small v = (opens.0, opened (ask env c build).0 (ask env c build).1 opens.1)
  where
    opens : Opens c (ask env c build)
    opens = ask-Opens env c build small v

    opened :
        (d : Conn) (qid : ℕ)
        → ((qid ≡ no_id) ⊎ ((qid ≡ c.next_question_id) × (question_find c qid ≡ none) × Open d qid))
        → (qid ≡ no_id)
          ⊎ ((question_find c qid ≡ none)
              × (question_find d qid ≢ none)
              × (is_answered d qid ≡ false))
    opened d qid (inl e) = inl e
    opened d qid (inr (e, n, o)) = inr (n, found, Open-answered d qid o)
      where
        found : question_find d qid ≢ none
        found h = absurd (some-ne (sym o.1 ∙ h))
          where
            some-ne : some o.0 ≢ none
            some-ne h = cc
