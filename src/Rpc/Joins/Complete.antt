-- ===== src/Rpc/Joins/Complete.antt =====
-- What `join_complete` sends: an answer to each part, and the capability once, if the targets agree.
use c_capnproto.Common.{
  ℕ, zero, suc, ◌≤◌, ◌<◌, ◌≡◌, refl, ap, ap₂, ◌∙◌, Bool, true, false, ◌&&◌, Option, none, some,
  List, [], ◌∷◌, length, get_or, take, drop, arith, ◌==◌, All, if◌then◌else◌, ℤ, pos, map,
  Bool-cases, inl, inr, ==→eq, eq→==, ne→==, &&-true, le→ltb,
}
use c_capnproto.Rpc.Messages.{Message}
use c_capnproto.Rpc.Conn.{
  Conn, Env, Event, sent, Join, max_answer_bytes, send_message, transmit_frame,
}
use c_capnproto.Rpc.Joins.{
  return_join, add_receiver, send_join_result, join_at, all_eid, all_same, answer_parts,
  join_complete,
}

-- The log after messages are sent in order.
unfoldable pub sent_log : Env → List Event → List Message → List Event
sent_log env l [] = l
sent_log env l (m ∷ ms) = sent_log env (sent (env.encode m) (env.transmit l (env.encode m)) ∷ l) ms

abbrev pub Fits : Env → Message → Type 0
Fits env m = length (env.encode m) ≤ max_answer_bytes

send_message-log :
    (env : Env) (c : Conn) (m : Message)
    → Fits env m
    → (send_message env c m).0.log ≡ sent (env.encode m) (env.transmit c.log (env.encode m)) ∷ c.log
unfolding send_message transmit_frame
send_message-log env c m h = rw (le→ltb max_answer_bytes (length (env.encode m)) h) refl

-- The replies to parts from the part `i` on.
replies_from : ℕ → Bool → Option ℕ → ℕ → List ℕ → List Message
replies_from join_id same first i [] = []
replies_from join_id same first i (qid ∷ qids) =
    return_join qid join_id same (if same && (i == 0) then first else none)
    ∷ replies_from join_id same first (suc i) qids

send_join_result-log :
    (env : Env) (c : Conn) (qid join_id : ℕ) (succeeded with_cap : Bool) (eid : Option ℕ)
    → Fits env (return_join qid join_id succeeded (if with_cap then eid else none))
    → (send_join_result env c qid join_id succeeded with_cap eid).0.log
      ≡ sent_log env c.log (return_join qid join_id succeeded (if with_cap then eid else none) ∷ [])
unfolding send_join_result sent_log
send_join_result-log env c qid join_id succeeded with_cap eid h =
    send_message-log env (add_receiver c carried) (return_join qid join_id succeeded carried) h
    ∙ ap (λ l. sent frame (env.transmit l frame) ∷ l) (same_log carried)
  where
    carried : Option ℕ
    carried = if with_cap then eid else none

    frame : List ℕ
    frame = env.encode (return_join qid join_id succeeded carried)

    same_log : (o : Option ℕ) → (add_receiver c o).log ≡ c.log
    same_log none = refl
    same_log (some e) = refl

-- A JoinResult fits the buffer.
abbrev pub ResultsFit : Env → ℕ → Type 0
ResultsFit env join_id =
    (qid : ℕ) (b : Bool) (o : Option ℕ) → Fits env (return_join qid join_id b o)

answer_parts-log :
    (qids : List ℕ) (env : Env) (c : Conn) (join_id : ℕ) (same : Bool) (first : Option ℕ) (i : ℕ)
    (rc : ℤ)
    → ResultsFit env join_id
    → (answer_parts env c join_id same first i qids rc).0.log
      ≡ sent_log env c.log (replies_from join_id same first i qids)
unfolding answer_parts sent_log replies_from
answer_parts-log [] env c join_id same first i rc h = refl
answer_parts-log (qid ∷ qids) env c join_id same first i rc h =
    answer_parts-log qids env (send_join_result env c qid join_id same (same && (i == 0)) first).0
      join_id same first (suc i) _ h
    ∙ ap (λ l. sent_log env l (replies_from join_id same first (suc i) qids))
        (send_join_result-log env c qid join_id same (same && (i == 0)) first (h qid same _))

-- Replies without a capability.
abbrev pub plain : ℕ → Bool → List ℕ → List Message
plain join_id same = map (λ qid. return_join qid join_id same none)

replies_from-later :
    (qids : List ℕ) (join_id : ℕ) (same : Bool) (first : Option ℕ) (i : ℕ)
    → replies_from join_id same first (suc i) qids ≡ plain join_id same qids
unfolding replies_from
replies_from-later [] join_id same first i = refl
replies_from-later (qid ∷ qids) join_id same first i =
    ap₂ (λ (m : Message) (ms : List Message). m ∷ ms)
      (ap (return_join qid join_id same) (none_carried same))
      (replies_from-later qids join_id same first (suc i))
  where
    none_carried : (t : Bool) → (if t && (suc i == 0) then first else none) ≡ none
    none_carried false = refl
    none_carried true = rw (ne→== (suc i) 0 (omega arith)) refl

replies_from-plain :
    (qids : List ℕ) (join_id : ℕ) (first : Option ℕ)
    → replies_from join_id false first 0 qids ≡ plain join_id false qids
unfolding replies_from
replies_from-plain [] join_id first = refl
replies_from-plain (qid ∷ qids) join_id first =
    ap (λ (ms : List Message). return_join qid join_id false none ∷ ms)
      (replies_from-later qids join_id false first 0)

all_eid-All : (e : ℕ) (xs : List (Option ℕ)) → all_eid e xs ≡ true → All (λ x. x ≡ some e) xs
unfolding all_eid
all_eid-All e [] h = tt
all_eid-All e (none ∷ xs) h = cc
all_eid-All e (some x ∷ xs) h =
    (ap some (==→eq x e (&&-true (x == e) _ h).0), all_eid-All e xs (&&-true (x == e) _ h).1)

All-all_eid : (e : ℕ) (xs : List (Option ℕ)) → All (λ x. x ≡ some e) xs → all_eid e xs ≡ true
unfolding all_eid
All-all_eid e [] h = refl
All-all_eid e (x ∷ xs) h = rw (h.0, eq→== e e refl, All-all_eid e xs h.1) refl

-- All targets name one export.
abbrev pub Agree : ℕ → List (Option ℕ) → Type 0
Agree e = All (λ x. x ≡ some e)

all_same-Agree :
    (n e : ℕ) (xs : List (Option ℕ))
    → 0 < n
    → 0 < length xs
    → Agree e (take n xs)
    → (get_or xs 0 none ≡ some e) × (all_same (get_or xs 0 none) (drop 1 (take n xs)) ≡ true)
unfolding all_same
all_same-Agree zero e xs l m h = absurd (omega arith)
all_same-Agree (suc n) e [] l m h = absurd (omega arith)
all_same-Agree (suc n) e (x ∷ xs) l m h = (h.0, rw (h.0) (All-all_eid e (take n xs) h.1))

all_same-false :
    (n : ℕ) (xs : List (Option ℕ))
    → 0 < n
    → 0 < length xs
    → ((e : ℕ) → ¬ Agree e (take n xs))
    → all_same (get_or xs 0 none) (drop 1 (take n xs)) ≡ false
unfolding all_same
all_same-false zero xs l m h = absurd (omega arith)
all_same-false (suc n) [] l m h = absurd (omega arith)
all_same-false (suc n) (none ∷ xs) l m h = refl
all_same-false (suc n) (some e ∷ xs) l m h = elim (Bool-cases (all_eid e (take n xs))) [
  | inl t ↦ absurd (h e (refl, all_eid-All e (take n xs) t))
  | inr f ↦ f
]

-- When the last part of a join is in, each part gets its answer, in the order of their numbers: if all
-- targets name one export the join succeeds and the first answer alone carries the capability, else
-- it fails.
pub join_complete-replies :
    (env : Env) (c : Conn) (slot qid : ℕ) (qids : List ℕ)
    → ResultsFit env (join_at c slot).join_id
    → 0 < (join_at c slot).part_count
    → 0 < length (join_at c slot).eids
    → take (join_at c slot).part_count (join_at c slot).qids ≡ qid ∷ qids
    → ((e : ℕ)
        → Agree e (take (join_at c slot).part_count (join_at c slot).eids)
        → (join_complete env c slot).0.log
          ≡ sent_log env c.log (
              return_join qid (join_at c slot).join_id true (some e)
              ∷ plain (join_at c slot).join_id true qids))
      × (((e : ℕ) → ¬ Agree e (take (join_at c slot).part_count (join_at c slot).eids))
          → (join_complete env c slot).0.log
            ≡ sent_log env c.log (plain (join_at c slot).join_id false (qid ∷ qids)))
unfolding join_complete replies_from
join_complete-replies env c slot qid qids fits some_part some_eid asked = (agreed, differ)
  where
    j : Join
    j = join_at c slot

    logged :
        (join_complete env c slot).0.log
        ≡ sent_log env c.log (
            replies_from j.join_id
              (all_same (get_or j.eids 0 none) (drop 1 (take j.part_count j.eids)))
              (get_or j.eids 0 none)
              0
              (qid ∷ qids))
    logged =
        answer_parts-log (take j.part_count j.qids) env c j.join_id _ (get_or j.eids 0 none) 0
          (pos 0) fits
        ∙ ap
            (λ qs. sent_log env c.log (
              replies_from j.join_id
                (all_same (get_or j.eids 0 none) (drop 1 (take j.part_count j.eids)))
                (get_or j.eids 0 none) 0 qs))
            asked

    agreed :
        (e : ℕ)
        → Agree e (take j.part_count j.eids)
        → (join_complete env c slot).0.log
          ≡ sent_log env c.log (return_join qid j.join_id true (some e) ∷ plain j.join_id true qids)
    agreed e h =
        logged
        ∙ ap₂
            (λ (t : Bool) (o : Option ℕ).
              sent_log env c.log (replies_from j.join_id t o 0 (qid ∷ qids)))
            (all_same-Agree j.part_count e j.eids some_part some_eid h).1
            (all_same-Agree j.part_count e j.eids some_part some_eid h).0
        ∙ ap (λ ms. sent_log env c.log (return_join qid j.join_id true (some e) ∷ ms))
            (replies_from-later qids j.join_id true (some e) 0)

    differ :
        ((e : ℕ) → ¬ Agree e (take j.part_count j.eids))
        → (join_complete env c slot).0.log ≡ sent_log env c.log (plain j.join_id false (qid ∷ qids))
    differ h =
        logged
        ∙ ap
            (λ t.
              sent_log env c.log (replies_from j.join_id t (get_or j.eids 0 none) 0 (qid ∷ qids)))
            (all_same-false j.part_count j.eids some_part some_eid h)
        ∙ ap (sent_log env c.log) (replies_from-plain (qid ∷ qids) j.join_id (get_or j.eids 0 none))
