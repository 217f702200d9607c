-- ===== src/Rpc/Handle/Joining.antt =====
-- What `handle_join` does to the invariant of a connection.
use c_capnproto.Common.{
  ℕ, suc, ◌≤◌, ◌<◌, ◌≡◌, ◌≢◌, refl, sym, ap, subst, ◌∙◌, Bool, true, false, ◌&&◌, ◌||◌, Option,
  none, some, List, [], ◌∷◌, length, get_or, take, drop, arith, ltb, leb, ◌==◌, All, if◌then◌else◌,
  ℤ, pos, negsuc, ==→ne, ==→eq, &&-true,
}
use c_capnproto.Rpc.Messages.{Target, KeyPart, Message}
use c_capnproto.Rpc.Table.{
  find_slot, update, length-update, All-update, get-update, update-update, find_slot-holds,
}
use c_capnproto.Rpc.Conn.{
  Conn, Env, Export, Event, Join, no_join, max_join_parts, max_answer_bytes, Handled, send_message,
  transmit_frame,
}
use c_capnproto.Rpc.Exports.{set_export, add_reference}
use c_capnproto.Rpc.Exports.Valid.{add_reference-IsValid}
use c_capnproto.Rpc.Exports.Valid as Exports
use c_capnproto.Rpc.Answers.{resolve_target}
use c_capnproto.Rpc.Joins.{
  add_receiver, send_join_result, return_join, joins_id, is_free, new_join, join_at, claim_join,
  join_slot_as, join_slot_find, answer_parts, join_complete, all_same, add_part, join_part, join_in,
  handle_join,
}
use c_capnproto.Rpc.Joins.Valid.{IsOk, new_join-IsOpen, add_part-IsOpen}
use c_capnproto.Rpc.Calls.{rc_ok}
use c_capnproto.Rpc.Handle.Tables.{IsValid, with_exports, with_joins}

-- What the answers of a join do to a connection: its exports stay valid, and all but the log stays.
record Kept (c d : Conn) : Type 0 where
  exports : List Export
  log : List Event
  changes : d ≡ record c { exports = exports; log = log }
  valid : Exports.IsValid c.exports → Exports.IsValid exports

Kept-trans : {c d e : Conn} → Kept c d → Kept d e → Kept c e
Kept-trans {c} {d} {e} k l = record {
  exports = l.exports;
  log = l.log;
  changes = l.changes ∙ ap (λ (x : Conn). record x { exports = l.exports; log = l.log }) k.changes;
  valid =
      λ v. l.valid (subst (λ (x : Conn). Exports.IsValid x.exports) (sym k.changes) (k.valid v));
}

Kept-refl : (c : Conn) → Kept c c
Kept-refl c = record { exports = c.exports; log = c.log; changes = refl; valid = λ v. v }

send_message-Kept : (env : Env) (c : Conn) (m : Message) → Kept c (send_message env c m).0
unfolding send_message transmit_frame
send_message-Kept env c m = by_test (ltb max_answer_bytes (length (env.encode m))) (env.encode m)
  where
    by_test :
        (t : Bool) (frame : List ℕ)
        → Kept c (if t then (c, negsuc 0) else transmit_frame env c frame).0
    by_test true frame = Kept-refl c
    by_test false frame = record {
      exports = c.exports;
      log = (transmit_frame env c frame).0.log;
      changes = refl;
      valid = λ v. v;
    }

send_join_result-Kept :
    (env : Env) (c : Conn) (qid join_id : ℕ) (succeeded with_cap : Bool) (eid : Option ℕ)
    → Kept c (send_join_result env c qid join_id succeeded with_cap eid).0
unfolding send_join_result add_receiver
send_join_result-Kept env c qid join_id succeeded with_cap eid =
    carried (if with_cap then eid else none)
  where
    carried :
        (o : Option ℕ)
        → Kept c (send_message env (add_receiver c o) (return_join qid join_id succeeded o)).0
    carried none = send_message-Kept env c (return_join qid join_id succeeded none)
    carried (some e) = Kept-trans referenced (
        send_message-Kept env (set_export c e add_reference)
          (return_join qid join_id succeeded (some e)))
      where
        referenced : Kept c (set_export c e add_reference)
        referenced = record {
          exports = update e add_reference c.exports;
          log = c.log;
          changes = refl;
          valid = add_reference-IsValid c.exports e;
        }

answer_parts-Kept :
    (qids : List ℕ) (env : Env) (c : Conn) (join_id : ℕ) (same : Bool) (first : Option ℕ) (i : ℕ)
    (rc : ℤ)
    → Kept c (answer_parts env c join_id same first i qids rc).0
unfolding answer_parts
answer_parts-Kept [] env c join_id same first i rc = Kept-refl c
answer_parts-Kept (qid ∷ qids) env c join_id same first i rc =
    Kept-trans (send_join_result-Kept env c qid join_id same (same && (i == 0)) first) (
      answer_parts-Kept qids env
        (send_join_result env c qid join_id same (same && (i == 0)) first).0 join_id same first
        (suc i) (if rc_ok (sent.1) then rc else sent.1))
  where
    sent : Handled
    sent = send_join_result env c qid join_id same (same && (i == 0)) first

Kept-IsValid : {c d : Conn} → Kept c d → IsValid c → IsValid d
Kept-IsValid k v =
    subst IsValid (sym k.changes) (with_exports k.exports v (k.valid v.exports_valid))

send_join_result-IsValid :
    (env : Env) (c : Conn) (qid join_id : ℕ) (succeeded with_cap : Bool) (eid : Option ℕ)
    → IsValid c
    → IsValid (send_join_result env c qid join_id succeeded with_cap eid).0
send_join_result-IsValid env c qid join_id succeeded with_cap eid v =
    Kept-IsValid (send_join_result-Kept env c qid join_id succeeded with_cap eid) v

-- A join that was complete leaves a free slot.
join_complete-IsValid :
    (env : Env) (c : Conn) (slot : ℕ) (f : Join → Join)
    → IsValid c
    → IsValid (join_complete env (record c { joins = update slot f c.joins }) slot).0
unfolding join_complete
join_complete-IsValid env c slot f v =
    cleared (answer_parts-Kept (take j.part_count j.qids) env full j.join_id same first 0 (pos 0))
  where
    full : Conn
    full = record c { joins = update slot f c.joins }

    j : Join
    j = join_at full slot

    first : Option ℕ
    first = get_or j.eids 0 none

    same : Bool
    same = all_same first (drop 1 (take j.part_count j.eids))

    cleared :
        {d : Conn} → Kept full d → IsValid (record d { joins = update slot (λ x. no_join) d.joins })
    cleared {d} k =
        subst (λ (x : Conn). IsValid (record x { joins = update slot (λ y. no_join) x.joins }))
          (sym k.changes)
          (with_joins _ (with_exports k.exports v (k.valid v.exports_valid))
            (length-update slot _ (update slot f c.joins)
              ∙ length-update slot f c.joins
              ∙ v.joins_size)
            (subst (All IsOk) (sym (update-update slot f no_join c.joins))
              (All-update IsOk slot (λ x. no_join) c.joins no_join (λ l h u. cc) v.joins_ok)))

join_part-IsValid :
    (env : Env) (c : Conn) (slot part qid : ℕ) (eid : Option ℕ)
    → IsValid c
    → slot < length c.joins
    → (join_at c slot).used ≡ true
    → part < (join_at c slot).part_count
    → get_or (join_at c slot).seen part false ≡ false
    → IsValid (join_part env c slot part qid eid).0
unfolding join_part
join_part-IsValid env c slot part qid eid v l u h e = by_test _ refl
  where
    full : Conn
    full = record c { joins = update slot (add_part part qid eid) c.joins }

    j : Join
    j = join_at full slot

    there : j ≡ add_part part qid eid (join_at c slot)
    there = get-update slot (add_part part qid eid) c.joins no_join l

    by_test :
        (t : Bool)
        → (j.nseen == j.part_count) ≡ t
        → IsValid (if t then join_complete env full slot else (full, pos 0)).0
    by_test true g = join_complete-IsValid env c slot (add_part part qid eid) v
    by_test false g = with_joins _ v (length-update slot _ c.joins ∙ v.joins_size) (
        All-update IsOk slot (add_part part qid eid) c.joins no_join
          (λ m o w. add_part-IsOpen part qid eid (join_at c slot) (o w) h e more) v.joins_ok)
      where
        more : suc (join_at c slot).nseen ≢ (join_at c slot).part_count
        more = ==→ne _ _ (subst (λ x. (x.nseen == x.part_count) ≡ false) there g)

-- What `join_slot_find` finds: a slot in use, for the number of parts that was asked for.
abbrev Slot : Conn → ℕ → Option ℕ → Type 0
Slot c part_count none = Unit {0}
Slot c part_count (some i) =
    (i < length c.joins) × ((join_at c i).used ≡ true) × ((join_at c i).part_count ≡ part_count)

claim_join-Slot :
    (c : Conn) (join_id part_count : ℕ) (o : Option ℕ)
    → find_slot is_free c.joins ≡ o
    → IsValid c
    → 0 < part_count
    → part_count ≤ max_join_parts
    → IsValid (claim_join c join_id part_count o).0
      × Slot (claim_join c join_id part_count o).0 part_count (claim_join c join_id part_count o).1
unfolding claim_join
claim_join-Slot c join_id part_count none e v l h = (v, tt)
claim_join-Slot c join_id part_count (some i) e v l h = (
  with_joins _ v (length-update i _ c.joins ∙ v.joins_size) (
      All-update IsOk i (new_join join_id part_count) c.joins no_join
        (λ m o u. new_join-IsOpen join_id part_count (join_at c i) l h) v.joins_ok),
  (
    omega (arith, at, length-update i (new_join join_id part_count) c.joins),
    ap (λ (j : Join). j.used) there,
    ap (λ (j : Join). j.part_count) there,
  ),
)
  where
    at : i < length c.joins
    at = (find_slot-holds is_free c.joins no_join e).0

    there :
        get_or (update i (new_join join_id part_count) c.joins) i no_join
        ≡ new_join join_id part_count (join_at c i)
    there = get-update i (new_join join_id part_count) c.joins no_join at

join_slot_as-Slot :
    (c : Conn) (join_id part_count : ℕ) (o : Option ℕ)
    → find_slot (joins_id join_id) c.joins ≡ o
    → IsValid c
    → 0 < part_count
    → part_count ≤ max_join_parts
    → IsValid (join_slot_as c join_id part_count o).0
      × Slot
          (join_slot_as c join_id part_count o).0
          part_count
          (join_slot_as c join_id part_count o).1
unfolding join_slot_as
join_slot_as-Slot c join_id part_count none e v l h =
    claim_join-Slot c join_id part_count _ refl v l h
join_slot_as-Slot c join_id part_count (some i) e v l h =
    (v, by_test ((join_at c i).part_count == part_count) refl)
  where
    at : (i < length c.joins) × (joins_id join_id (join_at c i) ≡ true)
    at = find_slot-holds (joins_id join_id) c.joins no_join e

    by_test :
        (t : Bool)
        → ((join_at c i).part_count == part_count) ≡ t
        → Slot c part_count (if t then some i else none)
    by_test true g = (at.0, (&&-true _ _ at.1).0, ==→eq _ _ g)
    by_test false g = tt

join_in-IsValid :
    (env : Env) (c : Conn) (qid : ℕ) (target : Option Target) (kp : KeyPart) (o : Option ℕ)
    → IsValid c
    → kp.part_num < kp.part_count
    → Slot c kp.part_count o
    → IsValid (join_in env c qid target kp o).0
unfolding join_in
join_in-IsValid env c qid target kp none v l s =
    send_join_result-IsValid env c qid kp.join_id false false none v
join_in-IsValid env c qid target kp (some i) v l s =
    by_test (get_or (join_at c i).seen kp.part_num false) refl
  where
    by_test :
        (t : Bool)
        → get_or (join_at c i).seen kp.part_num false ≡ t
        → IsValid
            (if t
              then send_join_result env c qid kp.join_id false false none
              else join_part env c i kp.part_num qid (resolve_target env c target)).0
    by_test true e = send_join_result-IsValid env c qid kp.join_id false false none v
    by_test false e =
        join_part-IsValid env c i kp.part_num qid (resolve_target env c target) v s.0 s.1
          (omega (arith, l, s.2)) e

-- The guards of `handle_join` leave a part of a set that fits the table.
key-ok :
    (n p : ℕ)
    → ((n == 0) || ltb max_join_parts n || leb n p) ≡ false
    → (0 < n) × (n ≤ max_join_parts) × (p < n)
key-ok n p h = ground arith

pub handle_join-IsValid :
    (env : Env) (c : Conn) (qid : ℕ) (target : Option Target) (key : Option KeyPart)
    → IsValid c
    → IsValid (handle_join env c qid target key).0
unfolding handle_join join_slot_find
handle_join-IsValid env c qid target none v =
    send_join_result-IsValid env c qid 0 false false none v
handle_join-IsValid env c qid target (some kp) v =
    by_test
      ((kp.part_count == 0) || ltb max_join_parts kp.part_count || leb kp.part_count kp.part_num)
      refl
  where
    by_test :
        (t : Bool)
        → ((kp.part_count == 0)
            || ltb max_join_parts kp.part_count
            || leb kp.part_count kp.part_num)
          ≡ t
        → IsValid
            (if t
              then send_join_result env c qid kp.join_id false false none
              else join_in env
                  (join_slot_find c kp.join_id kp.part_count).0
                  qid
                  target
                  kp
                  (join_slot_find c kp.join_id kp.part_count).1).0
    by_test true e = send_join_result-IsValid env c qid kp.join_id false false none v
    by_test false e = join_in-IsValid env _ qid target kp _ found.0 (key-ok _ _ e).2 found.1
      where
        found :
            IsValid (join_slot_find c kp.join_id kp.part_count).0
            × Slot
                (join_slot_find c kp.join_id kp.part_count).0
                kp.part_count
                (join_slot_find c kp.join_id kp.part_count).1
        found =
            join_slot_as-Slot c kp.join_id kp.part_count _ refl v (key-ok _ _ e).0 (key-ok _ _ e).1
