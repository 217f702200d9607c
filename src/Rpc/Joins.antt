-- ===== src/Rpc/Joins.antt =====
-- The level 4 joins of lib/capn-rpc.c: parts of one set are kept until the last one is in.
pub mod Complete
pub mod Order
pub mod Run
pub mod Whole
pub mod Valid
use c_capnproto.Common.{
  ℕ, zero, suc, ◌+◌, Bool, true, false, not, ◌&&◌, ◌||◌, Option, none, some, List, [], ◌∷◌, ltb,
  leb, ◌==◌, if◌then◌else◌, ℤ, pos, negsuc, get_or, take, drop,
}
use c_capnproto.Rpc.Messages.{Content, null, Payload, KeyPart, Target, Message, join_result}
use c_capnproto.Rpc.Table.{find_slot, update}
use c_capnproto.Rpc.Conn.{Conn, Env, Join, no_join, Handled, max_join_parts, send_message}
use c_capnproto.Rpc.Exports.{add_reference, set_export}
use c_capnproto.Rpc.Answers.{cap_table_of, cap_pointer, return_results, resolve_target}
use c_capnproto.Rpc.Calls.{rc_ok}

-- The Return of `send_join_result`, with the export that it carries.
abbrev pub return_join : ℕ → ℕ → Bool → Option ℕ → Message
return_join qid join_id succeeded none =
    return_results qid (record { content = join_result join_id succeeded null; cap_table = [] })
return_join qid join_id succeeded (some eid) =
    return_results qid
      (record { content = join_result join_id succeeded cap_pointer; cap_table = cap_table_of eid })

-- The reference that the receiver gains.
unfoldable pub add_receiver : Conn → Option ℕ → Conn
add_receiver c none = c
add_receiver c (some eid) = set_export c eid add_reference

-- `send_join_result`.
unfoldable pub send_join_result : Env → Conn → ℕ → ℕ → Bool → Bool → Option ℕ → Handled
unfolding add_receiver
send_join_result env c qid join_id succeeded with_cap eid =
    let carried = if with_cap then eid else none in
    send_message env (add_receiver c carried) (return_join qid join_id succeeded carried)

abbrev pub is_free : Join → Bool
is_free j = not j.used

abbrev pub joins_id : ℕ → Join → Bool
joins_id id j = j.used && (j.join_id == id)

abbrev pub new_join : ℕ → ℕ → Join → Join
new_join join_id part_count j = record no_join {
  used = true;
  join_id = join_id;
  part_count = part_count;
}

abbrev pub join_at : Conn → ℕ → Join
join_at c i = get_or c.joins i no_join

unfoldable pub claim_join : Conn → ℕ → ℕ → Option ℕ → Conn × Option ℕ
claim_join c join_id part_count none = (c, none)
claim_join c join_id part_count (some i) =
    (record c { joins = update i (new_join join_id part_count) c.joins }, some i)

unfoldable pub join_slot_as : Conn → ℕ → ℕ → Option ℕ → Conn × Option ℕ
unfolding claim_join
join_slot_as c join_id part_count (some i) =
    (c, if (join_at c i).part_count == part_count then some i else none)
join_slot_as c join_id part_count none = claim_join c join_id part_count (find_slot is_free c.joins)

-- `join_slot_find`.
unfoldable pub join_slot_find : Conn → ℕ → ℕ → Conn × Option ℕ
unfolding join_slot_as
join_slot_find c join_id part_count =
    join_slot_as c join_id part_count (find_slot (joins_id join_id) c.joins)

abbrev pub is_eid : ℕ → Option ℕ → Bool
is_eid e none = false
is_eid e (some x) = x == e

unfoldable pub all_eid : ℕ → List (Option ℕ) → Bool
all_eid e [] = true
all_eid e (x ∷ xs) = let rest = all_eid e xs in is_eid e x && rest

-- `same`, of the first target and the others.
unfoldable pub all_same : Option ℕ → List (Option ℕ) → Bool
unfolding all_eid
all_same none others = false
all_same (some e) others = all_eid e others

-- The second loop of `join_complete`, from the part `i` on.
unfoldable pub answer_parts : Env → Conn → ℕ → Bool → Option ℕ → ℕ → List ℕ → ℤ → Handled
unfolding send_join_result
answer_parts env c join_id same first i [] rc = (c, rc)
answer_parts env c join_id same first i (qid ∷ qids) rc =
    let sent = send_join_result env c qid join_id same (same && (i == 0)) first in
    answer_parts env sent.0 join_id same first (suc i) qids (if rc_ok sent.1 then rc else sent.1)

-- `join_complete`.
unfoldable pub join_complete : Env → Conn → ℕ → Handled
unfolding all_same answer_parts
join_complete env c slot =
    let j = join_at c slot in
    let first = get_or j.eids 0 none in
    let same = all_same first (drop 1 (take j.part_count j.eids)) in
    let done = answer_parts env c j.join_id same first 0 (take j.part_count j.qids) (pos 0) in
    (record (done.0) { joins = update slot (λ x. no_join) (done.0).joins }, done.1)

abbrev pub add_part : ℕ → ℕ → Option ℕ → Join → Join
add_part part qid eid j = record j {
  seen = update part (λ x. true) j.seen;
  qids = update part (λ x. qid) j.qids;
  eids = update part (λ x. eid) j.eids;
  nseen = suc j.nseen;
}

unfoldable pub join_part : Env → Conn → ℕ → ℕ → ℕ → Option ℕ → Handled
unfolding join_complete
join_part env c slot part qid eid =
    let added = record c { joins = update slot (add_part part qid eid) c.joins } in
    if (join_at added slot).nseen == (join_at added slot).part_count
    then join_complete env added slot
    else (added, pos 0)

-- `handle_join` after `join_slot_find`.
unfoldable pub join_in : Env → Conn → ℕ → Option Target → KeyPart → Option ℕ → Handled
unfolding join_part
join_in env c qid target kp none = send_join_result env c qid kp.join_id false false none
join_in env c qid target kp (some slot) =
    if get_or (join_at c slot).seen kp.part_num false
    then send_join_result env c qid kp.join_id false false none
    else join_part env c slot kp.part_num qid (resolve_target env c target)

-- `handle_join`.
unfoldable pub handle_join : Env → Conn → ℕ → Option Target → Option KeyPart → Handled
unfolding join_in
handle_join env c qid target none = send_join_result env c qid 0 false false none
handle_join env c qid target (some kp) =
    if (kp.part_count == 0) || ltb max_join_parts kp.part_count || leb kp.part_count kp.part_num
    then send_join_result env c qid kp.join_id false false none
    else let claimed = join_slot_find c kp.join_id kp.part_count in
      join_in env claimed.0 qid target kp claimed.1
