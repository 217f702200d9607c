-- ===== src/Rpc/Joins/Run.antt =====
-- What `handle_join` does with one part of a join that is under way.
use c_capnproto.Common.{
  ℕ, suc, ◌≤◌, ◌<◌, ◌≡◌, refl, sym, ap, ◌∙◌, Bool, true, false, ◌||◌, Option, none, some, List, [],
  ◌∷◌, length, get_or, arith, ltb, leb, ◌==◌, if◌then◌else◌, pos, Bool-cases, Bool-clash, inl, inr,
  eq→==, ne→==, ltb→lt, ltb→le, le→ltb, get_or-past, get_or-replicate,
}
use c_capnproto.Rpc.Messages.{Target, imported_cap, promised_answer, other_target, KeyPart}
use c_capnproto.Rpc.Table.{
  find_slot, update, update_cases, update-const, length-update, get-update, find_slot-holds,
  find_slot-misses, find_slot_unique,
}
use c_capnproto.Rpc.Conn.{Conn, Env, Join, no_join, max_join_parts, Handled}
use c_capnproto.Rpc.Answers.{resolve_target, resolve_promised_answer, answer_find}
use c_capnproto.Rpc.Joins.{
  send_join_result, is_free, joins_id, new_join, join_at, claim_join, join_slot_as, join_slot_find,
  join_complete, add_part, join_part, join_in, handle_join,
}
use c_capnproto.Rpc.Joins.Order.{Part}

-- A part of a join as a message.
pub record Arrival : Type 0 where
  pub num : ℕ
  pub qid : ℕ
  pub target : Option Target

abbrev pub key : ℕ → ℕ → Arrival → KeyPart
key join_id n a = record { join_id = join_id; part_count = n; part_num = a.num }

-- The connection after the parts have arrived.
abbrev pub arrive_all : Env → ℕ → ℕ → Conn → List Arrival → Conn
arrive_all env join_id n c [] = c
arrive_all env join_id n c (a ∷ rest) =
    arrive_all env join_id n (handle_join env c a.qid a.target (some (key join_id n a))).0 rest

-- The part with the export that its target names.
abbrev pub part_of : Env → Conn → Arrival → Part
part_of env c a = record { num = a.num; qid = a.qid; eid = resolve_target env c a.target }

-- The connection with the join `j` in the slot `i`.
abbrev pub joining : Conn → ℕ → Join → Conn
joining c i j = record c { joins = update i (λ x. j) c.joins }

resolve-joining :
    (env : Env) (c : Conn) (i : ℕ) (j : Join) (t : Option Target)
    → resolve_target env (joining c i j) t ≡ resolve_target env c t
unfolding resolve_target resolve_promised_answer answer_find
resolve-joining env c i j none = refl
resolve-joining env c i j (some (imported_cap id)) = refl
resolve-joining env c i j (some (promised_answer none)) = refl
resolve-joining env c i j (some (promised_answer (some pa))) = refl
resolve-joining env c i j (some other_target) = refl

-- Parameters of a join that starts on the connection `c`: no join has its id, and the slot `i` is the
-- first that is free.
module _ (env : Env) (c : Conn) (join_id n i : ℕ)
    (unknown : find_slot (joins_id join_id) c.joins ≡ none)
    (room : find_slot is_free c.joins ≡ some i) (some_part : 0 < n) (few : n ≤ max_join_parts) where
  inside : i < length c.joins
  inside = (find_slot-holds is_free c.joins no_join room).0

  no-other : (k : ℕ) → joins_id join_id (join_at c k) ≡ false
  no-other k = elim (Bool-cases (ltb k (length c.joins))) [
    | inl l ↦ find_slot-misses (joins_id join_id) c.joins no_join unknown k (ltb→lt _ _ l)
    | inr g ↦ ap (joins_id join_id) (get_or-past c.joins k no_join (ltb→le _ _ g))
  ]

  pub at-slot : (j : Join) → join_at (joining c i j) i ≡ j
  at-slot j = get-update i (λ x. j) c.joins no_join inside

  -- The slot of the join is found again.
  find-joining :
      (j : Join)
      → joins_id join_id j ≡ true
      → find_slot (joins_id join_id) (update i (λ x. j) c.joins) ≡ some i
  find-joining j h =
      find_slot_unique (joins_id join_id) (update i (λ x. j) c.joins) no_join i
        (omega (arith, inside, length-update i (λ x. j) c.joins))
        (ap (joins_id join_id) (at-slot j) ∙ h) (λ k l. only k)
    where
      only : (k : ℕ) → joins_id join_id (join_at (joining c i j) k) ≡ true → k ≡ i
      only k =
          update_cases (λ (x : Join). joins_id join_id x ≡ true → k ≡ i) i (λ x. j) c.joins no_join
            k (λ e l g. sym e) (λ m g. Bool-clash (joins_id join_id (join_at c k)) g (no-other k))
            (λ g. cc)

  -- A join under way: it has its id and its number of parts, and the part `num` is not in.
  pub record Waits (j : Join) (num : ℕ) : Type 0 where
    pub id : joins_id join_id j ≡ true
    pub count : j.part_count ≡ n
    pub missing : get_or j.seen num false ≡ false

  guards : (a : Arrival) → a.num < n → ((n == 0) || ltb max_join_parts n || leb n a.num) ≡ false
  guards a l = rw (ne→== n 0 (omega arith), le→ltb max_join_parts n few) not-more
    where
      not-more : leb n a.num ≡ false
      not-more = ground arith

  slot-joining :
      (j : Join) (num : ℕ)
      → Waits j num
      → join_slot_find (joining c i j) join_id n ≡ (joining c i j, some i)
  unfolding join_slot_find join_slot_as
  slot-joining j num w =
      ap (join_slot_as (joining c i j) join_id n) (find-joining j w.id)
      ∙ ap (λ t. (joining c i j, if t then some i else none)) counted
    where
      counted : ((join_at (joining c i j) i).part_count == n) ≡ true
      counted = eq→== _ n (ap (λ (x : Join). x.part_count) (at-slot j) ∙ w.count)

  in-joining :
      (j : Join) (a : Arrival)
      → get_or j.seen a.num false ≡ false
      → join_in env (joining c i j) a.qid a.target (key join_id n a) (some i)
        ≡ join_part env (joining c i j) i a.num a.qid (resolve_target env c a.target)
  unfolding join_in
  in-joining j a m =
      ap
        (λ t.
          if t
          then send_join_result env (joining c i j) a.qid join_id false false none
          else join_part env (joining c i j) i a.num a.qid
              (resolve_target env (joining c i j) a.target))
        (ap (λ (x : Join). get_or x.seen a.num false) (at-slot j) ∙ m)
      ∙ ap (join_part env (joining c i j) i a.num a.qid) (resolve-joining env c i j a.target)

  -- What `handle_join` does with a part that a join under way misses.
  pub arrive-joining :
      (j : Join) (a : Arrival)
      → Waits j a.num
      → a.num < n
      → handle_join env (joining c i j) a.qid a.target (some (key join_id n a))
        ≡ join_part env (joining c i j) i a.num a.qid (resolve_target env c a.target)
  unfolding handle_join
  arrive-joining j a w l =
      ap
        (λ t.
          if t
          then send_join_result env (joining c i j) a.qid join_id false false none
          else join_in env (join_slot_find (joining c i j) join_id n).0 a.qid a.target
              (key join_id n a) (join_slot_find (joining c i j) join_id n).1)
        (guards a l)
      ∙ ap (λ (r : Conn × Option ℕ). join_in env r.0 a.qid a.target (key join_id n a) r.1)
          (slot-joining j a.num w)
      ∙ in-joining j a w.missing

  -- The first part claims the slot.
  pub arrive-first :
      (a : Arrival)
      → a.num < n
      → handle_join env c a.qid a.target (some (key join_id n a))
        ≡ join_part env
            (joining c i (new_join join_id n no_join))
            i
            a.num
            a.qid
            (resolve_target env c a.target)
  unfolding handle_join join_slot_find join_slot_as claim_join
  arrive-first a l =
      ap
        (λ t.
          if t
          then send_join_result env c a.qid join_id false false none
          else join_in env (join_slot_find c join_id n).0 a.qid a.target (key join_id n a)
              (join_slot_find c join_id n).1)
        (guards a l)
      ∙ ap (λ (r : Conn × Option ℕ). join_in env r.0 a.qid a.target (key join_id n a) r.1)
          (ap (join_slot_as c join_id n) unknown ∙ ap (claim_join c join_id n) room)
      ∙ in-joining (new_join join_id n no_join) a (get_or-replicate max_join_parts a.num false)

  -- A part that is added: the join goes on if it is not the last one, and else is complete.
  pub part-joining :
      (j : Join) (num qid : ℕ) (eid : Option ℕ)
      → j.part_count ≡ n
      → (join_part env (joining c i j) i num qid eid).0 ≡ (
          if suc j.nseen == n
          then (join_complete env (joining c i (add_part num qid eid j)) i).0
          else joining c i (add_part num qid eid j))
  unfolding join_part
  part-joining j num qid eid e =
      ap (λ xs. (step (record c { joins = xs })).0)
        (update-const i (add_part num qid eid) j c.joins)
      ∙ ap (λ t. (stepped (joining c i j') t).0) last
      ∙ projected (suc j.nseen == n)
    where
      j' : Join
      j' = add_part num qid eid j

      stepped : Conn → Bool → Handled
      stepped d t = if t then join_complete env d i else (d, pos 0)

      step : Conn → Handled
      step d = stepped d ((join_at d i).nseen == (join_at d i).part_count)

      last :
          ((join_at (joining c i j') i).nseen == (join_at (joining c i j') i).part_count)
          ≡ (suc j.nseen == n)
      last = ap (λ (x : Join). x.nseen == x.part_count) (at-slot j') ∙ ap (λ k. suc j.nseen == k) e

      projected :
          (t : Bool)
          → (stepped (joining c i j') t).0
            ≡ (if t then (join_complete env (joining c i j') i).0 else joining c i j')
      projected true = refl
      projected false = refl
