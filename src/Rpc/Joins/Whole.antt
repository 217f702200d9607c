-- ===== src/Rpc/Joins/Whole.antt =====
-- A whole join: its parts arrive, in any order, and are answered when the last one is in.
use c_capnproto.Common.{
  ℕ, suc, ◌+◌, ◌≤◌, ◌<◌, ◌≡◌, ◌≢◌, refl, sym, ap, ◌∙◌, Bool, true, false, Option, none, some, List,
  [], ◌∷◌, length, get_or, arith, ◌==◌, All, if◌then◌else◌, map, eq→==, ne→==, length-replicate,
  replicate, get_or-replicate,
}
use mathlib.Core.List.{Permᴰ}
use c_capnproto.Rpc.Table.{find_slot, update, length-update, get-update_other}
use c_capnproto.Rpc.Conn.{Conn, Env, Join, no_join, max_join_parts, Handled}
use c_capnproto.Rpc.Answers.{resolve_target}
use c_capnproto.Rpc.Joins.{is_free, joins_id, new_join, join_complete, add_part, handle_join}
use c_capnproto.Rpc.Joins.Order.{
  Part, add_parts, IsDistinct, add_parts-Perm, HoldsPart, HasRoom, add_parts-HoldsPart,
  add_parts-count,
}
use c_capnproto.Rpc.Joins.Run.{
  Arrival, key, arrive_all, part_of, joining, Waits, arrive-joining, arrive-first, part-joining,
}

-- Parameters of a join that starts on the connection `c`: no join has its id, and the slot `i` is the
-- first that is free.
module _ (env : Env) (c : Conn) (join_id n i : ℕ)
    (unknown : find_slot (joins_id join_id) c.joins ≡ none)
    (room : find_slot is_free c.joins ≡ some i) (some_part : 0 < n) (few : n ≤ max_join_parts) where
  -- The parts that are still to come, with the join they come to.
  record Coming (j : Join) (rest : List Arrival) : Type 0 where
    id : joins_id join_id j ≡ true
    count : j.part_count ≡ n
    size : length j.seen ≡ max_join_parts
    missing : All (λ (a : Arrival). get_or j.seen a.num false ≡ false) rest
    inside_n : All (λ (a : Arrival). a.num < n) rest
    distinct : IsDistinct (map (part_of env c) rest)
    left : j.nseen + length rest ≡ n

  -- After a part the others are still missing.
  missing-added :
      (a : Arrival) (j : Join) (rest : List Arrival)
      → All (λ (p : Part). p.num ≢ a.num) (map (part_of env c) rest)
      → All (λ (b : Arrival). get_or j.seen b.num false ≡ false) rest
      → All (λ (b : Arrival). get_or (update a.num (λ x. true) j.seen) b.num false ≡ false) rest
  missing-added a j [] d m = tt
  missing-added a j (b ∷ rest) d m = (
    get-update_other a.num b.num (λ x. true) j.seen false (λ e. d.0 (sym e)) ∙ m.0,
    missing-added a j rest d.1 m.1,
  )

  Coming-next :
      (a : Arrival) (j : Join) (rest : List Arrival)
      → Coming j (a ∷ rest)
      → Coming (add_part a.num a.qid (resolve_target env c a.target) j) rest
  Coming-next a j rest w = record {
    id = w.id;
    count = w.count;
    size = length-update a.num (λ x. true) j.seen ∙ w.size;
    missing = missing-added a j rest w.distinct.0 w.missing.1;
    inside_n = w.inside_n.1;
    distinct = w.distinct.1;
    left = omega (arith, w.left);
  }

  -- One part more: the last one completes the join.
  arrive-next :
      (a : Arrival) (j : Join) (rest : List Arrival) (t : Bool)
      → (length rest == 0) ≡ t
      → Coming j (a ∷ rest)
      → (handle_join env (joining c i j) a.qid a.target (some (key join_id n a))).0 ≡ (
          if t
          then (join_complete env
              (joining c i (add_part a.num a.qid (resolve_target env c a.target) j))
              i).0
          else joining c i (add_part a.num a.qid (resolve_target env c a.target) j))
  arrive-next a j rest t e w =
      ap (λ (h : Handled). h.0)
        (arrive-joining env c join_id n i unknown room some_part few j a waits w.inside_n.0)
      ∙ part-joining env c join_id n i unknown room some_part few j a.num a.qid
          (resolve_target env c a.target) w.count
      ∙ ap
          (λ t.
            if t
            then (join_complete env
                (joining c i (add_part a.num a.qid (resolve_target env c a.target) j)) i).0
            else joining c i (add_part a.num a.qid (resolve_target env c a.target) j))
          last
    where
      waits : Waits env c join_id n i unknown room some_part few j a.num
      waits = record { id = w.id; count = w.count; missing = w.missing.0 }

      last : (suc j.nseen == n) ≡ t
      last = same ∙ e
        where
          same : (suc j.nseen == n) ≡ (length rest == 0)
          same = ground (arith, w.left)

  arrive_all-joining :
      (rest : List Arrival) (a : Arrival) (j : Join)
      → Coming j (a ∷ rest)
      → arrive_all env join_id n (joining c i j) (a ∷ rest)
        ≡ (join_complete env (joining c i (add_parts (map (part_of env c) (a ∷ rest)) j)) i).0
  arrive_all-joining [] a j w = arrive-next a j [] true refl w
  arrive_all-joining (b ∷ rest) a j w =
      ap (λ d. arrive_all env join_id n d (b ∷ rest))
        (arrive-next a j (b ∷ rest) false (ne→== (suc (length rest)) 0 (omega arith)) w)
      ∙ arrive_all-joining rest b (add_part a.num a.qid (resolve_target env c a.target) j)
          (Coming-next a j (b ∷ rest) w)

  -- The join before its first part.
  Coming-first :
      (ps : List Arrival)
      → length ps ≡ n
      → All (λ (a : Arrival). a.num < n) ps
      → IsDistinct (map (part_of env c) ps)
      → Coming (new_join join_id n no_join) ps
  Coming-first ps l h d = record {
    id = eq→== join_id join_id refl;
    count = refl;
    size = length-replicate max_join_parts false;
    missing = unseen ps;
    inside_n = h;
    distinct = d;
    left = omega (arith, l);
  }
    where
      unseen :
          (qs : List Arrival)
          → All (λ (a : Arrival). get_or (replicate max_join_parts false) a.num false ≡ false) qs
      unseen [] = tt
      unseen (a ∷ qs) = (get_or-replicate max_join_parts a.num false, unseen qs)

  arrive_all-first :
      (ps : List Arrival)
      → Coming (new_join join_id n no_join) ps
      → arrive_all env join_id n c ps
        ≡ (join_complete env
            (joining c i (add_parts (map (part_of env c) ps) (new_join join_id n no_join)))
            i).0
  arrive_all-first [] w = absurd (omega (arith, w.left, some_part))
  arrive_all-first (a ∷ rest) w =
      ap (λ d. arrive_all env join_id n d rest)
        (ap (λ (h : Handled). h.0)
          (arrive-first env c join_id n i unknown room some_part few a w.inside_n.0
            ∙ sym (
                arrive-joining env c join_id n i unknown room some_part few
                  (new_join join_id n no_join) a
                  (record { id = w.id; count = w.count; missing = w.missing.0 }) w.inside_n.0)))
      ∙ arrive_all-joining rest a (new_join join_id n no_join) w

-- The numbers of the parts as those of the arrivals.
nums-part_of :
    (env : Env) (c : Conn) (n : ℕ) (ps : List Arrival)
    → All (λ (a : Arrival). a.num < n) ps
    → All (λ (p : Part). p.num < n) (map (part_of env c) ps)
nums-part_of env c n [] h = tt
nums-part_of env c n (a ∷ ps) h = (h.0, nums-part_of env c n ps h.1)

-- The join that all parts are in: it has its id and its number of parts, and holds each part with the
-- question that it came with and the export that its target named.
pub record IsWhole (join_id n : ℕ) (parts : List Part) (j : Join) : Type 0 where
  pub id : j.join_id ≡ join_id
  pub count : j.part_count ≡ n
  pub holds : All (HoldsPart j) parts

-- A join of `n` parts that no other join has the id of, for which a slot is free, and whose parts have the
-- numbers below `n`, each once: when all parts have arrived it has been completed once, as a join that
-- holds for each part the question that it came with and the export that its target named. Any other order
-- of the same parts leads to the same join.
pub arrive_all_lem :
    (env : Env) (c : Conn) (join_id n i : ℕ) (ps : List Arrival)
    → find_slot (joins_id join_id) c.joins ≡ none
    → find_slot is_free c.joins ≡ some i
    → 0 < n
    → n ≤ max_join_parts
    → length ps ≡ n
    → All (λ (a : Arrival). a.num < n) ps
    → IsDistinct (map (part_of env c) ps)
    → {qs : List Part} → Permᴰ (map (part_of env c) ps) qs
    → (j : Join) × (arrive_all env join_id n c ps ≡ (join_complete env (joining c i j) i).0)
      × IsWhole join_id n (map (part_of env c) ps) j
      × (j ≡ add_parts qs (new_join join_id n no_join))
arrive_all_lem env c join_id n i ps unknown room some_part few l h d p =
    let parts = map (part_of env c) ps in
    let empty : Join = new_join join_id n no_join in
    (
      add_parts parts empty,
      arrive_all-first env c join_id n i unknown room some_part few ps
          (Coming-first env c join_id n i unknown room some_part few ps l h d),
      record {
        id = (add_parts-count parts empty).0;
        count = (add_parts-count parts empty).1;
        holds = add_parts-HoldsPart parts empty n arrays (nums-part_of env c n ps h) d;
      },
      add_parts-Perm empty p d,
    )
  where
    arrays : HasRoom (new_join join_id n no_join) n
    arrays = record {
      seen_room = omega (arith, few, length-replicate max_join_parts false);
      qids_room = omega (arith, few, length-replicate {A = ℕ} max_join_parts 0);
      eids_room = omega (arith, few, length-replicate {A = Option ℕ} max_join_parts (some 0));
    }
