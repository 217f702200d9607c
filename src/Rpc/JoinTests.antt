-- ===== src/Rpc/JoinTests.antt =====
-- Runs of joins in lib/capn-rpc.c at concrete inputs, and their theorems there.
use c_capnproto.Common.{ℕ, ◌≡◌, refl, true, false, none, some, [], ◌∷◌, replicate, pos, arith}
use mathlib.Core.List.{Permᴰ}
use c_capnproto.Rpc.Messages.{imported_cap}
use c_capnproto.Rpc.Table.{find_slot}
use c_capnproto.Rpc.Conn.{Env, Conn, Join, init, no_join}
use c_capnproto.Rpc.Exports.{export}
use c_capnproto.Rpc.Answers.{return_cap}
use c_capnproto.Rpc.Joins.{joins_id, join_complete, return_join, new_join}
use c_capnproto.Rpc.Joins.Complete.{join_complete-replies, sent_log, plain, Agree}
use c_capnproto.Rpc.Joins.Order.{add_parts}
use c_capnproto.Rpc.Joins.Run.{Arrival, arrive_all, part_of, joining}
use c_capnproto.Rpc.Joins.Whole.{IsWhole, arrive_all_lem}
use c_capnproto.Rpc.Joins

-- A peer that takes every frame, and a codec whose frames all stand for one Return.
abbrev peer : Env
peer = record {
  encode = λ m. 1 ∷ [];
  decode = λ frame. some (return_cap 7 0);
  transmit = λ l frame. pos 0;
  dispatch = λ l f server interface_id method_id params. (pos 0, params);
}

-- A join of two parts, both in, whose targets name the export 0.
abbrev pair : Join
pair = record {
  used = true;
  join_id = 3;
  part_count = 2;
  nseen = 2;
  seen = true ∷ true ∷ replicate 14 false;
  qids = 11 ∷ 12 ∷ replicate 14 0;
  eids = some 0 ∷ some 0 ∷ replicate 14 (some 0);
}

abbrev pair_in : Conn
pair_in = record (export init 500 9).0 { joins = pair ∷ replicate 7 no_join }

join_complete-replies_example :
    ((e : ℕ)
      → Agree e (some 0 ∷ some 0 ∷ [])
      → (join_complete peer pair_in 0).0.log
        ≡ sent_log peer pair_in.log (return_join 11 3 true (some e) ∷ plain 3 true (12 ∷ [])))
    × (((e : ℕ) → ¬ Agree e (some 0 ∷ some 0 ∷ []))
        → (join_complete peer pair_in 0).0.log
          ≡ sent_log peer pair_in.log (plain 3 false (11 ∷ 12 ∷ [])))
join_complete-replies_example =
    join_complete-replies peer pair_in 0 11 (12 ∷ []) (λ qid b o. omega arith) (omega arith)
      (omega arith) refl

abbrev part_a : Arrival
part_a = record { num = 0; qid = 11; target = some (imported_cap 0) }

abbrev part_b : Arrival
part_b = record { num = 1; qid = 12; target = none }

no_join_yet : find_slot (joins_id 3) init.joins ≡ none
unfolding find_slot init
no_join_yet = refl

join_room : find_slot Joins.is_free init.joins ≡ some 0
unfolding find_slot init
join_room = refl

-- The second part comes first.
arrive_all_lem_example :
    (j : Join) × (arrive_all peer 3 2 init (part_b ∷ part_a ∷ [])
      ≡ (join_complete peer (joining init 0 j) 0).0)
    × IsWhole 3 2 (part_of peer init part_b ∷ part_of peer init part_a ∷ []) j
    × (j
        ≡ add_parts
            (part_of peer init part_a ∷ part_of peer init part_b ∷ [])
            (new_join 3 2 no_join))
arrive_all_lem_example =
    arrive_all_lem peer init 3 2 0 (part_b ∷ part_a ∷ []) no_join_yet join_room (omega arith)
      (omega arith) refl (omega arith, (omega arith, tt)) ((λ e. omega (arith, e), tt), (tt, tt))
      {qs = part_of peer init part_a ∷ part_of peer init part_b ∷ []}
      (Permᴰ.swap {a = part_of peer init part_b} {b = part_of peer init part_a} refl refl)
