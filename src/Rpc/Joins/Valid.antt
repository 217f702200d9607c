-- ===== src/Rpc/Joins/Valid.antt =====
-- The invariant of a join that is under way.
use c_capnproto.Common.{
  ℕ, zero, suc, ◌≤◌, ◌<◌, ◌≡◌, ◌≢◌, refl, ap, ◌∙◌, Bool, true, false, Option, some, List, [], ◌∷◌,
  length, get_or, take, replicate, arith, length-replicate,
}
use c_capnproto.Rpc.Table.{update, length-update}
use c_capnproto.Rpc.Conn.{Join, max_join_parts}
use c_capnproto.Rpc.Joins.{new_join, add_part}

unfoldable pub count_seen : List Bool → ℕ
count_seen [] = 0
count_seen (true ∷ xs) = suc (count_seen xs)
count_seen (false ∷ xs) = count_seen xs

-- A join in use has from 1 to 16 parts, not all of which are in; `nseen` counts those that are.
pub record IsOpen (j : Join) : Type 0 where
  pub seen_size : length j.seen ≡ max_join_parts
  pub qids_size : length j.qids ≡ max_join_parts
  pub eids_size : length j.eids ≡ max_join_parts
  pub few : j.part_count ≤ max_join_parts
  pub counted : count_seen (take j.part_count j.seen) ≡ j.nseen
  pub missing : j.nseen < j.part_count

abbrev pub IsOk : Join → Type 0
IsOk j = j.used ≡ true → IsOpen j

count_seen-replicate : (m n : ℕ) → count_seen (take m (replicate n false)) ≡ 0
unfolding count_seen
count_seen-replicate zero n = refl
count_seen-replicate (suc m) zero = refl
count_seen-replicate (suc m) (suc n) = count_seen-replicate m n

-- One more part is seen.
pub count_seen-update :
    (n p : ℕ) (xs : List Bool)
    → p < n
    → p < length xs
    → get_or xs p false ≡ false
    → count_seen (take n (update p (λ x. true) xs)) ≡ suc (count_seen (take n xs))
unfolding count_seen update
count_seen-update n p [] h l e = absurd (omega arith)
count_seen-update zero p (x ∷ xs) h l e = absurd (omega arith)
count_seen-update (suc n) zero (true ∷ xs) h l e = cc
count_seen-update (suc n) zero (false ∷ xs) h l e = refl
count_seen-update (suc n) (suc p) (true ∷ xs) h l e =
    ap suc (count_seen-update n p xs (omega arith) (omega arith) e)
count_seen-update (suc n) (suc p) (false ∷ xs) h l e =
    count_seen-update n p xs (omega arith) (omega arith) e

pub new_join-IsOpen :
    (join_id part_count : ℕ) (j : Join)
    → 0 < part_count
    → part_count ≤ max_join_parts
    → IsOpen (new_join join_id part_count j)
new_join-IsOpen join_id part_count j h l = record {
  seen_size = length-replicate max_join_parts false;
  qids_size = length-replicate {A = ℕ} max_join_parts 0;
  eids_size = length-replicate {A = Option ℕ} max_join_parts (some 0);
  few = l;
  counted = count_seen-replicate part_count max_join_parts;
  missing = h;
}

-- A part that is not the last one leaves the join open.
pub add_part-IsOpen :
    (part qid : ℕ) (eid : Option ℕ) (j : Join)
    → IsOpen j
    → part < j.part_count
    → get_or j.seen part false ≡ false
    → suc j.nseen ≢ j.part_count
    → IsOpen (add_part part qid eid j)
add_part-IsOpen part qid eid j o h e more = record {
  seen_size = length-update part (λ x. true) j.seen ∙ o.seen_size;
  qids_size = length-update part (λ x. qid) j.qids ∙ o.qids_size;
  eids_size = length-update part (λ x. eid) j.eids ∙ o.eids_size;
  few = o.few;
  counted =
      count_seen-update j.part_count part j.seen h (omega (arith, o.few, o.seen_size)) e
      ∙ ap suc o.counted;
  missing = omega (arith, o.missing, more);
}
