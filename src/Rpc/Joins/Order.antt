-- ===== src/Rpc/Joins/Order.antt =====
-- The parts of a join may arrive in any order.
use c_capnproto.Common.{
  ℕ, ◌≤◌, ◌<◌, ◌≡◌, ◌≢◌, refl, sym, ap, ap₂, subst, ◌∙◌, true, false, Option, none, List, [], ◌∷◌,
  All, arith, get_or, length,
}
use mathlib.Core.List.{Permᴰ}
use c_capnproto.Rpc.Table.{update_comm, length-update, get-update, get-update_other}
use c_capnproto.Rpc.Conn.{Join}
use c_capnproto.Rpc.Joins.{add_part}

-- A part as it arrives: its number, the question, and the export that its target names.
pub record Part : Type 0 where
  pub num : ℕ
  pub qid : ℕ
  pub eid : Option ℕ

abbrev pub add_parts : List Part → Join → Join
add_parts [] j = j
add_parts (p ∷ ps) j = add_parts ps (add_part p.num p.qid p.eid j)

-- The numbers of the parts are distinct.
abbrev pub IsDistinct : List Part → Type 0
IsDistinct [] = Unit
IsDistinct (p ∷ ps) = All (λ (q : Part). q.num ≢ p.num) ps × IsDistinct ps

add_part_comm :
    (p q : Part) (j : Join)
    → p.num ≢ q.num
    → add_part p.num p.qid p.eid (add_part q.num q.qid q.eid j)
      ≡ add_part q.num q.qid q.eid (add_part p.num p.qid p.eid j)
add_part_comm p q j n =
    rw
      (
        update_comm p.num q.num (λ x. true) (λ x. true) j.seen n,
        update_comm p.num q.num (λ x. p.qid) (λ x. q.qid) j.qids n,
        update_comm p.num q.num (λ x. p.eid) (λ x. q.eid) j.eids n,
      )
      refl

All-Perm : {A : Type 0} (P : A → Type 0) {xs ys : List A} → Permᴰ xs ys → All P xs → All P ys
All-Perm P Permᴰ.nil h = tt
All-Perm P (Permᴰ.cons e d) h = (subst P e h.0, All-Perm P d h.1)
All-Perm P (Permᴰ.swap e f) h = (subst P f h.1.0, (subst P e h.0, h.1.1))
All-Perm P (Permᴰ.trans d e) h = All-Perm P e (All-Perm P d h)

IsDistinct-Perm : {ps qs : List Part} → Permᴰ ps qs → IsDistinct ps → IsDistinct qs
IsDistinct-Perm Permᴰ.nil h = tt
IsDistinct-Perm (Permᴰ.cons {a} {b} {l₁} {l₂} e d) h = (
  subst (λ (x : Part). All (λ (q : Part). q.num ≢ x.num) l₂) e
      (All-Perm (λ (q : Part). q.num ≢ a.num) d h.0),
  IsDistinct-Perm d h.1,
)
IsDistinct-Perm (Permᴰ.swap {a} {b} {a'} {b'} {l} e f) h = (
  (
    λ x. h.0.0 (ap (λ (p : Part). p.num) f ∙ sym x ∙ sym (ap (λ (p : Part). p.num) e)),
    subst (λ (x : Part). All (λ (q : Part). q.num ≢ x.num) l) f h.1.0,
  ),
  (subst (λ (x : Part). All (λ (q : Part). q.num ≢ x.num) l) e h.0.1, h.1.1),
)
IsDistinct-Perm (Permᴰ.trans d e) h = IsDistinct-Perm e (IsDistinct-Perm d h)

-- Parts with distinct numbers leave the same join in whatever order they are added.
pub add_parts-Perm :
    {ps qs : List Part} (j : Join) → Permᴰ ps qs → IsDistinct ps → add_parts ps j ≡ add_parts qs j
add_parts-Perm j Permᴰ.nil h = refl
add_parts-Perm j (Permᴰ.cons {a} {b} {l₁} {l₂} e d) h =
    ap (λ (p : Part). add_parts l₁ (add_part p.num p.qid p.eid j)) e ∙ add_parts-Perm _ d h.1
add_parts-Perm j (Permᴰ.swap {a} {b} {a'} {b'} {l} e f) h =
    ap (add_parts l) (add_part_comm b a j h.0.0) ∙ ap₂ (λ (p q : Part). add_parts (q ∷ p ∷ l) j) e f
add_parts-Perm j (Permᴰ.trans d e) h =
    add_parts-Perm j d h ∙ add_parts-Perm j e (IsDistinct-Perm d h)

-- The join holds the part: it is seen, with its question and its export.
abbrev pub HoldsPart : Join → Part → Type 0
HoldsPart j p =
    (get_or j.seen p.num false ≡ true)
    × (get_or j.qids p.num 0 ≡ p.qid)
    × (get_or j.eids p.num none ≡ p.eid)

-- The arrays of a join have room for the parts.
pub record HasRoom (j : Join) (n : ℕ) : Type 0 where
  pub seen_room : n ≤ length j.seen
  pub qids_room : n ≤ length j.qids
  pub eids_room : n ≤ length j.eids

add_part-HasRoom :
    (p : Part) (j : Join) (n : ℕ) → HasRoom j n → HasRoom (add_part p.num p.qid p.eid j) n
add_part-HasRoom p j n r = record {
  seen_room = omega (arith, r.seen_room, length-update p.num (λ x. true) j.seen);
  qids_room = omega (arith, r.qids_room, length-update p.num (λ x. p.qid) j.qids);
  eids_room = omega (arith, r.eids_room, length-update {A = Option ℕ} p.num (λ x. p.eid) j.eids);
}

add_part-HoldsPart :
    (p : Part) (j : Join) (n : ℕ)
    → HasRoom j n
    → p.num < n
    → HoldsPart (add_part p.num p.qid p.eid j) p
add_part-HoldsPart p j n r l = (
  get-update p.num (λ x. true) j.seen false (omega (arith, r.seen_room)),
  get-update p.num (λ x. p.qid) j.qids 0 (omega (arith, r.qids_room)),
  get-update p.num (λ x. p.eid) j.eids none (omega (arith, r.eids_room)),
)

-- Other parts do not touch it.
add_parts-keeps :
    (ps : List Part) (p : Part) (j : Join)
    → All (λ (q : Part). q.num ≢ p.num) ps
    → HoldsPart j p
    → HoldsPart (add_parts ps j) p
add_parts-keeps [] p j d h = h
add_parts-keeps (q ∷ ps) p j d h = add_parts-keeps ps p (add_part q.num q.qid q.eid j) d.1 (
  get-update_other q.num p.num (λ x. true) j.seen false d.0 ∙ h.0,
  get-update_other q.num p.num (λ x. q.qid) j.qids 0 d.0 ∙ h.1,
  get-update_other q.num p.num (λ x. q.eid) j.eids none d.0 ∙ h.2,
)

-- After parts with distinct numbers have been added the join holds each of them, and else is as it was.
pub add_parts-HoldsPart :
    (ps : List Part) (j : Join) (n : ℕ)
    → HasRoom j n
    → All (λ (p : Part). p.num < n) ps
    → IsDistinct ps
    → All (HoldsPart (add_parts ps j)) ps
add_parts-HoldsPart [] j n r l d = tt
add_parts-HoldsPart (p ∷ ps) j n r l d = (
  add_parts-keeps ps p (add_part p.num p.qid p.eid j) d.0 (add_part-HoldsPart p j n r l.0),
  add_parts-HoldsPart ps (add_part p.num p.qid p.eid j) n (add_part-HasRoom p j n r) l.1 d.1,
)

pub add_parts-count :
    (ps : List Part) (j : Join)
    → ((add_parts ps j).join_id ≡ j.join_id) × ((add_parts ps j).part_count ≡ j.part_count)
add_parts-count [] j = (refl, refl)
add_parts-count (p ∷ ps) j = add_parts-count ps (add_part p.num p.qid p.eid j)
