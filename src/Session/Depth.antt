-- ===== src/Session/Depth.antt =====
-- The tree of lib/capn.c after any number of `capn_append_segment`.
use c_capnproto.Common.{
  ℕ, zero, suc, ◌+◌, ◌-◌, ◌*◌, ◌^◌, ◌≤◌, ◌<◌, ◌≡◌, refl, ap, ◌∙◌, Option, some, List, [], ◌∷◌,
  length, arith, ◌>>=◌,
}
use c_capnproto.Tree.Order.{inorder}
use c_capnproto.Tree.Balance.{depth, depth-le-log}
use c_capnproto.Tree.Search.{range, Dense-inorder}
use c_capnproto.Session.{Segment, Session, empty_session, append_segment}
use c_capnproto.Session.Valid.{IsValid, empty_session-IsValid, append_segment-IsValid}

-- One `capn_append_segment` after the other.
unfoldable pub append_all : Session → List Segment → Option Session
append_all c [] = some c
append_all c (s ∷ ss) = append_segment c s >>= λ c'. append_all c' ss

append_all-IsValid :
    (ss : List Segment) (c : Session)
    → IsValid c
    → c.segnum + length ss < 2 ^ 32
    → (c' : Session) × (append_all c ss ≡ some c') × IsValid c' × (c'.segnum ≡ c.segnum + length ss)
unfolding append_all
append_all-IsValid [] c v h = (c, refl, v, omega arith)
append_all-IsValid (s ∷ ss) c v h =
    let (c₁, e, v₁, n, added) = append_segment-IsValid c s v (omega arith) in
    let (c₂, e₂, v₂, n₂) = append_all-IsValid ss c₁ v₁ (omega (arith, n)) in
    (c₂, rw e e₂, v₂, omega (arith, n, n₂))

length-range : (lo n : ℕ) → length (range lo n) ≡ n
length-range lo zero = refl
length-range lo (suc n) = ap suc (length-range (suc lo) n)

keys-count : (c : Session) → IsValid c → length (inorder c.segtree) ≡ c.segnum
keys-count c v =
    ap (λ xs. length xs) (Dense-inorder c.segtree 0 c.segnum v.tree_ids).1
    ∙ length-range 0 (c.segnum - 0)
    ∙ omega arith

-- Any segments, below 2^32 of them, can be appended to an empty session one after the other, with no null
-- pointer met, and the tree that results is at most `2 * h` deep for some `h` with `2 ^ h` at most one more
-- than their number: its depth is at most twice the logarithm of the number of segments and one.
pub append_all-depth :
    (ss : List Segment)
    → length ss < 2 ^ 32
    → (c : Session) × (append_all empty_session ss ≡ some c)
      × (c.segnum ≡ length ss)
      × (h : ℕ) × (depth c.segtree ≤ 2 * h)
      × (2 ^ h ≤ length ss + 1)
append_all-depth ss small =
    let (c, e, v, n) = append_all-IsValid ss empty_session empty_session-IsValid (omega arith) in
    let (h, deep, wide) = depth-le-log c.segtree v.balanced in
    (c, e, omega (arith, n), h, deep, omega (arith, wide, keys-count c v, n))
