-- ===== src/Session/Tests.antt =====
-- Runs of the segment table of lib/capn.c at concrete inputs, and its theorems there.
use c_capnproto.Common.{
  ℕ, ◌+◌, ◌*◌, ◌^◌, ◌≤◌, ◌<◌, ◌≡◌, refl, false, none, some, [], ◌∷◌, ◌++◌, arith,
}
use c_capnproto.Tree.{nil, node, tree_insert, insert_fixup}
use c_capnproto.Session.{
  Segment, Session, empty_session, link_segment, link_list, append_segment, lookup_segment,
}
use c_capnproto.Tree.Balance.{depth}
use c_capnproto.Session.Depth.{append_all, append_all-depth}
use c_capnproto.Session.Valid.{IsValid, append_segment-IsValid, lookup_segment_lem}

abbrev first : Segment
first = record {
  id = 7;
  data_addr = 4096;
  len = 8;
  capacity = 64;
  bytes = 1 ∷ 0 ∷ 0 ∷ 0 ∷ 0 ∷ 0 ∷ 0 ∷ 0 ∷ [];
}

abbrev one_segment : Session
one_segment = record empty_session {
  segnum = 1;
  segtree = node false nil 0 nil;
  seglist = record first { id = 0 } ∷ [];
  lastseg = some 0;
}

append_first : append_segment empty_session first ≡ some one_segment
unfolding append_segment link_segment link_list tree_insert insert_fixup
append_first = refl

one_segment-IsValid : IsValid one_segment
one_segment-IsValid = record {
  tree_ids = (refl, refl);
  balanced = (1, record { root_black = refl; heights = (refl, refl); reds = (tt, tt) });
  list_ids = refl;
  last = refl;
}

lookup_own : lookup_segment one_segment (some 0) 0 ≡ some 0
unfolding lookup_segment
lookup_own = refl

append_segment-IsValid_example :
    (c' : Session) × (append_segment one_segment first ≡ some c')
    × IsValid c'
    × (c'.segnum ≡ 1 + 1)
    × (c'.seglist ≡ (record first { id = 0 } ∷ []) ++ (record first { id = 1 } ∷ []))
append_segment-IsValid_example =
    append_segment-IsValid one_segment first one_segment-IsValid (omega arith)

lookup_segment_lem_example :
    (0 < 1 → lookup_segment one_segment none 0 ≡ some 0)
    × (1 ≤ 0 → lookup_segment one_segment none 0 ≡ none)
lookup_segment_lem_example = lookup_segment_lem one_segment none 0 one_segment-IsValid no_own
  where
    no_own : (own : ℕ) → none ≡ some own → own < 1
    no_own own e = cc

append_all-depth_example :
    (c : Session) × (append_all empty_session (first ∷ first ∷ first ∷ []) ≡ some c)
    × (c.segnum ≡ 3)
    × (h : ℕ) × (depth c.segtree ≤ 2 * h)
    × (2 ^ h ≤ 3 + 1)
append_all-depth_example = append_all-depth (first ∷ first ∷ first ∷ []) (omega arith)
