-- ===== src/Session.antt =====
-- `struct capn` and `struct capn_segment` of lib/capnp_c.h, and the segment table of lib/capn.c.
-- A segment is named by its id, which stands for a pointer to it; `data` is the address of its first
-- byte. The tree holds the ids.
pub mod Valid
pub mod Depth
mod Tests
use c_capnproto.Common.{
  ℕ, zero, suc, ◌+◌, ◌-◌, ◌*◌, ◌/◌, ◌%◌, ◌^◌, Bool, true, false, Option, none, some, List, [], ◌∷◌,
  ◌++◌, ltb, leb, ◌==◌, if◌then◌else◌, ℤ, pos, negsuc, drop, ◌&&◌,
}
use c_capnproto.Tree.{Tree, nil, node, Ancestors, top, under, tree_insert}
use c_capnproto.Tree.Search.{Search, found, missing, search_id}

pub record Segment : Type 0 where
  pub id : ℕ
  pub data_addr : ℕ
  pub len : ℕ
  pub capacity : ℕ
  pub bytes : List ℕ

-- The copy list and its tree are left out, and so are the callbacks and `user`: see `lookup_segment`.
pub record Session : Type 0 where
  pub traversal_limit : ℕ
  pub nesting_limit : ℤ
  pub segnum : ℕ
  pub segtree : Tree ℕ
  pub seglist : List Segment
  pub lastseg : Option ℕ
  pub traversal_used : ℕ
  pub decode_err : Bool

-- What `capn_init_malloc` leaves: all is zero.
abbrev pub empty_session : Session
empty_session = record {
  traversal_limit = 0;
  nesting_limit = pos 0;
  segnum = 0;
  segtree = nil;
  seglist = [];
  lastseg = none;
  traversal_used = 0;
  decode_err = false;
}

-- What a pointer to a segment points to.
unfoldable pub find_segment : ℕ → List Segment → Option Segment
find_segment id [] = none
find_segment id (s ∷ ss) = if s.id == id then some s else find_segment id ss

-- `lastseg->hdr.link[1] = &s->hdr`, `s->hdr.parent = &lastseg->hdr` and `capn_tree_insert`; with no
-- last segment the parent is null. `none` is a dereference of a bad pointer.
unfoldable pub link_segment : Option ℕ → ℕ → Tree ℕ → Option (Tree ℕ)
link_segment none id tree = tree_insert id top
link_segment (some last) id tree = elim (search_id last tree top) [
  | found red l r path ↦ tree_insert id (under true red last l path)
  | missing path ↦ none
]

-- `lastseg->next = s`, where `lastseg` ends the list, or `seglist = s`.
unfoldable pub link_list : Option ℕ → List Segment → Segment → List Segment
link_list none ss s = s ∷ []
link_list (some last) ss s = ss ++ (s ∷ [])

-- `capn_append_segment`.
unfoldable pub append_segment : Session → Segment → Option Session
append_segment c s =
    let id = c.segnum in
    let s' : Segment = record s { id = id } in
    elim (link_segment c.lastseg id c.segtree) [
      | none ↦ none
      | some tree ↦ some (record c {
        segnum = (id + 1) % 2 ^ 32;
        segtree = tree;
        seglist = link_list c.lastseg c.seglist s';
        lastseg = some id;
      })
    ]

-- The part of `lookup_segment` from `if (id < c->segnum)` on.
unfoldable pub lookup_tree : Session → ℕ → Option ℕ
lookup_tree c id =
    if ltb id c.segnum
    then elim (search_id id c.segtree top) [ found red l r path ↦ some id | missing path ↦ none ]
    else none

-- `lookup_segment` with the `lookup` callback null, as `capn_init_malloc` leaves it. The result is a
-- pointer to the segment.
unfoldable pub lookup_segment : Session → Option ℕ → ℕ → Option ℕ
lookup_segment c none id = lookup_tree c id
lookup_segment c (some own) id = if own == id then some own else lookup_tree c id
