-- ===== src/Decode/Tests.antt =====
-- Tests of the reader, and the properties at concrete inputs.
use c_capnproto.Common.{
  ◌+◌, ◌≤◌, ◌≡◌, refl, ap, ◌∙◌, true, false, some, [], ◌∷◌, ◌++◌, pos, arith, wrap_int,
}
use c_capnproto.Tree.{nil, node}
use c_capnproto.Session.{Segment, Session, empty_session, find_segment, lookup_segment, lookup_tree}
use c_capnproto.Decode.Pointers.{struct, Ptr, null_ptr, little_endian, load64, far_pointer}
use c_capnproto.Decode.Limits.{bounds_ok, traversal_budget, charge, charge_traversal, hop_remaining}
use c_capnproto.Decode.Far.{off_words, apply_offset, land, lookup_far, segment_at}
use c_capnproto.Decode.Shapes.{struct_bytes, struct_shape, object_shape}
use c_capnproto.Decode.Read.{
  with_hops, shape_ptr, read_object, read_landing, read_ptr, resolve, resolve_as,
}
use c_capnproto.Decode.Safety.Bounds.{InSegment, InMemory, bounds_ok_lem}
use c_capnproto.Decode.Safety.Budget.{cost, spend, charge_traversal_lem}
use c_capnproto.Tree.Search.{search_id}
use c_capnproto.Decode.Get.{member, word_at, getp}
use c_capnproto.Decode.Safety.Members.{NullOrInside, getp-Inside}
use c_capnproto.Decode.Safety.Stale.{getp-null_ptr}
use c_capnproto.Decode.Safety.Results.{Inside, Outcome, read_ptr_lem}
use c_capnproto.Decode.Safety.Walks.{Chain, stop, hop, Reads, done, read, Chain-le, Reads-le}

-- A pointer to a struct, and the struct: a word of data, and a pointer to the struct itself.
abbrev home : Segment
home = record {
  id = 0;
  data_addr = 4096;
  len = 24;
  capacity = 24;
  bytes =
      (0 ∷ 0 ∷ 0 ∷ 0 ∷ 1 ∷ 0 ∷ 1 ∷ 0 ∷ [])
      ++ (42 ∷ 0 ∷ 0 ∷ 0 ∷ 0 ∷ 0 ∷ 0 ∷ 0 ∷ [])
      ++ (0xf8 ∷ 0xff ∷ 0xff ∷ 0xff ∷ 1 ∷ 0 ∷ 1 ∷ 0 ∷ []);
}

abbrev session : Session
session = record empty_session {
  traversal_limit = 40;
  segnum = 1;
  segtree = node false nil 0 nil;
  seglist = home ∷ [];
  lastseg = some 0;
}

abbrev root : Ptr
root = record null_ptr {
  type = struct;
  datasz = 8;
  ptrs = 1;
  addr = 4104;
  seg = some 0;
  nesting = pos 1;
  nesting_valid = true;
}

abbrev after_root : Session
after_root = record session { traversal_used = 16 }

known : find_segment 0 session.seglist ≡ some home
unfolding find_segment
known = refl

root_read : read_ptr session (some 0) 4096 (pos 2) ≡ (after_root, root)
unfolding read_ptr find_segment read_landing bounds_ok load64 little_endian land read_object
    apply_offset off_words object_shape struct_shape struct_bytes charge_traversal charge with_hops
    shape_ptr
root_read = refl

-- The pointer in the struct: one hop less.
child_read :
    read_ptr after_root (some 0) 4112 (pos 1)
    ≡ (record session { traversal_used = 32 }, record root { nesting = pos 0 })
unfolding read_ptr find_segment read_landing bounds_ok load64 little_endian land read_object
    apply_offset off_words object_shape struct_shape struct_bytes charge_traversal charge with_hops
    shape_ptr
child_read = refl

-- The third read of the same object would exceed the limit of 40 bytes.
third_read :
    read_ptr (record session { traversal_used = 32 }) (some 0) 4112 (pos 1)
    ≡ (record session { traversal_used = 32; decode_err = true }, null_ptr)
unfolding read_ptr find_segment read_landing bounds_ok load64 little_endian land read_object
    apply_offset off_words object_shape struct_shape struct_bytes charge_traversal charge
third_read = refl

bounds_ok_lem_example :
    (bounds_ok home 4112 8 ≡ true → InSegment home 4112 8)
    × (InMemory home → InSegment home 4112 8 → bounds_ok home 4112 8 ≡ true)
bounds_ok_lem_example = bounds_ok_lem home 4112 8

charge_traversal_lem_example : charge_traversal session 0 5 ≡ spend session (cost 0 5)
charge_traversal_lem_example = charge_traversal_lem session 0 5 (omega arith) (omega arith)

read_ptr_lem_example :
    let (c', p) = read_ptr session (some 0) 4096 (pos 2) in Outcome session (pos 2) c' p
read_ptr_lem_example = read_ptr_lem session 0 home 4096 (pos 2) (omega arith) known

root_hops : hop_remaining after_root root ≡ pos 1
unfolding hop_remaining
root_hops = refl

root-Chain : Chain after_root root 1
root-Chain =
    hop 0 home 4112 known (ap (read_ptr after_root (some 0) 4112) root_hops ∙ child_read) (λ e. cc)
      stop

Chain-le_example : 1 ≤ 1
Chain-le_example = Chain-le after_root root 1 1 (omega arith) root_hops root-Chain

two-Reads : Reads session 32
two-Reads =
    read 0 home 4096 (pos 2) known root_read (read 0 home 4112 (pos 1) known child_read done)

Reads-le_example : session.traversal_used + 32 ≤ traversal_budget session
Reads-le_example = Reads-le session 32 (omega arith) two-Reads

-- The pointer in the struct, left unresolved, and read.
Inside-root : Inside after_root root
Inside-root = record {
  home = home;
  known = known;
  seg_eq = refl;
  bytes = record { start = omega arith; end = omega arith };
}

getp-Inside_example :
    let (c', r) = getp after_root root (pos 0) false in
    (c' ≡ after_root) × NullOrInside after_root r
getp-Inside_example =
    getp-Inside after_root root 0 (λ e. cc) Inside-root
      (record { bytes = omega arith; bits = omega arith })

-- Segment 0 holds a far pointer to a struct in segment 1, and the struct a pointer to itself.
abbrev first : Segment
first = record {
  id = 0;
  data_addr = 4096;
  len = 8;
  capacity = 8;
  bytes = 2 ∷ 0 ∷ 0 ∷ 0 ∷ 1 ∷ 0 ∷ 0 ∷ 0 ∷ [];
}

abbrev second : Segment
second = record {
  id = 1;
  data_addr = 8192;
  len = 16;
  capacity = 16;
  bytes = (0 ∷ 0 ∷ 0 ∷ 0 ∷ 0 ∷ 0 ∷ 1 ∷ 0 ∷ []) ++ (0xfc ∷ 0xff ∷ 0xff ∷ 0xff ∷ 0 ∷ 0 ∷ 1 ∷ 0 ∷ []);
}

abbrev two_segments : Session
two_segments = record empty_session {
  segnum = 2;
  segtree = node false nil 0 (node true nil 1 nil);
  seglist = first ∷ second ∷ [];
  lastseg = some 1;
}

abbrev unresolved : Ptr
unresolved = record null_ptr {
  type = far_pointer;
  addr = 4096;
  seg = some 0;
  nesting = pos 5;
  nesting_valid = true;
}

abbrev far_struct : Ptr
far_struct = record null_ptr {
  type = struct;
  has_ptr_tag = true;
  ptrs = 1;
  addr = 8200;
  seg = some 1;
  nesting = pos 4;
  nesting_valid = true;
}

far_read :
    resolve two_segments unresolved ≡ (record two_segments { traversal_used = 8 }, far_struct)
unfolding resolve_as hop_remaining read_ptr find_segment read_landing bounds_ok load64 little_endian
    land lookup_far segment_at lookup_segment lookup_tree search_id read_object apply_offset
    off_words object_shape struct_shape struct_bytes charge_traversal charge with_hops shape_ptr
far_read = refl

-- Read in one step from the unresolved pointer, the field is refused; from the resolved one it is read.
far_field : getp (record two_segments { traversal_used = 8 }) far_struct (pos 0) true ≡ (
  record two_segments { traversal_used = 16 },
  record far_struct { has_ptr_tag = false; nesting = pos 3 },
)
unfolding getp member word_at resolve_as hop_remaining read_ptr find_segment read_landing bounds_ok
    load64 little_endian land lookup_far segment_at lookup_segment lookup_tree search_id read_object
    apply_offset off_words object_shape struct_shape struct_bytes charge_traversal charge with_hops
    shape_ptr wrap_int
far_field = refl

getp-null_ptr_example :
    getp two_segments unresolved (pos 0) true
    ≡ (record two_segments { traversal_used = 8; decode_err = true }, null_ptr)
getp-null_ptr_example =
    getp-null_ptr two_segments unresolved 0 (record two_segments { traversal_used = 8 }) far_struct
      0 first far_read refl (omega arith) refl first_known
      (λ b. unfold wrap_int in omega (arith, b.end))
  where
    first_known : find_segment 0 two_segments.seglist ≡ some first
    first_known = unfold find_segment in refl
