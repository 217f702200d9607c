-- ===== src/Framing/Tests.antt =====
-- Framed messages that `capn_init_mem` of lib/capn-malloc.c reads, and the theorem at one of them.
use c_capnproto.Common.{ℕ, ◌≡◌, refl, false, some, none, List, [], ◌∷◌, ◌++◌, length, All, arith}
use c_capnproto.Tree.{nil, node, tree_insert, insert_fixup}
use c_capnproto.Session.{
  Session, empty_session, append_segment, link_segment, link_list, lookup_segment, lookup_tree,
}
use c_capnproto.Session.Valid.{IsValid}
use c_capnproto.Decode.Pointers.{little_endian}
use c_capnproto.Framing.{
  read_mem, segment_sizes, add_segments, init_fp, init_mem, read_segnum, read_list, init_list,
  read_segments, ready, failed,
}
use c_capnproto.Framing.Frame.{size_list, contents, frame}
use c_capnproto.Tree.Search.{search_id}
use c_capnproto.Framing.Write.{
  chain_from, root_chain, root_segments, set_elem, render_sizes, header_render, words_bytes,
  copy_segments, write_mem, size,
}
use c_capnproto.Framing.Write.Sessions.{IsFull, write_mem-frame}

abbrev segment : List ℕ
segment = 1 ∷ 2 ∷ 3 ∷ 4 ∷ 5 ∷ 6 ∷ 7 ∷ 8 ∷ []

abbrev message : List ℕ
message = 0 ∷ 0 ∷ 0 ∷ 0 ∷ 1 ∷ 0 ∷ 0 ∷ 0 ∷ segment

frame-message : frame (segment ∷ []) ++ [] ≡ message
unfolding size_list contents
frame-message = refl

read_message :
    init_mem message false (some 4096)
    ≡ ready (record empty_session {
      segnum = 1;
      segtree = node false nil 0 nil;
      seglist = record { id = 0; data_addr = 4184; len = 8; capacity = 8; bytes = segment } ∷ [];
      lastseg = some 0;
    })
unfolding init_mem init_fp read_segnum read_list init_list read_segments read_mem segment_sizes
    add_segments little_endian append_segment link_segment link_list tree_insert insert_fixup
read_message = refl

-- A byte is missing, and there are too many segments.
read_short :
    init_mem (0 ∷ 0 ∷ 0 ∷ 0 ∷ 1 ∷ 0 ∷ 0 ∷ 0 ∷ 1 ∷ 2 ∷ 3 ∷ 4 ∷ 5 ∷ 6 ∷ 7 ∷ []) false (some 4096)
    ≡ failed
unfolding init_mem init_fp read_segnum read_list init_list read_segments read_mem segment_sizes
    add_segments little_endian
read_short = refl

read_many : init_mem (0 ∷ 4 ∷ 0 ∷ 0 ∷ message) false (some 4096) ≡ failed
unfolding init_mem init_fp read_segnum read_list init_list read_segments read_mem little_endian
read_many = refl

abbrev session : Session
session = record empty_session {
  segnum = 1;
  segtree = node false nil 0 nil;
  seglist = record { id = 0; data_addr = 4184; len = 8; capacity = 8; bytes = segment } ∷ [];
  lastseg = some 0;
}

-- The words that stand in the buffer before do not matter.
write_message : write_mem session (77 ∷ 78 ∷ []) 16 ≡ some message
unfolding write_mem root_segments root_chain chain_from lookup_segment lookup_tree search_id
    header_render render_sizes set_elem words_bytes copy_segments
write_message = refl

write_small : write_mem session (77 ∷ 78 ∷ []) 15 ≡ none
unfolding write_mem root_segments root_chain chain_from lookup_segment lookup_tree search_id
    header_render render_sizes set_elem
write_small = refl

session-IsValid : IsValid session
session-IsValid = record {
  tree_ids = (refl, refl);
  balanced = (1, record { root_black = refl; heights = (refl, refl); reds = (tt, tt) });
  list_ids = refl;
  last = refl;
}

session-IsFull : All IsFull session.seglist
session-IsFull = (record { listed = refl; words = refl; small = omega arith }, tt)

write_mem-frame_example :
    (write_mem session (77 ∷ 78 ∷ []) 16 ≡ some (frame (segment ∷ [])))
    × (size session ≡ some (length (frame (segment ∷ []))))
write_mem-frame_example =
    write_mem-frame session (77 ∷ 78 ∷ []) 16 session-IsValid (omega arith, omega arith)
      session-IsFull (omega arith) (omega arith) refl (unfold size_list contents in omega arith)
