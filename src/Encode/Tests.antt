-- ===== src/Encode/Tests.antt =====
-- Words that `write_ptr_tag` of lib/capn.c stores, and the round trip at one of them.
use c_capnproto.Common.{◌+◌, ◌*◌, ◌^◌, ◌≡◌, refl, none, some, [], ◌∷◌, pos, negsuc, arith}
use c_capnproto.Session.{Segment, Session, empty_session, find_segment}
use c_capnproto.Decode.Pointers.{struct, list, interface, Ptr, null_ptr, little_endian, load64}
use c_capnproto.Decode.Limits.{bounds_ok, charge, charge_traversal}
use c_capnproto.Decode.Read.{with_hops, read_ptr}
use c_capnproto.Encode.{
  offset_bits, size_code, field_bits, object_word, write_ptr_tag_as, write_ptr_tag,
}
use c_capnproto.Encode.RoundTrip.{plain_ptr, IsWritten, read_ptr-write_ptr_tag}

-- Two words of data and a pointer, one word before the object.
abbrev pair : Ptr
pair = record null_ptr { type = struct; datasz = 16; ptrs = 1; addr = 4112; seg = some 0 }

write_struct : write_ptr_tag pair (pos 8) ≡ some (4 + 2 * 2 ^ 32 + 2 ^ 48)
unfolding write_ptr_tag_as object_word offset_bits field_bits
write_struct = refl

-- An empty struct: the offset is -1, so that the word is not 0.
write_empty :
    write_ptr_tag (record null_ptr { type = struct; addr = 4096 }) (negsuc 7) ≡ some 0xFFFFFFFC
unfolding write_ptr_tag_as object_word offset_bits field_bits
write_empty = refl

write_far_off : write_ptr_tag pair (pos (8 * 2 ^ 29)) ≡ none
unfolding write_ptr_tag_as object_word
write_far_off = refl

write_list :
    write_ptr_tag (record null_ptr { type = list; datasz = 4; len = 3; addr = 4096 }) (pos 0)
    ≡ some (1 + 4 * 2 ^ 32 + 3 * 2 ^ 35)
unfolding write_ptr_tag_as object_word offset_bits field_bits size_code
write_list = refl

write_capability :
    write_ptr_tag (record null_ptr { type = interface; len = 9 }) (pos 0) ≡ some (3 + 9 * 2 ^ 32)
unfolding write_ptr_tag_as
write_capability = refl

abbrev buffer : Segment
buffer = record {
  id = 0;
  data_addr = 4096;
  len = 40;
  capacity = 64;
  bytes = 4 ∷ 0 ∷ 0 ∷ 0 ∷ 2 ∷ 0 ∷ 1 ∷ 0 ∷ [];
}

abbrev session : Session
session = record empty_session { segnum = 1; seglist = buffer ∷ []; lastseg = some 0 }

pair-IsWritten : IsWritten buffer 4096 pair (4 + 2 * 2 ^ 32 + 2 ^ 48)
pair-IsWritten = record {
  fields = (refl, omega arith, omega arith, refl, refl);
  tag = write_struct;
  not_null = λ e. omega arith;
  stored = unfold load64 little_endian in refl;
  mapped = λ e. omega arith;
  word_in = unfold bounds_ok in refl;
  object_in = unfold bounds_ok in refl;
  aligned = refl;
}

paid : charge_traversal session 24 0 ≡ some (record session { traversal_used = 24 })
unfolding charge_traversal charge
paid = refl

session_buffer : find_segment 0 session.seglist ≡ some buffer
unfolding find_segment
session_buffer = refl

read_ptr-write_ptr_tag_example :
    read_ptr session (some 0) 4096 (pos 5)
    ≡ (record session { traversal_used = 24 }, with_hops (pos 5) (plain_ptr pair buffer))
read_ptr-write_ptr_tag_example =
    read_ptr-write_ptr_tag session (record session { traversal_used = 24 }) 0 buffer 4096 pair
      (4 + 2 * 2 ^ 32 + 2 ^ 48) (pos 5) pair-IsWritten session_buffer refl paid
