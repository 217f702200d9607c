-- ===== src/Scalars/Tests.antt =====
-- Numbers and bits of a list at concrete inputs, and the properties at them.
use c_capnproto.Common.{
  wrap_int, ◌≡◌, refl, true, false, none, some, [], ◌∷◌, pos, negsuc, arith, min, length, get_or,
  List, ℕ, ◌<◌,
}
use c_capnproto.Session.{Segment, Session, empty_session, find_segment}
use c_capnproto.Decode.Pointers.{struct, list, bit_list, Ptr, null_ptr, little_endian}
use c_capnproto.Decode.Read.{resolve_as}
use c_capnproto.Decode.Safety.Results.{Inside}
use c_capnproto.Scalars.{bytes_of, patch, load_from, store_to, read, write}
use c_capnproto.Scalars.Members.{get_as, get, set_as, set}
use c_capnproto.Scalars.Runs.{
  members_left, load_run, load_members, store_members, copy_count, getv_as, getv, setv_as, setv,
}
use c_capnproto.Scalars.Bits.{
  with_bit, store_bit, get_bit, set_bit, get1_as, set1_as, get1, set1, is_unaligned, copy_size,
  getv1, write1,
}
use c_capnproto.Scalars.RoundTrip.{InBytes, SetsMember, set-get}
use c_capnproto.Scalars.Copies.{getv-get}

abbrev home_with : List ℕ → Segment
home_with bs = record { id = 0; data_addr = 4096; len = 8; capacity = 8; bytes = bs }

abbrev session_with : List ℕ → Session
session_with bs = record empty_session { segnum = 1; seglist = home_with bs ∷ []; lastseg = some 0 }

-- Four numbers of two bytes.
abbrev numbers : Session
numbers = session_with (1 ∷ 0 ∷ 2 ∷ 1 ∷ 3 ∷ 0 ∷ 4 ∷ 0 ∷ [])

abbrev shorts : Ptr
shorts = record null_ptr { type = list; datasz = 2; len = 4; addr = 4096; seg = some 0 }

get_third : get 2 numbers shorts (pos 1) ≡ some (numbers, 258)
unfolding get get_as wrap_int load_from little_endian
get_third = refl

-- The members are too small for four bytes.
get_wide : get 4 numbers shorts (pos 1) ≡ some (numbers, 0)
unfolding get get_as
get_wide = refl

set_wide : set 4 numbers shorts (pos 1) 7 ≡ some (numbers, negsuc 0)
unfolding set set_as
set_wide = refl

set_second :
    set 2 numbers shorts (pos 1) 772
    ≡ some (session_with (1 ∷ 0 ∷ 4 ∷ 3 ∷ 3 ∷ 0 ∷ 4 ∷ 0 ∷ []), pos 0)
unfolding set set_as wrap_int store_to bytes_of patch
set_second = refl

-- An index below 0 is not refused: this one is outside of the segment.
get_before : get 2 numbers shorts (negsuc 0) ≡ none
unfolding get get_as wrap_int load_from
get_before = refl

-- From the second member on, the copy starts at the second byte, and the loop at the second member.
getv_copy : getv true 2 numbers shorts (pos 1) (pos 2) ≡ some (numbers, 512 ∷ 769 ∷ [], pos 2)
unfolding getv getv_as resolve_as members_left load_run load_members copy_count wrap_int load_from
    little_endian
getv_copy = refl

getv_loop : getv false 2 numbers shorts (pos 1) (pos 2) ≡ some (numbers, 258 ∷ 3 ∷ [], pos 2)
unfolding getv getv_as resolve_as members_left load_run load_members copy_count wrap_int load_from
    little_endian
getv_loop = refl

setv_loop :
    setv false 2 numbers shorts (pos 2) (7 ∷ 8 ∷ 9 ∷ []) (pos 3)
    ≡ some (session_with (1 ∷ 0 ∷ 2 ∷ 1 ∷ 7 ∷ 0 ∷ 8 ∷ 0 ∷ []), pos 2)
unfolding setv setv_as members_left store_members wrap_int store_to bytes_of patch
setv_loop = refl

abbrev record_ptr : Ptr
record_ptr = record null_ptr { type = struct; datasz = 8; addr = 4096; seg = some 0 }

read_end : read 4 numbers record_ptr (pos 5) ≡ some 0
unfolding read wrap_int
read_end = refl

write_end : write 4 numbers record_ptr (pos 5) 1 ≡ some (numbers, negsuc 0)
unfolding write wrap_int
write_end = refl

-- Bits 0, 3 and 9 of 12 bits.
abbrev flags : Session
flags = session_with (9 ∷ 2 ∷ 0 ∷ 0 ∷ 0 ∷ 0 ∷ 0 ∷ 0 ∷ [])

abbrev bits : Ptr
bits = record null_ptr { type = bit_list; datasz = 2; len = 12; addr = 4096; seg = some 0 }

get1_ninth : get1 flags bits (pos 9) ≡ some (flags, 1)
unfolding get1 get1_as get_bit resolve_as load_from little_endian
get1_ninth = refl

get1_end : get1 flags bits (pos 12) ≡ some (flags, 0)
unfolding get1 get1_as get_bit resolve_as
get1_end = refl

set1_clear :
    set1 flags bits (pos 3) false ≡ some (session_with (1 ∷ 2 ∷ 0 ∷ 0 ∷ 0 ∷ 0 ∷ 0 ∷ 0 ∷ []), pos 0)
unfolding set1 set1_as set_bit store_bit with_bit resolve_as load_from little_endian store_to
    bytes_of patch
set1_clear = refl

-- Four bits are asked for, and two bytes are copied: the list has fewer bytes than that.
getv1_over : getv1 flags bits (pos 0) (pos 4) ≡ some (flags, 9 ∷ 2 ∷ [], pos 12)
unfolding getv1 wrap_int is_unaligned copy_size resolve_as load_run load_from little_endian
getv1_over = refl

write1_set :
    write1 flags record_ptr (pos 17) true
    ≡ some (session_with (9 ∷ 2 ∷ 2 ∷ 0 ∷ 0 ∷ 0 ∷ 0 ∷ 0 ∷ []), pos 0)
unfolding write1 wrap_int store_bit with_bit load_from little_endian store_to bytes_of patch
write1_set = refl

abbrev shorts_in : Inside numbers shorts
shorts_in = record {
  home = home_with (1 ∷ 0 ∷ 2 ∷ 1 ∷ 3 ∷ 0 ∷ 4 ∷ 0 ∷ []);
  known = unfold find_segment in refl;
  seg_eq = refl;
  bytes = record { start = omega arith; end = omega arith };
}

shorts_in-InBytes : InBytes numbers shorts shorts_in
shorts_in-InBytes = omega arith

set-get_example :
    (c' : Session) × (set 2 numbers shorts (pos 1) 772 ≡ some (c', pos 0))
    × SetsMember 2 numbers shorts 1 772 c'
set-get_example =
    set-get 2 numbers shorts 1 772 shorts_in shorts_in-InBytes (omega arith) refl (omega arith)
      (omega arith) (omega arith)

getv-get_example :
    (vs : List ℕ) × (getv true 2 numbers shorts (pos 0) (pos 3) ≡ some (numbers, vs, pos (min 3 4)))
    × (length vs ≡ min 3 4)
    × ((k : ℕ) → k < min 3 4 → get 2 numbers shorts (pos k) ≡ some (numbers, get_or vs k 0))
getv-get_example =
    getv-get true 2 numbers shorts 3 shorts_in shorts_in-InBytes (omega arith) refl (omega arith)
      (omega arith) (omega arith)
