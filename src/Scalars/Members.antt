-- ===== src/Scalars/Members.antt =====
-- `capn_get8` to `capn_get64` and `capn_set8` to `capn_set64` of lib/capn-list.inc: one member of a
-- list, as a number of `w` bytes.
use c_capnproto.Common.{ℕ, ◌+◌, ◌*◌, Option, some, ltb, ◌==◌, if◌then◌else◌, ℤ, pos, negsuc, ◌>>=◌}
use c_capnproto.Session.{Session}
use c_capnproto.Decode.Pointers.{
  PtrType, null, struct, list, ptr_list, bit_list, far_pointer, interface, Ptr,
}
use c_capnproto.Decode.Read.{struct_ptr}
use c_capnproto.Decode.Get.{below, advance}
use c_capnproto.Scalars.{load, store}

-- `p.datasz + 8*p.ptrs`.
abbrev pub stride : Ptr → ℕ
stride p = p.datasz + 8 * p.ptrs

-- The `switch`, with the index in range.
unfoldable pub get_as : PtrType → ℕ → Session → Ptr → ℤ → Option (Session × ℕ)
get_as list w c p off =
    if ltb p.datasz w
    then some (c, 0)
    else (load c (advance p.addr off (stride p)) w >>= λ v. some (c, v))
get_as ptr_list w c p off =
    let (c', d) = struct_ptr c p.seg (advance p.addr off 8) w in
    if d == 0 then some (c', 0) else (load c' d w >>= λ v. some (c', v))
get_as null w c p off = some (c, 0)
get_as struct w c p off = some (c, 0)
get_as bit_list w c p off = some (c, 0)
get_as far_pointer w c p off = some (c, 0)
get_as interface w c p off = some (c, 0)

-- `capn_get`.
unfoldable pub get : ℕ → Session → Ptr → ℤ → Option (Session × ℕ)
get w c p off = if below off p.len then get_as p.type w c p off else some (c, 0)

unfoldable pub set_as : PtrType → ℕ → Session → Ptr → ℤ → ℕ → Option (Session × ℤ)
set_as list w c p off v =
    if ltb p.datasz w
    then some (c, negsuc 0)
    else (store c (advance p.addr off (stride p)) w v >>= λ c'. some (c', pos 0))
set_as ptr_list w c p off v =
    let (c', d) = struct_ptr c p.seg (advance p.addr off 8) w in
    if d == 0 then some (c', negsuc 0) else (store c' d w v >>= λ c''. some (c'', pos 0))
set_as null w c p off v = some (c, negsuc 0)
set_as struct w c p off v = some (c, negsuc 0)
set_as bit_list w c p off v = some (c, negsuc 0)
set_as far_pointer w c p off v = some (c, negsuc 0)
set_as interface w c p off v = some (c, negsuc 0)

-- `capn_set`.
unfoldable pub set : ℕ → Session → Ptr → ℤ → ℕ → Option (Session × ℤ)
set w c p off v = if below off p.len then set_as p.type w c p off v else some (c, negsuc 0)
