-- ===== src/Scalars/Bits.antt =====
-- `capn_get1`, `capn_set1`, `capn_getv1` and `capn_setv1` of lib/capn.c, and `capn_write1` of
-- lib/capnp_c.h: single bits, and runs of bits that start at a byte.
use c_capnproto.Common.{
  ℕ, ◌+◌, ◌-◌, ◌*◌, ◌/◌, ◌%◌, ◌^◌, Bool, true, false, ◌&&◌, ◌||◌, not, Option, none, some, List, [],
  ltb, ◌==◌, if◌then◌else◌, ℤ, pos, negsuc, pos_part, neg_part, sub_ℕ, ◌+ℤ◌, is_neg, take, ◌>>=◌,
}
use c_capnproto.Session.{Session}
use c_capnproto.Decode.Pointers.{
  PtrType, null, struct, list, ptr_list, bit_list, far_pointer, interface, Ptr,
}
use c_capnproto.Decode.Limits.{hop_remaining}
use c_capnproto.Decode.Read.{read_ptr, resolve}
use c_capnproto.Decode.Get.{below, advance, byte_index, bit_index}
use c_capnproto.Encode.{quotient}
use c_capnproto.Scalars.{load, store}
use c_capnproto.Scalars.Members.{stride}
use c_capnproto.Scalars.Runs.{load_run, store_run}

-- `(b & (1 << k)) != 0`.
abbrev pub bit_of : ℕ → ℕ → ℕ
bit_of b k = b / 2 ^ k % 2

-- `b |= 1 << k` and `b &= ~(1 << k)`.
unfoldable pub with_bit : ℕ → ℕ → Bool → ℕ
with_bit b k true = if bit_of b k == 0 then b + 2 ^ k else b
with_bit b k false = if bit_of b k == 0 then b else b - 2 ^ k

abbrev load_bit : Session → ℕ → ℕ → Option (Session × ℕ)
load_bit c d k = load c d 1 >>= λ b. some (c, bit_of b k)

unfoldable pub store_bit : Session → ℕ → ℕ → Bool → Option (Session × ℤ)
store_bit c d k val = load c d 1 >>= λ b. store c d 1 (with_bit b k val) >>= λ c'. some (c', pos 0)

-- A bit of a bit list.
unfoldable pub get_bit : Session → Ptr → ℕ → Option (Session × ℕ)
get_bit c p i =
    let bit = i + p.ptrs in
    if not (ltb i p.len) || (p.addr == 0)
    then some (c, 0)
    else load_bit c (p.addr + bit / 8) (bit % 8)

unfoldable pub set_bit : Session → Ptr → ℕ → Bool → Option (Session × ℤ)
set_bit c p i val =
    let bit = i + p.ptrs in
    if not (ltb i p.len) || (p.addr == 0)
    then some (c, negsuc 0)
    else store_bit c (p.addr + bit / 8) (bit % 8) val

-- The lowest bit of what a member of a pointer list points to.
unfoldable pub get_target : PtrType → Session → Ptr → Option (Session × ℕ)
get_target struct c el =
    if ltb 0 el.datasz && not (el.addr == 0) then load_bit c el.addr 0 else some (c, 0)
get_target bit_list c el = get_bit c el 0
get_target null c el = some (c, 0)
get_target list c el = some (c, 0)
get_target ptr_list c el = some (c, 0)
get_target far_pointer c el = some (c, 0)
get_target interface c el = some (c, 0)

unfoldable pub set_target : PtrType → Session → Ptr → Bool → Option (Session × ℤ)
set_target struct c el val =
    if ltb 0 el.datasz && not (el.addr == 0) then store_bit c el.addr 0 val else some (c, negsuc 0)
set_target bit_list c el val = set_bit c el 0 val
set_target null c el val = some (c, negsuc 0)
set_target list c el val = some (c, negsuc 0)
set_target ptr_list c el val = some (c, negsuc 0)
set_target far_pointer c el val = some (c, negsuc 0)
set_target interface c el val = some (c, negsuc 0)

-- The `switch`, for an index that is not negative.
unfoldable pub get1_as : PtrType → Session → Ptr → ℕ → Option (Session × ℕ)
get1_as bit_list c p i = get_bit c p i
get1_as list c p i =
    if not (ltb i p.len) || (p.datasz == 0) || (p.addr == 0)
    then some (c, 0)
    else load_bit c (advance p.addr (pos i) (stride p)) 0
get1_as ptr_list c p i =
    let (c', el) = read_ptr c p.seg (advance p.addr (pos i) 8) (hop_remaining c p) in
    if ltb i p.len then get_target el.type c' el else some (c, 0)
get1_as null c p i = some (c, 0)
get1_as struct c p i = some (c, 0)
get1_as far_pointer c p i = some (c, 0)
get1_as interface c p i = some (c, 0)

unfoldable pub set1_as : PtrType → Session → Ptr → ℕ → Bool → Option (Session × ℤ)
set1_as bit_list c p i val = set_bit c p i val
set1_as list c p i val =
    if not (ltb i p.len) || (p.datasz == 0) || (p.addr == 0)
    then some (c, negsuc 0)
    else store_bit c (advance p.addr (pos i) (stride p)) 0 val
set1_as ptr_list c p i val =
    let (c', el) = read_ptr c p.seg (advance p.addr (pos i) 8) (hop_remaining c p) in
    if ltb i p.len then set_target el.type c' el val else some (c, negsuc 0)
set1_as null c p i val = some (c, negsuc 0)
set1_as struct c p i val = some (c, negsuc 0)
set1_as far_pointer c p i val = some (c, negsuc 0)
set1_as interface c p i val = some (c, negsuc 0)

-- `capn_get1`.
unfoldable pub get1 : Session → Ptr → ℤ → Option (Session × ℕ)
get1 c p off =
    let (c', q) = resolve c p in
    if is_neg off then some (c', 0) else get1_as q.type c' q (pos_part off)

-- `capn_set1`.
unfoldable pub set1 : Session → Ptr → ℤ → Bool → Option (Session × ℤ)
set1 c p off val =
    let (c', q) = resolve c p in
    if is_neg off then some (c', negsuc 0) else set1_as q.type c' q (pos_part off) val

abbrev is_bit_list : PtrType → Bool
is_bit_list bit_list = true
is_bit_list null = false
is_bit_list struct = false
is_bit_list list = false
is_bit_list ptr_list = false
is_bit_list far_pointer = false
is_bit_list interface = false

-- What `capn_getv1` and `capn_setv1` refuse.
unfoldable pub is_unaligned : Ptr → ℤ → Bool
is_unaligned p off =
    not (is_bit_list p.type) || not ((pos_part off + neg_part off) % 8 == 0) || p.is_list_member

-- The bytes that `memcpy` gets, and the result. `from` is the offset in bytes; the code compares the
-- number of bits with the bytes of the list.
unfoldable pub copy_size : Ptr → ℤ → ℤ → ℤ × ℤ
copy_size p from sz = if below (from +ℤ sz) (p.datasz + 1) then (quotient (sz +ℤ pos 7), sz) else (
  sub_ℕ (p.datasz + neg_part from) (pos_part from),
  sub_ℕ (p.len + neg_part from * 8) (pos_part from * 8),
)

-- `capn_getv1`: the bytes that are stored to `data` come with the result.
unfoldable pub getv1 : Session → Ptr → ℤ → ℤ → Option (Session × List ℕ × ℤ)
getv1 c p off sz =
    let (c', q) = resolve c p in
    let (n, ret) = copy_size q (quotient off) sz in
    let copied = load_run c' (advance q.addr (quotient off) 1) 1 1 (pos_part n) in
    if is_unaligned q off
    then some (c', [], negsuc 0)
    else if is_neg n
    then none
    else (copied >>= λ bs. some (c', bs, ret))

-- `capn_setv1`, which does not resolve the pointer.
unfoldable pub setv1 : Session → Ptr → ℤ → List ℕ → ℤ → Option (Session × ℤ)
setv1 c p off from sz =
    let (n, ret) = copy_size p (quotient off) sz in
    if is_unaligned p off
    then some (c, negsuc 0)
    else if is_neg n
    then none
    else (store_run c (advance p.addr (quotient off) 1) 1 1 (take (pos_part n) from) >>= λ c'.
        some (c', ret))

-- `capn_write1`.
unfoldable pub write1 : Session → Ptr → ℤ → Bool → Option (Session × ℤ)
write1 c p off val =
    if below off (p.datasz * 8)
    then store_bit c (advance p.addr (byte_index off) 1) (bit_index off) val
    else some (c, negsuc 0)
