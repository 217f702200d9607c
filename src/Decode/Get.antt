-- ===== src/Decode/Get.antt =====
-- `capn_getp` of lib/capn.c: a field of a struct or a member of a list.
use c_capnproto.Common.{
  ℕ, ◌+◌, ◌*◌, ◌/◌, ◌%◌, Bool, true, false, Option, not, ◌||◌, ltb, ◌==◌, if◌then◌else◌, ℤ, pos,
  ◌+ℤ◌, wrap_int, scale, negsuc, ◌-◌, pos_part, is_neg,
}
use c_capnproto.Session.{Session}
use c_capnproto.Decode.Pointers.{
  PtrType, null, struct, list, ptr_list, bit_list, far_pointer, interface, Ptr, null_ptr,
}
use c_capnproto.Decode.Limits.{hop_remaining}
use c_capnproto.Decode.Read.{read_ptr, resolve}

-- `off < n` for an `int` and a number that is not negative.
abbrev pub below : ℤ → ℕ → Bool
below off n = is_neg off || ltb (pos_part off) n

-- `p + off * size`. The product is an `int`; the sum does not leave the address space.
abbrev pub advance : ℕ → ℤ → ℕ → ℕ
advance p off size = pos_part (pos p +ℤ wrap_int (scale off size))

-- An inner pointer to a struct that is a member of a list.
unfoldable pub list_member : Ptr → ℤ → ℤ → ℕ → ℕ → Ptr
list_member p off rem datasz ptrs = record null_ptr {
  type = struct;
  is_list_member = true;
  datasz = datasz;
  ptrs = ptrs;
  addr = advance p.addr off (datasz + 8 * ptrs);
  seg = p.seg;
  nesting = rem;
  nesting_valid = true;
}

-- `bit >> 3`, which rounds down, and `bit & 7`, which is what is left.
abbrev pub byte_index : ℤ → ℤ
byte_index (pos i) = pos (i / 8)
byte_index (negsuc n) = negsuc (n / 8)

abbrev pub bit_index : ℤ → ℕ
bit_index (pos i) = i % 8
bit_index (negsuc n) = 7 - n % 8

-- An inner pointer to one bit: `addr` is the byte, `ptrs` the bit within it.
unfoldable pub bit_member : Ptr → ℤ → ℤ → Ptr
bit_member p off rem =
    if is_neg off || not (ltb (pos_part off) p.len) || (p.addr == 0)
    then null_ptr
    else let bit = wrap_int (off +ℤ pos p.ptrs) in
      record null_ptr {
        type = bit_list;
        is_list_member = true;
        datasz = 1;
        ptrs = bit_index bit;
        len = 1;
        addr = advance p.addr (byte_index bit) 1;
        seg = p.seg;
        nesting = rem;
        nesting_valid = true;
      }

-- The pointer word at `addr`: read, or left to be read later.
unfoldable pub word_at : Session → Option ℕ → ℕ → ℤ → Bool → Session × Ptr
word_at c seg addr rem true = read_ptr c seg addr rem
word_at c seg addr rem false = (
  c,
  record null_ptr {
    type = far_pointer;
    addr = addr;
    seg = seg;
    nesting = rem;
    nesting_valid = true;
  },
)

-- The `switch` of `capn_getp` on a pointer that is resolved, with `rem` hops left. `seg` is the segment
-- that the pointer had before.
unfoldable pub member : PtrType → Session → Option ℕ → Ptr → ℤ → Bool → ℤ → Session × Ptr
member list c seg p off res rem =
    if below off p.len then (c, list_member p off rem p.datasz p.ptrs) else (c, null_ptr)
member bit_list c seg p off res rem = (c, bit_member p off rem)
member struct c seg p off res rem =
    if below off p.ptrs
    then word_at c seg (advance (p.addr + p.datasz) off 8) rem res
    else (c, null_ptr)
member ptr_list c seg p off true rem =
    if below off p.len then word_at c seg (advance p.addr off 8) rem true else (c, null_ptr)
member ptr_list c seg p off false rem =
    if below off p.len then (c, list_member p off rem 0 1) else (c, null_ptr)
member null c seg p off res rem = (c, null_ptr)
member far_pointer c seg p off res rem = (c, null_ptr)
member interface c seg p off res rem = (c, null_ptr)

-- `capn_getp`.
unfoldable pub getp : Session → Ptr → ℤ → Bool → Session × Ptr
getp c p off res =
    let (c', q) = resolve c p in member q.type c' p.seg q off res (hop_remaining c' q)
