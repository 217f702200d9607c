-- ===== src/Encode.antt =====
-- `write_ptr_tag` of lib/capn.c: the word that stands for a pointer. `none` is -1, and the word is stored
-- otherwise.
pub mod Fields
pub mod Kinds
pub mod Shapes
pub mod RoundTrip
mod Tests
use c_capnproto.Common.{
  ℕ, ◌+◌, ◌-◌, ◌*◌, ◌/◌, ◌%◌, ◌^◌, Bool, true, false, ◌&&◌, ◌||◌, Option, none, some, ltb, ◌==◌,
  if◌then◌else◌, ℤ, pos, negsuc, sub_ℕ, leb, pos_part, neg_part, is_neg,
}
use c_capnproto.Decode.Pointers.{
  PtrType, null, struct, list, ptr_list, bit_list, far_pointer, interface, Ptr,
}

-- `off / 8` of signed numbers, towards 0.
abbrev pub quotient : ℤ → ℤ
quotient off = sub_ℕ (pos_part off / 8) (neg_part off / 8)

-- CAPN_PTR_OFF_MIN_WORDS and CAPN_PTR_OFF_MAX_WORDS.
abbrev pub in_range : ℤ → Bool
in_range words = leb (neg_part words) (2 ^ 29) && leb (pos_part words) (2 ^ 29 - 1)

-- `val` before the fields: the two's complement of a negative offset.
unfoldable pub offset_bits : ℤ → ℕ
offset_bits words =
    if is_neg words
    then (1 + (2 ^ 32 - 1 - neg_part words % 2 ^ 32 * 4 % 2 ^ 32)) % 2 ^ 32
    else pos_part words % 2 ^ 32 * 4 % 2 ^ 32

-- `switch (p.datasz)`: any other size leaves the bits 0.
unfoldable pub size_code : ℕ → ℕ
size_code datasz =
    if datasz == 8
    then 5
    else if datasz == 4
    then 4
    else if datasz == 2
    then 3
    else if datasz == 1
    then 2
    else 0

-- What the fields add to the offset. They share no bit with it nor with each other, so that `|` is `+`.
unfoldable pub field_bits : PtrType → Ptr → ℕ
field_bits struct p = p.datasz / 8 * 2 ^ 32 + p.ptrs * 2 ^ 48
field_bits list p =
    if p.is_composite_list
    then 1 + 7 * 2 ^ 32 + p.len * (p.datasz / 8 + p.ptrs) * 2 ^ 35 % 2 ^ 64
    else 1 + size_code p.datasz * 2 ^ 32 + p.len * 2 ^ 35 % 2 ^ 64
field_bits bit_list p = 1 + 1 * 2 ^ 32 + p.len * 2 ^ 35 % 2 ^ 64
field_bits ptr_list p = 1 + 6 * 2 ^ 32 + p.len * 2 ^ 35 % 2 ^ 64
field_bits null p = 0
field_bits far_pointer p = 0
field_bits interface p = 0

-- `default: val = 0` clears the offset too.
abbrev pub is_object : PtrType → Bool
is_object struct = true
is_object list = true
is_object bit_list = true
is_object ptr_list = true
is_object null = false
is_object far_pointer = false
is_object interface = false

-- An object at `off` bytes from the end of the word.
unfoldable pub object_word : Ptr → ℤ → Option ℕ
object_word p off =
    if in_range (quotient off)
    then some (if is_object p.type then offset_bits (quotient off) + field_bits p.type p else 0)
    else none

-- `write_ptr_tag`, for a pointer of the given type.
unfoldable pub write_ptr_tag_as : PtrType → Ptr → ℤ → Option ℕ
write_ptr_tag_as interface p off = some (3 + p.len % 2 ^ 32 * 2 ^ 32)
write_ptr_tag_as null p off = object_word p off
write_ptr_tag_as struct p off = object_word p off
write_ptr_tag_as list p off = object_word p off
write_ptr_tag_as ptr_list p off = object_word p off
write_ptr_tag_as bit_list p off = object_word p off
write_ptr_tag_as far_pointer p off = object_word p off

abbrev pub write_ptr_tag : Ptr → ℤ → Option ℕ
write_ptr_tag p off = write_ptr_tag_as p.type p off
