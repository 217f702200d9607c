-- ===== src/Decode/Shapes.antt =====
-- The two `switch` statements of `read_ptr` in lib/capn.c that say what a pointer word describes.
use c_capnproto.Common.{
  ℕ, ◌+◌, ◌-◌, ◌*◌, ◌/◌, ◌%◌, ◌^◌, Bool, true, false, Option, none, some, ltb, leb, ◌==◌,
  if◌then◌else◌, ◌>>=◌, ◌>>◌, guard,
}
use c_capnproto.Session.{Segment}
use c_capnproto.Decode.Pointers.{PtrType, null, struct, list, ptr_list, bit_list, load64, low32}
use c_capnproto.Decode.Limits.{size_max, bounds_ok, mul_size}

-- What the second `switch` of `read_ptr` finds out about an object: the fields of the pointer, the
-- start `d` of its content and `nbytes`.
pub record Shape : Type 0 where
  pub type : PtrType
  pub datasz : ℕ
  pub ptrs : ℕ
  pub len : ℕ
  pub composite : Bool
  pub start : ℕ
  pub nbytes : ℕ

-- `datasz + 8 * ptrs`, or `none` if it does not fit a `size_t`.
unfoldable pub struct_bytes : ℕ → ℕ → Option ℕ
struct_bytes datasz ptrs =
    if ltb (size_max - 8 * ptrs) datasz then none else some (datasz + 8 * ptrs)

-- STRUCT_PTR.
unfoldable pub struct_shape : ℕ → ℕ → Option Shape
struct_shape d val = do
  let datasz = val / 2 ^ 32 % 2 ^ 16 * 8
  let ptrs = val / 2 ^ 48 % 2 ^ 16
  nbytes ← struct_bytes datasz ptrs
  some (record {
    type = if val == 0 then null else struct;
    datasz = datasz;
    ptrs = ptrs;
    len = 0;
    composite = false;
    start = d;
    nbytes = nbytes;
  })

-- A list whose elements are data of one size.
unfoldable pub data_list : ℕ → ℕ → ℕ → Option Shape
data_list d len size = do
  nbytes ← mul_size len size
  some (record {
    type = list;
    datasz = size;
    ptrs = 0;
    len = len;
    composite = false;
    start = d;
    nbytes = nbytes;
  })

-- COMPOSITE_LIST: a tag word, then `len` words.
unfoldable pub composite_list : Segment → ℕ → ℕ → Option Shape
composite_list s d len = do
  words ← mul_size len 8
  guard (bounds_ok s d 8)
  let tag = load64 s d
  guard (bounds_ok s (d + 8) words)
  let datasz = tag / 2 ^ 32 % 2 ^ 16 * 8
  let ptrs = tag / 2 ^ 48 % 2 ^ 16
  let count = low32 tag / 4
  guard (ltb count (2 ^ 31))
  stride ← struct_bytes datasz ptrs
  total ← mul_size stride count
  guard (total == words)
  some (record {
    type = list;
    datasz = datasz;
    ptrs = ptrs;
    len = count;
    composite = true;
    start = d + 8;
    nbytes = words;
  })

unfoldable pub bit_list_shape : ℕ → ℕ → Option Shape
bit_list_shape d len =
    let nbytes = (len + 7) / 8 in
    if ltb (2 ^ 19 - 1) nbytes
    then none
    else some (record {
      type = bit_list;
      datasz = nbytes;
      ptrs = 0;
      len = len;
      composite = false;
      start = d;
      nbytes = nbytes;
    })

unfoldable pub ptr_list_shape : ℕ → ℕ → Option Shape
ptr_list_shape d len = do
  nbytes ← mul_size len 8
  some (record {
    type = ptr_list;
    datasz = 0;
    ptrs = 0;
    len = len;
    composite = false;
    start = d;
    nbytes = nbytes;
  })

-- The `switch` on the element size.
unfoldable pub sized_list : Segment → ℕ → ℕ → ℕ → Option Shape
sized_list s d len code =
    if code == 0
    then data_list d len 0
    else if code == 1
    then bit_list_shape d len
    else if code == 2
    then data_list d len 1
    else if code == 3
    then data_list d len 2
    else if code == 4
    then data_list d len 4
    else if code == 5
    then data_list d len 8
    else if code == 6
    then ptr_list_shape d len
    else composite_list s d len

-- LIST_PTR. The element size is the code in bits 32 to 34.
unfoldable pub list_shape : Segment → ℕ → ℕ → Option Shape
list_shape s d val =
    let len = val / 2 ^ 35 % 2 ^ 32 in
    if leb (2 ^ 31) len then none else sized_list s d len (val / 2 ^ 32 % 8)

unfoldable pub object_shape : Segment → ℕ → ℕ → Option Shape
object_shape s d val =
    if val % 4 == 0 then struct_shape d val else if val % 4 == 1 then list_shape s d val else none
