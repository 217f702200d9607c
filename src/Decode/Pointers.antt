-- ===== src/Decode/Pointers.antt =====
-- `struct capn_ptr` of lib/capnp_c.h, and reads of the words of a segment.
use c_capnproto.Common.{
  ℕ, zero, suc, ◌+◌, ◌-◌, ◌*◌, ◌/◌, ◌%◌, ◌^◌, Bool, false, Option, none, List, [], ◌∷◌, ℤ, pos,
  drop,
}
use c_capnproto.Session.{Segment}

-- `enum CAPN_TYPE`.
pub data PtrType : Type 0 where
  null struct list ptr_list bit_list far_pointer interface : PtrType

-- `struct capn_ptr`. `len` is the bit pattern of an `int`; `data` is an address, 0 for NULL; `seg` is
-- the id of a segment.
pub record Ptr : Type 0 where
  pub type : PtrType
  pub has_ptr_tag : Bool
  pub is_list_member : Bool
  pub is_composite_list : Bool
  pub datasz : ℕ
  pub ptrs : ℕ
  pub len : ℕ
  pub addr : ℕ
  pub seg : Option ℕ
  pub nesting : ℤ
  pub nesting_valid : Bool

-- `memset(&ret, 0, sizeof(ret))`.
abbrev pub null_ptr : Ptr
null_ptr = record {
  type = null;
  has_ptr_tag = false;
  is_list_member = false;
  is_composite_list = false;
  datasz = 0;
  ptrs = 0;
  len = 0;
  addr = 0;
  seg = none;
  nesting = pos 0;
  nesting_valid = false;
}

-- `capn_flip64(*(uint64_t*) d)`: eight bytes, the lowest first. A missing byte counts as 0.
unfoldable pub little_endian : ℕ → List ℕ → ℕ
little_endian zero bytes = 0
little_endian (suc n) [] = 0
little_endian (suc n) (b ∷ bs) = b + 256 * little_endian n bs

unfoldable pub load64 : Segment → ℕ → ℕ
load64 s d = little_endian 8 (drop (d - s.data_addr) s.bytes)

-- `U32(val)`, and the upper half.
abbrev pub low32 : ℕ → ℕ
low32 v = v % 2 ^ 32

abbrev pub high32 : ℕ → ℕ
high32 v = v / 2 ^ 32 % 2 ^ 32
