-- ===== src/Encode/Kinds.antt =====
-- The cases of `read_ptr` of lib/capn.c on fields that are known.
use c_capnproto.Common.{
  ℕ, ◌+◌, ◌-◌, ◌*◌, ◌/◌, ◌%◌, ◌^◌, ◌<◌, ◌≡◌, ◌≢◌, ◌⊎◌, refl, ap, false, some, leb, arith, inl, inr,
  ne→==, le→ltb,
}
use c_capnproto.Session.{Segment}
use c_capnproto.Decode.Pointers.{struct, list, ptr_list, bit_list}
use c_capnproto.Decode.Limits.{size_max, mul_size}
use c_capnproto.Decode.Shapes.{
  struct_bytes, struct_shape, data_list, bit_list_shape, ptr_list_shape, sized_list, list_shape,
}
use c_capnproto.Encode.{size_code}

-- A size of the elements of a plain list.
abbrev pub IsDataSize : ℕ → Type 0
IsDataSize n = (n ≡ 0) ⊎ (n ≡ 1) ⊎ (n ≡ 2) ⊎ (n ≡ 4) ⊎ (n ≡ 8)

pub struct_shape-fields :
    (val x y start : ℕ)
    → val / 2 ^ 32 % 2 ^ 16 * 8 ≡ x
    → val / 2 ^ 48 % 2 ^ 16 ≡ y
    → val ≢ 0
    → x < 2 ^ 20
    → y < 2 ^ 16
    → struct_shape start val
      ≡ some (record {
        type = struct;
        datasz = x;
        ptrs = y;
        len = 0;
        composite = false;
        start = start;
        nbytes = x + 8 * y;
      })
unfolding struct_shape struct_bytes
struct_shape-fields val x y start e f nz a b =
    rw (e, f, ne→== val 0 nz, le→ltb (size_max - 8 * y) x (omega arith))

pub list_shape-fields :
    (s : Segment) (val code len start : ℕ)
    → val / 2 ^ 32 % 8 ≡ code
    → val / 2 ^ 35 % 2 ^ 32 ≡ len
    → len < 2 ^ 31
    → list_shape s start val ≡ sized_list s start len code
unfolding list_shape
list_shape-fields s val code len start e f h = rw (e, f, not_negative)
  where
    not_negative : leb (2 ^ 31) len ≡ false
    not_negative = ground arith

mul_size-some : (a b : ℕ) → a < 2 ^ 31 → IsDataSize b → mul_size a b ≡ some (a * b)
unfolding mul_size
mul_size-some a b h (inl e) = rw e (ap some (omega arith))
mul_size-some a b h (inr (inl e)) = rw (e, le→ltb size_max a (omega arith)) (ap some (omega arith))
mul_size-some a b h (inr (inr (inl e))) =
    rw (e, le→ltb (size_max / 2) a (omega arith)) (ap some (omega arith))
mul_size-some a b h (inr (inr (inr (inl e)))) =
    rw (e, le→ltb (size_max / 4) a (omega arith)) (ap some (omega arith))
mul_size-some a b h (inr (inr (inr (inr e)))) =
    rw (e, le→ltb (size_max / 8) a (omega arith)) (ap some (omega arith))

pub data_list-lem :
    (start len size : ℕ)
    → len < 2 ^ 31
    → IsDataSize size
    → data_list start len size
      ≡ some (record {
        type = list;
        datasz = size;
        ptrs = 0;
        len = len;
        composite = false;
        start = start;
        nbytes = len * (size + 8 * 0);
      })
unfolding data_list
data_list-lem start len size h k = rw (mul_size-some len size h k) (
    ap
      (λ n. some (record {
        type = list;
        datasz = size;
        ptrs = 0;
        len = len;
        composite = false;
        start = start;
        nbytes = len * n;
      }))
      (omega arith))

pub ptr_list_shape-lem :
    (start len : ℕ)
    → len < 2 ^ 31
    → ptr_list_shape start len
      ≡ some (record {
        type = ptr_list;
        datasz = 0;
        ptrs = 0;
        len = len;
        composite = false;
        start = start;
        nbytes = len * 8;
      })
unfolding ptr_list_shape
ptr_list_shape-lem start len h = rw (mul_size-some len 8 h (inr (inr (inr (inr refl)))))

pub bit_list_shape-lem :
    (start len : ℕ)
    → (len + 7) / 8 < 2 ^ 19
    → bit_list_shape start len
      ≡ some (record {
        type = bit_list;
        datasz = (len + 7) / 8;
        ptrs = 0;
        len = len;
        composite = false;
        start = start;
        nbytes = (0 + len + 7) / 8;
      })
unfolding bit_list_shape
bit_list_shape-lem start len h = rw (le→ltb (2 ^ 19 - 1) ((len + 7) / 8) (omega arith)) (
    ap
      (λ n. some (record {
        type = bit_list;
        datasz = (len + 7) / 8;
        ptrs = 0;
        len = len;
        composite = false;
        start = start;
        nbytes = n;
      }))
      (omega arith))

-- The reader's case for the code of a data size.
pub sized_list-code :
    (s : Segment) (start len size : ℕ)
    → IsDataSize size
    → sized_list s start len (size_code size) ≡ data_list start len size
unfolding sized_list size_code
sized_list-code s start len size (inl e) = rw e
sized_list-code s start len size (inr (inl e)) = rw e
sized_list-code s start len size (inr (inr (inl e))) = rw e
sized_list-code s start len size (inr (inr (inr (inl e)))) = rw e
sized_list-code s start len size (inr (inr (inr (inr e)))) = rw e

pub size_code-lt : (size : ℕ) → size_code size < 8
unfolding size_code
size_code-lt size = ground arith
