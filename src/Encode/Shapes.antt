-- ===== src/Encode/Shapes.antt =====
-- The shape that `read_ptr` of lib/capn.c finds in the fields that `write_ptr_tag` stored.
use c_capnproto.Common.{
  ℕ, ◌+◌, ◌*◌, ◌/◌, ◌%◌, ◌^◌, ◌<◌, ◌≡◌, ◌≢◌, refl, sym, ap, ◌∙◌, Bool, false, some, arith, ne→==,
  eq→==,
}
use c_capnproto.Session.{Segment}
use c_capnproto.Decode.Pointers.{
  PtrType, null, struct, list, ptr_list, bit_list, far_pointer, interface, Ptr,
}
use c_capnproto.Decode.Shapes.{Shape, sized_list, object_shape}
use c_capnproto.Decode.Safety.Objects.{extent}
use c_capnproto.Encode.{size_code, field_bits}
use c_capnproto.Encode.Kinds.{
  IsDataSize, struct_shape-fields, list_shape-fields, data_list-lem, ptr_list_shape-lem,
  bit_list_shape-lem, sized_list-code, size_code-lt,
}

-- The shape of the object of a pointer.
abbrev pub shape_of : Ptr → ℕ → Shape
shape_of p start = record {
  type = p.type;
  datasz = p.datasz;
  ptrs = p.ptrs;
  len = p.len;
  composite = p.is_composite_list;
  start = start;
  nbytes = extent p.type p.datasz p.ptrs p.len;
}

-- The fields that a pointer word has room for. A composite list takes a second word, and is not one of
-- these.
abbrev pub Encodable : PtrType → Ptr → Type 0
Encodable struct p =
    (p.datasz % 8 ≡ 0)
    × (p.datasz < 2 ^ 19)
    × (p.ptrs < 2 ^ 16)
    × (p.len ≡ 0)
    × (p.is_composite_list ≡ false)
Encodable list p =
    IsDataSize p.datasz × (p.ptrs ≡ 0) × (p.len < 2 ^ 29) × (p.is_composite_list ≡ false)
Encodable bit_list p =
    (p.datasz ≡ (p.len + 7) / 8)
    × (p.ptrs ≡ 0)
    × (p.datasz < 2 ^ 19)
    × (p.is_composite_list ≡ false)
Encodable ptr_list p =
    (p.datasz ≡ 0) × (p.ptrs ≡ 0) × (p.len < 2 ^ 29) × (p.is_composite_list ≡ false)
Encodable null p = ⊥
Encodable far_pointer p = ⊥
Encodable interface p = ⊥

-- Shapes are equal where their fields are.
shape-eq :
    (t : PtrType) {a a' b b' c c' m m' : ℕ} {z z' : Bool} (start : ℕ)
    → a ≡ a'
    → b ≡ b'
    → c ≡ c'
    → z ≡ z'
    → m ≡ m'
    → Path Shape
        (record {
          type = t;
          datasz = a;
          ptrs = b;
          len = c;
          composite = z;
          start = start;
          nbytes = m;
        })
        (record {
          type = t;
          datasz = a';
          ptrs = b';
          len = c';
          composite = z';
          start = start;
          nbytes = m';
        })
shape-eq t start p q r s u = cc

module _ (s : Segment) (p : Ptr) (o start : ℕ) (small : o < 2 ^ 32) (aligned : o % 4 ≡ 0) where
  pub struct-lem :
      Encodable struct p
      → o + field_bits struct p ≢ 0
      → object_shape s start (o + field_bits struct p)
        ≡ some (record (shape_of p start) { type = struct; nbytes = p.datasz + 8 * p.ptrs })
  unfolding object_shape field_bits
  struct-lem (words, datasz_lt, ptrs_lt, no_len, plain) nz =
      rw
        (
          eq→== ((o + (p.datasz / 8 * 2 ^ 32 + p.ptrs * 2 ^ 48)) % 4) 0 (omega arith),
          struct_shape-fields (o + (p.datasz / 8 * 2 ^ 32 + p.ptrs * 2 ^ 48)) p.datasz p.ptrs start
              (omega arith) (omega arith) nz (omega arith) (omega arith),
        )
        (ap some (shape-eq struct start refl refl (sym no_len) (sym plain) refl))

  -- A list with the given code of its element size.
  list-lem :
      (code : ℕ)
      → code < 8
      → p.len < 2 ^ 29
      → object_shape s start (o + (1 + code * 2 ^ 32 + p.len * 2 ^ 35 % 2 ^ 64))
        ≡ sized_list s start p.len code
  unfolding object_shape
  list-lem code c l =
      rw
        (
          ne→== ((o + (1 + code * 2 ^ 32 + p.len * 2 ^ 35 % 2 ^ 64)) % 4) 0 (omega arith),
          eq→== ((o + (1 + code * 2 ^ 32 + p.len * 2 ^ 35 % 2 ^ 64)) % 4) 1 (omega arith),
        )
        (list_shape-fields s (o + (1 + code * 2 ^ 32 + p.len * 2 ^ 35 % 2 ^ 64)) code p.len start
          (omega arith) (omega arith) (omega arith))

  pub data-lem :
      Encodable list p
      → object_shape s start (o + field_bits list p)
        ≡ some (record (shape_of p start) { type = list; nbytes = p.len * (p.datasz + 8 * p.ptrs) })
  unfolding field_bits
  data-lem (size, no_ptrs, len_lt, plain) = rw plain (
      list-lem (size_code p.datasz) (size_code-lt p.datasz) len_lt
      ∙ sized_list-code s start p.len p.datasz size
      ∙ data_list-lem start p.len p.datasz (omega arith) size
      ∙ ap some (
          shape-eq list start refl (sym no_ptrs) refl refl
            (ap (λ n. p.len * (p.datasz + 8 * n)) (sym no_ptrs))))

  pub bit-lem :
      Encodable bit_list p
      → object_shape s start (o + field_bits bit_list p)
        ≡ some (record (shape_of p start) { type = bit_list; nbytes = (p.ptrs + p.len + 7) / 8 })
  unfolding field_bits sized_list
  bit-lem (size, no_ptrs, datasz_lt, plain) =
      list-lem 1 (omega arith) (omega (arith, size))
      ∙ unfold sized_list in
        bit_list_shape-lem start p.len (omega (arith, size))
        ∙ ap some (
            shape-eq bit_list start (sym size) (sym no_ptrs) refl (sym plain)
              (ap (λ n. (n + p.len + 7) / 8) (sym no_ptrs)))

  pub ptr-lem :
      Encodable ptr_list p
      → object_shape s start (o + field_bits ptr_list p)
        ≡ some (record (shape_of p start) { type = ptr_list; nbytes = p.len * 8 })
  unfolding field_bits sized_list
  ptr-lem (size, no_ptrs, len_lt, plain) =
      list-lem 6 (omega arith) len_lt
      ∙ ptr_list_shape-lem start p.len (omega arith)
      ∙ ap some (shape-eq ptr_list start (sym size) (sym no_ptrs) refl (sym plain) refl)
