-- ===== src/Encode/RoundTrip.antt =====
-- What `read_ptr` of lib/capn.c reads from a word that `write_ptr_tag` stored.
use c_capnproto.Common.{
  ℕ, ◌+◌, ◌-◌, ◌*◌, ◌/◌, ◌%◌, ◌^◌, ◌≤◌, ◌<◌, ◌≡◌, ◌≢◌, refl, sym, ap, ◌∙◌, Bool, true, false, none,
  some, if◌then◌else◌, ℤ, pos, sub_ℕ, arith, eq_of_some, ◌+ℤ◌, scale, ne→==, le→ltb,
}
use c_capnproto.Session.{Segment, Session, find_segment}
use c_capnproto.Decode.Pointers.{
  PtrType, null, struct, list, ptr_list, bit_list, far_pointer, interface, Ptr, null_ptr, load64,
}
use c_capnproto.Decode.Limits.{bounds_ok, charge_traversal}
use c_capnproto.Decode.Far.{off_words, apply_offset, land}
use c_capnproto.Decode.Shapes.{object_shape}
use c_capnproto.Decode.Read.{with_hops, shape_ptr, is_zero, read_object, read_landing, read_ptr}
use c_capnproto.Decode.Safety.Bounds.{InSegment, bounds_ok_lem}
use c_capnproto.Decode.Safety.Objects.{extent}
use c_capnproto.Decode.Safety.Results.{object_bytes}
use c_capnproto.Encode.{
  quotient, in_range, size_code, offset_bits, field_bits, is_object, object_word, write_ptr_tag_as,
  write_ptr_tag,
}
use c_capnproto.Encode.Fields.{offset_bits-lt, offset_bits-mod, off_words-offset_bits}
use c_capnproto.Encode.Shapes.{shape_of, Encodable, struct-lem, data-lem, bit-lem, ptr-lem}

-- The two low bits of the fields, and what stands above the offset.
abbrev Halves : ℕ → Type 0
Halves bits = (low : ℕ) × (high : ℕ) × (low < 2) × (bits ≡ low + high * 2 ^ 32)

field_bits-Halves : (t : PtrType) (p : Ptr) → Encodable t p → Halves (field_bits t p)
unfolding field_bits
field_bits-Halves struct p e = (0, p.datasz / 8 + p.ptrs * 2 ^ 16, omega arith, omega arith)
field_bits-Halves bit_list p e = (1, 1 + p.len * 8 % 2 ^ 32, omega arith, omega arith)
field_bits-Halves ptr_list p e = (1, 6 + p.len * 8 % 2 ^ 32, omega arith, omega arith)
field_bits-Halves list p (a, b, c, plain) =
    rw plain (1, size_code p.datasz + p.len * 8 % 2 ^ 32, omega arith, omega arith)
field_bits-Halves null p e = absurd e
field_bits-Halves far_pointer p e = absurd e
field_bits-Halves interface p e = absurd e

-- The word that is stored for an object.
object_word-some :
    (p : Ptr) (off : ℤ) {w : ℕ}
    → is_object p.type ≡ true
    → object_word p off ≡ some w
    → (in_range (quotient off) ≡ true) × (offset_bits (quotient off) + field_bits p.type p ≡ w)
unfolding object_word
object_word-some p off {w} o h = by_test (in_range (quotient off)) refl h
  where
    by_test :
        (t : Bool)
        → in_range (quotient off) ≡ t
        → (if t
            then some
                (if is_object p.type then offset_bits (quotient off) + field_bits p.type p else 0)
            else none)
          ≡ some w
        → (in_range (quotient off) ≡ true) × (offset_bits (quotient off) + field_bits p.type p ≡ w)
    by_test true e k = (
      e,
      sym (ap (λ b. if b then offset_bits (quotient off) + field_bits p.type p else 0) o)
          ∙ eq_of_some k,
    )
    by_test false e k = cc

write_ptr_tag-object_word :
    (t : PtrType) (p : Ptr) (off : ℤ)
    → Encodable t p
    → (is_object t ≡ true) × (write_ptr_tag_as t p off ≡ object_word p off)
unfolding write_ptr_tag_as
write_ptr_tag-object_word struct p off e = (refl, refl)
write_ptr_tag-object_word list p off e = (refl, refl)
write_ptr_tag-object_word bit_list p off e = (refl, refl)
write_ptr_tag-object_word ptr_list p off e = (refl, refl)
write_ptr_tag-object_word null p off e = absurd e
write_ptr_tag-object_word far_pointer p off e = absurd e
write_ptr_tag-object_word interface p off e = absurd e

-- The reader adds the offset to the end of the word.
next_place :
    (a d t : ℕ)
    → a ≤ d
    → a ≤ t
    → t % 8 ≡ d % 8
    → sub_ℕ d a +ℤ scale (quotient (sub_ℕ t (d + 8)) +ℤ pos 1) 8 ≡ pos (t - a)
next_place a d t h k e = ground arith

apply_offset-lem :
    (s : Segment) (d w target : ℕ)
    → off_words w ≡ quotient (sub_ℕ target (d + 8))
    → s.data_addr ≢ 0
    → s.data_addr ≤ d
    → target % 8 ≡ d % 8
    → InSegment s target 0
    → apply_offset s d w ≡ some target
unfolding apply_offset
apply_offset-lem s d w target e nz le al i =
    rw
      (
        ne→== s.data_addr 0 nz,
        ne→== d 0 (omega arith),
        e,
        next_place s.data_addr d target le i.start al,
        le→ltb s.len (target - s.data_addr) (omega (arith, i.end)),
      )
      (ap some (omega (arith, i.start)))

object_shape-lem :
    (t : PtrType) (s : Segment) (p : Ptr) (o start : ℕ)
    → p.type ≡ t
    → o < 2 ^ 32
    → o % 4 ≡ 0
    → Encodable t p
    → o + field_bits t p ≢ 0
    → object_shape s start (o + field_bits t p) ≡ some (shape_of p start)
object_shape-lem struct s p o start f a b e nz =
    struct-lem s p o start a b e nz
    ∙ ap
        (λ t.
          some (record (shape_of p start) { type = t; nbytes = extent t p.datasz p.ptrs p.len }))
        (sym f)
object_shape-lem list s p o start f a b e nz =
    data-lem s p o start a b e
    ∙ ap
        (λ t.
          some (record (shape_of p start) { type = t; nbytes = extent t p.datasz p.ptrs p.len }))
        (sym f)
object_shape-lem bit_list s p o start f a b e nz =
    bit-lem s p o start a b e
    ∙ ap
        (λ t.
          some (record (shape_of p start) { type = t; nbytes = extent t p.datasz p.ptrs p.len }))
        (sym f)
object_shape-lem ptr_list s p o start f a b e nz =
    ptr-lem s p o start a b e
    ∙ ap
        (λ t.
          some (record (shape_of p start) { type = t; nbytes = extent t p.datasz p.ptrs p.len }))
        (sym f)
object_shape-lem null s p o start f a b e nz = absurd e
object_shape-lem far_pointer s p o start f a b e nz = absurd e
object_shape-lem interface s p o start f a b e nz = absurd e

-- A word that is no far pointer and no capability describes an object where it stands.
land-here :
    (c : Session) (s : Segment) (d w : ℕ)
    → w % 4 < 2
    → land c s d w ≡ some (record { home = s; at = d; word = w; tagged = false })
unfolding land
land-here c s d w h = rw (ne→== (w % 8) 2 (omega arith), ne→== (w % 8) 6 (omega arith))

-- The pointer that a reader gets: the fields that the word stands for.
abbrev pub plain_ptr : Ptr → Segment → Ptr
plain_ptr p s = record null_ptr {
  type = p.type;
  is_composite_list = p.is_composite_list;
  datasz = p.datasz;
  ptrs = p.ptrs;
  len = p.len;
  addr = p.addr;
  seg = some s.id;
}

-- What the caller of `write_ptr_tag` provides: an object that a word can describe and that lies in
-- the segment of the word, both at aligned places, with the word stored. 0 stands for a null pointer.
pub record IsWritten (s : Segment) (d : ℕ) (p : Ptr) (w : ℕ) : Type 0 where
  pub fields : Encodable p.type p
  pub tag : write_ptr_tag p (sub_ℕ p.addr (d + 8)) ≡ some w
  pub not_null : w ≢ 0
  pub stored : load64 s d ≡ w
  pub mapped : s.data_addr ≢ 0
  pub word_in : bounds_ok s d 8 ≡ true
  pub object_in : bounds_ok s p.addr (object_bytes p) ≡ true
  pub aligned : p.addr % 8 ≡ d % 8

module _ (s : Segment) (d : ℕ) (p : Ptr) (w : ℕ) (written : IsWritten s d p w) where
  word_parts :
      (in_range (quotient (sub_ℕ p.addr (d + 8))) ≡ true)
      × (offset_bits (quotient (sub_ℕ p.addr (d + 8))) + field_bits p.type p ≡ w)
  word_parts =
      let (o, same) = write_ptr_tag-object_word p.type p (sub_ℕ p.addr (d + 8)) written.fields in
      object_word-some p (sub_ℕ p.addr (d + 8)) o (sym same ∙ written.tag)

  word-offset : (off_words w ≡ quotient (sub_ℕ p.addr (d + 8))) × (w % 4 < 2)
  word-offset =
      let (ok, eq) = word_parts in
      let (low, high, small, halves) = field_bits-Halves p.type p written.fields in
      let q = quotient (sub_ℕ p.addr (d + 8)) in
      let parts : w ≡ offset_bits q + low + high * 2 ^ 32 = omega (arith, eq, halves) in
      (
        ap off_words parts ∙ off_words-offset_bits q low high ok (omega arith),
        omega (arith, parts, offset_bits-mod q, small),
      )

  word-shape : object_shape s p.addr w ≡ some (shape_of p p.addr)
  word-shape =
      let (ok, eq) = word_parts in
      let q = quotient (sub_ℕ p.addr (d + 8)) in
      ap (object_shape s p.addr) (sym eq)
      ∙ object_shape-lem p.type s p (offset_bits q) p.addr refl (offset_bits-lt q)
          (offset_bits-mod q) written.fields (λ z. written.not_null (sym eq ∙ z))

  word-place : apply_offset s d w ≡ some p.addr
  word-place =
      let i = (bounds_ok_lem s d 8).0 written.word_in in
      let j = (bounds_ok_lem s p.addr (object_bytes p)).0 written.object_in in
      apply_offset-lem s d w p.addr word-offset.0 written.mapped i.start written.aligned
        (record { start = j.start; end = omega (arith, j.end) })

  read_landing-tag :
      (c c' : Session) (rem : ℤ)
      → is_zero rem ≡ false
      → charge_traversal c (object_bytes p) p.len ≡ some c'
      → read_landing c s d rem ≡ some (c', with_hops rem (plain_ptr p s))
  unfolding read_landing read_object shape_ptr
  read_landing-tag c c' rem z paid = rw (
    z,
    written.word_in,
    written.stored,
    land-here c s d w word-offset.1,
    ne→== (w % 4) 3 (omega (arith, word-offset.1)),
    word-place,
    word-shape,
    written.object_in,
    paid,
  )

-- If `write_ptr_tag` has stored the word of a struct or of a list that is not composite, then `read_ptr`
-- with a hop left and enough budget gives back the type, the sizes, the length and the address that
-- were written, and charges for the object.
pub read_ptr-write_ptr_tag :
    (c c' : Session) (id : ℕ) (s : Segment) (d : ℕ) (p : Ptr) (w : ℕ) (rem : ℤ)
    → IsWritten s d p w
    → find_segment id c.seglist ≡ some s
    → is_zero rem ≡ false
    → charge_traversal c (object_bytes p) p.len ≡ some c'
    → read_ptr c (some id) d rem ≡ (c', with_hops rem (plain_ptr p s))
unfolding read_ptr
read_ptr-write_ptr_tag c c' id s d p w rem written known z paid =
    rw (known, read_landing-tag s d p w written c c' rem z paid, read_ptr)
