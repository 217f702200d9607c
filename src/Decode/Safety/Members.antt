-- ===== src/Decode/Safety/Members.antt =====
-- `capn_getp` of lib/capn.c on a pointer whose object lies in a segment.
use c_capnproto.Common.{
  ℕ, suc, ◌+◌, ◌*◌, ◌/◌, ◌%◌, ◌≤◌, ◌<◌, ◌≡◌, ◌≢◌, refl, ap, subst, ◌∙◌, ◌^◌, Bool, true, false, not,
  ◌||◌, ltb, ◌==◌, ℤ, pos, pos_part, ◌+ℤ◌, scale, wrap_int, wrap_int-small, arith, ◌⊎◌, inl, inr,
  Bool-cases, ltb→lt,
}
use native.Mathlib.Nat.{mul-le-mul_right}
use c_capnproto.Session.{Segment, Session}
use c_capnproto.Decode.Pointers.{
  PtrType, null, struct, list, ptr_list, bit_list, far_pointer, interface, Ptr, null_ptr,
}
use c_capnproto.Decode.Limits.{hop_remaining}
use c_capnproto.Decode.Read.{resolve, resolve_as}
use c_capnproto.Decode.Get.{advance, list_member, bit_member, word_at, member, getp}
use c_capnproto.Decode.Safety.Bounds.{InSegment}
use c_capnproto.Decode.Safety.Objects.{extent}
use c_capnproto.Decode.Safety.Results.{Inside, object_bytes}

-- A part of an object that lies in a segment.
part-InSegment :
    (s : Segment) (p n q m : ℕ) → InSegment s p n → p ≤ q → q + m ≤ p + n → InSegment s q m
part-InSegment s p n q m i a b = record {
  start = omega (arith, i.start);
  end = omega (arith, i.end);
}

pub advance-pos : (p i size : ℕ) → i * size < 2 ^ 31 → advance p (pos i) size ≡ p + i * size
advance-pos p i size h =
    ap (λ z. pos_part (pos p +ℤ z)) (ap wrap_int (scale-pos i size) ∙ wrap_int-small (i * size) h)
    ∙ sum (i * size)
  where
    scale-pos : (i size : ℕ) → scale (pos i) size ≡ pos (i * size)
    scale-pos i size = ground arith

    sum : (n : ℕ) → pos_part (pos p +ℤ pos n) ≡ p + n
    sum n = ground arith

suc_mul : (i size : ℕ) → suc i * size ≡ i * size + size
suc_mul i size = ground arith

-- The null pointer, or a pointer with its object in a segment.
abbrev pub NullOrInside : Session → Ptr → Type 0
NullOrInside c p = (p ≡ null_ptr) ⊎ Inside c p

pub member_end : (i len size : ℕ) → i < len → i * size + size ≤ len * size
member_end i len size h = omega (arith, suc_mul i size, mul-le-mul_right size h)

in_list : (a b : Bool) → (not a || b) ≡ false → a ≡ true
in_list true b e = refl
in_list false b e = cc

-- The size of the object in bytes is an `int`, and so are the bits of a bit list, counted from its first byte.
pub record IsIntSized (p : Ptr) : Type 0 where
  pub bytes : object_bytes p < 2 ^ 31
  pub bits : p.len + p.ptrs < 2 ^ 31

module _ (c : Session) (p : Ptr) (i : ℕ) (rem : ℤ) (inside : Inside c p) (int : IsIntSized p) where
  int_bytes : (t : PtrType) → p.type ≡ t → extent t p.datasz p.ptrs p.len < 2 ^ 31
  int_bytes t e = subst (λ u. extent u p.datasz p.ptrs p.len < 2 ^ 31) e int.bytes

  open_object :
      (t : PtrType) → p.type ≡ t → InSegment inside.home p.addr (extent t p.datasz p.ptrs p.len)
  open_object t e =
      subst (λ u. InSegment inside.home p.addr (extent u p.datasz p.ptrs p.len)) e inside.bytes

  list_member-Inside :
      (n datasz ptrs : ℕ)
      → InSegment inside.home p.addr (n * (datasz + 8 * ptrs))
      → n * (datasz + 8 * ptrs) < 2 ^ 31
      → i < n
      → Inside c (list_member p (pos i) rem datasz ptrs)
  unfolding list_member
  list_member-Inside n datasz ptrs b small h = record {
    home = inside.home;
    known = inside.known;
    seg_eq = inside.seg_eq;
    bytes =
        part-InSegment inside.home p.addr (n * (datasz + 8 * ptrs))
          (advance p.addr (pos i) (datasz + 8 * ptrs)) (datasz + 8 * ptrs) b (omega (arith, place))
          (omega (arith, place, member_end i n (datasz + 8 * ptrs) h));
  }
    where
      place : advance p.addr (pos i) (datasz + 8 * ptrs) ≡ p.addr + i * (datasz + 8 * ptrs)
      place =
          advance-pos p.addr i (datasz + 8 * ptrs)
            (omega (arith, small, member_end i n (datasz + 8 * ptrs) h))

  bit_member-Inside : p.type ≡ bit_list → NullOrInside c (bit_member p (pos i) rem)
  unfolding bit_member
  bit_member-Inside e = by_test (not (ltb i p.len) || (p.addr == 0)) refl
    where
      inside_len : (not (ltb i p.len) || (p.addr == 0)) ≡ false → i < p.len
      inside_len f = ltb→lt i p.len (in_list (ltb i p.len) (p.addr == 0) f)

      sum : pos i +ℤ pos p.ptrs ≡ pos (i + p.ptrs)
      sum = ground arith

      bit :
          (not (ltb i p.len) || (p.addr == 0)) ≡ false
          → wrap_int (pos i +ℤ pos p.ptrs) ≡ pos (i + p.ptrs)
      bit f = ap wrap_int sum ∙ wrap_int-small (i + p.ptrs) (omega (arith, inside_len f, int.bits))

      place :
          (not (ltb i p.len) || (p.addr == 0)) ≡ false
          → advance p.addr (pos ((i + p.ptrs) / 8)) 1 ≡ p.addr + (i + p.ptrs) / 8 * 1
      place f = advance-pos p.addr ((i + p.ptrs) / 8) 1 (omega (arith, inside_len f, int.bits))

      by_test :
          (t : Bool)
          → (not (ltb i p.len) || (p.addr == 0)) ≡ t
          → NullOrInside c (bit_member p (pos i) rem)
      by_test true f = rw f (inl refl)
      by_test false f =
          rw (f, bit f)
            (inr (record {
              home = inside.home;
              known = inside.known;
              seg_eq = inside.seg_eq;
              bytes =
                  part-InSegment inside.home p.addr ((p.ptrs + p.len + 7) / 8)
                    (advance p.addr (pos ((i + p.ptrs) / 8)) 1) (((i + p.ptrs) % 8 + 1 + 7) / 8)
                    (open_object bit_list e) (omega (arith, place f))
                    (omega (arith, place f, inside_len f));
            }))

  -- The word of a pointer in the object.
  far_word-Inside :
      (addr : ℕ) → InSegment inside.home addr 8 → Inside c (word_at c p.seg addr rem false).1
  unfolding word_at
  far_word-Inside addr b = record {
    home = inside.home;
    known = inside.known;
    seg_eq = inside.seg_eq;
    bytes = b;
  }

  member-Inside :
      (t : PtrType)
      → p.type ≡ t
      → let (c', r) = member t c p.seg p (pos i) false rem in (c' ≡ c) × NullOrInside c r
  unfolding member
  member-Inside null e = (refl, inl refl)
  member-Inside far_pointer e = (refl, inl refl)
  member-Inside interface e = (refl, inl refl)
  member-Inside bit_list e = (refl, bit_member-Inside e)
  member-Inside list e = elim (Bool-cases (ltb i p.len)) [
    | inl f ↦ rw f (
      refl,
      inr (
          list_member-Inside p.len p.datasz p.ptrs (open_object list e) (int_bytes list e)
            (ltb→lt i p.len f)),
    )
    | inr f ↦ rw f (refl, inl refl)
  ]
  member-Inside ptr_list e = elim (Bool-cases (ltb i p.len)) [
    | inl f ↦ rw f (
      refl,
      inr (
          list_member-Inside p.len 0 1 (open_object ptr_list e) (int_bytes ptr_list e)
            (ltb→lt i p.len f)),
    )
    | inr f ↦ rw f (refl, inl refl)
  ]
  member-Inside struct e = elim (Bool-cases (ltb i p.ptrs)) [
    | inl f ↦ rw f (
      unfold word_at in refl,
      inr (far_word-Inside (advance (p.addr + p.datasz) (pos i) 8) (field f)),
    )
    | inr f ↦ rw f (refl, inl refl)
  ]
    where
      place :
          ltb i p.ptrs ≡ true → advance (p.addr + p.datasz) (pos i) 8 ≡ p.addr + p.datasz + i * 8
      place f =
          advance-pos (p.addr + p.datasz) i 8 (omega (arith, int_bytes struct e, ltb→lt i p.ptrs f))

      field : ltb i p.ptrs ≡ true → InSegment inside.home (advance (p.addr + p.datasz) (pos i) 8) 8
      field f =
          part-InSegment inside.home p.addr (p.datasz + 8 * p.ptrs)
            (advance (p.addr + p.datasz) (pos i) 8) 8 (open_object struct e)
            (omega (arith, place f)) (omega (arith, place f, ltb→lt i p.ptrs f))

pub resolve-same : (c : Session) (p : Ptr) → p.type ≢ far_pointer → resolve c p ≡ (c, p)
resolve-same c p = by_type p.type
  where
    by_type : (t : PtrType) → t ≢ far_pointer → resolve_as t c p ≡ (c, p)
    by_type null h = unfold resolve_as in refl
    by_type struct h = unfold resolve_as in refl
    by_type list h = unfold resolve_as in refl
    by_type ptr_list h = unfold resolve_as in refl
    by_type bit_list h = unfold resolve_as in refl
    by_type far_pointer h = absurd (h refl)
    by_type interface h = unfold resolve_as in refl

-- On a resolved pointer whose object lies in a segment and is below 2 GiB, with its bits counted in an
-- `int`, and for an index that is not negative, `capn_getp` without `resolve` leaves the session as it is. It returns a null pointer, or one to a part
-- of the object: a member, a bit, or the word of a pointer.
pub getp-Inside :
    (c : Session) (p : Ptr) (i : ℕ)
    → p.type ≢ far_pointer
    → Inside c p
    → IsIntSized p
    → let (c', r) = getp c p (pos i) false in (c' ≡ c) × NullOrInside c r
unfolding getp
getp-Inside c p i h inside int =
    rw (resolve-same c p h) (member-Inside c p i (hop_remaining c p) inside int p.type refl)
