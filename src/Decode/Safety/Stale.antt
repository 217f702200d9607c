-- ===== src/Decode/Safety/Stale.antt =====
-- `capn_getp` of lib/capn.c on a pointer that still has to be resolved.
use c_capnproto.Common.{
  ℕ, ◌+◌, ◌<◌, ◌≡◌, refl, ap, ◌∙◌, true, false, Option, none, some, ℤ, pos, inl, inr, Bool-cases,
  lt→ltb,
}
use c_capnproto.Session.{Segment, Session, find_segment}
use c_capnproto.Decode.Pointers.{struct, Ptr, null_ptr}
use c_capnproto.Decode.Limits.{bounds_ok, hop_remaining}
use c_capnproto.Decode.Read.{read_landing, is_zero, read_ptr, resolve}
use c_capnproto.Decode.Get.{advance, word_at, member, getp}
use c_capnproto.Decode.Safety.Bounds.{InSegment, bounds_ok_lem}

read_landing-none :
    (c : Session) (s : Segment) (d : ℕ) (rem : ℤ)
    → bounds_ok s d 8 ≡ false
    → read_landing c s d rem ≡ none
unfolding read_landing
read_landing-none c s d rem h = elim (Bool-cases (is_zero rem)) [
  | inl e ↦ rw (e, read_landing)
  | inr e ↦ rw (e, h, read_landing)
]

read_ptr-outside :
    (c : Session) (id : ℕ) (s : Segment) (d : ℕ) (rem : ℤ)
    → find_segment id c.seglist ≡ some s
    → (InSegment s d 8 → ⊥)
    → read_ptr c (some id) d rem ≡ (record c { decode_err = true }, null_ptr)
unfolding read_ptr
read_ptr-outside c id s d rem known h = rw (known, read_landing-none c s d rem outside, read_ptr)
  where
    outside : bounds_ok s d 8 ≡ false
    outside = elim (Bool-cases (bounds_ok s d 8)) [
      | inl e ↦ absurd (h ((bounds_ok_lem s d 8).0 e))
      | inr e ↦ e
    ]

-- A field of a struct is read from the segment that is given.
struct_field :
    (c : Session) (q : Ptr) (i : ℕ) (o : Option ℕ) (rem : ℤ)
    → i < q.ptrs
    → member struct c o q (pos i) true rem
      ≡ read_ptr c o (advance (q.addr + q.datasz) (pos i) 8) rem
unfolding member word_at
struct_field c q i o rem h = rw (lt→ltb i q.ptrs h) refl

-- If a pointer resolves to a struct with a pointer field `i`, and the word of that field is not in the
-- segment that the pointer had before it was resolved, then `capn_getp` with `resolve` marks the session
-- and returns a null pointer, whatever the field holds.
pub getp-null_ptr :
    (c : Session) (p : Ptr) (i : ℕ) (c' : Session) (q : Ptr) (id : ℕ) (s : Segment)
    → resolve c p ≡ (c', q)
    → q.type ≡ struct
    → i < q.ptrs
    → p.seg ≡ some id
    → find_segment id c'.seglist ≡ some s
    → (InSegment s (advance (q.addr + q.datasz) (pos i) 8) 8 → ⊥)
    → getp c p (pos i) true ≡ (record c' { decode_err = true }, null_ptr)
unfolding getp
getp-null_ptr c p i c' q id s resolved is_struct has_field seg known outside =
    ap (λ r. member r.1.type r.0 p.seg r.1 (pos i) true (hop_remaining r.0 r.1)) resolved
    ∙ ap (λ t. member t c' p.seg q (pos i) true (hop_remaining c' q)) is_struct
    ∙ ap (λ o. member struct c' o q (pos i) true (hop_remaining c' q)) seg
    ∙ struct_field c' q i (some id) (hop_remaining c' q) has_field
    ∙ read_ptr-outside c' id s (advance (q.addr + q.datasz) (pos i) 8) (hop_remaining c' q) known
        outside
