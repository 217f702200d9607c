-- ===== src/Decode/Read.antt =====
-- `read_ptr` of lib/capn.c, and the functions that call it to follow a pointer.
use c_capnproto.Common.{
  ℕ, zero, suc, ◌/◌, ◌%◌, Bool, true, false, not, Option, none, some, ltb, ◌==◌, if◌then◌else◌, ℤ,
  pos, negsuc, ◌>>=◌, ◌>>◌, guard,
}
use c_capnproto.Session.{Segment, Session, find_segment}
use c_capnproto.Decode.Pointers.{
  PtrType, null, struct, list, ptr_list, bit_list, far_pointer, interface, Ptr, null_ptr, load64,
  low32, high32,
}
use c_capnproto.Decode.Limits.{bounds_ok, charge_traversal, hop_remaining}
use c_capnproto.Decode.Far.{Landing, apply_offset, land}
use c_capnproto.Decode.Shapes.{Shape, object_shape}

-- `if (rem > 0)`: the hops that are left below the pointer.
unfoldable pub with_hops : ℤ → Ptr → Ptr
with_hops (pos zero) p = p
with_hops (pos (suc n)) p = record p { nesting = pos n; nesting_valid = true }
with_hops (negsuc n) p = p

-- A capability: `len` is the table index, and no object is read or charged for.
unfoldable pub capability : ℤ → Landing → Option Ptr
capability rem l = do
  guard (low32 l.word / 4 == 0)
  some (
      with_hops rem (record null_ptr {
        type = interface;
        has_ptr_tag = l.tagged;
        len = high32 l.word;
        addr = l.at;
        seg = some l.home.id;
      }))

-- The fields that `read_ptr` sets for an object, but for the nesting.
unfoldable pub shape_ptr : Landing → Shape → Ptr
shape_ptr l shape = record {
  type = shape.type;
  has_ptr_tag = l.tagged;
  is_list_member = false;
  is_composite_list = shape.composite;
  datasz = shape.datasz;
  ptrs = shape.ptrs;
  len = shape.len;
  addr = shape.start;
  seg = some l.home.id;
  nesting = pos 0;
  nesting_valid = false;
}

-- The object that the word points to, and the charge for it.
unfoldable pub read_object : Session → ℤ → Landing → Option (Session × Ptr)
read_object c rem l = do
  d ← apply_offset l.home l.at l.word
  shape ← object_shape l.home d l.word
  guard (bounds_ok l.home shape.start shape.nbytes)
  c' ← charge_traversal c shape.nbytes shape.len
  some (c', with_hops rem (shape_ptr l shape))

abbrev pub is_zero : ℤ → Bool
is_zero (pos zero) = true
is_zero (pos (suc n)) = false
is_zero (negsuc n) = false

-- `read_ptr` up to the label `err`: `none` goes there.
unfoldable pub read_landing : Session → Segment → ℕ → ℤ → Option (Session × Ptr)
read_landing c s d rem = do
  guard (not (is_zero rem))
  guard (bounds_ok s d 8)
  l ← land c s d (load64 s d)
  if l.word % 4 == 3 then (capability rem l >>= λ p. some (c, p)) else read_object c rem l

-- The two ends of `read_ptr`: at `err` it sets `decode_err` and returns a null pointer.
abbrev pub returned : Session → Option (Session × Ptr) → Session × Ptr
returned c none = (record c { decode_err = true }, null_ptr)
returned c (some r) = r

-- `read_ptr`. Without a segment there is no session to mark.
unfoldable pub read_ptr : Session → Option ℕ → ℕ → ℤ → Session × Ptr
read_ptr c none d rem = (c, null_ptr)
read_ptr c (some id) d rem = elim (find_segment id c.seglist) [
  | none ↦ (c, null_ptr)
  | some s ↦ returned c (read_landing c s d rem)
]

-- `capn_resolve`, for a pointer of the given type.
unfoldable pub resolve_as : PtrType → Session → Ptr → Session × Ptr
resolve_as far_pointer c p = read_ptr c p.seg p.addr (hop_remaining c p)
resolve_as null c p = (c, p)
resolve_as struct c p = (c, p)
resolve_as list c p = (c, p)
resolve_as ptr_list c p = (c, p)
resolve_as bit_list c p = (c, p)
resolve_as interface c p = (c, p)

abbrev pub resolve : Session → Ptr → Session × Ptr
resolve c p = resolve_as p.type c p

-- `struct_ptr`: the address of the first data word, 0 for NULL.
unfoldable pub struct_ptr : Session → Option ℕ → ℕ → ℕ → Session × ℕ
struct_ptr c s d minsz =
    let (c', p) = read_ptr c s d (negsuc 0) in
    elim p.type [ struct ↦ if ltb p.datasz minsz then (c', 0) else (c', p.addr) | _ ↦ (c', 0) ]

-- `capn_ok` and `capn_clear_err` of a session.
unfoldable pub ok : Session → Bool
ok c = not c.decode_err

unfoldable pub clear_err : Session → Session
clear_err c = record c { decode_err = false }
