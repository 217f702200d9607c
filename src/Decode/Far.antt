-- ===== src/Decode/Far.antt =====
-- Where a pointer word of lib/capn.c leads: the offset, and the two kinds of far pointers.
use c_capnproto.Common.{
  ◌>>=◌, ◌>>◌, guard, ℕ, ◌+◌, ◌-◌, ◌*◌, ◌/◌, ◌%◌, ◌^◌, Bool, false, ◌||◌, not, Option, none, some,
  ltb, ◌==◌, if◌then◌else◌, ℤ, pos, negsuc, sub_ℕ, ◌+ℤ◌, scale, is_neg, pos_part,
}
use c_capnproto.Session.{Segment, Session, find_segment, lookup_segment}
use c_capnproto.Decode.Pointers.{load64, low32, high32}

-- `(int32_t) U32(val) >> 2`: a signed number of 30 bits.
unfoldable pub off_words : ℕ → ℤ
off_words val =
    if ltb (low32 val) (2 ^ 31) then pos (low32 val / 4) else negsuc (2 ^ 30 - low32 val / 4 - 1)

-- The new `*pd`, or `none` for 0.
unfoldable pub apply_offset : Segment → ℕ → ℕ → Option ℕ
apply_offset s d val =
    if s.data_addr == 0 || d == 0
    then none
    else let next = sub_ℕ d s.data_addr +ℤ scale (off_words val +ℤ pos 1) 8 in
      if is_neg next
      then none
      else if ltb s.len (pos_part next)
      then none
      else some (s.data_addr + pos_part next)

-- A pointer word on its way to its object: the segment, `d`, `val` and `has_ptr_tag`.
pub record Landing : Type 0 where
  pub home : Segment
  pub at : ℕ
  pub word : ℕ
  pub tagged : Bool

-- `lookup_segment` and a read of what it points to.
unfoldable pub segment_at : Session → Option ℕ → ℕ → Option Segment
segment_at c s id = do found ← lookup_segment c s id; find_segment found c.seglist

-- The landing pad of a far pointer: `none` where `*s` is set to NULL.
unfoldable pub lookup_far : Session → Segment → ℕ → Option Landing
lookup_far c s val = do
  let off = low32 val / 8 * 8
  seg ← segment_at c (some s.id) (high32 val)
  guard (not (ltb seg.len off || ltb (seg.len - off) 8))
  let d = seg.data_addr + off
  let word = load64 seg d
  some (record { home = seg; at = d; word = word; tagged = low32 word / 4 == 0 })

-- Two far pointer words: the second names the segment of the object, `tag` describes it. The offset
-- and the tag share no bit, so that `|` is `+`. The result stands for the word one before the start of
-- the object's segment.
unfoldable pub lookup_double : Session → Segment → ℕ → Option Landing
lookup_double c s val = do
  let off = low32 val / 8 * 8
  seg ← segment_at c (some s.id) (high32 val)
  guard (not (ltb seg.len off || ltb (seg.len - off) 16))
  let far = load64 seg (seg.data_addr + off)
  let tag = load64 seg (seg.data_addr + off + 8)
  guard (not (not (far % 8 == 2) || ltb 1 (low32 tag)))
  target ← segment_at c (some seg.id) (high32 far)
  some (record {
    home = target;
    at = target.data_addr - 8;
    word = low32 far / 8 * 4 % 2 ^ 32 + tag;
    tagged = false;
  })

-- The first `switch` of `read_ptr`.
unfoldable pub land : Session → Segment → ℕ → ℕ → Option Landing
land c s d val =
    if val % 8 == 2
    then lookup_far c s val
    else if val % 8 == 6
    then lookup_double c s val
    else some (record { home = s; at = d; word = val; tagged = false })
