-- ===== src/Decode/Limits.antt =====
-- The bounds, the traversal budget and the nesting limit of lib/capn.c.
use c_capnproto.Common.{
  ℕ, ◌+◌, ◌-◌, ◌*◌, ◌/◌, ◌%◌, ◌^◌, Bool, true, false, ◌&&◌, ◌||◌, not, Option, none, some, ltb,
  ◌==◌, if◌then◌else◌, ℤ, pos, pos_part,
}
use c_capnproto.Session.{Segment, Session}
use c_capnproto.Decode.Pointers.{Ptr}

-- `uintptr_t` and `size_t` have 64 bits.
abbrev pub size_max : ℕ
size_max = 2 ^ 64 - 1

unfoldable pub bounds_ok : Segment → ℕ → ℕ → Bool
bounds_ok s p bytes =
    if s.data_addr == 0 || p == 0
    then false
    else if ltb (size_max - s.data_addr) s.len
    then false
    else let end = s.data_addr + s.len in
      if ltb p s.data_addr || ltb end p
      then false
      else if bytes == 0
      then true
      else if ltb (end - p) bytes
      then false
      else true

-- `none` for 0, and otherwise `*out`.
unfoldable pub mul_size : ℕ → ℕ → Option ℕ
mul_size a b = if not (b == 0) && ltb (size_max / b) a then none else some (a * b % 2 ^ 64)

abbrev pub traversal_default : ℕ
traversal_default = 64 * 1024 * 1024

abbrev pub traversal_budget : Session → ℕ
traversal_budget c = if c.traversal_limit == 0 then traversal_default else c.traversal_limit

-- `limit` and `used` of `charge_traversal`; `none` for -1.
unfoldable pub charge : Session → ℕ → Option Session
charge c add =
    if add == 0
    then some c
    else if ltb (traversal_budget c) add || ltb (traversal_budget c - add) c.traversal_used
    then none
    else some (record c { traversal_used = c.traversal_used + add })

unfoldable pub charge_traversal : Session → ℕ → ℕ → Option Session
charge_traversal c bytes len =
    if (bytes == 0) && ltb 0 len
    then elim (mul_size len 8) [ none ↦ none | some add ↦ charge c add ]
    else charge c bytes

abbrev pub nesting_default : ℕ
nesting_default = 64

unfoldable pub session_nesting : Session → ℤ
session_nesting c =
    if ltb 0 (pos_part c.nesting_limit) then c.nesting_limit else pos nesting_default

unfoldable pub hop_remaining : Session → Ptr → ℤ
hop_remaining c p =
    if p.nesting_valid
    then p.nesting
    else elim p.seg [ none ↦ pos nesting_default | some id ↦ session_nesting c ]
