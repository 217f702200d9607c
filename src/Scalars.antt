-- ===== src/Scalars.antt =====
-- Numbers in the objects of a message: the fields of structs (lib/capnp_c.h) and, in the children, the
-- members of lists (lib/capn-list.inc, lib/capn.c). A data pointer is an address, and the bytes at it
-- are those of the segment that holds them: `none` is an access outside of every segment. A number of
-- `w` bytes is stored with its lowest byte first, as `capn_flip8` to `capn_flip64` arrange.
pub mod Memory
pub mod Members
pub mod Runs
pub mod Copies
pub mod Bits
pub mod RoundTrip
mod Tests
use c_capnproto.Common.{
  ℕ, zero, suc, ◌+◌, ◌-◌, ◌*◌, ◌/◌, ◌%◌, Bool, not, ◌&&◌, Option, none, some, List, [], ◌∷◌, ltb,
  leb, if◌then◌else◌, ℤ, pos, negsuc, ◌+ℤ◌, wrap_int, length, drop, ◌>>=◌,
}
use c_capnproto.Session.{Segment, Session}
use c_capnproto.Decode.Pointers.{Ptr, little_endian}
use c_capnproto.Decode.Get.{below, advance}

-- The bytes of a number of `w` bytes.
unfoldable pub bytes_of : ℕ → ℕ → List ℕ
bytes_of zero v = []
bytes_of (suc w) v = v % 256 ∷ bytes_of w (v / 256)

-- Bytes that replace those from the index on.
unfoldable pub patch : ℕ → List ℕ → List ℕ → List ℕ
patch k vs [] = []
patch zero [] (b ∷ bs) = b ∷ bs
patch zero (v ∷ vs) (b ∷ bs) = v ∷ patch zero vs bs
patch (suc k) vs (b ∷ bs) = b ∷ patch k vs bs

abbrev pub holds : Segment → ℕ → ℕ → Bool
holds s d n = leb s.data_addr d && leb (d + n) (s.data_addr + length s.bytes)

unfoldable pub load_from : List Segment → ℕ → ℕ → Option ℕ
load_from [] d w = none
load_from (s ∷ ss) d w =
    if holds s d w
    then some (little_endian w (drop (d - s.data_addr) s.bytes))
    else load_from ss d w

unfoldable pub store_to : List Segment → ℕ → List ℕ → Option (List Segment)
store_to [] d vs = none
store_to (s ∷ ss) d vs =
    let rest = store_to ss d vs in
    if holds s d (length vs)
    then some (record s { bytes = patch (d - s.data_addr) vs s.bytes } ∷ ss)
    else (rest >>= λ ss'. some (s ∷ ss'))

-- `capn_flip(*(uint_t*) d)`.
abbrev pub load : Session → ℕ → ℕ → Option ℕ
load c d w = load_from c.seglist d w

-- `*(uint_t*) d = capn_flip(v)`.
abbrev pub store : Session → ℕ → ℕ → ℕ → Option Session
store c d w v = store_to c.seglist d (bytes_of w v) >>= λ ss. some (record c { seglist = ss })

-- `capn_read8`, 16, 32 and 64: the field of `w` bytes at the offset.
unfoldable pub read : ℕ → Session → Ptr → ℤ → Option ℕ
read w c p off =
    if below (wrap_int (off +ℤ pos w)) (suc p.datasz)
    then load c (advance p.addr off 1) w
    else some 0

-- `capn_write8`, 16, 32 and 64.
unfoldable pub write : ℕ → Session → Ptr → ℤ → ℕ → Option (Session × ℤ)
write w c p off v =
    if below (wrap_int (off +ℤ pos w)) (suc p.datasz)
    then (store c (advance p.addr off 1) w v >>= λ c'. some (c', pos 0))
    else some (c, negsuc 0)
