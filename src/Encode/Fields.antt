-- ===== src/Encode/Fields.antt =====
-- The offset and the fields of a word that `write_ptr_tag` of lib/capn.c stores, as `read_ptr` takes
-- them apart.
use c_capnproto.Common.{ℕ, ◌+◌, ◌*◌, ◌%◌, ◌^◌, ◌<◌, ◌≡◌, true, ℤ, pos, negsuc, arith}
use c_capnproto.Decode.Far.{off_words}
use c_capnproto.Encode.{in_range, offset_bits}

-- The offset takes 32 bits and is a multiple of 4.
pub offset_bits-lt : (w : ℤ) → offset_bits w < 2 ^ 32
unfolding offset_bits
offset_bits-lt (pos n) = omega arith
offset_bits-lt (negsuc n) = omega arith

pub offset_bits-mod : (w : ℤ) → offset_bits w % 4 ≡ 0
unfolding offset_bits
offset_bits-mod (pos n) = omega arith
offset_bits-mod (negsuc n) = omega arith

-- The reader finds the offset that was written, whatever the other fields are.
pub off_words-offset_bits :
    (w : ℤ) (low high : ℕ)
    → in_range w ≡ true
    → low < 4
    → off_words (offset_bits w + low + high * 2 ^ 32) ≡ w
unfolding off_words offset_bits
off_words-offset_bits (pos n) low high h l = ground arith
off_words-offset_bits (negsuc n) low high h l = ground arith
