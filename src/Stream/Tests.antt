-- ===== src/Stream/Tests.antt =====
-- Runs of lib/capn-stream.c and of `packed_emit_seg` at concrete inputs, and the theorems at such inputs.
use c_capnproto.Common.{
  ℕ, suc, ◌+◌, ◌%◌, ◌^◌, ◌≡◌, ◌≢◌, ◌⊎◌, refl, arith, none, some, List, [], ◌∷◌, ◌++◌, length,
  replicate, length-replicate,
}
use c_capnproto.Stream.State.{
  Stream, fresh, success, misaligned, copy_raw, copy_in, emit, umin, nonzero_count, tag_of,
  nonzeros, words_while,
}
use c_capnproto.Stream.Packed.{Packed}
use c_capnproto.Stream.Deflate.{
  deflate, deflate_loop, deflate_round, deflate_zeros, deflate_dense, deflate_tagged,
}
use c_capnproto.Stream.Deflate.Run.{Deflated, deflate_lem, deflate-Packed}
use c_capnproto.Stream.Inflate.{
  inflate, inflate_loop, inflate_round, inflate_next, inflate_header, flush_whole, flush_part,
  write_zeros, spread, bit_count,
}
use c_capnproto.Stream.Inflate.Rounds.{Pending}
use c_capnproto.Stream.Inflate.Run.{inflate_lem, inflate_loop-none}
use c_capnproto.Stream.RoundTrip.{inflate-deflate}
use c_capnproto.Stream.Emit.{sent, failed, append_chunk, packed_emit_seg, packed_emit_seg_lem}
use c_capnproto.Stream.Emit.Fits.{packed_emit_seg-fits}
use c_capnproto.Stream.Emit.Misaligned.{NonZero, packed_emit_seg-failed}

abbrev sample : List ℕ
sample = 8 ∷ 0 ∷ 0 ∷ 0 ∷ 3 ∷ 0 ∷ 2 ∷ 0 ∷ 0 ∷ 0 ∷ 0 ∷ 0 ∷ 0 ∷ 0 ∷ 0 ∷ 0 ∷ []

abbrev packed_sample : List ℕ
packed_sample = 0x51 ∷ 8 ∷ 3 ∷ 2 ∷ 0 ∷ 0 ∷ []

deflate-sample :
    deflate (fresh sample 100) ≡ some (success, record (fresh [] 94) { output = packed_sample })
unfolding deflate deflate_loop deflate_round deflate_zeros deflate_dense deflate_tagged copy_raw
    copy_in emit umin nonzero_count tag_of nonzeros words_while
deflate-sample = refl

inflate-sample :
    inflate (fresh packed_sample 16) ≡ some (success, record (fresh [] 0) { output = sample })
unfolding inflate inflate_loop inflate_round inflate_next inflate_header flush_whole flush_part
    write_zeros spread bit_count copy_raw copy_in emit umin
inflate-sample = refl

deflate_lem_example :
    (length sample % 8 ≡ 0 → Deflated (fresh sample 20) (deflate (fresh sample 20)))
    × (length sample % 8 ≢ 0 → deflate (fresh sample 20) ≡ some (misaligned, fresh sample 20))
deflate_lem_example = deflate_lem (fresh sample 20) (omega arith)

deflate-Packed_example :
    (t : Stream) × (packed : List ℕ) × (deflate (fresh sample 20) ≡ some (success, t))
    × (t.output ≡ [] ++ packed)
    × (t.avail_out + length packed ≡ 20)
    × Packed 0 sample packed
deflate-Packed_example = deflate-Packed (fresh sample 20) (omega arith) refl (omega arith)

inflate-deflate_example :
    (t t' : Stream) × (deflate (fresh sample 20) ≡ some (success, t))
    × (inflate (fresh t.output 16) ≡ some (success, t'))
    × (t'.output ≡ sample)
inflate-deflate_example = inflate-deflate sample 20 refl (omega arith) (omega arith) (omega arith)

-- Five bytes of the word that waits in the buffer come first.
abbrev waiting : Stream
waiting = record {
  input = [];
  output = [];
  avail_out = 6;
  zeros = 8;
  raw = 0;
  inflate_buf = 1 ∷ 2 ∷ 3 ∷ [];
}

waiting-Pending : Pending waiting (1 ∷ 2 ∷ 3 ∷ replicate 8 0)
waiting-Pending = record {
  rest = [];
  parts = refl;
  packed = Packed.nothing refl refl refl;
  small_in = omega arith;
  small_out = omega arith;
  zeros_lt = omega arith;
  raw_lt = omega arith;
}

inflate_lem_example :
    (t : Stream) × (inflate waiting ≡ some (success, t))
    × (t.output ≡ 1 ∷ 2 ∷ 3 ∷ 0 ∷ 0 ∷ 0 ∷ [])
    × (t.avail_out ≡ 0)
    × Pending t (replicate 5 0)
inflate_lem_example = inflate_lem waiting (1 ∷ 2 ∷ 3 ∷ replicate 8 0) waiting-Pending (omega arith)

inflate_loop-none_example : inflate_loop 1000 (record (fresh [] (2 ^ 32)) { zeros = 8 }) ≡ none
inflate_loop-none_example =
    inflate_loop-none 1000 0 (record (fresh [] (2 ^ 32)) { zeros = 8 }) refl (omega arith) refl

packed_emit_seg_lem_example :
    (packed_emit_seg append_chunk 10 sample 0 [] ≡ failed)
    ⊎ ((packed : List ℕ) × Packed 0 sample packed
        × (packed_emit_seg append_chunk 10 sample 0 [] ≡ sent (0 + length packed) packed))
packed_emit_seg_lem_example =
    packed_emit_seg_lem 10 sample 0 [] refl (omega arith) (omega arith) (omega arith)

NonZero-replicate : (n : ℕ) → NonZero (replicate n 1)
NonZero-replicate ℕ.zero = tt
NonZero-replicate (suc n) = (omega arith, NonZero-replicate n)

packed_emit_seg-failed_example : packed_emit_seg append_chunk 4096 (replicate 4096 1) 0 [] ≡ failed
packed_emit_seg-failed_example =
    packed_emit_seg-failed append_chunk (replicate 4096 1) 0 [] (NonZero-replicate 4096)
      (omega (arith, length-replicate {A = ℕ} 4096 1))
      (omega (arith, length-replicate {A = ℕ} 4096 1))
      (omega (arith, length-replicate {A = ℕ} 4096 1))

packed_emit_seg-fits_example :
    (packed : List ℕ) × Packed 0 sample packed
    × (packed_emit_seg append_chunk 4096 sample 0 [] ≡ sent (0 + length packed) packed)
packed_emit_seg-fits_example =
    packed_emit_seg-fits 4096 sample 0 [] refl (omega arith) (omega arith) (omega arith)
