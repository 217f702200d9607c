-- ===== src/Stream/RoundTrip.antt =====
-- `capn_deflate` and `capn_inflate` of lib/capn-stream.c against each other.
use c_capnproto.Common.{
  ℕ, ◌*◌, ◌/◌, ◌%◌, ◌^◌, ◌≤◌, ◌<◌, ◌≡◌, refl, ap, ◌∙◌, some, List, length, arith, take-all,
}
use c_capnproto.Stream.State.{Stream, fresh, success}
use c_capnproto.Stream.Packed.{Packed}
use c_capnproto.Stream.Deflate.{deflate}
use c_capnproto.Stream.Deflate.Run.{deflate-Packed}
use c_capnproto.Stream.Inflate.{inflate}
use c_capnproto.Stream.Inflate.Rounds.{Pending}
use c_capnproto.Stream.Inflate.Run.{inflate_lem}

-- Any encoding of fewer than 4 GiB is inflated to the bytes that it encodes.
pub inflate-Packed :
    (bytes packed : List ℕ)
    → Packed 0 bytes packed
    → length bytes < 2 ^ 32
    → length packed < 2 ^ 32
    → (t : Stream) × (inflate (fresh packed (length bytes)) ≡ some (success, t))
      × (t.output ≡ bytes)
      × (t.avail_out ≡ 0)
inflate-Packed bytes packed k small_out small_in =
    let r = inflate_lem (fresh packed (length bytes)) bytes pend (omega arith) in
    (r.0, r.1, r.2 ∙ take-all (length bytes) bytes (omega arith), r.3)
  where
    pend : Pending (fresh packed (length bytes)) bytes
    pend = record {
      rest = bytes;
      parts = refl;
      packed = k;
      small_in = small_in;
      small_out = small_out;
      zeros_lt = omega arith;
      raw_lt = omega arith;
    }

-- On whole words, below 4 GiB and with ten bytes of room for each word, `capn_deflate` returns 0, and
-- `capn_inflate` on what it stored returns 0 with the original bytes.
pub inflate-deflate :
    (bytes : List ℕ) (room : ℕ)
    → length bytes % 8 ≡ 0
    → length bytes < 2 ^ 32
    → length bytes / 8 * 10 ≤ room
    → room < 2 ^ 32
    → (t t' : Stream) × (deflate (fresh bytes room) ≡ some (success, t))
      × (inflate (fresh t.output (length bytes)) ≡ some (success, t'))
      × (t'.output ≡ bytes)
inflate-deflate bytes room words small enough small_out =
    let (t, packed, runs, stored, left, k) =
      deflate-Packed (fresh bytes room)
        (record { small_in = small; small_out = small_out; raw = refl }) words enough in
    let (t', back, out, _) = inflate-Packed bytes packed k small (omega arith) in
    (t, t', runs, ap (λ xs. inflate (fresh xs (length bytes))) stored ∙ back, out)
