-- ===== src/Stream/Emit/Fits.antt =====
-- `packed_emit_seg` of lib/capn-malloc.c on a segment whose encoding fits the buffer.
use c_capnproto.Common.{
  ℕ, suc, ◌+◌, ◌-◌, ◌*◌, ◌/◌, ◌%◌, ◌^◌, ◌≤◌, ◌<◌, ◌≡◌, ◌≢◌, refl, sym, ap, ap₂, ◌∙◌, some, List, [],
  ◌∷◌, ◌++◌, length, ne→==, arith, append-nil,
}
use c_capnproto.Stream.State.{Stream, fresh, success}
use c_capnproto.Stream.Packed.{Packed, nothing, unchanged, zero_words, dense_word, tagged_word}
use c_capnproto.Stream.Deflate.{deflate}
use c_capnproto.Stream.Deflate.Run.{deflate-Packed}
use c_capnproto.Stream.Emit.{
  sent, append_chunk, send_chunk, after_deflate, emit_loop, packed_emit_seg, nil_of_length,
}

-- Only no bytes at all have an empty encoding.
Packed-nil : {raw : ℕ} {bytes packed : List ℕ} → Packed raw bytes packed → packed ≡ [] → bytes ≡ []
Packed-nil (nothing r e p) h = e
Packed-nil (unchanged n b us ps r e p k) h = cc
Packed-nil (zero_words n us ps r l e p k) h = cc
Packed-nil (dense_word w n us ps r l m e p k) h = cc
Packed-nil (tagged_word w us ps r l m n e p k) h = cc

-- A round that reads all of the input and stores something is the last.
last_round :
    (fuel bufcap : ℕ) (z t : Stream) (written : ℕ) (w : List ℕ)
    → length z.input ≢ 0
    → deflate (record z { output = []; avail_out = bufcap }) ≡ some (success, t)
    → bufcap - t.avail_out ≢ 0
    → emit_loop append_chunk (suc fuel) bufcap z written w
      ≡ sent (written + (bufcap - t.avail_out)) (w ++ t.output)
unfolding emit_loop after_deflate send_chunk
last_round fuel bufcap z t written w h e m =
    rw (ne→== (length z.input) 0 h, e, ne→== (bufcap - t.avail_out) 0 m)

-- With ten bytes of the buffer for each word, the function sends the whole segment, as one chunk that
-- is an encoding of it, and returns 0.
pub packed_emit_seg-fits :
    (bufcap : ℕ) (src : List ℕ) (written : ℕ) (w : List ℕ)
    → length src % 8 ≡ 0
    → length src < 2 ^ 32
    → bufcap < 2 ^ 32
    → length src / 8 * 10 ≤ bufcap
    → (packed : List ℕ) × Packed 0 src packed
      × (packed_emit_seg append_chunk bufcap src written w
          ≡ sent (written + length packed) (w ++ packed))
unfolding packed_emit_seg emit_loop
packed_emit_seg-fits bufcap [] written w words small small_out room =
    ([], nothing refl refl refl, ap₂ sent (omega arith) (sym (append-nil w)))
packed_emit_seg-fits bufcap (b ∷ src) written w words small small_out room =
    let (t, packed, runs, stored, left, k) =
      deflate-Packed (fresh (b ∷ src) bufcap)
        (record { small_in = small; small_out = small_out; raw = refl }) words room in
    (packed, k, sends t packed runs stored left (λ e. cc (Packed-nil k e)))
  where
    sends :
        (t : Stream) (packed : List ℕ)
        → deflate (fresh (b ∷ src) bufcap) ≡ some (success, t)
        → t.output ≡ packed
        → t.avail_out + length packed ≡ bufcap
        → packed ≢ []
        → packed_emit_seg append_chunk bufcap (b ∷ src) written w
          ≡ sent (written + length packed) (w ++ packed)
    sends t packed runs stored left some_bytes =
        ap (λ f. emit_loop append_chunk f bufcap (fresh (b ∷ src) bufcap) written w)
          {x = length (b ∷ src) + 1} {y = suc (length (b ∷ src))} (omega arith)
        ∙ last_round (length (b ∷ src)) bufcap (fresh (b ∷ src) bufcap) t written w (omega arith)
            runs (λ e. some_bytes (nil_of_length packed (omega (arith, left, e))))
        ∙ ap₂ (λ n o. sent (written + n) (w ++ o)) (omega (arith, left)) stored
