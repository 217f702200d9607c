-- ===== src/Stream/Emit.antt =====
-- `packed_emit_seg` of lib/capn-malloc.c: a segment is packed through a buffer of fixed size, chunk by
-- chunk. `emit` stands for the callback that takes a chunk; it changes a state of its own, and `none`
-- is a negative return.
pub mod Misaligned
pub mod Fits
use c_capnproto.Common.{
  ℕ, zero, suc, ◌+◌, ◌-◌, ◌/◌, ◌%◌, ◌*◌, ◌^◌, ◌≤◌, ◌<◌, ◌≡◌, ◌≢◌, ◌⊎◌, refl, sym, ap, subst, subst₂,
  ◌∙◌, Bool, true, false, Option, none, some, List, [], ◌∷◌, ◌++◌, ◌==◌, if◌then◌else◌, length,
  arith, append-nil, append_assoc, inl, inr, Bool-cases, ==→eq, ==→ne, ne→==, length-append,
}
use c_capnproto.Stream.State.{Stream, Status, success, misaligned, need_more, fresh}
use c_capnproto.Stream.Packed.{Packed, nothing}
use c_capnproto.Stream.Deflate.{deflate}
use c_capnproto.Stream.Deflate.Rounds.{CanDeflate, Sent, need}
use c_capnproto.Stream.Deflate.Run.{Deflated, all_read, filled, deflate_aligned, deflate_misaligned}

-- The results of the function: 0 with the stream, `*written` and the callback's state, or -1. The fuel
-- may run out.
pub data Emitted {ℓ} (W : Type ℓ) : Type ℓ where
  sent : ℕ → W → Emitted W
  failed : Emitted W
  out_of_fuel : Emitted W

module _ {ℓ} {W : Type ℓ} (emit : List ℕ → W → Option W) where
  -- `n = bufcap - z->avail_out` bytes go to the callback, and `*written` grows; then `next`.
  unfoldable pub send_chunk : ℕ → Stream → ℕ → W → (ℕ → W → Emitted W) → Emitted W
  send_chunk bufcap z written w next =
      let n = bufcap - z.avail_out in
      if n == 0
      then failed
      else elim (emit z.output w) [ none ↦ failed | some w' ↦ next (written + n) w' ]

  -- What follows the call of `capn_deflate`. `go` is the next round of the loop.
  unfoldable pub after_deflate :
      ℕ → ℕ → W → (Stream → ℕ → W → Emitted W) → Option (Status × Stream) → Emitted W
  after_deflate bufcap written w go none = out_of_fuel
  after_deflate bufcap written w go (some (misaligned, z)) = failed
  after_deflate bufcap written w go (some (success, z)) = send_chunk bufcap z written w sent
  after_deflate bufcap written w go (some (need_more, z)) = send_chunk bufcap z written w (go z)

  -- `while (z->avail_in)`. `z->next_out` and `z->avail_out` are set anew in each round.
  unfoldable pub emit_loop : ℕ → ℕ → Stream → ℕ → W → Emitted W
  emit_loop zero bufcap z written w = out_of_fuel
  emit_loop (suc fuel) bufcap z written w =
      if length z.input == 0
      then sent written w
      else after_deflate bufcap written w (λ z' n w'. emit_loop fuel bufcap z' n w')
          (deflate (record z { output = []; avail_out = bufcap }))

  unfoldable pub packed_emit_seg : ℕ → List ℕ → ℕ → W → Emitted W
  unfolding emit_loop
  packed_emit_seg bufcap src written w =
      emit_loop (length src + 1) bufcap (fresh src bufcap) written w

-- A callback that writes every chunk behind the ones before it.
abbrev pub append_chunk : List ℕ → List ℕ → Option (List ℕ)
append_chunk chunk w = some (w ++ chunk)

-- Either -1, or an encoding of what the stream still holds has been written and counted.
pub data EmitLem (z : Stream) (written : ℕ) (w : List ℕ) : Emitted (List ℕ) → Type 0 where
  sends :
      (packed : List ℕ)
      → Packed z.raw z.input packed
      → EmitLem z written w (sent (written + length packed) (w ++ packed))
  fails : EmitLem z written w failed

abbrev refilled : ℕ → Stream → Stream
refilled bufcap z = record z { output = []; avail_out = bufcap }

pub nil_of_length : (xs : List ℕ) → length xs ≡ 0 → xs ≡ []
nil_of_length [] h = refl
nil_of_length (x ∷ xs) h = absurd (omega arith)

-- Chunks written so far, and then the rest.
EmitLem-after :
    (z t : Stream) (bufcap written : ℕ) (w : List ℕ) (a : Sent (refilled bufcap z) t)
    {r : Emitted (List ℕ)}
    → EmitLem t (written + (bufcap - t.avail_out)) (w ++ t.output) r
    → EmitLem z written w r
EmitLem-after z t bufcap written w a (sends packed k) =
    subst₂ (λ n x. EmitLem z written w (sent n x))
      (omega (arith, a.room, length-append {0} a.bytes packed))
      (sym (append_assoc w a.bytes packed) ∙ ap (λ o. (w ++ o) ++ packed) (sym a.stored))
      (sends (a.bytes ++ packed) (a.packed packed k))
EmitLem-after z t bufcap written w a fails = fails

nothing_left :
    (z : Stream) (written : ℕ) (w : List ℕ)
    → z.input ≡ []
    → z.raw ≡ 0
    → EmitLem z written w (sent written w)
nothing_left z written w done raw =
    subst₂ (λ n x. EmitLem z written w (sent n x)) {y = written} (omega arith) (append-nil w)
      (sends [] (nothing raw done refl))

chunk_lem :
    (bufcap : ℕ) (z : Stream) (written : ℕ) (w : List ℕ)
    (go : Stream → ℕ → List ℕ → Emitted (List ℕ))
    → 10 ≤ bufcap
    → ((t : Stream) (n : ℕ) (x : List ℕ)
        → CanDeflate (refilled bufcap t)
        → length t.input < length z.input
        → EmitLem t n x (go t n x))
    → {r : Option (Status × Stream)} → bufcap < 2 ^ 32
    → Deflated (refilled bufcap z) r
    → EmitLem z written w (after_deflate append_chunk bufcap written w go r)
unfolding after_deflate send_chunk
chunk_lem bufcap z written w go big rec small (all_read {t} a done raw) =
    elim (Bool-cases (bufcap - t.avail_out == 0)) [
      | inl e ↦ rw e fails
      | inr e ↦ rw e (EmitLem-after z t bufcap written w a (nothing_left t _ _ done raw))
    ]
chunk_lem bufcap z written w go big rec small (filled {t} a v full le less _ _) =
    elim (Bool-cases (bufcap - t.avail_out == 0)) [
      | inl e ↦ rw e fails
      | inr e ↦ rw e (
          EmitLem-after z t bufcap written w a (
            rec t _ _
              (record {
                small_in = v.small_in;
                small_out = small;
                raw_in = v.raw_in;
                words = v.words;
              })
              (less big)))
    ]

emit_loop_lem :
    (fuel bufcap : ℕ) (z : Stream) (written : ℕ) (w : List ℕ)
    → CanDeflate (refilled bufcap z)
    → 10 ≤ bufcap
    → length z.input < fuel
    → EmitLem z written w (emit_loop append_chunk fuel bufcap z written w)
unfolding emit_loop
emit_loop_lem zero bufcap z written w v big h = absurd (omega arith)
emit_loop_lem (suc fuel) bufcap z written w v big h = elim (Bool-cases (length z.input == 0)) [
  | inl e ↦ rw e (
      nothing_left z written w (nil_of_length z.input (==→eq _ 0 e))
        (omega (arith, v, ==→eq _ 0 e)))
  | inr e ↦ elim (Bool-cases (length z.input % 8 == 0)) [
    | inl a ↦ rw e (
        chunk_lem bufcap z written w _ big
          (λ t n x u l. emit_loop_lem fuel bufcap t n x u big (omega arith)) v.small_out
          (deflate_aligned (refilled bufcap z) v (==→eq _ 0 a)))
    | inr a ↦
        rw (e, deflate_misaligned (refilled bufcap z) (==→ne _ 0 a)) (unfold after_deflate in fails)
  ]
]

-- Through a buffer of at least ten bytes, and below 4 GiB, the function ends on every segment of whole
-- words. Either it returns -1, or what the callback was given, chunk after chunk, is an encoding of
-- the segment, and `*written` has grown by its length.
pub packed_emit_seg_lem :
    (bufcap : ℕ) (src : List ℕ) (written : ℕ) (w : List ℕ)
    → length src % 8 ≡ 0
    → length src < 2 ^ 32
    → 10 ≤ bufcap
    → bufcap < 2 ^ 32
    → (packed_emit_seg append_chunk bufcap src written w ≡ failed)
      ⊎ ((packed : List ℕ) × Packed 0 src packed
          × (packed_emit_seg append_chunk bufcap src written w
              ≡ sent (written + length packed) (w ++ packed)))
unfolding packed_emit_seg
packed_emit_seg_lem bufcap src written w words small big small_out = split (
    emit_loop_lem (length src + 1) bufcap (fresh src bufcap) written w
      (record {
        small_in = small;
        small_out = small_out;
        raw_in = omega arith;
        words = omega arith;
      })
      big (omega arith))
  where
    split :
        {r : Emitted (List ℕ)}
        → EmitLem (fresh src bufcap) written w r
        → (r ≡ failed)
          ⊎ ((packed : List ℕ) × Packed 0 src packed
              × (r ≡ sent (written + length packed) (w ++ packed)))
    split (sends packed k) = inr (packed, k, refl)
    split fails = inl refl
