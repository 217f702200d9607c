-- ===== src/Stream/Deflate/Run.antt =====
-- `capn_deflate` of lib/capn-stream.c as a whole: it ends, and what it stores is an encoding.
use c_capnproto.Common.{
  ℕ, zero, suc, ◌+◌, ◌*◌, ◌/◌, ◌%◌, ◌^◌, ◌≤◌, ◌<◌, ◌≡◌, ◌≢◌, refl, sym, ap, subst, ◌∙◌, Option,
  some, List, [], ◌∷◌, ◌++◌, inl, inr, ==→eq, ==→ne, ◌==◌, length, arith, Bool-cases, length-append,
  append-nil, append_assoc, eq→==, ne→==, subst₂,
}
use c_capnproto.Stream.State.{Stream, Status, success, misaligned, need_more, Round, again, stop}
use c_capnproto.Stream.Packed.{Packed, nothing}
use c_capnproto.Stream.Deflate.{deflate_round, deflate_loop, deflate}
use c_capnproto.Stream.Deflate.Rounds.{
  CanDeflate, Sent, need, RoundLem, goes_on, no_room, deflate_round_lem,
}

-- The results of a run: all input read, or the output so full that a word may not fit.
pub data Deflated (s : Stream) : Option (Status × Stream) → Type 0 where
  all_read : {t : Stream} → Sent s t → t.input ≡ [] → t.raw ≡ 0 → Deflated s (some (success, t))
  filled :
      {t : Stream}
      → Sent s t
      → CanDeflate t
      → t.avail_out < 10
      → length t.input ≤ length s.input
      → (10 ≤ s.avail_out → length t.input < length s.input)
      → t.avail_out < need t
      → need t + s.avail_out ≤ need s + t.avail_out
      → Deflated s (some (need_more, t))

Sent-refl : (s : Stream) → Sent s s
Sent-refl s = record {
  bytes = [];
  stored = sym (append-nil s.output);
  room = omega arith;
  packed = λ p q. q;
}

Sent-trans : {s t u : Stream} → Sent s t → Sent t u → Sent s u
Sent-trans {s} {t} {u} a b = record {
  bytes = a.bytes ++ b.bytes;
  stored = b.stored ∙ ap (λ o. o ++ b.bytes) a.stored ∙ append_assoc s.output a.bytes b.bytes;
  room = omega (arith, length-append {0} a.bytes b.bytes, a.room, b.room);
  packed = λ p q.
      subst (λ x. Packed s.raw s.input x) (sym (append_assoc a.bytes b.bytes p))
        (a.packed (b.bytes ++ p) (b.packed p q));
}

no_input : (xs : List ℕ) → length xs ≡ 0 → xs ≡ []
no_input [] h = refl
no_input (x ∷ xs) h = absurd (omega arith)

Deflated-after :
    {s t : Stream} {r : Option (Status × Stream)}
    → Sent s t
    → length t.input < length s.input
    → need t + s.avail_out ≤ need s + t.avail_out
    → Deflated t r
    → Deflated s r
Deflated-after a le n (all_read b e z) = all_read (Sent-trans a b) e z
Deflated-after a le n (filled b v f le' _ g m) =
    filled (Sent-trans a b) v f (omega arith) (λ _. omega arith) g (omega arith)

-- `avail_in + 1` rounds are enough.
deflate_loop_lem :
    (fuel : ℕ) (s : Stream)
    → CanDeflate s
    → length s.input < fuel
    → Deflated s (deflate_loop fuel s)
unfolding deflate_loop
deflate_loop_lem zero s v h = absurd (omega arith)
deflate_loop_lem (suc fuel) s v h = elim (Bool-cases (length s.input == 0)) [
  | inl e ↦
      rw (e, deflate_loop)
        (all_read (Sent-refl s) (no_input s.input (==→eq _ 0 e)) (omega (arith, v, ==→eq _ 0 e)))
  | inr e ↦
      rw (e, deflate_loop)
        (step (deflate_round s) (deflate_round_lem v (==→ne _ 0 e)) (λ t. deflate_loop_lem fuel t))
]
  where
    step :
        (r : Round)
        → RoundLem s r
        → ((t : Stream) → CanDeflate t → length t.input < fuel → Deflated t (deflate_loop fuel t))
        → Deflated s (elim r [ again t ↦ deflate_loop fuel t | stop c t ↦ some (c, t) ])
    step _ (goes_on {t} a w less n) rec = Deflated-after a less n (rec t w (omega arith))
    step _ (no_room full n) rec =
        filled (Sent-refl s) v full (omega arith) (λ h. absurd (omega arith)) n (omega arith)

-- A stream that nothing has been read from.
pub record IsFresh (s : Stream) : Type 0 where
  pub small_in : length s.input < 2 ^ 32
  pub small_out : s.avail_out < 2 ^ 32
  pub raw : s.raw ≡ 0

pub deflate_aligned : (s : Stream) → CanDeflate s → length s.input % 8 ≡ 0 → Deflated s (deflate s)
unfolding deflate
deflate_aligned s v h = rw (eq→== _ 0 h) (deflate_loop_lem (length s.input + 1) s v (omega arith))

pub deflate_misaligned : (s : Stream) → length s.input % 8 ≢ 0 → deflate s ≡ some (misaligned, s)
unfolding deflate
deflate_misaligned s h = rw (ne→== _ 0 h)

-- On fewer than 4 GiB of input and output `capn_deflate` returns. On whole words it has either read
-- all of the input, and what it stored is an encoding of it, or it has less than ten bytes of room
-- left, and what it stored followed by an encoding of what is left is an encoding of the input. On
-- any other length it returns CAPN_MISALIGNED and does nothing.
pub deflate_lem :
    (s : Stream)
    → IsFresh s
    → (length s.input % 8 ≡ 0 → Deflated s (deflate s))
      × (length s.input % 8 ≢ 0 → deflate s ≡ some (misaligned, s))
deflate_lem s v = (
  λ h.
      deflate_aligned s
        (record {
          small_in = v.small_in;
          small_out = v.small_out;
          raw_in = omega (arith, v);
          words = omega (arith, v);
        })
        h,
  deflate_misaligned s,
)

-- With ten bytes of room for each word, `capn_deflate` reads all of the input, and stores an encoding
-- of it.
pub deflate-Packed :
    (s : Stream)
    → IsFresh s
    → length s.input % 8 ≡ 0
    → length s.input / 8 * 10 ≤ s.avail_out
    → (t : Stream) × (packed : List ℕ) × (deflate s ≡ some (success, t))
      × (t.output ≡ s.output ++ packed)
      × (t.avail_out + length packed ≡ s.avail_out)
      × Packed 0 s.input packed
deflate-Packed s v words room = finish ((deflate_lem s v).0 words)
  where
    finish :
        {r : Option (Status × Stream)}
        → Deflated s r
        → (t : Stream) × (packed : List ℕ) × (r ≡ some (success, t))
          × (t.output ≡ s.output ++ packed)
          × (t.avail_out + length packed ≡ s.avail_out)
          × Packed 0 s.input packed
    finish (all_read {t} a done z) = (
      t,
      a.bytes,
      refl,
      a.stored,
      a.room,
      subst₂ (λ n p. Packed n s.input p) v.raw (append-nil a.bytes)
          (a.packed [] (nothing z done refl)),
    )
    finish (filled a w f le _ m n) = absurd (omega (arith, v))
