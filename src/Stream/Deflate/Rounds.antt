-- ===== src/Stream/Deflate/Rounds.antt =====
-- One round of `capn_deflate` of lib/capn-stream.c.
use c_capnproto.Common.{
  ℕ, ◌+◌, ◌-◌, ◌*◌, ◌/◌, ◌%◌, ◌^◌, ◌≤◌, ◌<◌, min, ◌≡◌, ◌≢◌, refl, sym, ap, ap₂, subst, ◌∙◌, List,
  [], ◌∷◌, ◌++◌, inl, inr, ltb, ◌==◌, if◌then◌else◌, length, take, drop, replicate, arith,
  Bool-cases, length-append, length-take, length-drop, take-append-drop, take-drop-split,
  replicate-append, le→ltb, append_assoc, ==→eq, ==→ne, ltb→lt, ltb→le,
}
use c_capnproto.Stream.State.{
  Stream, need_more, Round, again, stop, umin, copy_raw, copy_in, emit, nonzero_count, tag_of,
  nonzeros, words_while, is_zero_word, is_dense_word,
}
use c_capnproto.Stream.Words.{
  nonzero_count-le, zero_word, length-nonzeros, words_while-le, zero_run, umin_small,
}
use c_capnproto.Stream.Packed.{Packed, zero_words, dense_word, tagged_word, Packed-unchanged}
use c_capnproto.Stream.Deflate.{deflate_zeros, deflate_dense, deflate_tagged, deflate_round}

-- A stream that the encoder can go on with: its buffers are smaller than 4 GiB, and the bytes that
-- follow those that go through unchanged are whole words.
pub record CanDeflate (s : Stream) : Type 0 where
  pub small_in : length s.input < 2 ^ 32
  pub small_out : s.avail_out < 2 ^ 32
  pub raw_in : s.raw ≤ length s.input
  pub words : (length s.input - s.raw) % 8 ≡ 0

-- What the encoder has done between two states: `bytes` were stored, and they begin an encoding of the
-- first state's input whenever the rest is one of the second's.
pub record Sent (s t : Stream) : Type 0 where
  pub bytes : List ℕ
  pub stored : t.output ≡ s.output ++ bytes
  pub room : t.avail_out + length bytes ≡ s.avail_out
  pub packed : (p : List ℕ) → Packed t.raw t.input p → Packed s.raw s.input (bytes ++ p)

-- Room that is enough for the rest: ten bytes for a word, one for a byte that goes through unchanged.
abbrev pub need : Stream → ℕ
need s = (length s.input - s.raw) / 8 * 10 + s.raw

-- The results of a round that meets some input.
pub data RoundLem (s : Stream) : Round → Type 0 where
  goes_on :
      {t : Stream}
      → Sent s t
      → CanDeflate t
      → length t.input < length s.input
      → need t + s.avail_out ≤ need s + t.avail_out
      → RoundLem s (again t)
  no_room : s.avail_out < 10 → s.avail_out < need s → RoundLem s (stop need_more s)

module _ {s : Stream} (v : CanDeflate s) (more : length s.input ≢ 0) where
  -- How many bytes go through at once.
  copied :
      s.avail_out ≢ 0
      → 0 < s.raw
      → (n : ℕ) → n ≡ umin s.raw (umin (length s.input) s.avail_out)
      → (n ≤ s.raw) × (n ≤ length s.input) × (n ≤ s.avail_out) × (0 < n)
  unfolding umin
  copied room h n e = ground (arith, v)

  raw_lem :
      s.avail_out ≢ 0
      → 0 < s.raw
      → (n : ℕ) → n ≡ umin s.raw (umin (length s.input) s.avail_out)
      → RoundLem s (again (copy_raw n s))
  unfolding copy_raw copy_in
  raw_lem room h n e =
      let c = copied room h n e in
      let l : length (take n s.input) ≡ n = omega (arith, length-take {0} n s.input) in
      goes_on
        (record {
          bytes = take n s.input;
          stored = refl;
          room = omega arith;
          packed = λ p q.
              subst (λ x. Packed s.raw x (take n s.input ++ p)) (take-append-drop n s.input)
                (Packed-unchanged (take n s.input) s.raw (s.raw - n) (omega arith) q);
        })
        (record {
          small_in = omega (arith, length-drop {0} n s.input, v);
          small_out = omega (arith, v);
          raw_in = omega (arith, length-drop {0} n s.input, v);
          words = omega (arith, length-drop {0} n s.input, v);
        })
        (omega (arith, length-drop {0} n s.input)) (omega (arith, length-drop {0} n s.input, v))

  -- A run of `1 + m` zero words.
  zeros_ok :
      s.raw ≡ 0
      → nonzero_count (take 8 s.input) ≡ 0
      → (m : ℕ) → 2 ≤ s.avail_out
      → m < 256
      → 8 + m * 8 ≤ length s.input
      → take (m * 8) (drop 8 s.input) ≡ replicate (m * 8) 0
      → RoundLem s (
          again
            (record (emit (0 ∷ ((1 + m - 1) % 256) ∷ []) s) { input = drop ((1 + m) * 8) s.input }))
  unfolding emit
  zeros_ok none_raw z m room m_lt long run =
      goes_on
        (record {
          bytes = 0 ∷ ((1 + m - 1) % 256) ∷ [];
          stored = refl;
          room = omega arith;
          packed = λ p q.
              zero_words ((1 + m - 1) % 256) (drop ((1 + m) * 8) s.input) p none_raw (omega arith)
                split refl (subst (λ r. Packed r (drop ((1 + m) * 8) s.input) p) none_raw q);
        })
        (record {
          small_in = omega (arith, length-drop {0} ((1 + m) * 8) s.input, v);
          small_out = omega (arith, v);
          raw_in = omega arith;
          words = omega (arith, length-drop {0} ((1 + m) * 8) s.input, v);
        })
        (omega (arith, length-drop {0} ((1 + m) * 8) s.input))
        (omega (arith, length-drop {0} ((1 + m) * 8) s.input, v))
    where
      first : length (take 8 s.input) ≡ 8
      first = omega (arith, length-take {0} 8 s.input)

      zeros : take ((1 + m) * 8) s.input ≡ replicate ((1 + m) * 8) 0
      zeros =
          ap (λ k. take k s.input) {y = 8 + m * 8} (omega arith)
          ∙ take-drop-split 8 (m * 8) s.input
          ∙ ap₂ ◌++◌ (zero_word (take 8 s.input) z ∙ ap (λ n. replicate n 0) first) run
          ∙ replicate-append 8 (m * 8) 0
          ∙ ap (λ n. replicate n 0) {x = 8 + m * 8} (omega arith)

      split : s.input ≡ replicate (((1 + m - 1) % 256 + 1) * 8) 0 ++ drop ((1 + m) * 8) s.input
      split =
          sym (take-append-drop ((1 + m) * 8) s.input)
          ∙ ap (λ front. front ++ drop ((1 + m) * 8) s.input)
              (zeros ∙ ap (λ n. replicate n 0) (omega arith))

  zeros_lem :
      s.raw ≡ 0
      → 8 ≤ length s.input
      → nonzero_count (take 8 s.input) ≡ 0
      → RoundLem s (deflate_zeros s)
  unfolding deflate_zeros emit
  zeros_lem none_raw long z = elim (Bool-cases (ltb s.avail_out 2)) [
    | inl e ↦ rw e (no_room (omega (arith, ltb→lt _ _ e)) (omega (arith, ltb→lt _ _ e, v)))
    | inr e ↦
        let k = umin (length s.input / 8) 256 - 1 in
        rw e (
          zeros_ok none_raw z (words_while is_zero_word k (drop 8 s.input)) (ltb→le _ _ e) run_le.0
            (omega (arith, run_le, words_while-le is_zero_word k (drop 8 s.input)))
            (zero_run k (drop 8 s.input) (omega (arith, run_le, length-drop {0} 8 s.input))))
  ]
    where
      limit : umin (length s.input / 8) 256 ≡ min (length s.input / 8) 256
      limit = umin_small _ _ (omega (arith, v)) (omega arith)

      run_le :
          (words_while is_zero_word (umin (length s.input / 8) 256 - 1) (drop 8 s.input) < 256)
          × ((umin (length s.input / 8) 256 - 1) * 8 + 8 ≤ length s.input)
      run_le = omega (
        arith,
        limit,
        words_while-le is_zero_word (umin (length s.input / 8) 256 - 1) (drop 8 s.input),
      )

  -- A dense word, and `m` words that will follow it.
  dense_ok :
      s.raw ≡ 0
      → 8 ≤ length s.input
      → (m : ℕ) → 10 ≤ s.avail_out
      → m ≤ min (length (drop 8 s.input) / 8) 255
      → RoundLem s (
          again (record (emit (0xFF ∷ (take 8 s.input ++ ((m * 8 / 8 % 256) ∷ []))) s) {
            input = drop 8 s.input;
            raw = m * 8;
          }))
  unfolding emit
  dense_ok none_raw long m room m_le =
      goes_on
        (record {
          bytes = 0xFF ∷ (take 8 s.input ++ ((m * 8 / 8 % 256) ∷ []));
          stored = refl;
          room = omega (arith, ten);
          packed = λ p q.
              dense_word (take 8 s.input) (m * 8 / 8 % 256) (drop 8 s.input) p none_raw first
                (omega arith) (sym (take-append-drop 8 s.input))
                (ap (λ t. 0xFF ∷ t) (append_assoc (take 8 s.input) ((m * 8 / 8 % 256) ∷ []) p))
                (subst (λ r. Packed r (drop 8 s.input) p) (omega (arith, m_le)) q);
        })
        (record {
          small_in = omega (arith, length-drop {0} 8 s.input, v);
          small_out = omega (arith, ten, v);
          raw_in = omega arith;
          words = omega (arith, length-drop {0} 8 s.input, v);
        })
        (omega (arith, length-drop {0} 8 s.input))
        (omega (arith, ten, length-drop {0} 8 s.input, v))
    where
      first : length (take 8 s.input) ≡ 8
      first = omega (arith, length-take {0} 8 s.input)

      ten : length (take 8 s.input ++ ((m * 8 / 8 % 256) ∷ [])) ≡ 9
      ten = omega (arith, first, length-append {0} (take 8 s.input) ((m * 8 / 8 % 256) ∷ []))

  dense_lem :
      s.raw ≡ 0
      → 8 ≤ length s.input
      → nonzero_count (take 8 s.input) ≡ 8
      → RoundLem s (deflate_dense s)
  unfolding deflate_dense emit
  dense_lem none_raw long z = elim (Bool-cases (ltb s.avail_out 10)) [
    | inl e ↦ rw e (no_room (ltb→lt _ _ e) (omega (arith, ltb→lt _ _ e, v)))
    | inr e ↦ rw e (
        dense_ok none_raw long
          (words_while is_dense_word (min (length (drop 8 s.input) / 8) 255) (drop 8 s.input))
          (ltb→le _ _ e)
          (words_while-le is_dense_word (min (length (drop 8 s.input) / 8) 255) (drop 8 s.input)))
  ]

  tagged_lem :
      s.raw ≡ 0
      → 8 ≤ length s.input
      → nonzero_count (take 8 s.input) ≢ 0
      → nonzero_count (take 8 s.input) ≢ 8
      → RoundLem s (deflate_tagged s)
  unfolding deflate_tagged emit
  tagged_lem none_raw long z y =
      elim (Bool-cases (ltb s.avail_out (1 + nonzero_count (take 8 s.input)))) [
        | inl e ↦ rw e (
            no_room
              (omega
                (arith, ltb→lt _ _ e, nonzero_count-le (take 8 s.input), length-take {0} 8 s.input))
              (omega (
                arith,
                ltb→lt _ _ e,
                nonzero_count-le (take 8 s.input),
                length-take {0} 8 s.input,
                v,
              )))
        | inr e ↦ rw e (
            goes_on
              (record {
                bytes = tag_of w ∷ nonzeros w;
                stored = refl;
                room = omega (arith, length-nonzeros w, ltb→le _ _ e);
                packed = λ p q.
                    tagged_word w (drop 8 s.input) p none_raw first (omega arith)
                      (omega (arith, nonzero_count-le w, first)) (sym (take-append-drop 8 s.input))
                      refl (subst (λ r. Packed r (drop 8 s.input) p) none_raw q);
              })
              (record {
                small_in = omega (arith, length-drop {0} 8 s.input, v);
                small_out = omega (arith, v);
                raw_in = omega arith;
                words = omega (arith, length-drop {0} 8 s.input, v);
              })
              (omega (arith, length-drop {0} 8 s.input))
              (omega (
                arith,
                length-drop {0} 8 s.input,
                v,
                length-nonzeros w,
                nonzero_count-le w,
                first,
              )))
      ]
    where
      w : List ℕ
      w = take 8 s.input

      first : length (take 8 s.input) ≡ 8
      first = omega (arith, length-take {0} 8 s.input)

  -- With no byte left to go through unchanged, a whole word is there.
  whole_word :
      s.raw ≡ 0
      → RoundLem s (
          if ltb (length s.input) 8
          then stop need_more s
          else (if nonzero_count (take 8 s.input) == 0
              then deflate_zeros s
              else if nonzero_count (take 8 s.input) == 8
              then deflate_dense s
              else deflate_tagged s))
  whole_word r =
      let long : 8 ≤ length s.input = omega (arith, v) in
      rw (le→ltb (length s.input) 8 long) (elim (Bool-cases (nonzero_count (take 8 s.input) == 0)) [
        | inl z ↦ rw z (zeros_lem r long (==→eq _ 0 z))
        | inr z ↦ rw z (elim (Bool-cases (nonzero_count (take 8 s.input) == 8)) [
          | inl d ↦ rw d (dense_lem r long (==→eq _ 8 d))
          | inr d ↦ rw d (tagged_lem r long (==→ne _ 0 z) (==→ne _ 8 d))
        ])
      ])

  pub deflate_round_lem : RoundLem s (deflate_round s)
  unfolding deflate_round
  deflate_round_lem = elim (Bool-cases (s.avail_out == 0)) [
    | inl e ↦ rw e (no_room (omega (arith, ==→eq _ 0 e)) (omega (arith, ==→eq _ 0 e, v)))
    | inr e ↦ rw e (elim (Bool-cases (ltb 0 s.raw)) [
      | inl r ↦ rw r (raw_lem (==→ne _ 0 e) (ltb→lt 0 s.raw r) _ refl)
      | inr r ↦ rw r (whole_word (omega (arith, ltb→le 0 s.raw r)))
    ])
  ]
