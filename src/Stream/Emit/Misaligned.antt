-- ===== src/Stream/Emit/Misaligned.antt =====
-- `packed_emit_seg` of lib/capn-malloc.c on segments without a zero byte, through its callers' buffer of
-- 4096 bytes: the buffer fills up within a word, and `capn_deflate` then refuses to go on.
use c_capnproto.Common.{
  ℕ, zero, suc, ◌+◌, ◌-◌, ◌*◌, ◌/◌, ◌%◌, ◌^◌, ◌≤◌, ◌<◌, min, ◌≡◌, ◌≢◌, refl, ap, ◌∙◌, Option, some,
  List, [], ◌∷◌, ◌++◌, All, ◌==◌, length, take, drop, arith, length-append, length-take,
  length-drop, eq→==, ne→==, lt→ltb, le→ltb, Bool-cases, Option-cases, inl, inr,
}
use c_capnproto.Stream.State.{
  Stream, need_more, fresh, again, stop, umin, copy_raw, copy_in, emit, nonzero_count, words_while,
  is_dense_word,
}
use c_capnproto.Stream.Deflate.{deflate, deflate_loop, deflate_round, deflate_dense}
use c_capnproto.Stream.Deflate.Run.{deflate_misaligned}
use c_capnproto.Stream.Emit.{failed, packed_emit_seg, emit_loop, after_deflate, send_chunk}

-- No byte is zero.
abbrev pub NonZero : List ℕ → Type 0
NonZero = All (λ b. 0 < b)

NonZero-take : (n : ℕ) (xs : List ℕ) → NonZero xs → NonZero (take n xs)
NonZero-take zero xs h = tt
NonZero-take (suc n) [] h = tt
NonZero-take (suc n) (x ∷ xs) h = (h.0, NonZero-take n xs h.1)

NonZero-drop : (n : ℕ) (xs : List ℕ) → NonZero xs → NonZero (drop n xs)
NonZero-drop zero xs h = h
NonZero-drop (suc n) [] h = tt
NonZero-drop (suc n) (x ∷ xs) h = NonZero-drop n xs h.1

nonzero_count-NonZero : (xs : List ℕ) → NonZero xs → nonzero_count xs ≡ length xs
unfolding nonzero_count
nonzero_count-NonZero [] h = refl
nonzero_count-NonZero (x ∷ xs) h =
    rw (ne→== x 0 (omega arith)) (ap suc (nonzero_count-NonZero xs h.1))

words_while-NonZero : (k : ℕ) (xs : List ℕ) → NonZero xs → words_while is_dense_word k xs ≡ k
unfolding words_while
words_while-NonZero zero xs h = refl
words_while-NonZero (suc k) xs h =
    rw
      (lt→ltb (length (take 8 xs) - nonzero_count (take 8 xs)) 2
        (omega (arith, nonzero_count-NonZero (take 8 xs) (NonZero-take 8 xs h))))
      (ap suc (words_while-NonZero k (drop 8 xs) (NonZero-drop 8 xs h)))

-- What holds between two rounds of the loop on such a segment.
record At (s : Stream) (left raw room : ℕ) : Type 0 where
  dense : NonZero s.input
  left_is : length s.input ≡ left
  raw_is : s.raw ≡ raw
  room_is : s.avail_out ≡ room

abbrev Reaches : Stream → ℕ → ℕ → ℕ → Type 0
Reaches s left raw room = (t : Stream) × (deflate_round s ≡ again t) × At t left raw room

-- A dense word is written, and announces 255 more.
dense_step :
    (s : Stream) (left room : ℕ)
    → At s left 0 room
    → 2048 ≤ left
    → 10 ≤ room
    → Reaches s (left - 8) 2040 (room - 10)
unfolding deflate_round deflate_dense emit
dense_step s left room a h r = (
  record (emit (0xFF ∷ (take 8 s.input ++ ((255 * 8 / 8 % 256) ∷ []))) s) {
    input = drop 8 s.input;
    raw = 255 * 8;
  },
  rw (
    ne→== s.avail_out 0 (omega (arith, a)),
    le→ltb 0 s.raw (omega (arith, a)),
    le→ltb (length s.input) 8 (omega (arith, a)),
    eight,
    le→ltb s.avail_out 10 (omega (arith, a)),
    run,
  ),
  record {
    dense = NonZero-drop 8 s.input a.dense;
    left_is = omega (arith, a, length-drop {0} 8 s.input);
    raw_is = refl;
    room_is = omega (arith, a, first, length-append {0} (take 8 s.input) (255 ∷ []));
  },
)
  where
    first : length (take 8 s.input) ≡ 8
    first = omega (arith, a, length-take {0} 8 s.input)

    eight : nonzero_count (take 8 s.input) ≡ 8
    eight = nonzero_count-NonZero (take 8 s.input) (NonZero-take 8 s.input a.dense) ∙ first

    limit : min (length (drop 8 s.input) / 8) 255 ≡ 255
    limit = omega (arith, a, length-drop {0} 8 s.input)

    run : words_while is_dense_word (min (length (drop 8 s.input) / 8) 255) (drop 8 s.input) ≡ 255
    run = words_while-NonZero _ (drop 8 s.input) (NonZero-drop 8 s.input a.dense) ∙ limit

-- `n` bytes of a run go through.
raw_step :
    (s : Stream) (left raw room n : ℕ)
    → At s left raw room
    → n ≡ umin raw (umin left room)
    → 0 < raw
    → 0 < room
    → n ≤ left
    → n ≤ room
    → Reaches s (left - n) (raw - n) (room - n)
unfolding deflate_round copy_raw copy_in
raw_step s left raw room n a e h r l m = (
  copy_raw n s,
  rw (
    ne→== s.avail_out 0 (omega (arith, a)),
    lt→ltb 0 s.raw (omega (arith, a)),
    a.raw_is,
    a.left_is,
    a.room_is,
    e,
  ),
  record {
    dense = NonZero-drop n s.input a.dense;
    left_is = omega (arith, a, length-drop {0} n s.input);
    raw_is = omega (arith, a);
    room_is = omega (arith, a);
  },
)

next_round :
    (fuel : ℕ) (s t : Stream)
    → length s.input ≢ 0
    → deflate_round s ≡ again t
    → deflate_loop (suc fuel) s ≡ deflate_loop fuel t
unfolding deflate_loop
next_round fuel s t h e = rw (ne→== (length s.input) 0 h, deflate_loop, e)

full_round :
    (fuel : ℕ) (s : Stream)
    → length s.input ≢ 0
    → s.avail_out ≡ 0
    → deflate_loop (suc fuel) s ≡ some (need_more, s)
unfolding deflate_loop
full_round fuel s h e = rw (ne→== (length s.input) 0 h, deflate_loop, full)
  where
    full : deflate_round s ≡ stop need_more s
    full = unfold deflate_round in rw (eq→== s.avail_out 0 e)

-- The first chunk: all 4096 bytes of the buffer are used, and four bytes of a word are left over.
first_chunk :
    (src : List ℕ)
    → NonZero src
    → length src % 8 ≡ 0
    → 4096 ≤ length src
    → length src < 2 ^ 32
    → (t : Stream) × (deflate (fresh src 4096) ≡ some (need_more, t))
      × (t.avail_out ≡ 0)
      × (length t.input ≡ length src - 4092)
unfolding deflate
first_chunk src dense words long small =
    let a0 : At (fresh src 4096) (length src) 0 4096 = record {
      dense = dense;
      left_is = refl;
      raw_is = refl;
      room_is = refl;
    } in
    let (s1, e1, a1) =
      dense_step (fresh src 4096) (length src) 4096 a0 (omega arith) (omega arith) in
    let (s2, e2, a2) =
      raw_step s1 (length src - 8) 2040 4086 2040 a1 (unfold umin in ground arith) (omega arith)
        (omega arith) (omega arith) (omega arith) in
    let (s3, e3, a3) = dense_step s2 (length src - 8 - 2040) 2046 a2 (omega arith) (omega arith) in
    let (s4, e4, a4) =
      raw_step s3 (length src - 8 - 2040 - 8) 2040 2036 2036 a3 (unfold umin in ground arith)
        (omega arith) (omega arith) (omega arith) (omega arith) in
    (
      s4,
      rw (eq→== (length src % 8) 0 words) (
          ap (λ f. deflate_loop f (fresh src 4096)) fuel
          ∙ next_round _ _ s1 (omega arith) e1
          ∙ next_round _ _ s2 (omega (arith, a1)) e2
          ∙ next_round _ _ s3 (omega (arith, a2)) e3
          ∙ next_round _ _ s4 (omega (arith, a3)) e4
          ∙ full_round (length src - 4) s4 (omega (arith, a4)) a4.room_is),
      a4.room_is,
      omega (arith, a4),
    )
  where
    fuel : length src + 1 ≡ suc (suc (suc (suc (suc (length src - 4)))))
    fuel = omega arith

module _ {W : Type 0} (emit_chunk : List ℕ → W → Option W) where
  -- A round that meets a part of a word fails.
  refused :
      (fuel : ℕ) (z : Stream) (written : ℕ) (w : W)
      → length z.input % 8 ≢ 0
      → emit_loop emit_chunk (suc fuel) 4096 z written w ≡ failed
  unfolding emit_loop after_deflate
  refused fuel z written w h = rw (
    ne→== (length z.input) 0 (λ e. h (omega arith)),
    deflate_misaligned (record z { output = []; avail_out = 4096 }) h,
  )

  -- So does a round whose first chunk leaves a part of a word, if there is another one.
  refused_next :
      (fuel : ℕ) (z t : Stream) (written : ℕ) (w : W)
      → length z.input ≢ 0
      → deflate (record z { output = []; avail_out = 4096 }) ≡ some (need_more, t)
      → length t.input % 8 ≢ 0
      → emit_loop emit_chunk (suc (suc fuel)) 4096 z written w ≡ failed
  unfolding emit_loop after_deflate send_chunk
  refused_next fuel z t written w h e m = elim (Bool-cases (4096 - t.avail_out == 0)) [
    | inl full ↦ rw (ne→== (length z.input) 0 h, e, full)
    | inr more ↦ elim (Option-cases (emit_chunk t.output w)) [
      | inl err ↦ rw (ne→== (length z.input) 0 h, e, more, err)
      | inr (w', ok) ↦
          rw (ne→== (length z.input) 0 h, e, more, ok)
            (refused fuel t (written + (4096 - t.avail_out)) w' m)
    ]
  ]

-- On every segment of at least 4096 bytes, whole words and below 4 GiB, that holds no zero byte,
-- `packed_emit_seg` with a buffer of 4096 bytes returns -1, whatever the callback does.
pub packed_emit_seg-failed :
    {W : Type 0} (emit_chunk : List ℕ → W → Option W) (src : List ℕ) (written : ℕ) (w : W)
    → NonZero src
    → length src % 8 ≡ 0
    → 4096 ≤ length src
    → length src < 2 ^ 32
    → packed_emit_seg emit_chunk 4096 src written w ≡ failed
unfolding packed_emit_seg
packed_emit_seg-failed emit_chunk src written w dense words long small =
    let (t, e, _, left) = first_chunk src dense words long small in
    ap (λ f. emit_loop emit_chunk f 4096 (fresh src 4096) written w) {x = length src + 1}
      {y = suc (suc (length src - 1))} (omega arith)
    ∙ refused_next emit_chunk (length src - 1) (fresh src 4096) t written w (omega arith) e
        (omega arith)
