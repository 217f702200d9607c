-- ===== src/Stream/Words.antt =====
-- Facts about the words that the packed encoding of lib/capn-stream.c works on.
use c_capnproto.Common.{
  ℕ, zero, suc, ◌+◌, ◌*◌, ◌/◌, ◌%◌, ◌≤◌, ◌<◌, ◌^◌, min, ◌≡◌, refl, ap, ap₂, ◌∙◌, Bool, true, List,
  [], ◌∷◌, ◌++◌, inl, inr, ◌==◌, length, take, drop, replicate, arith, Bool-cases, length-take,
  length-drop, take-drop-split, replicate-append, ==→eq,
}
use c_capnproto.Stream.State.{nonzero_count, tag_of, nonzeros, words_while, is_zero_word, umin}
use c_capnproto.Stream.Inflate.{spread, bit_count}

pub nonzero_count-le : (w : List ℕ) → nonzero_count w ≤ length w
unfolding nonzero_count
nonzero_count-le [] = omega arith
nonzero_count-le (b ∷ bs) = ground (arith, nonzero_count-le bs)

pub length-nonzeros : (w : List ℕ) → length (nonzeros w) ≡ nonzero_count w
unfolding nonzeros nonzero_count
length-nonzeros [] = refl
length-nonzeros (b ∷ bs) = elim (Bool-cases (b == 0)) [
  | inl e ↦ rw e (length-nonzeros bs)
  | inr e ↦ rw e (ap suc (length-nonzeros bs))
]

pub zero_word : (w : List ℕ) → nonzero_count w ≡ 0 → w ≡ replicate (length w) 0
unfolding nonzero_count
zero_word [] h = refl
zero_word (b ∷ bs) h = elim (Bool-cases (b == 0)) [
  | inl e ↦ ap₂ ◌∷◌ (==→eq b 0 e) (zero_word bs (rw e at h))
  | inr e ↦ absurd (ground arith)
]

-- A header byte that is neither 0 nor 255 is what a word of between one and seven bytes that are not
-- zero has.
pub tag_of-zero : (w : List ℕ) → tag_of w ≡ 0 → nonzero_count w ≡ 0
unfolding tag_of nonzero_count
tag_of-zero [] h = refl
tag_of-zero (b ∷ bs) h = ground (arith, tag_of-zero bs)

-- The header of a word, and the number of its bits, are read back.
pub bit_count-tag_of : (w : List ℕ) → bit_count (length w) (tag_of w) ≡ nonzero_count w
unfolding bit_count tag_of nonzero_count
bit_count-tag_of [] = refl
bit_count-tag_of (b ∷ bs) = elim (Bool-cases (b == 0)) [
  | inl e ↦ rw e (omega (arith, even, bit_count-tag_of bs))
  | inr e ↦ rw e (omega (arith, odd, bit_count-tag_of bs))
]
  where
    even : bit_count (length bs) (2 * tag_of bs / 2) ≡ bit_count (length bs) (tag_of bs)
    even = ap (bit_count (length bs)) (omega arith)

    odd : bit_count (length bs) ((1 + 2 * tag_of bs) / 2) ≡ bit_count (length bs) (tag_of bs)
    odd = ap (bit_count (length bs)) (omega arith)

pub bit_count-full : (bit_count 8 0xFF ≡ 8)
unfolding bit_count
bit_count-full = refl

spread_clear :
    (n hdr : ℕ) (bytes : List ℕ) (w rest : List ℕ)
    → hdr % 2 ≡ 0
    → spread n (hdr / 2) bytes ≡ (w, rest)
    → spread (suc n) hdr bytes ≡ (0 ∷ w, rest)
unfolding spread
spread_clear n hdr [] w rest h e = rw e
spread_clear n hdr (b ∷ bytes) w rest h e = rw (h, e)

spread_set :
    (n hdr b : ℕ) (bytes : List ℕ) (w rest : List ℕ)
    → hdr % 2 ≡ 1
    → spread n (hdr / 2) bytes ≡ (w, rest)
    → spread (suc n) hdr (b ∷ bytes) ≡ (b ∷ w, rest)
unfolding spread
spread_set n hdr b bytes w rest h e = rw (h, e)

halve_even : (t : ℕ) → 2 * t / 2 ≡ t
halve_even t = omega arith

halve_odd : (t : ℕ) → (1 + 2 * t) / 2 ≡ t
halve_odd t = omega arith

pub spread-tag_of :
    (w rest : List ℕ) → spread (length w) (tag_of w) (nonzeros w ++ rest) ≡ (w, rest)
unfolding tag_of nonzeros
spread-tag_of [] rest = unfold spread in refl
spread-tag_of (b ∷ bs) rest = elim (Bool-cases (b == 0)) [
  | inl e ↦
      rw (e, ==→eq b 0 e)
        (spread_clear (length bs) (2 * tag_of bs) (nonzeros bs ++ rest) bs rest (omega arith)
          (rw (halve_even (tag_of bs)) (spread-tag_of bs rest)))
  | inr e ↦ rw e (
      spread_set (length bs) (1 + 2 * tag_of bs) b (nonzeros bs ++ rest) bs rest (omega arith)
        (rw (halve_odd (tag_of bs)) (spread-tag_of bs rest)))
]

-- A run of words that pass the test is no longer than the limit.
pub words_while-le : (test : List ℕ → Bool) (k : ℕ) (bytes : List ℕ) → words_while test k bytes ≤ k
unfolding words_while
words_while-le test zero bytes = omega arith
words_while-le test (suc k) bytes = ground (arith, words_while-le test k (drop 8 bytes))

zero_run_step :
    (k : ℕ) (bytes : List ℕ)
    → is_zero_word (take 8 bytes) ≡ true
    → words_while is_zero_word (suc k) bytes ≡ suc (words_while is_zero_word k (drop 8 bytes))
unfolding words_while
zero_run_step k bytes e = rw e

eight_more : (m : ℕ) → suc m * 8 ≡ 8 + m * 8
eight_more m = omega arith

-- A run of zero words is a run of zero bytes.
pub zero_run :
    (k : ℕ) (bytes : List ℕ)
    → k * 8 ≤ length bytes
    → take (words_while is_zero_word k bytes * 8) bytes
      ≡ replicate (words_while is_zero_word k bytes * 8) 0
zero_run zero bytes h = unfold words_while in refl
zero_run (suc k) bytes h = elim (Bool-cases (is_zero_word (take 8 bytes))) [
  | inl e ↦
      let m = words_while is_zero_word k (drop 8 bytes) in
      rw (zero_run_step k bytes e, eight_more m)
        (take-drop-split 8 (m * 8) bytes
          ∙ ap₂ ◌++◌ (zero_word (take 8 bytes) (==→eq _ 0 e) ∙ ap (λ n. replicate n 0) first)
              (zero_run k (drop 8 bytes) (omega (arith, length-drop {0} 8 bytes)))
          ∙ replicate-append 8 (m * 8) 0)
  | inr e ↦ unfold words_while in rw e refl
]
  where
    first : length (take 8 bytes) ≡ 8
    first = omega (arith, length-take {0} 8 bytes)

pub umin_small : (a b : ℕ) → a < 2 ^ 32 → b < 2 ^ 32 → umin a b ≡ min a b
unfolding umin
umin_small a b h k = ground arith
