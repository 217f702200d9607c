-- ===== src/Stream/Inflate/Headers.antt =====
-- What `capn_inflate` of lib/capn-stream.c makes of each kind of header byte.
use c_capnproto.Common.{
  ℕ, ◌+◌, ◌*◌, ◌<◌, ◌≡◌, refl, sym, ap, subst, ◌∙◌, Bool, List, [], ◌∷◌, ◌++◌, ◌==◌, ltb, length,
  drop, get_or, arith, length-append, append_assoc, take-append_front, drop-append_front, ne→==,
  le→ltb,
}
use c_capnproto.Stream.State.{Stream, again, nonzero_count, tag_of, nonzeros}
use c_capnproto.Stream.Words.{
  length-nonzeros, tag_of-zero, bit_count-tag_of, bit_count-full, spread-tag_of,
}
use c_capnproto.Stream.Inflate.{inflate_header, spread, bit_count}

get_or-append :
    (n : ℕ) (xs ys : List ℕ) (d : ℕ) → n ≡ length xs → get_or (xs ++ ys) n d ≡ get_or ys 0 d
get_or-append n xs ys d h = ap (λ k. get_or (xs ++ ys) k d) h ∙ behind xs
  where
    behind : (zs : List ℕ) → get_or (zs ++ ys) (length zs) d ≡ get_or ys 0 d
    behind [] = refl
    behind (z ∷ zs) = behind zs

module _ (s : Stream) where
  pub header_dense :
      (w : List ℕ) (n : ℕ) (ps : List ℕ)
      → s.input ≡ 0xFF ∷ (w ++ (n ∷ ps))
      → length w ≡ 8
      → inflate_header s ≡ again (record s { inflate_buf = w; raw = n * 8; input = ps })
  unfolding inflate_header
  header_dense w n ps e h =
      rw (
        e,
        long,
        take-append_front 8 w (n ∷ ps) (sym h),
        get_or-append 8 w (n ∷ ps) 0 (sym h),
        nine,
      )
    where
      long : ltb (length (0xFF ∷ (w ++ (n ∷ ps)))) 10 ≡ Bool.false
      long = le→ltb _ _ (omega (arith, length-append {0} w (n ∷ ps)))

      nine : drop 9 (w ++ (n ∷ ps)) ≡ ps
      nine =
          ap (drop 9) (sym (append_assoc w (n ∷ []) ps))
          ∙ drop-append_front 9 (w ++ (n ∷ [])) ps (omega (arith, length-append {0} w (n ∷ [])))

  pub header_zeros :
      (n : ℕ) (ps : List ℕ)
      → s.input ≡ 0 ∷ n ∷ ps
      → inflate_header s ≡ again (record s { zeros = (n + 1) * 8; input = ps })
  unfolding inflate_header
  header_zeros n ps e = rw e

  pub header_tagged :
      (w ps : List ℕ)
      → s.input ≡ tag_of w ∷ (nonzeros w ++ ps)
      → length w ≡ 8
      → 0 < nonzero_count w
      → nonzero_count w < 8
      → inflate_header s ≡ again (record s { inflate_buf = w; input = ps })
  unfolding inflate_header
  header_tagged w ps e h lo hi = rw (e, not_dense, not_zero, long, word)
    where
      bits : bit_count 8 (tag_of w) ≡ nonzero_count w
      bits = subst (λ k. bit_count k (tag_of w) ≡ nonzero_count w) h (bit_count-tag_of w)

      not_dense : (tag_of w == 0xFF) ≡ Bool.false
      not_dense = ne→== _ _ (λ f. omega (arith, bits, ap (bit_count 8) f, bit_count-full))

      not_zero : (tag_of w == 0) ≡ Bool.false
      not_zero = ne→== _ _ (λ f. omega (arith, tag_of-zero w f))

      long : ltb (length (tag_of w ∷ (nonzeros w ++ ps))) (1 + bit_count 8 (tag_of w)) ≡ Bool.false
      long = le→ltb _ _ (omega (arith, bits, length-append {0} (nonzeros w) ps, length-nonzeros w))

      word : spread 8 (tag_of w) (nonzeros w ++ ps) ≡ (w, ps)
      word = subst (λ k. spread k (tag_of w) (nonzeros w ++ ps) ≡ (w, ps)) h (spread-tag_of w ps)
