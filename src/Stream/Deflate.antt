-- ===== src/Stream/Deflate.antt =====
-- `capn_deflate` of lib/capn-stream.c.
pub mod Rounds
pub mod Run
use c_capnproto.Common.{
  ℕ, zero, suc, ◌+◌, ◌-◌, ◌*◌, ◌/◌, ◌%◌, true, false, Option, none, some, List, [], ◌∷◌, ◌++◌, ltb,
  ◌==◌, if◌then◌else◌, length, take, drop, min,
}
use c_capnproto.Stream.State.{
  Stream, Status, success, misaligned, need_more, Round, again, stop, umin, copy_raw, emit,
  nonzero_count, tag_of, nonzeros, words_while, is_zero_word, is_dense_word,
}

-- case 0: a run of `sz` zero words, 256 at most, becomes two bytes.
unfoldable pub deflate_zeros : Stream → Round
deflate_zeros s =
    if ltb s.avail_out 2
    then stop need_more s
    else let sz =
        1 + words_while is_zero_word (umin (length s.input / 8) 256 - 1) (drop 8 s.input) in
      again (record (emit (0 ∷ ((sz - 1) % 256) ∷ []) s) { input = drop (sz * 8) s.input })

-- case 8: the word itself, and the number of words that will follow it unchanged.
unfoldable pub deflate_dense : Stream → Round
deflate_dense s =
    if ltb s.avail_out 10
    then stop need_more s
    else let rest = drop 8 s.input in
      let raw = words_while is_dense_word (min (length rest / 8) 255) rest * 8 in
      again (record (emit (0xFF ∷ (take 8 s.input ++ ((raw / 8 % 256) ∷ []))) s) {
        input = rest;
        raw = raw;
      })

-- default: the header byte and the bytes that are not zero.
unfoldable pub deflate_tagged : Stream → Round
deflate_tagged s =
    let w = take 8 s.input in
    if ltb s.avail_out (1 + nonzero_count w)
    then stop need_more s
    else again (record (emit (tag_of w ∷ nonzeros w) s) { input = drop 8 s.input })

-- One round of `while (s->avail_in)`.
unfoldable pub deflate_round : Stream → Round
deflate_round s =
    if s.avail_out == 0
    then stop need_more s
    else if ltb 0 s.raw
    then again (copy_raw (umin s.raw (umin (length s.input) s.avail_out)) s)
    else if ltb (length s.input) 8
    then stop need_more s
    else let sz = nonzero_count (take 8 s.input) in
      if sz == 0 then deflate_zeros s else if sz == 8 then deflate_dense s else deflate_tagged s

-- `none`: the loop has not ended within the fuel.
unfoldable pub deflate_loop : ℕ → Stream → Option (Status × Stream)
deflate_loop zero s = none
deflate_loop (suc fuel) s = elim (length s.input == 0) [
  | true ↦ some (success, s)
  | false ↦ elim (deflate_round s) [ again t ↦ deflate_loop fuel t | stop c t ↦ some (c, t) ]
]

-- Each round takes a byte of input at least, so that `avail_in + 1` rounds are enough.
unfoldable pub deflate : Stream → Option (Status × Stream)
deflate s =
    if length s.input % 8 == 0 then deflate_loop (length s.input + 1) s else some (misaligned, s)
