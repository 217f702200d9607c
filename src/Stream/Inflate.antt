-- ===== src/Stream/Inflate.antt =====
-- `capn_inflate` of lib/capn-stream.c.
pub mod Headers
pub mod Rounds
pub mod Run
use c_capnproto.Common.{
  ℕ, zero, suc, ◌+◌, ◌-◌, ◌*◌, ◌/◌, ◌%◌, Bool, true, false, Option, none, some, List, [], ◌∷◌, ◌++◌,
  ◌&&◌, ltb, leb, ◌==◌, if◌then◌else◌, length, take, drop, replicate, get_or,
}
use c_capnproto.Stream.State.{
  Stream, Status, success, need_more, Round, again, stop, umin, copy_raw, emit,
}

-- The loop over the bits of a header byte: byte `i` of the word comes from the input where bit `i`
-- is set, and is 0 elsewhere. `hdr` is shifted by one bit a round. The rest of the input comes
-- second.
unfoldable pub spread : ℕ → ℕ → List ℕ → List ℕ × List ℕ
spread zero hdr bytes = ([], bytes)
spread (suc n) hdr [] = let (w, rest) = spread n (hdr / 2) [] in (0 ∷ w, rest)
spread (suc n) hdr (b ∷ bytes) =
    let set = spread n (hdr / 2) bytes in
    let clear = spread n (hdr / 2) (b ∷ bytes) in
    if hdr % 2 == 1 then (b ∷ set.0, set.1) else (0 ∷ clear.0, clear.1)

-- How many of the low `n` bits of `hdr` are set.
unfoldable pub bit_count : ℕ → ℕ → ℕ
bit_count zero hdr = 0
bit_count (suc n) hdr = hdr % 2 + bit_count n (hdr / 2)

-- A word is waiting in `inflate_buf`, and fits the room that is left.
unfoldable pub flush_whole : Stream → Stream
flush_whole s = record (emit s.inflate_buf s) { inflate_buf = [] }

-- It does not fit: the first bytes go out, and the others move to the front.
unfoldable pub flush_part : Stream → Stream
flush_part s = record (emit (take s.avail_out s.inflate_buf) s) {
  inflate_buf = drop s.avail_out s.inflate_buf;
}

-- `switch (s->next_in[0])`.
unfoldable pub inflate_header : Stream → Round
inflate_header s =
    let hdr = get_or s.input 0 0 in
    if hdr == 0xFF
    then (if ltb (length s.input) 10
        then stop need_more s
        else again (record s {
          inflate_buf = take 8 (drop 1 s.input);
          raw = get_or s.input 9 0 * 8;
          input = drop 10 s.input;
        }))
    else if hdr == 0
    then again (record s { zeros = (get_or s.input 1 0 + 1) * 8; input = drop 2 s.input })
    else if ltb (length s.input) (1 + bit_count 8 hdr)
    then stop need_more s
    else let word = spread 8 hdr (drop 1 s.input) in
      again (record s { inflate_buf = word.0; input = word.1 })

-- `memset(next_out, 0, n)` with the updates that follow it.
unfoldable pub write_zeros : ℕ → Stream → Stream
write_zeros n s = record (emit (replicate n 0) s) { zeros = s.zeros - n }

-- What a round does once `inflate_buf` is empty.
unfoldable pub inflate_next : Stream → Round
inflate_next s =
    if ltb 0 s.zeros
    then again (write_zeros (umin s.avail_out s.zeros) s)
    else if ltb 0 s.raw
    then (if length s.input == 0
        then stop need_more s
        else again (copy_raw (umin (umin s.avail_out s.raw) (length s.input)) s))
    else if ltb (length s.input) 2
    then stop need_more s
    else inflate_header s

-- One round of `while (s->avail_out)`.
unfoldable pub inflate_round : Stream → Round
inflate_round s =
    if ltb 0 (length s.inflate_buf)
    then (if leb (length s.inflate_buf) s.avail_out
        then (let t = flush_whole s in if t.avail_out == 0 then stop success t else inflate_next t)
        else stop success (flush_part s))
    else inflate_next s

-- `none`: the loop has not ended within the fuel.
unfoldable pub inflate_loop : ℕ → Stream → Option (Status × Stream)
inflate_loop zero s = none
inflate_loop (suc fuel) s = elim (s.avail_out == 0) [
  | true ↦ some (success, s)
  | false ↦ elim (inflate_round s) [ again t ↦ inflate_loop fuel t | stop c t ↦ some (c, t) ]
]

-- Each round takes input or fills output, so that this many rounds are enough.
unfoldable pub inflate : Stream → Option (Status × Stream)
inflate s = inflate_loop (length s.input + s.avail_out + 1) s
