-- ===== src/Framing/Write/Sessions.antt =====
-- A valid session written to memory by lib/capn-malloc.c.
use c_capnproto.Common.{
  ℕ, zero, suc, ◌+◌, ◌-◌, ◌%◌, ◌^◌, ◌≤◌, ◌<◌, ◌≡◌, refl, sym, ap, ap₂, ◌∙◌, none, some, List, [],
  ◌∷◌, ◌++◌, map, length, replicate, arith, length-append, All, inl, inr, Bool-cases, eq→==, ne→==,
  le→ltb, ◌==◌, take-append_front,
}
use c_capnproto.Tree.Search.{range}
use c_capnproto.Session.{Segment, Session}
use c_capnproto.Session.Valid.{IsValid, lookup_segment_lem}
use c_capnproto.Framing.Frame.{word_bytes, size_list, contents, padding, frame}
use c_capnproto.Framing.Read.{length-header}
use c_capnproto.Framing.Write.{
  chain_from, root_chain, root_segments, header_len, header_size, header_render, words_bytes,
  copy_segments, write_mem, data_size, size,
}
use c_capnproto.Framing.Write.Render.{total_len, size_words, spare, header_render_lem}

-- A segment whose bytes are listed, of whole words and below 2 GiB.
pub record IsFull (s : Segment) : Type 0 where
  pub listed : length s.bytes ≡ s.len
  pub words : s.len % 8 ≡ 0
  pub small : s.len < 2 ^ 31

abbrev pub segment_bytes : List Segment → List (List ℕ)
segment_bytes ss = map (λ s. s.bytes) ss

pub length-segment_bytes : (ss : List Segment) → length (segment_bytes ss) ≡ length ss
length-segment_bytes [] = refl
length-segment_bytes (s ∷ ss) = ap suc (length-segment_bytes ss)

words_bytes-append : (xs ys : List ℕ) → words_bytes (xs ++ ys) ≡ words_bytes xs ++ words_bytes ys
unfolding words_bytes
words_bytes-append [] ys = refl
words_bytes-append (x ∷ xs) ys = ap (λ t. word_bytes x ++ t) (words_bytes-append xs ys)

words_bytes-size_words :
    (ss : List Segment) → All IsFull ss → words_bytes (size_words ss) ≡ size_list (segment_bytes ss)
unfolding words_bytes size_list
words_bytes-size_words [] v = refl
words_bytes-size_words (s ∷ ss) (f, v) =
    ap₂ (λ n t. word_bytes n ++ t) (omega (arith, f.listed, f.small)) (words_bytes-size_words ss v)

copy_segments-contents :
    (ss : List Segment) → All IsFull ss → copy_segments ss ≡ contents (segment_bytes ss)
unfolding copy_segments contents
copy_segments-contents [] v = refl
copy_segments-contents (s ∷ ss) (f, v) =
    ap₂ ◌++◌ (take-append_front s.len s.bytes (replicate s.len 0) (sym f.listed))
      (copy_segments-contents ss v)

total_len-contents :
    (ss : List Segment) → All IsFull ss → total_len ss ≡ length (contents (segment_bytes ss))
unfolding total_len contents
total_len-contents [] v = refl
total_len-contents (s ∷ ss) (f, v) = omega (
  arith,
  f.listed,
  total_len-contents ss v,
  length-append {0} s.bytes (contents (segment_bytes ss)),
)

spare-padding : (n : ℕ) → words_bytes (spare n) ≡ padding n
unfolding words_bytes
spare-padding n = elim (Bool-cases (n % 2 == 0)) [ inl e ↦ rw e refl | inr e ↦ rw e refl ]

-- The header and the segments make the frame.
stored-frame :
    (ss : List Segment)
    → All IsFull ss
    → words_bytes ((length ss - 1) ∷ (size_words ss ++ spare (length ss))) ++ copy_segments ss
      ≡ frame (segment_bytes ss)
unfolding words_bytes
stored-frame ss v =
    ap₂ (λ x y. (word_bytes (length ss - 1) ++ x) ++ y)
      (words_bytes-append (size_words ss) (spare (length ss))
        ∙ ap₂ ◌++◌ (words_bytes-size_words ss v) (spare-padding (length ss)))
      (copy_segments-contents ss v)
    ∙ ap
        (λ n.
          word_bytes (n - 1)
          ++ ((size_list (segment_bytes ss) ++ padding n) ++ contents (segment_bytes ss)))
        (sym (length-segment_bytes ss))

length-range : (lo n : ℕ) → length (range lo n) ≡ n
length-range lo zero = refl
length-range lo (suc n) = ap suc (length-range (suc lo) n)

length-map_id : (ss : List Segment) → length (map (λ s. s.id) ss) ≡ length ss
length-map_id [] = refl
length-map_id (s ∷ ss) = ap suc (length-map_id ss)

data_size_lem :
    (ss : List Segment) (datasz : ℕ)
    → data_size (length ss) ss datasz ≡ some (datasz + total_len ss)
unfolding data_size total_len
data_size_lem [] datasz = ap some (omega arith)
data_size_lem (s ∷ ss) datasz = data_size_lem ss (datasz + s.len) ∙ ap some (omega arith)

-- The first segment can hold the root pointer.
abbrev pub RootFits : List Segment → Type 0
RootFits [] = ⊥
RootFits (s ∷ ss) = (8 ≤ s.capacity) × (8 ≤ s.len)

pub segnum-length : (c : Session) → IsValid c → length c.seglist ≡ c.segnum
segnum-length c v =
    sym (length-map_id c.seglist) ∙ ap (λ xs. length xs) v.list_ids ∙ length-range 0 c.segnum

chain_from-first :
    (ss : List Segment) (n : ℕ) → map (λ s. s.id) ss ≡ range 0 n → chain_from 0 ss ≡ ss
unfolding chain_from
chain_from-first [] n e = refl
chain_from-first (s ∷ ss) zero e = cc
chain_from-first (s ∷ ss) (suc n) e = rw (eq→== s.id 0 (head_eq e))
  where
    head_eq : (s.id ∷ map (λ x. x.id) ss) ≡ 0 ∷ range 1 n → s.id ≡ 0
    head_eq f = cc

root_chain-same : (ss : List Segment) → RootFits ss → root_chain ss ≡ some ss
unfolding root_chain
root_chain-same [] r = absurd r
root_chain-same (s ∷ ss) (room, long) = rw (le→ltb s.capacity 8 room, le→ltb s.len 8 long)

root_segments-seglist :
    (c : Session) → IsValid c → RootFits c.seglist → 0 < c.segnum → root_segments c ≡ some c.seglist
unfolding root_segments
root_segments-seglist c v r h =
    rw
      (
        ((lookup_segment_lem c none 0 v (λ own e. cc)).0 h),
        chain_from-first c.seglist c.segnum v.list_ids,
      )
      (root_chain-same c.seglist r)

-- A valid session of 1 to 2^30 - 3 segments of whole words, whose first holds a root pointer, is written
-- as the frame of its segments, whatever the buffer held, if the buffer has as many bytes as `capn_size`
-- says; that is the number of bytes that are stored.
pub write_mem-frame :
    (c : Session) (old : List ℕ) (sz : ℕ)
    → IsValid c
    → RootFits c.seglist
    → All IsFull c.seglist
    → 1 ≤ c.segnum
    → c.segnum + 2 < 2 ^ 30
    → length old ≡ header_len c.segnum
    → length (frame (segment_bytes c.seglist)) ≤ sz
    → (write_mem c old sz ≡ some (frame (segment_bytes c.seglist)))
      × (size c ≡ some (length (frame (segment_bytes c.seglist))))
unfolding write_mem size
write_mem-frame c old sz v r full one many room enough =
    let n = segnum-length c v in
    let segs = segment_bytes c.seglist in
    let root = root_segments-seglist c v r (omega arith) in
    let render : header_render c.segnum c.seglist old (header_len c.segnum)
        ≡ some (
          (length c.seglist - 1) ∷ (size_words c.seglist ++ spare (length c.seglist)),
          total_len c.seglist,
        ) =
      ap (λ k. header_render k c.seglist old (header_len c.segnum)) (sym n)
      ∙ header_render_lem c.seglist old (header_len c.segnum) (omega (arith, n)) room
          (omega (arith, n)) in
    let total : header_size c.segnum + total_len c.seglist ≡ length (frame segs) = omega (
      arith,
      length-append {0} (size_list segs ++ padding (length segs)) (contents segs),
      length-header segs,
      length-segment_bytes c.seglist,
      n,
      total_len-contents c.seglist full,
    ) in
    let all_data : data_size c.segnum c.seglist 0 ≡ some (total_len c.seglist) =
      ap (λ k. data_size k c.seglist 0) (sym n)
      ∙ data_size_lem c.seglist 0
      ∙ ap some (omega arith) in
    (
      rw
          (
            ne→== c.segnum 0 (omega arith),
            le→ltb sz (header_size c.segnum) (omega (arith, total)),
            root,
            render,
            le→ltb sz (header_size c.segnum + total_len c.seglist) (omega (arith, total)),
          )
          (ap some (stored-frame c.seglist full)),
      rw (ne→== c.segnum 0 (omega arith), root, all_data) (ap some (omega (arith, total))),
    )
