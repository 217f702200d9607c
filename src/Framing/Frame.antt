-- ===== src/Framing/Frame.antt =====
-- The framing format that the comment in `init_fp` of lib/capn-malloc.c describes, and its parts as the
-- reader takes them apart.
use c_capnproto.Common.{
  ℕ, suc, ◌+◌, ◌-◌, ◌*◌, ◌/◌, ◌%◌, ◌^◌, ◌≤◌, ◌<◌, ◌≡◌, refl, sym, ap, ap₂, ◌∙◌, some, List, [], ◌∷◌,
  ◌++◌, map, map-append, append_assoc, append-nil, length, take, drop, replicate, All, arith,
  le→ltb, ◌==◌, if◌then◌else◌, length-append, take-append_front, drop-append_front,
}
use c_capnproto.Session.{Segment, Session}
use c_capnproto.Session.Valid.{IsValid, append_segment-IsValid}
use c_capnproto.Decode.Pointers.{little_endian}
use c_capnproto.Framing.{header_word, segment_sizes, add_segments}

-- Four bytes, the lowest first.
abbrev pub word_bytes : ℕ → List ℕ
word_bytes v = v % 256 ∷ v / 256 % 256 ∷ v / 65536 % 256 ∷ v / 16777216 % 256 ∷ []

unfoldable pub size_list : List (List ℕ) → List ℕ
size_list [] = []
size_list (s ∷ segs) = word_bytes (length s / 8) ++ size_list segs

unfoldable pub contents : List (List ℕ) → List ℕ
contents [] = []
contents (s ∷ segs) = s ++ contents segs

abbrev pub padding : ℕ → List ℕ
padding segnum = if segnum % 2 == 0 then replicate 4 0 else []

-- The number of segments less one, their sizes in words, padding to a whole word, and the segments.
abbrev pub frame : List (List ℕ) → List ℕ
frame segs =
    word_bytes (length segs - 1) ++ ((size_list segs ++ padding (length segs)) ++ contents segs)

-- Segments of whole words, each below 2 GiB.
abbrev pub Segments : List (List ℕ) → Type 0
Segments segs = All (λ s. (length s % 8 ≡ 0) × (length s < 2 ^ 31)) segs

pub header_word-word_bytes :
    (v : ℕ) (rest : List ℕ) → v < 2 ^ 32 → header_word (word_bytes v ++ rest) ≡ v
unfolding little_endian
header_word-word_bytes v rest h = omega arith

-- One round of the loop over the header list.
segment_sizes-suc :
    (segnum n total : ℕ) (hdr : List ℕ) (sizes : List ℕ) (sum : ℕ)
    → header_word hdr ≡ n
    → n ≤ (2 ^ 31 - 1) / 8
    → total + n * 8 < 2 ^ 32
    → segment_sizes segnum (drop 4 hdr) (total + n * 8) ≡ some (sizes, sum)
    → segment_sizes (suc segnum) hdr total ≡ some (n * 8 ∷ sizes, sum)
unfolding segment_sizes
segment_sizes-suc segnum n total hdr sizes sum e small fits rest = rw (
  e,
  le→ltb ((2 ^ 31 - 1) / 8) n small,
  le→ltb ((2 ^ 32 - 1) / 8) n (omega arith),
  le→ltb (2 ^ 32 - 1 - total) (n * 8) (omega arith),
  rest,
)

pub segment_sizes-size_list :
    (segs : List (List ℕ)) (rest : List ℕ) (total : ℕ)
    → Segments segs
    → total + length (contents segs) < 2 ^ 32
    → segment_sizes (length segs) (size_list segs ++ rest) total
      ≡ some (map (λ s. length s) segs, total + length (contents segs))
unfolding segment_sizes size_list contents
segment_sizes-size_list [] rest total v h = ap (λ n. some ([], n)) (omega arith)
segment_sizes-size_list (s ∷ segs) rest total ((words, small), v) h =
    let size : length (contents (s ∷ segs)) ≡ length s + length (contents segs) =
      length-append {0} s (contents segs) in
    let n : length s / 8 * 8 ≡ length s = omega (arith, words) in
    segment_sizes-suc (length segs) (length s / 8) total (size_list (s ∷ segs) ++ rest)
      (map (λ s. length s) segs) (total + length s / 8 * 8 + length (contents segs))
      (header_word-word_bytes (length s / 8) (size_list segs ++ rest) (omega arith)) (omega arith)
      (omega (arith, size))
      (segment_sizes-size_list segs rest (total + length s / 8 * 8) v (omega (arith, size)))
    ∙ ap₂ (λ x y. some (x ∷ map (λ s. length s) segs, y)) n (omega (arith, size))

pub add_segments-IsValid :
    (segs : List (List ℕ)) (c : Session) (at : ℕ)
    → IsValid c
    → c.segnum + length segs < 2 ^ 32
    → (c' : Session) × (add_segments c at (contents segs) (map (λ s. length s) segs) ≡ some c')
      × IsValid c'
      × (map (λ s. s.bytes) c'.seglist ≡ map (λ s. s.bytes) c.seglist ++ segs)
unfolding add_segments contents
add_segments-IsValid [] c at v h = (c, refl, v, sym (append-nil (map (λ s. s.bytes) c.seglist)))
add_segments-IsValid (s ∷ segs) c at v h =
    let front : Segment = record {
      id = 0;
      data_addr = at;
      len = length s;
      capacity = length s;
      bytes = take (length s) (s ++ contents segs);
    } in
    let (c₁, ok, v₁, next, added) = append_segment-IsValid c front v (omega arith) in
    let (c₂, rest, v₂, stored) =
      add_segments-IsValid segs c₁ (at + length s) v₁ (omega (arith, next)) in
    (
      c₂,
      rw (ok, drop-append_front (length s) s (contents segs) refl) rest,
      v₂,
      stored
          ∙ ap (λ xs. map (λ x. x.bytes) xs ++ segs) added
          ∙ ap (λ xs. xs ++ segs)
              (map-append (λ x. x.bytes) c.seglist (record front { id = c.segnum } ∷ []))
          ∙ append_assoc (map (λ x. x.bytes) c.seglist) (take (length s) (s ++ contents segs) ∷ [])
              segs
          ∙ ap (λ x. map (λ x. x.bytes) c.seglist ++ (x ∷ segs))
              (take-append_front (length s) s (contents segs) refl),
    )
