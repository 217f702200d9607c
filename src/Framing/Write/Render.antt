-- ===== src/Framing/Write/Render.antt =====
-- What `header_render` of lib/capn-malloc.c stores, whatever the buffer held.
use c_capnproto.Common.{
  ℕ, zero, suc, ◌+◌, ◌-◌, ◌*◌, ◌/◌, ◌%◌, ◌^◌, ◌≤◌, ◌≡◌, refl, sym, ap, ap₂, ◌∙◌, some, List, [],
  ◌∷◌, ◌++◌, map, append_assoc, append-nil, length, arith, length-append, inl, inr, Bool-cases,
  ==→eq, ==→ne, if◌then◌else◌, ◌==◌,
}
use c_capnproto.Session.{Segment}
use c_capnproto.Framing.Write.{set_elem, render_sizes, header_render}

set_elem-append :
    (pre : List ℕ) (v x : ℕ) (post : List ℕ)
    → set_elem (length pre) v (pre ++ (x ∷ post)) ≡ pre ++ (v ∷ post)
unfolding set_elem
set_elem-append [] v x post = refl
set_elem-append (p ∷ pre) v x post = ap (λ t. p ∷ t) (set_elem-append pre v x post)

unfoldable pub total_len : List Segment → ℕ
total_len [] = 0
total_len (s ∷ ss) = s.len + total_len ss

abbrev pub size_words : List Segment → List ℕ
size_words ss = map (λ s. s.len / 8 % 2 ^ 32) ss

-- The sizes take the place of as many words behind those that are there.
render_sizes-append :
    (ss : List Segment) (first : ℕ) (pre mid post : List ℕ) (datasz : ℕ)
    → length mid ≡ length ss
    → render_sizes (length ss) (length pre) ss ((first ∷ pre) ++ (mid ++ post)) datasz
      ≡ some ((first ∷ pre) ++ (size_words ss ++ post), datasz + total_len ss)
unfolding render_sizes total_len set_elem
render_sizes-append [] first pre [] post datasz h =
    ap (λ n. some ((first ∷ pre) ++ post, n)) (omega arith)
render_sizes-append [] first pre (x ∷ mid) post datasz h = absurd (omega arith)
render_sizes-append (s ∷ ss) first pre [] post datasz h = absurd (omega arith)
render_sizes-append (s ∷ ss) first pre (x ∷ mid) post datasz h =
    let v = s.len / 8 % 2 ^ 32 in
    ap₂ (λ i t. render_sizes (length ss) i ss t (datasz + s.len)) {x = suc (length pre)}
      {y = length (pre ++ (v ∷ []))} (omega (arith, length-append {0} pre (v ∷ [])))
      (ap (λ t. first ∷ t)
        (set_elem-append pre v x (mid ++ post) ∙ sym (append_assoc pre (v ∷ []) (mid ++ post))))
    ∙ render_sizes-append ss first (pre ++ (v ∷ [])) mid post (datasz + s.len) (omega arith)
    ∙ ap₂ (λ t n. some (first ∷ t, n)) (append_assoc pre (v ∷ []) (size_words ss ++ post))
        (omega arith)

-- The spare word at the end, where there is one.
abbrev pub spare : ℕ → List ℕ
spare segnum = if segnum % 2 == 0 then 0 ∷ [] else []

-- A list of a given length, cut in front of its last element.
last_cut :
    (n : ℕ) (xs : List ℕ)
    → length xs ≡ suc n
    → (ys : List ℕ) × (y : ℕ) × (xs ≡ ys ++ (y ∷ [])) × (length ys ≡ n)
last_cut n [] h = absurd (omega arith)
last_cut zero (x ∷ []) h = ([], x, refl, refl)
last_cut zero (x ∷ y ∷ xs) h = absurd (omega arith)
last_cut (suc n) (x ∷ xs) h =
    let (ys, y, e, l) = last_cut n xs (omega arith) in (x ∷ ys, y, ap (λ t. x ∷ t) e, ap suc l)

-- `header_render` stores the number of segments less one, their sizes in words, and 0 in the spare word,
-- and returns their total length, whatever the buffer held.
pub header_render_lem :
    (ss : List Segment) (old : List ℕ) (headerlen : ℕ)
    → headerlen ≡ (2 + length ss) / 2 * 2
    → length old ≡ headerlen
    → 1 ≤ length ss
    → header_render (length ss) ss old headerlen
      ≡ some ((length ss - 1) ∷ (size_words ss ++ spare (length ss)), total_len ss)
unfolding header_render set_elem
header_render_lem ss [] headerlen e l one = absurd (omega arith)
header_render_lem ss (x ∷ old) headerlen e l one =
    let (ys, y, cut, front) = last_cut (length old - 1) old (omega arith) in
    ap₂ (λ i t. render_sizes (length ss) 0 ss (set_elem i 0 ((length ss - 1) ∷ t)) 0)
      {x = headerlen - 1} {y = suc (length ys)} (omega arith) cut
    ∙ ap (λ t. render_sizes (length ss) 0 ss ((length ss - 1) ∷ t) 0) (set_elem-append ys 0 y [])
    ∙ by_parity ys (omega arith)
  where
    by_parity :
        (ys : List ℕ)
        → length ys + 2 ≡ (2 + length ss) / 2 * 2
        → render_sizes (length ss) 0 ss ((length ss - 1) ∷ (ys ++ (0 ∷ []))) 0
          ≡ some ((length ss - 1) ∷ (size_words ss ++ spare (length ss)), total_len ss)
    by_parity ys f = elim (Bool-cases (length ss % 2 == 0)) [
      | inl even ↦ rw even (
          render_sizes-append ss (length ss - 1) [] ys (0 ∷ []) 0 (omega (arith, ==→eq _ 0 even))
          ∙ ap (λ n. some ((length ss - 1) ∷ (size_words ss ++ (0 ∷ [])), n)) (omega arith))
      | inr odd ↦ rw odd (
          ap (λ t. render_sizes (length ss) 0 ss ((length ss - 1) ∷ t) 0)
            (sym (append-nil (ys ++ (0 ∷ []))))
          ∙ render_sizes-append ss (length ss - 1) [] (ys ++ (0 ∷ [])) [] 0
              (omega (arith, ==→ne _ 0 odd, length-append {0} ys (0 ∷ [])))
          ∙ ap (λ n. some ((length ss - 1) ∷ (size_words ss ++ []), n)) (omega arith))
    ]
