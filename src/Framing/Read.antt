-- ===== src/Framing/Read.antt =====
-- `capn_init_mem` of lib/capn-malloc.c on a framed message.
use c_capnproto.Common.{
  ℕ, ◌+◌, ◌*◌, ◌/◌, ◌%◌, ◌≡◌, refl, List, [], ◌∷◌, ◌++◌, length, replicate, arith, ◌==◌, inl, inr,
  Bool-cases, ==→eq, ==→ne, length-append,
}
use c_capnproto.Stream.State.{Stream}
use c_capnproto.Session.{Session}
use c_capnproto.Framing.Frame.{size_list, padding}

length-size_list : (segs : List (List ℕ)) → length (size_list segs) ≡ 4 * length segs
unfolding size_list
length-size_list [] = refl
length-size_list (s ∷ segs) = omega (arith, length-size_list segs)

-- The header list with its padding has the length that the reader takes.
pub length-header :
    (segs : List (List ℕ))
    → length (size_list segs ++ padding (length segs)) ≡ 8 * (length segs / 2) + 4
length-header segs = elim (Bool-cases (length segs % 2 == 0)) [
  | inl e ↦ rw e (
      omega (
        arith,
        length-append {0} (size_list segs) (replicate 4 0),
        length-size_list segs,
        ==→eq _ 0 e,
      ))
  | inr e ↦
      rw e
        (omega (arith, length-append {0} (size_list segs) [], length-size_list segs, ==→ne _ 0 e))
]
