-- ===== src/Framing/Feed.antt =====
-- `read_fp` of lib/capn-malloc.c on a message in memory: plain and packed input give the same bytes.
use c_capnproto.Common.{
  ℕ, ◌^◌, ◌≤◌, ◌<◌, ◌≡◌, ap, Bool, true, false, some, List, [], length, take, drop, arith, le→ltb,
}
use c_capnproto.Stream.State.{Stream}
use c_capnproto.Stream.Inflate.Rounds.{Pending}
use c_capnproto.Stream.Inflate.Run.{inflate_lem}
use c_capnproto.Framing.{read_mem, inflated}

-- The bytes that a stream gives.
abbrev pub Feeds : Bool → Stream → List ℕ → Type 0
Feeds true z u = Pending z u
Feeds false z u = z.input ≡ u

-- A stream that gives at least `n` bytes is read: the first `n` come out, and it gives the others.
pub read_mem-Feeds :
    (packed : Bool) (n : ℕ) (z : Stream) (u : List ℕ)
    → Feeds packed z u
    → n ≤ length u
    → n < 2 ^ 32
    → (z' : Stream) × (read_mem packed n z ≡ some (take n u, z')) × Feeds packed z' (drop n u)
unfolding read_mem inflated
read_mem-Feeds false n z u f h small = (
  record z { input = drop n z.input },
  rw (le→ltb (length z.input) n (omega (arith, ap (λ xs. length xs) f)))
      (ap (λ x. some (take n x, record z { input = drop n z.input })) f),
  ap (drop n) f,
)
read_mem-Feeds true n z u f h small =
    let z₀ : Stream = record z { output = []; avail_out = n } in
    let (t, runs, out, room, rest) =
      inflate_lem z₀ u
        (record {
          rest = f.rest;
          parts = f.parts;
          packed = f.packed;
          small_in = f.small_in;
          small_out = small;
          zeros_lt = f.zeros_lt;
          raw_lt = f.raw_lt;
        })
        h in
    (t, rw (runs, room) (ap (λ o. some (o, t)) out), rest)
