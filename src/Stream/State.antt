-- ===== src/Stream/State.antt =====
-- `struct capn_stream` of lib/capnp_priv.h, and the helpers that both directions share.
-- A buffer and its length are one list: `input` is `next_in[0 .. avail_in)`, `inflate_buf` is its
-- first `avail_buf` bytes, and `output` is what has been stored below `next_out` so far.
use c_capnproto.Common.{
  ℕ, zero, suc, ◌+◌, ◌-◌, ◌*◌, ◌%◌, ◌^◌, Bool, List, [], ◌∷◌, ◌++◌, ltb, ◌==◌, if◌then◌else◌,
  length, take, drop,
}

pub record Stream : Type 0 where
  pub input : List ℕ
  pub output : List ℕ
  pub avail_out : ℕ
  pub zeros : ℕ
  pub raw : ℕ
  pub inflate_buf : List ℕ

-- `memset(&z, 0, sizeof(z))`, then the two buffers.
abbrev pub fresh : List ℕ → ℕ → Stream
fresh input room = record {
  input = input;
  output = [];
  avail_out = room;
  zeros = 0;
  raw = 0;
  inflate_buf = [];
}

-- 0, CAPN_MISALIGNED and CAPN_NEED_MORE.
pub data Status : Type 0 where
  success misaligned need_more : Status

-- What one round of a loop does: `continue`, or `return` with a status.
pub data Round : Type 0 where
  again : Stream → Round
  stop : Status → Stream → Round

-- `min(unsigned a, unsigned b)`: a `size_t` argument is cut to 32 bits.
unfoldable pub umin : ℕ → ℕ → ℕ
umin a b = let a' = a % 2 ^ 32 in let b' = b % 2 ^ 32 in if ltb a' b' then a' else b'

-- `memcpy(next_out, next_in, n)` with the four updates that follow it.
unfoldable pub copy_in : ℕ → Stream → Stream
copy_in n s = record s {
  input = drop n s.input;
  output = s.output ++ take n s.input;
  avail_out = s.avail_out - n;
}

-- `raw` bytes go through unchanged.
unfoldable pub copy_raw : ℕ → Stream → Stream
copy_raw n s = record (copy_in n s) { raw = s.raw - n }

-- Bytes at `next_out`, with `next_out` and `avail_out` moved behind them.
unfoldable pub emit : List ℕ → Stream → Stream
emit bytes s = record s { output = s.output ++ bytes; avail_out = s.avail_out - length bytes }

-- How many bytes of a word are not zero.
unfoldable pub nonzero_count : List ℕ → ℕ
nonzero_count [] = 0
nonzero_count (b ∷ bs) = if b == 0 then nonzero_count bs else suc (nonzero_count bs)

-- The header byte: bit `i` is set where byte `i` is not zero.
unfoldable pub tag_of : List ℕ → ℕ
tag_of [] = 0
tag_of (b ∷ bs) = if b == 0 then 2 * tag_of bs else 1 + 2 * tag_of bs

-- The bytes that follow the header byte.
unfoldable pub nonzeros : List ℕ → List ℕ
nonzeros [] = []
nonzeros (b ∷ bs) = if b == 0 then nonzeros bs else b ∷ nonzeros bs

-- How many of the first `k` words of the input pass a test before one fails.
unfoldable pub words_while : (List ℕ → Bool) → ℕ → List ℕ → ℕ
words_while test zero bytes = 0
words_while test (suc k) bytes =
    let rest = words_while test k (drop 8 bytes) in if test (take 8 bytes) then suc rest else 0

-- `word != 0` fails, and `zeros < 2`.
abbrev pub is_zero_word : List ℕ → Bool
is_zero_word w = nonzero_count w == 0

abbrev pub is_dense_word : List ℕ → Bool
is_dense_word w = ltb (length w - nonzero_count w) 2
