-- ===== src/Stream/Inflate/Rounds.antt =====
-- One round of `capn_inflate` of lib/capn-stream.c.
use c_capnproto.Common.{
  ℕ, suc, ◌+◌, ◌-◌, ◌*◌, ◌^◌, ◌≤◌, ◌<◌, ◌≡◌, ◌≢◌, refl, sym, ap, subst, ◌∙◌, List, [], ◌∷◌, ◌++◌,
  inl, inr, ltb, if◌then◌else◌, length, take, drop, replicate, arith, Bool-cases, length-append,
  length-take, length-drop, length-replicate, take-append-drop, append_assoc, append-nil,
  replicate-append, ltb→lt, ltb→le, ne→==, le→ltb,
}
use c_capnproto.Stream.State.{
  Stream, success, need_more, Round, again, stop, umin, copy_raw, copy_in, emit, nonzeros,
}
use c_capnproto.Stream.Words.{length-nonzeros}
use c_capnproto.Stream.Packed.{
  Packed, nothing, unchanged, zero_words, dense_word, tagged_word, Packed-skip,
}
use c_capnproto.Stream.Inflate.{inflate_header, inflate_next, write_zeros}
use c_capnproto.Stream.Inflate.Headers.{header_dense, header_zeros, header_tagged}

-- What is still to come out of a stream: the bytes of a word that did not fit, zeros, and what the
-- input encodes.
pub record Pending (s : Stream) (u : List ℕ) : Type 0 where
  pub rest : List ℕ
  pub parts : u ≡ s.inflate_buf ++ (replicate s.zeros 0 ++ rest)
  pub packed : Packed s.raw rest s.input
  pub small_in : length s.input < 2 ^ 32
  pub small_out : s.avail_out < 2 ^ 32
  pub zeros_lt : s.zeros < 2 ^ 32
  pub raw_lt : s.raw < 2 ^ 32

-- Between two states `bytes` came out, and `u'` is still to come of `u`.
pub record Got (s t : Stream) (u u' : List ℕ) : Type 0 where
  pub bytes : List ℕ
  pub split : u ≡ bytes ++ u'
  pub stored : t.output ≡ s.output ++ bytes
  pub room : t.avail_out + length bytes ≡ s.avail_out

pub data RoundLem (s : Stream) (u : List ℕ) : Round → Type 0 where
  goes_on :
      {t : Stream} {u' : List ℕ}
      → Got s t u u'
      → Pending t u'
      → length t.input + t.avail_out < length s.input + s.avail_out
      → RoundLem s u (again t)
  filled :
      {t : Stream} {u' : List ℕ}
      → Got s t u u'
      → Pending t u'
      → t.avail_out ≡ 0
      → length t.input ≤ length s.input
      → RoundLem s u (stop success t)

pub Got-refl :
    (s t : Stream) (u : List ℕ) → t.output ≡ s.output → t.avail_out ≡ s.avail_out → Got s t u u
Got-refl s t u o a = record {
  bytes = [];
  split = refl;
  stored = o ∙ sym (append-nil s.output);
  room = omega arith;
}

pub Got-trans : {s t r : Stream} {u u' u'' : List ℕ} → Got s t u u' → Got t r u' u'' → Got s r u u''
Got-trans {s} {t} {r} {u} {u'} {u''} a b = record {
  bytes = a.bytes ++ b.bytes;
  split = a.split ∙ ap (λ x. a.bytes ++ x) b.split ∙ sym (append_assoc a.bytes b.bytes u'');
  stored = b.stored ∙ ap (λ o. o ++ b.bytes) a.stored ∙ append_assoc s.output a.bytes b.bytes;
  room = omega (arith, length-append {0} a.bytes b.bytes, a.room, b.room);
}

module _ {s : Stream} {u : List ℕ} (p : Pending s u) (enough : s.avail_out ≤ length u)
    (room : s.avail_out ≢ 0) (empty : s.inflate_buf ≡ []) where
  pending : u ≡ replicate s.zeros 0 ++ p.rest
  pending = p.parts ∙ ap (λ b. b ++ (replicate s.zeros 0 ++ p.rest)) empty

  zeros_lem :
      (n : ℕ) → n ≡ umin s.avail_out s.zeros → 0 < s.zeros → RoundLem s u (again (write_zeros n s))
  unfolding write_zeros emit
  zeros_lem n e h =
      goes_on {u' = replicate (s.zeros - n) 0 ++ p.rest}
        (record {
          bytes = replicate n 0;
          split =
              pending
              ∙ ap (λ k. replicate k 0 ++ p.rest) {x = s.zeros} {y = n + (s.zeros - n)}
                  (omega (arith, n_lem))
              ∙ ap (λ zs. zs ++ p.rest) (sym (replicate-append n (s.zeros - n) 0))
              ∙ append_assoc (replicate n 0) (replicate (s.zeros - n) 0) p.rest;
          stored = refl;
          room = omega (arith, length-replicate {A = ℕ} n 0, n_lem);
        })
        (record {
          rest = p.rest;
          parts = sym (ap (λ b. b ++ (replicate (s.zeros - n) 0 ++ p.rest)) empty);
          packed = p.packed;
          small_in = p.small_in;
          small_out = omega (arith, p.small_out);
          zeros_lt = omega (arith, p.zeros_lt);
          raw_lt = p.raw_lt;
        })
        (omega (arith, length-replicate {A = ℕ} n 0, n_lem))
    where
      n_lem : (n ≤ s.zeros) × (n ≤ s.avail_out) × (0 < n)
      n_lem = unfold umin in ground (arith, p.small_out, p.zeros_lt)

  raw_lem :
      (n : ℕ)
      → n ≤ s.raw
      → n ≤ s.avail_out
      → 0 < n
      → s.zeros ≡ 0
      → RoundLem s u (again (copy_raw n s))
  unfolding copy_raw copy_in
  raw_lem n le_raw le_out pos z =
      let k = Packed-skip n p.packed le_raw in
      goes_on {u' = drop n p.rest}
        (record {
          bytes = take n s.input;
          split =
              pending
              ∙ ap (λ m. replicate m 0 ++ p.rest) z
              ∙ sym (take-append-drop n p.rest)
              ∙ ap (λ x. x ++ drop n p.rest) k.2;
          stored = refl;
          room = omega (arith, length-take {0} n s.input, k.0);
        })
        (record {
          rest = drop n p.rest;
          parts = sym (
              ap (λ b. b ++ (replicate s.zeros 0 ++ drop n p.rest)) empty
              ∙ ap (λ m. replicate m 0 ++ drop n p.rest) z);
          packed = k.3;
          small_in = omega (arith, length-drop {0} n s.input, p.small_in);
          small_out = omega (arith, p.small_out);
          zeros_lt = p.zeros_lt;
          raw_lt = omega (arith, p.raw_lt);
        })
        (omega (arith, length-drop {0} n s.input, length-take {0} n s.input, k.0))

  -- A header byte is followed by what it promises.
  header_lem :
      s.zeros ≡ 0
      → s.raw ≡ 0
      → RoundLem s u (if ltb (length s.input) 2 then stop need_more s else inflate_header s)
  header_lem z r = step p.packed
    where
      from_rest : u ≡ p.rest
      from_rest = pending ∙ ap (λ m. replicate m 0 ++ p.rest) z

      step :
          Packed s.raw p.rest s.input
          → RoundLem s u (if ltb (length s.input) 2 then stop need_more s else inflate_header s)
      step (nothing _ eu _) = absurd (omega (arith, ap (λ xs. length xs) (from_rest ∙ eu)))
      step (unchanged _ _ _ _ e _ _ _) = absurd (omega arith)
      step (zero_words n us ps _ n_lt eu ep k) =
          let l : length s.input ≡ suc (suc (length ps)) = ap (λ xs. length xs) ep in
          rw (le→ltb (length s.input) 2 (omega arith), header_zeros s n ps ep)
            (goes_on {u' = u}
              (Got-refl s (record s { zeros = (n + 1) * 8; input = ps }) u refl refl)
              (record {
                rest = us;
                parts =
                    from_rest ∙ eu ∙ sym (ap (λ b. b ++ (replicate ((n + 1) * 8) 0 ++ us)) empty);
                packed = subst (λ m. Packed m us ps) (sym r) k;
                small_in = omega (arith, p.small_in);
                small_out = p.small_out;
                zeros_lt = omega arith;
                raw_lt = p.raw_lt;
              })
              (omega arith))
      step (dense_word w n us ps _ len n_lt eu ep k) =
          let l : length s.input ≡ suc (length (w ++ (n ∷ ps))) = ap (λ xs. length xs) ep in
          let l' = length-append {0} w (n ∷ ps) in
          rw (le→ltb (length s.input) 2 (omega arith), header_dense s w n ps ep len)
            (goes_on {u' = u}
              (Got-refl s (record s { inflate_buf = w; raw = n * 8; input = ps }) u refl refl)
              (record {
                rest = us;
                parts = from_rest ∙ eu ∙ sym (ap (λ m. w ++ (replicate m 0 ++ us)) z);
                packed = k;
                small_in = omega (arith, p.small_in);
                small_out = p.small_out;
                zeros_lt = p.zeros_lt;
                raw_lt = omega arith;
              })
              (omega arith))
      step (tagged_word w us ps _ len lo hi eu ep k) =
          let l : length s.input ≡ suc (length (nonzeros w ++ ps)) = ap (λ xs. length xs) ep in
          let l' = length-append {0} (nonzeros w) ps in
          let l'' = length-nonzeros w in
          rw (le→ltb (length s.input) 2 (omega arith), header_tagged s w ps ep len lo hi)
            (goes_on {u' = u} (Got-refl s (record s { inflate_buf = w; input = ps }) u refl refl)
              (record {
                rest = us;
                parts = from_rest ∙ eu ∙ sym (ap (λ m. w ++ (replicate m 0 ++ us)) z);
                packed = subst (λ m. Packed m us ps) (sym r) k;
                small_in = omega (arith, p.small_in);
                small_out = p.small_out;
                zeros_lt = p.zeros_lt;
                raw_lt = p.raw_lt;
              })
              (omega arith))

  pub inflate_next_lem : RoundLem s u (inflate_next s)
  unfolding inflate_next
  inflate_next_lem = elim (Bool-cases (ltb 0 s.zeros)) [
    | inl z ↦ rw z (zeros_lem _ refl (ltb→lt 0 s.zeros z))
    | inr z ↦ rw z (elim (Bool-cases (ltb 0 s.raw)) [
      | inl r ↦
          let h = ltb→lt 0 s.raw r in
          let k = Packed-skip 1 p.packed h in
          let n_lem : (umin (umin s.avail_out s.raw) (length s.input) ≤ s.raw)
              × (umin (umin s.avail_out s.raw) (length s.input) ≤ s.avail_out)
              × (0 < umin (umin s.avail_out s.raw) (length s.input)) =
            unfold umin in ground (arith, p.small_out, p.raw_lt, p.small_in, k.0) in
          rw (r, ne→== (length s.input) 0 (omega (arith, k.0)))
            (raw_lem _ n_lem.0 n_lem.1 n_lem.2 (omega (arith, ltb→le 0 s.zeros z)))
      | inr r ↦
          rw r (header_lem (omega (arith, ltb→le 0 s.zeros z)) (omega (arith, ltb→le 0 s.raw r)))
    ])
  ]
