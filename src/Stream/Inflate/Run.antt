-- ===== src/Stream/Inflate/Run.antt =====
-- `capn_inflate` of lib/capn-stream.c as a whole: it ends, and fills its output with what the input
-- encodes.
use c_capnproto.Common.{
  ℕ, zero, suc, ◌+◌, ◌-◌, ◌*◌, ◌^◌, ◌≤◌, ◌<◌, ◌≡◌, ◌≢◌, refl, sym, ap, subst, ◌∙◌, false, Option,
  none, some, List, [], ◌∷◌, ◌++◌, inl, inr, ltb, leb, ◌==◌, if◌then◌else◌, length, take, drop,
  replicate, arith, Bool-cases, length-append, length-take, take-append-drop, append_assoc,
  take-append_front, drop-append_front, ==→eq, ==→ne, ltb→le, ne→==, lt→ltb,
}
use c_capnproto.Stream.State.{Stream, Status, success, Round, again, stop, emit, umin}
use c_capnproto.Stream.Inflate.{
  inflate_next, inflate_round, inflate_loop, inflate, flush_whole, flush_part, write_zeros,
}
use c_capnproto.Stream.Inflate.Rounds.{
  Pending, Got, RoundLem, goes_on, filled, Got-refl, Got-trans, inflate_next_lem,
}

RoundLem-after :
    {s t : Stream} {u u' : List ℕ} {r : Round}
    → Got s t u u'
    → length t.input ≤ length s.input
    → t.avail_out ≤ s.avail_out
    → RoundLem t u' r
    → RoundLem s u r
RoundLem-after g l a (goes_on h p m) = goes_on (Got-trans g h) p (omega arith)
RoundLem-after g l a (filled h p z m) = filled (Got-trans g h) p z (omega arith)

no_bytes : (xs : List ℕ) → length xs ≤ 0 → xs ≡ []
no_bytes [] h = refl
no_bytes (x ∷ xs) h = absurd (omega arith)

module _ {s : Stream} {u : List ℕ} (p : Pending s u) (enough : s.avail_out ≤ length u)
    (room : s.avail_out ≢ 0) where
  flushed : List ℕ
  flushed = replicate s.zeros 0 ++ p.rest

  whole_lem :
      length s.inflate_buf ≤ s.avail_out
      → RoundLem s u
          (let t = flush_whole s in if t.avail_out == 0 then stop success t else inflate_next t)
  unfolding flush_whole emit
  whole_lem fits = elim (Bool-cases (s.avail_out - length s.inflate_buf == 0)) [
    | inl e ↦ rw e (filled got pend (==→eq _ 0 e) (omega arith))
    | inr e ↦ rw e (
        RoundLem-after got (omega arith) (omega arith) (
          inflate_next_lem pend
            (omega (
              arith,
              ap (λ xs. length xs) p.parts,
              length-append {0} s.inflate_buf (replicate s.zeros 0 ++ p.rest),
            ))
            (==→ne _ 0 e) refl))
  ]
    where
      t : Stream
      t = record s {
        inflate_buf = [];
        output = s.output ++ s.inflate_buf;
        avail_out = s.avail_out - length s.inflate_buf;
      }

      got : Got s t u (replicate s.zeros 0 ++ p.rest)
      got = record { bytes = s.inflate_buf; split = p.parts; stored = refl; room = omega arith }

      pend : Pending t (replicate s.zeros 0 ++ p.rest)
      pend = record {
        rest = p.rest;
        parts = refl;
        packed = p.packed;
        small_in = p.small_in;
        small_out = omega (arith, p.small_out);
        zeros_lt = p.zeros_lt;
        raw_lt = p.raw_lt;
      }

  part_lem : s.avail_out < length s.inflate_buf → RoundLem s u (stop success (flush_part s))
  unfolding flush_part emit
  part_lem less =
      filled {u' = drop s.avail_out s.inflate_buf ++ (replicate s.zeros 0 ++ p.rest)}
        (record {
          bytes = take s.avail_out s.inflate_buf;
          split =
              p.parts
              ∙ ap (λ b. b ++ (replicate s.zeros 0 ++ p.rest))
                  (sym (take-append-drop s.avail_out s.inflate_buf))
              ∙ append_assoc (take s.avail_out s.inflate_buf) (drop s.avail_out s.inflate_buf)
                  (replicate s.zeros 0 ++ p.rest);
          stored = refl;
          room = omega (arith, length-take {0} s.avail_out s.inflate_buf);
        })
        (record {
          rest = p.rest;
          parts = refl;
          packed = p.packed;
          small_in = p.small_in;
          small_out = omega (arith, p.small_out);
          zeros_lt = p.zeros_lt;
          raw_lt = p.raw_lt;
        })
        (omega (arith, length-take {0} s.avail_out s.inflate_buf)) (omega arith)

  inflate_round_lem : RoundLem s u (inflate_round s)
  unfolding inflate_round
  inflate_round_lem = elim (Bool-cases (ltb 0 (length s.inflate_buf))) [
    | inl b ↦ rw b (elim (Bool-cases (leb (length s.inflate_buf) s.avail_out)) [
      | inl f ↦ rw f (whole_lem (ground arith))
      | inr f ↦ rw f (part_lem (ground arith))
    ])
    | inr b ↦ rw b (inflate_next_lem p enough room (no_bytes s.inflate_buf (ltb→le 0 _ b)))
  ]

-- The result of a run: the output is full.
pub data Inflated (s : Stream) (u : List ℕ) : Option (Status × Stream) → Type 0 where
  inflated :
      {t : Stream} {u' : List ℕ}
      → Got s t u u'
      → Pending t u'
      → t.avail_out ≡ 0
      → Inflated s u (some (success, t))

Inflated-after :
    {s t : Stream} {u u' : List ℕ} {r : Option (Status × Stream)}
    → Got s t u u'
    → Inflated t u' r
    → Inflated s u r
Inflated-after g (inflated h p z) = inflated (Got-trans g h) p z

-- What a stream can still give is enough after a round too.
enough_after :
    {s t : Stream} {u u' : List ℕ} → Got s t u u' → s.avail_out ≤ length u → t.avail_out ≤ length u'
enough_after {u' = u'} g h =
    omega (arith, g.room, ap (λ xs. length xs) g.split, length-append {0} g.bytes u')

inflate_loop_lem :
    (fuel : ℕ) (s : Stream) (u : List ℕ)
    → Pending s u
    → s.avail_out ≤ length u
    → length s.input + s.avail_out < fuel
    → Inflated s u (inflate_loop fuel s)
unfolding inflate_loop
inflate_loop_lem zero s u p enough h = absurd (omega arith)
inflate_loop_lem (suc fuel) s u p enough h = elim (Bool-cases (s.avail_out == 0)) [
  | inl e ↦ rw (e, inflate_loop) (inflated (Got-refl s s u refl refl) p (==→eq _ 0 e))
  | inr e ↦
      rw (e, inflate_loop)
        (step (inflate_round s) (inflate_round_lem p enough (==→ne _ 0 e))
          (λ t. inflate_loop_lem fuel t))
]
  where
    step :
        (r : Round)
        → RoundLem s u r
        → ((t : Stream) (v : List ℕ)
            → Pending t v
            → t.avail_out ≤ length v
            → length t.input + t.avail_out < fuel
            → Inflated t v (inflate_loop fuel t))
        → Inflated s u (elim r [ again t ↦ inflate_loop fuel t | stop c t ↦ some (c, t) ])
    step _ (goes_on {t} {u'} g q less) rec =
        Inflated-after g (rec t u' q (enough_after g enough) (omega arith))
    step _ (filled g q z m) rec = inflated g q z

-- If at least `avail_out` bytes are still to come out of a stream, on buffers smaller than 4 GiB,
-- `capn_inflate` returns 0, has stored exactly the first `avail_out` of them, and leaves a stream that
-- the others are still to come out of.
pub inflate_lem :
    (s : Stream) (u : List ℕ)
    → Pending s u
    → s.avail_out ≤ length u
    → (t : Stream) × (inflate s ≡ some (success, t))
      × (t.output ≡ s.output ++ take s.avail_out u)
      × (t.avail_out ≡ 0)
      × Pending t (drop s.avail_out u)
unfolding inflate
inflate_lem s u p enough =
    finish (inflate_loop_lem (length s.input + s.avail_out + 1) s u p enough (omega arith))
  where
    finish :
        {r : Option (Status × Stream)}
        → Inflated s u r
        → (t : Stream) × (r ≡ some (success, t))
          × (t.output ≡ s.output ++ take s.avail_out u)
          × (t.avail_out ≡ 0)
          × Pending t (drop s.avail_out u)
    finish (inflated {t} {u'} g q z) =
        let n : s.avail_out ≡ length g.bytes = omega (arith, g.room) in
        (
          t,
          refl,
          g.stored
              ∙ ap (λ x. s.output ++ x)
                  (sym
                    (ap (take s.avail_out) g.split ∙ take-append_front s.avail_out g.bytes u' n)),
          z,
          subst (Pending t)
              (sym (ap (drop s.avail_out) g.split ∙ drop-append_front s.avail_out g.bytes u' n)) q,
        )

round_stuck :
    (k : ℕ) (s : Stream)
    → s.inflate_buf ≡ []
    → 0 < s.zeros
    → s.avail_out ≡ suc k * 2 ^ 32
    → inflate_round s ≡ again (write_zeros 0 s)
unfolding inflate_round inflate_next
round_stuck k s b z a = rw (no_buf, lt→ltb 0 s.zeros z, nothing_fits)
  where
    no_buf : ltb 0 (length s.inflate_buf) ≡ false
    no_buf = ap (λ xs. ltb 0 (length xs)) b

    nothing_fits : umin s.avail_out s.zeros ≡ 0
    nothing_fits = unfold umin in ground arith

-- `min` cuts a `size_t` to 32 bits. If zeros are still to be written and the room left is a positive
-- multiple of 4 GiB, then `capn_inflate` writes nothing in a round and never returns: no fuel is
-- enough.
pub inflate_loop-none :
    (fuel k : ℕ) (s : Stream)
    → s.inflate_buf ≡ []
    → 0 < s.zeros
    → s.avail_out ≡ suc k * 2 ^ 32
    → inflate_loop fuel s ≡ none
unfolding inflate_loop
inflate_loop-none zero k s b z a = refl
inflate_loop-none (suc fuel) k s b z a =
    rw (ne→== s.avail_out 0 (omega arith), inflate_loop, round)
      (inflate_loop-none fuel k (write_zeros 0 s) (unfold write_zeros emit in b)
        (unfold write_zeros emit in omega arith) (unfold write_zeros emit in omega arith))
  where
    round : inflate_round s ≡ again (write_zeros 0 s)
    round = round_stuck k s b z a
