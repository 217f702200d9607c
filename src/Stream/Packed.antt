-- ===== src/Stream/Packed.antt =====
-- The packed format of lib/capn-stream.c as a relation between bytes and their encoding, apart from
-- the loops of either direction. The first index is the number of bytes that still go through
-- unchanged (`raw`), so that an encoding can be taken up in the middle.
use c_capnproto.Common.{
  ℕ, suc, ◌+◌, ◌*◌, ◌-◌, ◌≤◌, ◌<◌, ◌≡◌, refl, subst, arith, zero, take, drop, ap, List, [], ◌∷◌,
  ◌++◌, length, replicate,
}
use c_capnproto.Stream.State.{nonzero_count, tag_of, nonzeros}

pub data Packed : ℕ → List ℕ → List ℕ → Type 0 where
  nothing :
      {raw : ℕ} {bytes packed : List ℕ}
      → raw ≡ 0
      → bytes ≡ []
      → packed ≡ []
      → Packed raw bytes packed
  unchanged :
      {raw : ℕ} {bytes packed : List ℕ} (n b : ℕ) (us ps : List ℕ)
      → raw ≡ suc n
      → bytes ≡ b ∷ us
      → packed ≡ b ∷ ps
      → Packed n us ps
      → Packed raw bytes packed
  zero_words :
      {raw : ℕ} {bytes packed : List ℕ} (n : ℕ) (us ps : List ℕ)
      → raw ≡ 0
      → n < 256
      → bytes ≡ replicate ((n + 1) * 8) 0 ++ us
      → packed ≡ 0 ∷ n ∷ ps
      → Packed 0 us ps
      → Packed raw bytes packed
  dense_word :
      {raw : ℕ} {bytes packed : List ℕ} (w : List ℕ) (n : ℕ) (us ps : List ℕ)
      → raw ≡ 0
      → length w ≡ 8
      → n < 256
      → bytes ≡ w ++ us
      → packed ≡ 0xFF ∷ (w ++ (n ∷ ps))
      → Packed (n * 8) us ps
      → Packed raw bytes packed
  tagged_word :
      {raw : ℕ} {bytes packed : List ℕ} (w us ps : List ℕ)
      → raw ≡ 0
      → length w ≡ 8
      → 0 < nonzero_count w
      → nonzero_count w < 8
      → bytes ≡ w ++ us
      → packed ≡ tag_of w ∷ (nonzeros w ++ ps)
      → Packed 0 us ps
      → Packed raw bytes packed

-- Bytes that go through unchanged, several at once.
pub Packed-unchanged :
    (front : List ℕ) (raw m : ℕ) {us ps : List ℕ}
    → raw ≡ length front + m
    → Packed m us ps
    → Packed raw (front ++ us) (front ++ ps)
Packed-unchanged [] raw m {us} {ps} e h =
    subst (λ k. Packed k us ps) {x = m} {y = raw} (omega arith) h
Packed-unchanged (b ∷ front) raw m {us} {ps} e h =
    unchanged (length front + m) b (front ++ us) (front ++ ps) (omega arith) refl refl
      (Packed-unchanged front (length front + m) m refl h)

-- The bytes that go through unchanged, any number of them at once.
pub Packed-skip :
    (n : ℕ) {raw : ℕ} {us ps : List ℕ}
    → Packed raw us ps
    → n ≤ raw
    → (n ≤ length ps)
      × (n ≤ length us)
      × (take n us ≡ take n ps)
      × Packed (raw - n) (drop n us) (drop n ps)
Packed-skip zero {raw} {us} {ps} h le = (
  omega arith,
  omega arith,
  refl,
  subst (λ r. Packed r us ps) {x = raw} {y = raw - 0} (omega arith) h,
)
Packed-skip (suc n) (nothing z _ _) le = absurd (omega arith)
Packed-skip (suc n) {raw} (unchanged m b vs qs e eu ep k) le =
    let r = Packed-skip n k (omega arith) in
    rw (eu, ep)
      (
        omega (arith, r.0),
        omega (arith, r.1),
        ap (λ t. b ∷ t) r.2,
        subst (λ x. Packed x (drop n vs) (drop n qs)) {x = m - n} {y = raw - suc n} (omega arith)
            r.3,
      )
Packed-skip (suc n) (zero_words _ _ _ z _ _ _ _) le = absurd (omega arith)
Packed-skip (suc n) (dense_word _ _ _ _ z _ _ _ _ _) le = absurd (omega arith)
Packed-skip (suc n) (tagged_word _ _ _ z _ _ _ _ _ _) le = absurd (omega arith)
