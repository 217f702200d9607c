-- ===== src/Decode/Safety/Bounds.antt =====
-- `bounds_ok` and `mul_size` of lib/capn.c against the intervals and products that they are about.
use c_capnproto.Common.{
  ℕ, zero, suc, ◌+◌, ◌*◌, ◌/◌, ◌%◌, ◌^◌, ◌≤◌, ◌≡◌, ◌≢◌, subst₂, true, false, not, ◌&&◌, none, some,
  ltb, if◌then◌else◌, arith, inl, inr, Bool-cases, ltb→le, ne→==, eq_of_some,
}
use native.Mathlib.Nat.{le-div_iff_mul-le}
use c_capnproto.Session.{Segment}
use c_capnproto.Decode.Limits.{size_max, bounds_ok, mul_size}

-- The bytes from `p` on, `n` of them, are bytes of the segment.
pub record InSegment (s : Segment) (p n : ℕ) : Type 0 where
  pub start : s.data_addr ≤ p
  pub end : p + n ≤ s.data_addr + s.len

-- The segment is an interval of the address space that does not hold the address 0.
pub record InMemory (s : Segment) : Type 0 where
  pub not_null : s.data_addr ≢ 0
  pub fits : s.data_addr + s.len ≤ size_max

-- `bounds_ok` never accepts bytes that stand outside of the segment, and on a segment that lies in
-- memory it accepts all others.
pub bounds_ok_lem :
    (s : Segment) (p n : ℕ)
    → (bounds_ok s p n ≡ true → InSegment s p n)
      × (InMemory s → InSegment s p n → bounds_ok s p n ≡ true)
unfolding bounds_ok
bounds_ok_lem s p n = (
  λ h. record { start = ground arith; end = ground arith },
  λ m i. accept m.not_null m.fits i.start i.end,
)
  where
    accept :
        s.data_addr ≢ 0
        → s.data_addr + s.len ≤ size_max
        → s.data_addr ≤ p
        → p + n ≤ s.data_addr + s.len
        → bounds_ok s p n ≡ true
    accept a b c d = ground arith

-- A product that `mul_size` gives is the true one.
pub mul_size-exact : (a b : ℕ) {n : ℕ} → mul_size a b ≡ some n → n ≡ a * b
unfolding mul_size
mul_size-exact a zero h = omega (arith, eq_of_some h)
mul_size-exact a (suc b) {n} h = elim (Bool-cases (ltb (size_max / suc b) a)) [
  | inl e ↦ absurd (ground arith)
  | inr e ↦ exact (ltb→le (size_max / suc b) a e) (taken e)
]
  where
    exact : a ≤ size_max / suc b → some (a * suc b % 2 ^ 64) ≡ some n → n ≡ a * suc b
    exact le k = omega (
      arith,
      eq_of_some k,
      (le-div_iff_mul-le {k = suc b} {x = a} {y = size_max} (omega arith)).0 le,
    )

    taken : ltb (size_max / suc b) a ≡ false → some (a * suc b % 2 ^ 64) ≡ some n
    taken e =
        subst₂ (λ t u. (if not t && u then none else some (a * suc b % 2 ^ 64)) ≡ some n)
          (ne→== (suc b) 0 (omega arith)) e h
