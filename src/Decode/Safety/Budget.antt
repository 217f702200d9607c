-- ===== src/Decode/Safety/Budget.antt =====
-- The traversal budget of lib/capn.c: what `charge_traversal` takes from it.
use c_capnproto.Common.{
  ℕ, ◌+◌, ◌-◌, ◌*◌, ◌^◌, ◌≤◌, ◌<◌, ◌≡◌, ap, ◌&&◌, ◌||◌, Option, none, some, ltb, ◌==◌,
  if◌then◌else◌, arith, inl, inr, Bool-cases, ltb→le, ==→eq, le→ltb, eq_of_some, if-eq-some,
}
use c_capnproto.Session.{Session}
use c_capnproto.Decode.Limits.{mul_size, traversal_budget, charge, charge_traversal}

-- What an object costs: its bytes, or a word for each element of a list that has none.
abbrev pub cost : ℕ → ℕ → ℕ
cost bytes len = if bytes == 0 then len * 8 else bytes

-- The session after a charge, or `none` if the budget would be exceeded.
abbrev pub spend : Session → ℕ → Option Session
spend c n =
    if ltb (traversal_budget c) (c.traversal_used + n)
    then none
    else some (record c { traversal_used = c.traversal_used + n })

charge_lem : (c : Session) (n : ℕ) → c.traversal_used ≤ traversal_budget c → charge c n ≡ spend c n
unfolding charge
charge_lem c n h = elim (Bool-cases (n == 0)) [
  | inl e ↦
      rw (e, le→ltb (traversal_budget c) (c.traversal_used + n) (omega (arith, ==→eq n 0 e)))
        (same (==→eq n 0 e))
  | inr e ↦ rw e (
      ap (λ t. if t then none else some (record c { traversal_used = c.traversal_used + n }))
        tests_eq)
]
  where
    same : n ≡ 0 → some c ≡ some (record c { traversal_used = c.traversal_used + n })
    same z =
        ap (λ u. some (record c { traversal_used = u })) {x = c.traversal_used}
          {y = c.traversal_used + n} (omega arith)

    tests_eq :
        ltb (traversal_budget c) n || ltb (traversal_budget c - n) c.traversal_used
        ≡ ltb (traversal_budget c) (c.traversal_used + n)
    tests_eq = ground arith

mul_size_8 : (len : ℕ) → len < 2 ^ 61 → mul_size len 8 ≡ some (len * 8)
unfolding mul_size
mul_size_8 len h = rw (le→ltb (2 ^ 61 - 1) len (omega arith)) (ap some (omega arith))

-- A charge within the budget is refused exactly when the objects read so far and this one cost more than the budget, and otherwise the
-- cost is added to what is used. The budget is the limit of the session, or 64 MiB.
pub charge_traversal_lem :
    (c : Session) (bytes len : ℕ)
    → c.traversal_used ≤ traversal_budget c
    → len < 2 ^ 61
    → charge_traversal c bytes len ≡ spend c (cost bytes len)
unfolding charge_traversal
charge_traversal_lem c bytes len h small =
    rw (mul_size_8 len small, charge_lem c bytes h, charge_lem c (len * 8) h) pick
  where
    pick :
        (if (bytes == 0) && ltb 0 len then spend c (len * 8) else spend c bytes)
        ≡ spend c (cost bytes len)
    pick = elim (Bool-cases (bytes == 0)) [
      | inr e ↦ rw e
      | inl e ↦ elim (Bool-cases (ltb 0 len)) [
        | inl f ↦ rw (e, f)
        | inr f ↦ rw (e, f) (ap (spend c) (omega (arith, ==→eq bytes 0 e, ltb→le 0 len f)))
      ]
    ]

-- A charge that is granted stays within the budget.
pub spend-some :
    (c : Session) (n : ℕ) {c' : Session}
    → spend c n ≡ some c'
    → (record c { traversal_used = c.traversal_used + n } ≡ c')
      × (c.traversal_used + n ≤ traversal_budget c)
spend-some c n h =
    let (within, eq) =
      if-eq-some (ltb (traversal_budget c) (c.traversal_used + n))
        (some (record c { traversal_used = c.traversal_used + n })) h in
    (eq_of_some eq, ltb→le (traversal_budget c) (c.traversal_used + n) within)
