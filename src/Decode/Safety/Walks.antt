-- ===== src/Decode/Safety/Walks.antt =====
-- What a message can make a reader of lib/capn.c do: the length of a chain of pointers, and the cost
-- of any sequence of reads.
use c_capnproto.Common.{
  ℕ, zero, suc, ◌+◌, ◌≤◌, ◌≡◌, ◌≢◌, refl, ap, subst, subst₂, true, some, ℤ, pos, arith,
}
use c_capnproto.Session.{Segment, Session, find_segment}
use c_capnproto.Decode.Pointers.{
  PtrType, null, struct, list, ptr_list, bit_list, far_pointer, interface, Ptr,
}
use c_capnproto.Decode.Limits.{traversal_budget, hop_remaining}
use c_capnproto.Decode.Read.{read_ptr}
use c_capnproto.Decode.Safety.Results.{
  Outcome, failed, of_capability, of_object, Hops, object_cost, read_ptr_lem,
}

-- Pointers that are read one from the object of the other, each with what `hop_remaining` leaves.
pub data Chain : Session → Ptr → ℕ → Type 0 where
  stop : {c : Session} {p : Ptr} → Chain c p 0
  hop :
      {c c' : Session} {p p' : Ptr} {k : ℕ} (id : ℕ) (s : Segment) (d : ℕ)
      (known : find_segment id c.seglist ≡ some s)
      (result : read_ptr c (some id) d (hop_remaining c p) ≡ (c', p')) (not_null : p'.type ≢ null)
      (rest : Chain c' p' k)
      → Chain c p (suc k)

-- The cost of a pointer that was returned: a capability has no object.
abbrev pub read_cost : Ptr → ℕ
read_cost p = elim p.type [ interface ↦ 0 | _ ↦ object_cost p ]

-- Reads of any words of a session, in any order, and the sum of their costs.
pub data Reads : Session → ℕ → Type 0 where
  done : {c : Session} → Reads c 0
  read :
      {c c' : Session} {p : Ptr} {n : ℕ} (id : ℕ) (s : Segment) (d : ℕ) (rem : ℤ)
      (known : find_segment id c.seglist ≡ some s) (result : read_ptr c (some id) d rem ≡ (c', p))
      (rest : Reads c' n)
      → Reads c (read_cost p + n)

-- The session after a read, as far as the budget is concerned.
record Charged (c c' : Session) (p : Ptr) : Type 0 where
  limit : traversal_budget c' ≡ traversal_budget c
  used : c.traversal_used + read_cost p ≤ c'.traversal_used
  within : c'.traversal_used ≤ traversal_budget c

read_cost-le : (p : Ptr) → read_cost p ≤ object_cost p
read_cost-le p = by_type p.type
  where
    by_type :
        (t : PtrType) → (elim t as (λ _. ℕ) [ interface ↦ 0 | _ ↦ object_cost p ]) ≤ object_cost p
    by_type null = omega arith
    by_type struct = omega arith
    by_type list = omega arith
    by_type ptr_list = omega arith
    by_type bit_list = omega arith
    by_type far_pointer = omega arith
    by_type interface = omega arith

Outcome-Charged :
    (c : Session) (rem : ℤ) (c' : Session) (p : Ptr)
    → c.traversal_used ≤ traversal_budget c
    → Outcome c rem c' p
    → Charged c c' p
Outcome-Charged c rem _ _ below failed = record { limit = refl; used = omega arith; within = below }
Outcome-Charged c rem _ p below (of_capability t h) = record {
  limit = refl;
  used = rw t (omega arith);
  within = below;
}
Outcome-Charged c rem _ p below (of_object i h w) = record {
  limit = refl;
  used = omega (arith, read_cost-le p);
  within = w;
}

Outcome-Hops :
    (c : Session) (rem : ℤ) (c' : Session) (p : Ptr)
    → Outcome c rem c' p
    → p.type ≢ null
    → Hops rem p
Outcome-Hops c rem _ _ failed t = absurd (t refl)
Outcome-Hops c rem _ p (of_capability t' h) t = h
Outcome-Hops c rem _ p (of_object i h w) t = h

hop_remaining-valid :
    (c : Session) (p : Ptr) {n : ℕ}
    → p.nesting ≡ pos n
    → p.nesting_valid ≡ true
    → hop_remaining c p ≡ pos n
unfolding hop_remaining
hop_remaining-valid c p e v = rw v e

-- What a read says, in terms of the session and the pointer that it returns.
read-Outcome :
    (c : Session) (id : ℕ) (s : Segment) (d : ℕ) (rem : ℤ) {c' : Session} {p : Ptr}
    → c.traversal_used ≤ traversal_budget c
    → find_segment id c.seglist ≡ some s
    → read_ptr c (some id) d rem ≡ (c', p)
    → Outcome c rem c' p
read-Outcome c id s d rem below known e =
    subst₂ (Outcome c rem) (ap (λ r. r.0) e) (ap (λ r. r.1) e)
      (read_ptr_lem c id s d rem below known)

-- Within the budget, a chain of pointers that are not null is no longer than the hops that its first
-- pointer leaves, whatever the message holds: a message cannot make a reader recurse without end.
pub Chain-le :
    (c : Session) (p : Ptr) (n k : ℕ)
    → c.traversal_used ≤ traversal_budget c
    → hop_remaining c p ≡ pos n
    → Chain c p k
    → k ≤ n
Chain-le c p n _ below e stop = omega arith
Chain-le c p n _ below e (hop {c'} {p'} {k} id s d known result not_null rest) =
    let o = read-Outcome c id s d (hop_remaining c p) below known result in
    let charged = Outcome-Charged c (hop_remaining c p) c' p' below o in
    one_less n (subst (λ r. Hops r p') e (Outcome-Hops c (hop_remaining c p) c' p' o not_null))
      (λ m f. Chain-le c' p' m k (omega (arith, charged.limit, charged.within)) f rest)
  where
    one_less :
        (n : ℕ) → Hops (pos n) p' → ((m : ℕ) → hop_remaining c' p' ≡ pos m → k ≤ m) → suc k ≤ n
    one_less zero none_left later = absurd none_left
    one_less (suc m) (nesting, valid) later =
        omega (arith, later m (hop_remaining-valid c' p' nesting valid))

-- The objects that all reads of a session return never cost more than the budget of the session, less
-- what is used at the start, however often the reads visit the same object.
pub Reads-le :
    (c : Session) (n : ℕ)
    → c.traversal_used ≤ traversal_budget c
    → Reads c n
    → c.traversal_used + n ≤ traversal_budget c
Reads-le c _ below done = omega arith
Reads-le c _ below (read {c'} {p} {n} id s d rem known result rest) =
    let charged = Outcome-Charged c rem c' p below (read-Outcome c id s d rem below known result) in
    omega (
      arith,
      charged.limit,
      charged.used,
      Reads-le c' n (omega (arith, charged.limit, charged.within)) rest,
    )
