-- ===== src/Decode/Safety/Segments.antt =====
-- The segment that a pointer word of lib/capn.c leads to is one of the session.
use c_capnproto.Common.{
  ℕ, ◌+◌, ◌*◌, ◌/◌, ◌%◌, ◌≡◌, refl, sym, ap, subst, ◌∙◌, Bool, true, false, Option, some, List, [],
  ◌∷◌, ◌==◌, if◌then◌else◌, ==→eq, eq_of_some, >>=-eq-some, guard-eq-some,
}
use c_capnproto.Session.{Segment, Session, find_segment, lookup_segment}
use c_capnproto.Decode.Pointers.{load64, low32, high32}
use c_capnproto.Decode.Far.{Landing, segment_at, lookup_far, lookup_double, land}

find_segment-id :
    (id : ℕ) (ss : List Segment) {s : Segment} → find_segment id ss ≡ some s → s.id ≡ id
unfolding find_segment
find_segment-id id [] h = cc
find_segment-id id (x ∷ xs) {s} h = by_test (λ k. find_segment-id id xs k) (x.id == id) refl h
  where
    by_test :
        (find_segment id xs ≡ some s → s.id ≡ id)
        → (t : Bool) → (x.id == id) ≡ t
        → (if t then some x else find_segment id xs) ≡ some s
        → s.id ≡ id
    by_test later true e k = sym (ap (λ y. y.id) (eq_of_some k)) ∙ ==→eq x.id id e
    by_test later false e k = later k

pub find_segment-known :
    (id : ℕ) (ss : List Segment) {s : Segment}
    → find_segment id ss ≡ some s
    → find_segment s.id ss ≡ some s
find_segment-known id ss {s} h = ap (λ i. find_segment i ss) (find_segment-id id ss h) ∙ h

segment_at-known :
    (c : Session) (o : Option ℕ) (id : ℕ) {s : Segment}
    → segment_at c o id ≡ some s
    → find_segment s.id c.seglist ≡ some s
unfolding segment_at
segment_at-known c o id h =
    let (found, _, e) = >>=-eq-some (lookup_segment c o id) _ h in
    find_segment-known found c.seglist e

lookup_far-known :
    (c : Session) (s : Segment) (val : ℕ) {l : Landing}
    → lookup_far c s val ≡ some l
    → find_segment l.home.id c.seglist ≡ some l.home
unfolding lookup_far
lookup_far-known c s val h =
    let (seg, e, h₁) = >>=-eq-some (segment_at c (some s.id) (high32 val)) _ h in
    let (_, h₂) = guard-eq-some _ _ h₁ in
    subst (λ l. find_segment l.home.id c.seglist ≡ some l.home) (eq_of_some h₂)
      (segment_at-known c (some s.id) (high32 val) e)

lookup_double-known :
    (c : Session) (s : Segment) (val : ℕ) {l : Landing}
    → lookup_double c s val ≡ some l
    → find_segment l.home.id c.seglist ≡ some l.home
unfolding lookup_double
lookup_double-known c s val h =
    let (seg, _, h₁) = >>=-eq-some (segment_at c (some s.id) (high32 val)) _ h in
    let (_, h₂) = guard-eq-some _ _ h₁ in
    let (_, h₃) = guard-eq-some _ _ h₂ in
    let (target, e, h₄) =
      >>=-eq-some
        (segment_at c (some seg.id) (high32 (load64 seg (seg.data_addr + low32 val / 8 * 8)))) _
        h₃ in
    subst (λ l. find_segment l.home.id c.seglist ≡ some l.home) (eq_of_some h₄)
      (segment_at-known c (some seg.id) _ e)

pub land-known :
    (c : Session) (s : Segment) (d val : ℕ) {l : Landing}
    → find_segment s.id c.seglist ≡ some s
    → land c s d val ≡ some l
    → find_segment l.home.id c.seglist ≡ some l.home
unfolding land
land-known c s d val {l} known h = by_far (val % 8 == 2) h
  where
    by_double :
        (t : Bool)
        → (if t
            then lookup_double c s val
            else some (record { home = s; at = d; word = val; tagged = false }))
          ≡ some l
        → find_segment l.home.id c.seglist ≡ some l.home
    by_double true k = lookup_double-known c s val k
    by_double false k =
        subst (λ m. find_segment m.home.id c.seglist ≡ some m.home) (eq_of_some k) known

    by_far :
        (t : Bool)
        → (if t
            then lookup_far c s val
            else if val % 8 == 6
            then lookup_double c s val
            else some (record { home = s; at = d; word = val; tagged = false }))
          ≡ some l
        → find_segment l.home.id c.seglist ≡ some l.home
    by_far true k = lookup_far-known c s val k
    by_far false k = by_double (val % 8 == 6) k
