-- ===== src/Decode/Safety/Results.antt =====
-- Every way in which `read_ptr` of lib/capn.c returns.
use c_capnproto.Common.{
  ℕ, zero, suc, ◌+◌, ◌/◌, ◌%◌, ◌≤◌, ◌≡◌, refl, sym, ap, subst, subst₂, ◌∙◌, Bool, true, false, not,
  Option, none, some, ◌==◌, if◌then◌else◌, ℤ, pos, negsuc, arith, eq_of_some, ◌>>=◌, >>=-eq-some,
  guard-eq-some,
}
use c_capnproto.Session.{Segment, Session, find_segment}
use c_capnproto.Decode.Pointers.{interface, Ptr, null_ptr, load64, low32}
use c_capnproto.Decode.Limits.{bounds_ok, traversal_budget, charge_traversal}
use c_capnproto.Decode.Far.{Landing, apply_offset, land}
use c_capnproto.Decode.Shapes.{Shape, object_shape}
use c_capnproto.Decode.Read.{
  with_hops, capability, shape_ptr, read_object, is_zero, read_landing, returned, read_ptr,
}
use c_capnproto.Decode.Safety.Bounds.{InSegment, bounds_ok_lem}
use c_capnproto.Decode.Safety.Budget.{cost, charge_traversal_lem, spend-some}
use c_capnproto.Decode.Safety.Segments.{land-known, find_segment-known}
use c_capnproto.Decode.Safety.Objects.{extent, Measured, object_shape-Measured}

abbrev pub object_bytes : Ptr → ℕ
object_bytes p = extent p.type p.datasz p.ptrs p.len

abbrev pub object_cost : Ptr → ℕ
object_cost p = cost (object_bytes p) p.len

-- The object of the pointer is a part of a segment of the session.
pub record Inside (c : Session) (p : Ptr) : Type 0 where
  pub home : Segment
  pub known : find_segment home.id c.seglist ≡ some home
  pub seg_eq : p.seg ≡ some home.id
  pub bytes : InSegment home p.addr (object_bytes p)

-- The pointer allows one hop less than its parent did. A negative number is no limit.
abbrev pub Hops : ℤ → Ptr → Type 0
Hops (pos zero) p = ⊥
Hops (pos (suc n)) p = (p.nesting ≡ pos n) × (p.nesting_valid ≡ true)
Hops (negsuc n) p = p.nesting_valid ≡ false

-- The session and the pointer after a read.
pub data Outcome (c : Session) (rem : ℤ) : Session → Ptr → Type 0 where
  failed : Outcome c rem (record c { decode_err = true }) null_ptr
  of_capability : {p : Ptr} (t : p.type ≡ interface) (h : Hops rem p) → Outcome c rem c p
  of_object :
      {p : Ptr} (inside : Inside c p) (h : Hops rem p)
      (within : c.traversal_used + object_cost p ≤ traversal_budget c)
      → Outcome c rem (record c { traversal_used = c.traversal_used + object_cost p }) p

with_hops-Hops :
    (rem : ℤ) (p : Ptr) → is_zero rem ≡ false → p.nesting_valid ≡ false → Hops rem (with_hops rem p)
unfolding with_hops
with_hops-Hops (pos zero) p h v = cc
with_hops-Hops (pos (suc n)) p h v = (refl, refl)
with_hops-Hops (negsuc n) p h v = v

with_hops-Inside : (c : Session) (rem : ℤ) (p : Ptr) → Inside c p → Inside c (with_hops rem p)
unfolding with_hops
with_hops-Inside c (pos zero) p i = i
with_hops-Inside c (pos (suc n)) p i = record {
  home = i.home;
  known = i.known;
  seg_eq = i.seg_eq;
  bytes = i.bytes;
}
with_hops-Inside c (negsuc n) p i = i

with_hops-cost : (rem : ℤ) (p : Ptr) → object_cost (with_hops rem p) ≡ object_cost p
unfolding with_hops
with_hops-cost (pos zero) p = refl
with_hops-cost (pos (suc n)) p = refl
with_hops-cost (negsuc n) p = refl

with_hops-type : (rem : ℤ) (p : Ptr) → (with_hops rem p).type ≡ p.type
unfolding with_hops
with_hops-type (pos zero) p = refl
with_hops-type (pos (suc n)) p = refl
with_hops-type (negsuc n) p = refl

capability-Outcome :
    (c : Session) (rem : ℤ) (l : Landing) {p : Ptr}
    → is_zero rem ≡ false
    → capability rem l ≡ some p
    → Outcome c rem c p
unfolding capability
capability-Outcome c rem l {p} z h =
    let (_, h₁) = guard-eq-some (low32 l.word / 4 == 0) _ h in
    subst (Outcome c rem c) (eq_of_some h₁)
      (of_capability (with_hops-type rem _) (with_hops-Hops rem _ z refl))

object-Outcome :
    (c : Session) (rem : ℤ) (p : Ptr)
    → is_zero rem ≡ false
    → p.nesting_valid ≡ false
    → Inside c p
    → c.traversal_used + object_cost p ≤ traversal_budget c
    → Outcome c rem
        (record c { traversal_used = c.traversal_used + object_cost p })
        (with_hops rem p)
object-Outcome c rem p z v i within =
    subst
      (λ n. Outcome c rem (record c { traversal_used = c.traversal_used + n }) (with_hops rem p))
      (with_hops-cost rem p)
      (of_object (with_hops-Inside c rem p i) (with_hops-Hops rem p z v) (rw with_hops-cost within))

module _ (c : Session) (rem : ℤ) (below : c.traversal_used ≤ traversal_budget c)
    (nonzero : is_zero rem ≡ false) where
  -- The checks that come after the shape of the object is known.
  shape-Outcome :
      (l : Landing) (shape : Shape) {c' : Session}
      → find_segment l.home.id c.seglist ≡ some l.home
      → Measured shape
      → bounds_ok l.home shape.start shape.nbytes ≡ true
      → charge_traversal c shape.nbytes shape.len ≡ some c'
      → Outcome c rem c' (with_hops rem (shape_ptr l shape))
  unfolding shape_ptr
  shape-Outcome l shape known m fits charged =
      let p = shape_ptr l shape in
      let (eq, within) = spend-some c (cost shape.nbytes shape.len) (
        sym (charge_traversal_lem c shape.nbytes shape.len below (omega (arith, m.len_lt)))
        ∙ charged) in
      let inside : Inside c p = record {
        home = l.home;
        known = known;
        seg_eq = refl;
        bytes =
            subst (InSegment l.home shape.start) m.bytes
              ((bounds_ok_lem l.home shape.start shape.nbytes).0 fits);
      } in
      subst (λ c'. Outcome c rem c' (with_hops rem p))
        (ap (λ n. record c { traversal_used = c.traversal_used + cost n shape.len }) (sym m.bytes)
          ∙ eq)
        (object-Outcome c rem p nonzero refl inside
          (subst (λ n. c.traversal_used + cost n shape.len ≤ traversal_budget c) m.bytes within))

  read_object-Outcome :
      (l : Landing) {c' : Session} {p : Ptr}
      → find_segment l.home.id c.seglist ≡ some l.home
      → read_object c rem l ≡ some (c', p)
      → Outcome c rem c' p
  unfolding read_object
  read_object-Outcome l known h =
      let (d, _, h₁) = >>=-eq-some (apply_offset l.home l.at l.word) _ h in
      let (shape, e₂, h₂) = >>=-eq-some (object_shape l.home d l.word) _ h₁ in
      let (fits, h₃) = guard-eq-some (bounds_ok l.home shape.start shape.nbytes) _ h₂ in
      let (c₁, e₄, h₄) = >>=-eq-some (charge_traversal c shape.nbytes shape.len) _ h₃ in
      let r = eq_of_some h₄ in
      subst₂ (Outcome c rem) (ap (λ x. x.0) r) (ap (λ x. x.1) r)
        (shape-Outcome l shape known (object_shape-Measured l.home d l.word e₂) fits e₄)

read_landing-Outcome :
    (c : Session) (s : Segment) (d : ℕ) (rem : ℤ) {c' : Session} {p : Ptr}
    → c.traversal_used ≤ traversal_budget c
    → find_segment s.id c.seglist ≡ some s
    → read_landing c s d rem ≡ some (c', p)
    → Outcome c rem c' p
unfolding read_landing
read_landing-Outcome c s d rem {c'} {p} below known h =
    let (nonzero, h₁) = guard-eq-some (not (is_zero rem)) _ h in
    let (_, h₂) = guard-eq-some (bounds_ok s d 8) _ h₁ in
    let (l, e₃, h₃) = >>=-eq-some (land c s d (load64 s d)) _ h₂ in
    by_kind l (not-true (is_zero rem) nonzero) (land-known c s d (load64 s d) known e₃)
      (l.word % 4 == 3) h₃
  where
    not-true : (b : Bool) → not b ≡ true → b ≡ false
    not-true false e = refl
    not-true true e = cc

    by_kind :
        (l : Landing)
        → is_zero rem ≡ false
        → find_segment l.home.id c.seglist ≡ some l.home
        → (t : Bool)
        → (if t then (capability rem l >>= λ q. some (c, q)) else read_object c rem l)
          ≡ some (c', p)
        → Outcome c rem c' p
    by_kind l z k true e =
        let (q, e₁, e₂) = >>=-eq-some (capability rem l) _ e in
        let r = eq_of_some e₂ in
        subst₂ (Outcome c rem) (ap (λ x. x.0) r) (ap (λ x. x.1) r) (capability-Outcome c rem l z e₁)
    by_kind l z k false e = read_object-Outcome c rem below z l k e

-- `read_ptr` within the budget, from a segment of the session: it fails, sets `decode_err` and returns
-- a null pointer; or it returns a capability and leaves the session as it is; or it returns a pointer
-- whose object lies in a segment of the session, for which the budget is charged and is enough. A
-- pointer is returned only if a hop is left, and then it has one hop less.
pub read_ptr_lem :
    (c : Session) (id : ℕ) (s : Segment) (d : ℕ) (rem : ℤ)
    → c.traversal_used ≤ traversal_budget c
    → find_segment id c.seglist ≡ some s
    → let (c', p) = read_ptr c (some id) d rem in Outcome c rem c' p
unfolding read_ptr
read_ptr_lem c id s d rem below known =
    rw (known, read_ptr) (by_result (read_landing c s d rem) refl)
  where
    by_result :
        (r : Option (Session × Ptr))
        → read_landing c s d rem ≡ r
        → let (c', p) = returned c r in Outcome c rem c' p
    by_result none e = failed
    by_result (some (c', p)) e =
        read_landing-Outcome c s d rem below (find_segment-known id c.seglist known) e
