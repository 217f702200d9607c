-- ===== src/Scalars/Copies.antt =====
-- `capn_getv8` to `capn_getv64` of lib/capn-list.inc against the single reads.
use c_capnproto.Common.{
  true, false, if◌then◌else◌, ℕ, zero, suc, ◌+◌, ◌*◌, ◌≤◌, ◌<◌, ◌≡◌, refl, sym, ap, ap₂, subst, ◌∙◌,
  Bool, true, some, Option, List, [], ◌∷◌, ℤ, pos, arith, inl, inr, Bool-cases, lt→ltb, le→ltb,
  length, get_or, min, ◌>>=◌, ◌+ℤ◌, wrap_int, wrap_int-small, sub_ℕ, scale, is_neg, pos_part, ◌/◌,
  ◌^◌, none, ltb,
}
use native.Mathlib.Nat.{mul-div_cancel, mul-le-mul_right}
use c_capnproto.Session.{Session}
use c_capnproto.Decode.Pointers.{list, far_pointer, Ptr}
use c_capnproto.Decode.Get.{below}
use c_capnproto.Decode.Safety.Objects.{extent}
use c_capnproto.Decode.Safety.Results.{Inside, object_bytes}
use c_capnproto.Decode.Safety.Members.{advance-pos, member_end, resolve-same}
use c_capnproto.Scalars.{load}
use c_capnproto.Scalars.Members.{stride, get}
use c_capnproto.Scalars.Runs.{
  members_left, packed, load_run, load_members, copy_count, getv_as, getv,
}
use c_capnproto.Scalars.Memory.{load_from-some}
use c_capnproto.Scalars.RoundTrip.{InBytes, get-list}

-- The numbers of a run, each as one load gives it.
record Series (c : Session) (d step w n : ℕ) : Type 0 where
  values : List ℕ
  done : load_run c d step w n ≡ some values
  size : length values ≡ n
  each : (k : ℕ) → k < n → load c (d + k * step) w ≡ some (get_or values k 0)

load_run-Series :
    (c : Session) (step w n d : ℕ)
    → ((k : ℕ) → k < n → (v : ℕ) × (load c (d + k * step) w ≡ some v))
    → Series c d step w n
unfolding load_run
load_run-Series c step w zero d h = record {
  values = [];
  done = refl;
  size = refl;
  each = λ k l. absurd (omega arith);
}
load_run-Series c step w (suc n) d h =
    let r =
      load_run-Series c step w n (d + step)
        (λ k l. subst (λ a. (v : ℕ) × (load c a w ≡ some v)) (next k) (h (suc k) (omega arith))) in
    let (v, e) = h 0 (omega arith) in
    let e' : load c d w ≡ some v =
      subst (λ a. load c a w ≡ some v) {x = d + 0 * step} {y = d} (omega arith) e in
    record {
      values = v ∷ r.values;
      done = rw (e', r.done) refl;
      size = ap suc r.size;
      each = each v r e;
    }
  where
    next : (k : ℕ) → d + suc k * step ≡ d + step + k * step
    next k = ground arith

    each :
        (v : ℕ) (r : Series c (d + step) step w n)
        → load c (d + 0 * step) w ≡ some v
        → (k : ℕ) → k < suc n
        → load c (d + k * step) w ≡ some (get_or (v ∷ r.values) k 0)
    each v r e zero l = e
    each v r e (suc k) l = ap (λ a. load c a w) (next k) ∙ r.each k (omega arith)

member-load :
    (w : ℕ) (c : Session) (p : Ptr) (inside : Inside c p)
    → InBytes c p inside
    → p.type ≡ list
    → w ≤ p.datasz
    → (k : ℕ) → k < p.len
    → (v : ℕ) × (load c (p.addr + k * stride p) w ≡ some v)
member-load w c p inside all t h k l =
    load_from-some inside.home.id (p.addr + k * stride p) w c.seglist inside.known
      (omega (arith, inside.bytes.start))
      (omega (
        arith,
        inside.bytes.end,
        all,
        h,
        member_end k p.len (stride p) l,
        ap (λ u. extent u p.datasz p.ptrs p.len) t,
      ))

members_left-start :
    (sz len : ℕ) → sz < 2 ^ 31 → members_left (pos 0) (pos sz) len ≡ pos (min sz len)
unfolding members_left
members_left-start sz len h =
    ap (λ z. if below z (suc len) then pos sz else wrap_int (sub_ℕ (len + 0) 0))
      (ap wrap_int {x = pos 0 +ℤ pos sz} {y = pos sz} (ground arith) ∙ wrap_int-small sz h)
    ∙ cut (ltb sz (suc len)) refl
  where
    whole : sub_ℕ (len + 0) 0 ≡ pos len
    whole = ground arith

    cut :
        (t : Bool)
        → ltb sz (suc len) ≡ t
        → (if t then pos sz else wrap_int (sub_ℕ (len + 0) 0)) ≡ pos (min sz len)
    cut true e = ap pos (ground (arith, e))
    cut false e =
        ap wrap_int whole ∙ wrap_int-small len (ground (arith, e, h)) ∙ ap pos (ground (arith, e))

-- The loop reads what lies behind one another.
load_members-load_run :
    (c : Session) (addr step w n i : ℕ)
    → (i + n) * step < 2 ^ 31
    → load_members c addr (pos i) step w n ≡ load_run c (addr + i * step) step w n
unfolding load_members load_run
load_members-load_run c addr step w zero i h = refl
load_members-load_run c addr step w (suc n) i h =
    ap₂ (λ d r. load c d w >>= λ v. r >>= λ vs. some (v ∷ vs))
      (advance-pos addr i step (ground (arith, h)))
      (ap (λ z. load_members c addr z step w n) {x = pos i +ℤ pos 1} {y = pos (suc i)}
          (ground arith)
        ∙ load_members-load_run c addr step w n (suc i) (ground (arith, h))
        ∙ ap (λ d. load_run c d step w n) (ground arith))

copy_count-small : (w n : ℕ) → 0 < w → n * w < 2 ^ 31 → copy_count w (pos n) ≡ some n
unfolding copy_count
copy_count-small w n one h =
    ap (λ z. if is_neg z then none else some (pos_part z / w))
      (ap wrap_int {x = scale (pos n) w} {y = pos (n * w)} (ground arith)
        ∙ wrap_int-small (n * w) h)
    ∙ ap some (mul-div_cancel n one)

abbrev answered : Session → ℕ → Option (List ℕ) → Option (Session × List ℕ × ℤ)
answered c n o = o >>= λ vs. some (c, vs, pos n)

packed-stride : (little : Bool) (w : ℕ) (p : Ptr) → packed little w p ≡ true → w ≡ stride p
packed-stride little w p e = ground arith

-- From the first member on the copy and the loop read the same bytes.
getv_as-load_run :
    (little : Bool) (w : ℕ) (c : Session) (p : Ptr) (n : ℕ)
    → 0 < w
    → w ≤ p.datasz
    → n * stride p < 2 ^ 31
    → getv_as list little w c p (pos 0) (pos n) ≡ answered c n (load_run c p.addr (stride p) w n)
unfolding getv_as
getv_as-load_run little w c p n one h int = elim (Bool-cases (packed little w p)) [
  | inl e ↦
      rw
        (
          e,
          copy_count-small w n one
              (subst (λ k. n * k < 2 ^ 31) (sym (packed-stride little w p e)) int),
        )
        (ap₂ (λ d k. answered c n (load_run c d k w n))
          (advance-pos p.addr 0 1 (omega arith) ∙ omega arith) (packed-stride little w p e))
  | inr e ↦
      rw (e, le→ltb p.datasz w h)
        (ap (answered c n) (
          load_members-load_run c p.addr (stride p) w n 0
            (subst (λ k. k * stride p < 2 ^ 31) {x = n} {y = 0 + n} (omega arith) int)
          ∙ ap (λ d. load_run c d (stride p) w n) (omega arith)))
]

getv-load_run :
    (little : Bool) (w : ℕ) (c : Session) (p : Ptr) (sz : ℕ)
    → p.type ≡ list
    → 0 < w
    → w ≤ p.datasz
    → p.len * stride p < 2 ^ 31
    → sz < 2 ^ 31
    → getv little w c p (pos 0) (pos sz)
      ≡ answered c (min sz p.len) (load_run c p.addr (stride p) w (min sz p.len))
getv-load_run little w c p sz t one h int small =
    unfold getv in
    ap
      (λ (r : Session × Ptr).
        getv_as r.1.type little w r.0 r.1 (pos 0) (members_left (pos 0) (pos sz) r.1.len))
      (resolve-same c p (λ f. clash (sym t ∙ f)))
    ∙ ap₂ (λ ty n. getv_as ty little w c p (pos 0) n) t (members_left-start sz p.len small)
    ∙ getv_as-load_run little w c p (min sz p.len) one h (
        omega
          (arith, int, mul-le-mul_right {m = min sz p.len} {n = p.len} (stride p) (omega arith)))
  where
    clash : list ≡ far_pointer → ⊥
    clash f = cc

-- In a list whose object lies in a segment and is below 2 GiB, with all bytes in memory, and whose members
-- have at least `w` bytes, `capn_getv` from the first member on, for `sz` members, copies them or loops over
-- them, on both kinds of machines. Either way it stores as many as the list has, at most `sz`, returns
-- their number, and each is what `capn_get` gives.
pub getv-get :
    (little : Bool) (w : ℕ) (c : Session) (p : Ptr) (sz : ℕ) (inside : Inside c p)
    → InBytes c p inside
    → object_bytes p < 2 ^ 31
    → p.type ≡ list
    → 0 < w
    → w ≤ p.datasz
    → sz < 2 ^ 31
    → (vs : List ℕ) × (getv little w c p (pos 0) (pos sz) ≡ some (c, vs, pos (min sz p.len)))
      × (length vs ≡ min sz p.len)
      × ((k : ℕ) → k < min sz p.len → get w c p (pos k) ≡ some (c, get_or vs k 0))
getv-get little w c p sz inside all int t one h small =
    let bytes : p.len * stride p < 2 ^ 31 =
      subst (λ u. extent u p.datasz p.ptrs p.len < 2 ^ 31) t int in
    let r =
      load_run-Series c (stride p) w (min sz p.len) p.addr
        (λ k l. member-load w c p inside all t h k (omega (arith, l))) in
    (
      r.values,
      getv-load_run little w c p sz t one h bytes small ∙ ap (answered c (min sz p.len)) r.done,
      r.size,
      λ k l. get-list w c p k t h bytes ∙ rw (lt→ltb k p.len (omega (arith, l)), r.each k l) refl,
    )
