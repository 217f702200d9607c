-- ===== src/Scalars/RoundTrip.antt =====
-- A number that was stored to a list or to a struct of a message is read again, and nothing else in the
-- object has changed: lib/capn-list.inc and the accessors of lib/capnp_c.h.
use c_capnproto.Common.{
  ℕ, suc, ◌+◌, ◌*◌, ◌^◌, ◌≤◌, ◌<◌, ◌≡◌, ◌≢◌, refl, sym, ap, ap₂, subst, ◌∙◌, Bool, false, true,
  Option, none, some, ltb, if◌then◌else◌, arith, ◌⊎◌, inl, inr, ℤ, pos, negsuc, ◌+ℤ◌, wrap_int,
  wrap_int-small, length, Bool-cases, lt→ltb, le→ltb, ltb→lt, ◌>>=◌, eq_of_some,
}
use c_capnproto.Session.{Session}
use c_capnproto.Decode.Pointers.{list, struct, Ptr}
use c_capnproto.Decode.Get.{below}
use c_capnproto.Decode.Safety.Objects.{extent}
use c_capnproto.Decode.Safety.Results.{Inside, object_bytes}
use c_capnproto.Decode.Safety.Members.{advance-pos, member_end}
use c_capnproto.Scalars.{bytes_of, load, store, read, write}
use c_capnproto.Scalars.Members.{stride, get_as, get, set_as, set}
use c_capnproto.Scalars.Memory.{
  length-bytes_of, store_to-some, load_from-store_to, load_from-store_to_apart,
}

-- The session after the store: the number is at `d`, and all else is as it was.
record Stored (c : Session) (d w v : ℕ) (c' : Session) : Type 0 where
  done : store c d w v ≡ some c'
  there : load c' d w ≡ some v
  others : (b u : ℕ) → (b + u ≤ d) ⊎ (d + w ≤ b) → load c' b u ≡ load c b u

-- The bytes of the pointer's segment are all in memory.
abbrev pub InBytes : (c : Session) (p : Ptr) → Inside c p → Type 0
InBytes c p i = i.home.len ≤ length i.home.bytes

module _ (w : ℕ) (c : Session) (p : Ptr) (inside : Inside c p) (all : InBytes c p inside) (v : ℕ)
    (small : v < 256 ^ w) where
  store-Stored :
      (d : ℕ) → p.addr ≤ d → d + w ≤ p.addr + object_bytes p → (c' : Session) × Stored c d w v c'
  store-Stored d a b =
      let (ss, e) =
        store_to-some inside.home.id d (bytes_of w v) c.seglist inside.known
          (omega (arith, inside.bytes.start))
          (omega (arith, inside.bytes.end, all, length-bytes_of w v)) in
      (
        record c { seglist = ss },
        record {
          done = rw e refl;
          there = load_from-store_to d w v c.seglist small e;
          others = λ b u apart.
              load_from-store_to_apart d (bytes_of w v) b u c.seglist e
                (subst (λ n. (b + u ≤ d) ⊎ (d + n ≤ b)) (sym (length-bytes_of w v)) apart);
        },
      )

abbrev pub loaded : Session → Option ℕ → Option (Session × ℕ)
loaded c o = o >>= λ v. some (c, v)

abbrev written : Option Session → Option (Session × ℤ)
written o = o >>= λ c'. some (c', pos 0)

-- The place of a member is an `int`.
pub index-int : (p : Ptr) (i : ℕ) → p.len * stride p < 2 ^ 31 → i < p.len → i * stride p < 2 ^ 31
index-int p i int l = omega (arith, int, member_end i p.len (stride p) l)

-- `get` on a list whose members are large enough.
pub get-list :
    (w : ℕ) (c : Session) (p : Ptr) (i : ℕ)
    → p.type ≡ list
    → w ≤ p.datasz
    → p.len * stride p < 2 ^ 31
    → get w c p (pos i)
      ≡ (if ltb i p.len then loaded c (load c (p.addr + i * stride p) w) else some (c, 0))
unfolding get get_as
get-list w c p i t h int = elim (Bool-cases (ltb i p.len)) [
  | inl e ↦
      rw
        (
          e,
          t,
          get_as,
          le→ltb p.datasz w h,
          advance-pos p.addr i (stride p) (index-int p i int (ltb→lt i p.len e)),
        )
        refl
  | inr e ↦ rw e refl
]

set-list :
    (w : ℕ) (c : Session) (p : Ptr) (i v : ℕ)
    → p.type ≡ list
    → w ≤ p.datasz
    → i < p.len
    → p.len * stride p < 2 ^ 31
    → set w c p (pos i) v ≡ written (store c (p.addr + i * stride p) w v)
unfolding set set_as
set-list w c p i v t h l int =
    rw
      (
        lt→ltb i p.len l,
        t,
        set_as,
        le→ltb p.datasz w h,
        advance-pos p.addr i (stride p) (index-int p i int l),
      )
      refl

-- Two members of a list do not overlap.
members-apart :
    (d size w i j : ℕ)
    → w ≤ size
    → j ≢ i
    → (d + j * size + w ≤ d + i * size) ⊎ (d + i * size + w ≤ d + j * size)
members-apart d size w i j h ne = elim (Bool-cases (ltb j i)) [
  | inl e ↦ inl (omega (arith, member_end j i size (ltb→lt j i e)))
  | inr e ↦ inr (omega (arith, member_end i j size (ground arith)))
]

-- What `capn_get` reads after a `capn_set` of member `i`.
abbrev pub SetsMember : ℕ → Session → Ptr → ℕ → ℕ → Session → Type 0
SetsMember w c p i v c' =
    (get w c' p (pos i) ≡ some (c', v))
    × ((j x : ℕ) → j ≢ i → get w c p (pos j) ≡ some (c, x) → get w c' p (pos j) ≡ some (c', x))

-- In a list whose object lies in a segment and is below 2 GiB, with all bytes in memory, and whose members
-- have at least `w` bytes, `capn_set` of a number of `w` bytes to an index in range stores it inside the object and
-- returns 0. `capn_get` of the index then gives the number, and of every other index what it gave
-- before.
pub set-get :
    (w : ℕ) (c : Session) (p : Ptr) (i v : ℕ) (inside : Inside c p)
    → InBytes c p inside
    → object_bytes p < 2 ^ 31
    → p.type ≡ list
    → w ≤ p.datasz
    → i < p.len
    → v < 256 ^ w
    → (c' : Session) × (set w c p (pos i) v ≡ some (c', pos 0)) × SetsMember w c p i v c'
set-get w c p i v inside all int t h l small =
    let (c', s) = store-Stored w c p inside all v small (p.addr + i * stride p) (omega arith) (
      omega (arith, member_end i p.len (stride p) l, ap (λ u. extent u p.datasz p.ptrs p.len) t)) in
    (c', rw (set-list w c p i v t h l bytes, s.done) refl, (got c' s, kept c' s))
  where
    bytes : p.len * stride p < 2 ^ 31
    bytes = subst (λ u. extent u p.datasz p.ptrs p.len < 2 ^ 31) t int

    got :
        (c' : Session) → Stored c (p.addr + i * stride p) w v c' → get w c' p (pos i) ≡ some (c', v)
    got c' s = get-list w c' p i t h bytes ∙ rw (lt→ltb i p.len l, s.there) refl

    kept :
        (c' : Session)
        → Stored c (p.addr + i * stride p) w v c'
        → (j x : ℕ) → j ≢ i
        → get w c p (pos j) ≡ some (c, x)
        → get w c' p (pos j) ≡ some (c', x)
    kept c' s j x ne e =
        get-list w c' p j t h bytes
        ∙ moved (ltb j p.len) (load c (p.addr + j * stride p) w)
            (s.others (p.addr + j * stride p) w
              (members-apart p.addr (stride p) w i j (omega (arith, h)) ne))
            (sym (get-list w c p j t h bytes) ∙ e)
      where
        moved :
            (b : Bool) (o : Option ℕ)
            → load c' (p.addr + j * stride p) w ≡ o
            → (if b then loaded c o else some (c, 0)) ≡ some (c, x)
            → (if b then loaded c' (load c' (p.addr + j * stride p) w) else some (c', 0))
              ≡ some (c', x)
        moved false o f g = ap (λ r. some (c', r.1)) (eq_of_some g)
        moved true none f g = cc
        moved true (some y) f g = rw f (ap (λ r. some (c', r.1)) (eq_of_some g))

below-add :
    (i w n : ℕ) → i + w < 2 ^ 31 → below (wrap_int (pos i +ℤ pos w)) (suc n) ≡ ltb (i + w) (suc n)
below-add i w n h = ap (λ z. below z (suc n)) (ap wrap_int sum ∙ wrap_int-small (i + w) h)
  where
    sum : pos i +ℤ pos w ≡ pos (i + w)
    sum = ground arith

read-pos :
    (w : ℕ) (c : Session) (p : Ptr) (i : ℕ)
    → i + w < 2 ^ 31
    → read w c p (pos i)
      ≡ (if ltb (i + w) (suc p.datasz) then load c (p.addr + i * 1) w else some 0)
unfolding read
read-pos w c p i int =
    ap₂ (λ b d. if b then load c d w else some 0) (below-add i w p.datasz int)
      (advance-pos p.addr i 1 (omega (arith, int)))

write-pos :
    (w : ℕ) (c : Session) (p : Ptr) (i v : ℕ)
    → i + w ≤ p.datasz
    → i + w < 2 ^ 31
    → write w c p (pos i) v ≡ written (store c (p.addr + i * 1) w v)
unfolding write
write-pos w c p i v h int =
    ap₂ (λ (b : Bool) d. if b then written (store c d w v) else some (c, negsuc 0))
      (below-add i w p.datasz int ∙ lt→ltb (i + w) (suc p.datasz) (omega arith))
      (advance-pos p.addr i 1 (omega (arith, int)))

-- A field of a struct: the number that `capn_write8` to `capn_write64` stored is read again, and a field
-- that does not overlap with it is as before.
pub write-read :
    (w : ℕ) (c : Session) (p : Ptr) (i v : ℕ) (inside : Inside c p)
    → InBytes c p inside
    → p.type ≡ struct
    → i + w ≤ p.datasz
    → p.datasz < 2 ^ 31
    → v < 256 ^ w
    → (c' : Session) × (write w c p (pos i) v ≡ some (c', pos 0))
      × (read w c' p (pos i) ≡ some v)
      × ((j u : ℕ)
          → j + u < 2 ^ 31
          → (j + u ≤ i) ⊎ (i + w ≤ j)
          → read u c' p (pos j) ≡ read u c p (pos j))
write-read w c p i v inside all t h int small =
    let (c', s) =
      store-Stored w c p inside all v small (p.addr + i * 1) (omega arith)
        (omega (arith, ap (λ u. extent u p.datasz p.ptrs p.len) t)) in
    (
      c',
      rw (write-pos w c p i v h (omega (arith, h, int)), s.done) refl,
      read-pos w c' p i (omega (arith, h, int))
          ∙ rw (lt→ltb (i + w) (suc p.datasz) (omega arith)) s.there,
      λ j u at apart.
          read-pos u c' p j at
          ∙ ap (λ o. if ltb (j + u) (suc p.datasz) then o else some 0)
              (s.others (p.addr + j * 1) u (shifted j u apart))
          ∙ sym (read-pos u c p j at),
    )
  where
    shifted :
        (j u : ℕ)
        → (j + u ≤ i) ⊎ (i + w ≤ j)
        → (p.addr + j * 1 + u ≤ p.addr + i * 1) ⊎ (p.addr + i * 1 + w ≤ p.addr + j * 1)
    shifted j u (inl a) = inl (omega arith)
    shifted j u (inr a) = inr (omega arith)
