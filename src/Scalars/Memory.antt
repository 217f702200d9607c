-- ===== src/Scalars/Memory.antt =====
-- The memory under the numbers of lib/capn-list.inc: what a store changes, and what it leaves.
use c_capnproto.Common.{
  ℕ, zero, suc, ◌+◌, ◌-◌, ◌*◌, ◌/◌, ◌%◌, ◌^◌, ◌≤◌, ◌<◌, ◌≡◌, refl, sym, ap, subst, ◌∙◌, Bool, true,
  false, ◌&&◌, some, List, [], ◌∷◌, leb, ◌==◌, if◌then◌else◌, arith, ◌⊎◌, inl, inr, eq_of_some,
  Bool-clash, length, drop, ◌>>=◌, >>=-eq-some,
}
use native.Mathlib.Nat.{pow-zero, pow-suc, div-lt_iff_lt-mul}
use c_capnproto.Session.{Segment, find_segment}
use c_capnproto.Decode.Pointers.{little_endian}
use c_capnproto.Scalars.{bytes_of, patch, holds, load_from, store_to}

pub length-bytes_of : (w v : ℕ) → length (bytes_of w v) ≡ w
unfolding bytes_of
length-bytes_of zero v = refl
length-bytes_of (suc w) v = ap suc (length-bytes_of w (v / 256))

-- A number that has `w` bytes at most.
little_endian-bytes_of : (w v : ℕ) → v < 256 ^ w → little_endian w (bytes_of w v) ≡ v
unfolding bytes_of little_endian
little_endian-bytes_of zero v h = omega (arith, subst (λ k. v < k) (pow-zero 256) h)
little_endian-bytes_of (suc w) v h =
    ap (λ k. v % 256 + 256 * k) (little_endian-bytes_of w (v / 256) upper) ∙ omega arith
  where
    upper : v / 256 < 256 ^ w
    upper =
        (div-lt_iff_lt-mul {k = 256} {x = v} {y = 256 ^ w} (omega arith)).1
          (subst (λ k. v < k) (pow-suc 256 w) h)

pub length-patch : (k : ℕ) (vs bs : List ℕ) → length (patch k vs bs) ≡ length bs
unfolding patch
length-patch k vs [] = refl
length-patch zero [] (b ∷ bs) = refl
length-patch zero (v ∷ vs) (b ∷ bs) = ap suc (length-patch zero vs bs)
length-patch (suc k) vs (b ∷ bs) = ap suc (length-patch k vs bs)

-- The new bytes are there.
little_endian-patch :
    (k : ℕ) (vs bs : List ℕ)
    → k + length vs ≤ length bs
    → little_endian (length vs) (drop k (patch k vs bs)) ≡ little_endian (length vs) vs
unfolding patch little_endian
little_endian-patch k [] bs h = refl
little_endian-patch k (v ∷ vs) [] h = absurd (omega arith)
little_endian-patch zero (v ∷ vs) (b ∷ bs) h =
    ap (λ n. v + 256 * n) (little_endian-patch zero vs bs (omega arith))
little_endian-patch (suc k) (v ∷ vs) (b ∷ bs) h = little_endian-patch k (v ∷ vs) bs (omega arith)

-- The bytes before the new ones, and those behind, are not touched.
little_endian-patch_before :
    (j w k : ℕ) (vs bs : List ℕ)
    → j + w ≤ k
    → little_endian w (drop j (patch k vs bs)) ≡ little_endian w (drop j bs)
unfolding patch little_endian
little_endian-patch_before j zero k vs bs h = refl
little_endian-patch_before j (suc w) k vs [] h = refl
little_endian-patch_before zero (suc w) zero vs (b ∷ bs) h = absurd (omega arith)
little_endian-patch_before zero (suc w) (suc k) vs (b ∷ bs) h =
    ap (λ n. b + 256 * n) (little_endian-patch_before zero w k vs bs (omega arith))
little_endian-patch_before (suc j) (suc w) zero vs (b ∷ bs) h = absurd (omega arith)
little_endian-patch_before (suc j) (suc w) (suc k) vs (b ∷ bs) h =
    little_endian-patch_before j (suc w) k vs bs (omega arith)

drop-patch_behind :
    (j k : ℕ) (vs bs : List ℕ) → k + length vs ≤ j → drop j (patch k vs bs) ≡ drop j bs
unfolding patch
drop-patch_behind j k vs [] h = refl
drop-patch_behind zero zero [] (b ∷ bs) h = refl
drop-patch_behind zero zero (v ∷ vs) (b ∷ bs) h = absurd (omega arith)
drop-patch_behind zero (suc k) vs (b ∷ bs) h = absurd (omega arith)
drop-patch_behind (suc j) zero [] (b ∷ bs) h = refl
drop-patch_behind (suc j) zero (v ∷ vs) (b ∷ bs) h = drop-patch_behind j zero vs bs (omega arith)
drop-patch_behind (suc j) (suc k) vs (b ∷ bs) h = drop-patch_behind j k vs bs (omega arith)

holds-end :
    (s : Segment) (d n : ℕ)
    → holds s d n ≡ true
    → (s.data_addr ≤ d) × (d + n ≤ s.data_addr + length s.bytes)
holds-end s d n h = (ground arith, ground arith)

end-holds :
    (s : Segment) (d n : ℕ)
    → s.data_addr ≤ d
    → d + n ≤ s.data_addr + length s.bytes
    → holds s d n ≡ true
end-holds s d n a b = ground arith

patched-holds :
    (s : Segment) (k d n : ℕ) (vs : List ℕ)
    → holds (record s { bytes = patch k vs s.bytes }) d n ≡ holds s d n
patched-holds s k d n vs =
    ap (λ l. leb s.data_addr d && leb (d + n) (s.data_addr + l)) (length-patch k vs s.bytes)

abbrev patched : Segment → ℕ → List ℕ → Segment
patched s d vs = record s { bytes = patch (d - s.data_addr) vs s.bytes }

-- Where the bytes were stored: in the first segment or in a later one.
data Stored (x : Segment) (xs : List Segment) (d : ℕ) (vs : List ℕ) : List Segment → Type 0 where
  here : holds x d (length vs) ≡ true → Stored x xs d vs (patched x d vs ∷ xs)
  later :
      {rest : List Segment}
      → holds x d (length vs) ≡ false
      → store_to xs d vs ≡ some rest
      → Stored x xs d vs (x ∷ rest)

store_to-Stored :
    (x : Segment) (xs : List Segment) (d : ℕ) (vs : List ℕ) {ss' : List Segment}
    → store_to (x ∷ xs) d vs ≡ some ss'
    → Stored x xs d vs ss'
unfolding store_to
store_to-Stored x xs d vs {ss'} = by_test (holds x d (length vs)) refl
  where
    by_test :
        (t : Bool)
        → holds x d (length vs) ≡ t
        → (if t then some (patched x d vs ∷ xs) else (store_to xs d vs >>= λ rest. some (x ∷ rest)))
          ≡ some ss'
        → Stored x xs d vs ss'
    by_test true e h = subst (Stored x xs d vs) (eq_of_some h) (here e)
    by_test false e h =
        let (rest, f, g) = >>=-eq-some (store_to xs d vs) _ h in
        subst (Stored x xs d vs) (eq_of_some g) (later e f)

-- Bytes that one of the segments holds can be stored.
pub store_to-some :
    (id d : ℕ) (vs : List ℕ) (ss : List Segment) {s : Segment}
    → find_segment id ss ≡ some s
    → s.data_addr ≤ d
    → d + length vs ≤ s.data_addr + length s.bytes
    → (ss' : List Segment) × (store_to ss d vs ≡ some ss')
unfolding store_to find_segment
store_to-some id d vs [] h a b = cc
store_to-some id d vs (x ∷ xs) {s} h a b =
    by_test (holds x d (length vs)) refl (x.id == id) (λ k. store_to-some id d vs xs k a b) h
  where
    by_test :
        (t : Bool)
        → holds x d (length vs) ≡ t
        → (u : Bool)
        → (find_segment id xs ≡ some s → (ss' : List Segment) × (store_to xs d vs ≡ some ss'))
        → (if u then some x else find_segment id xs) ≡ some s
        → (ss' : List Segment) × (store_to (x ∷ xs) d vs ≡ some ss')
    by_test true e u go k = rw e (_, refl)
    by_test false e true go k = absurd (
        Bool-clash (holds x d (length vs))
          (subst (λ y. holds y d (length vs) ≡ true) (sym (eq_of_some k))
            (end-holds s d (length vs) a b))
          e)
    by_test false e false go k = let (rest, f) = go k in rw (e, f) (_, refl)

-- Bytes that one of the segments holds can be loaded.
pub load_from-some :
    (id d w : ℕ) (ss : List Segment) {s : Segment}
    → find_segment id ss ≡ some s
    → s.data_addr ≤ d
    → d + w ≤ s.data_addr + length s.bytes
    → (v : ℕ) × (load_from ss d w ≡ some v)
unfolding load_from find_segment
load_from-some id d w [] h a b = cc
load_from-some id d w (x ∷ xs) {s} h a b =
    by_test (holds x d w) refl (x.id == id) (λ k. load_from-some id d w xs k a b) h
  where
    by_test :
        (t : Bool)
        → holds x d w ≡ t
        → (u : Bool) → (find_segment id xs ≡ some s → (v : ℕ) × (load_from xs d w ≡ some v))
        → (if u then some x else find_segment id xs) ≡ some s
        → (v : ℕ) × (load_from (x ∷ xs) d w ≡ some v)
    by_test true e u go k = rw e (_, refl)
    by_test false e true go k = absurd (
        Bool-clash (holds x d w)
          (subst (λ y. holds y d w ≡ true) (sym (eq_of_some k)) (end-holds s d w a b)) e)
    by_test false e false go k = rw e (go k)

-- A number that was stored is loaded again.
pub load_from-store_to :
    (d w v : ℕ) (ss : List Segment) {ss' : List Segment}
    → v < 256 ^ w
    → store_to ss d (bytes_of w v) ≡ some ss'
    → load_from ss' d w ≡ some v
unfolding load_from
load_from-store_to d w v [] small h = unfold store_to in cc
load_from-store_to d w v (x ∷ xs) small h =
    by_place (λ rest k. load_from-store_to d w v xs small k)
      (store_to-Stored x xs d (bytes_of w v) h)
  where
    size : length (bytes_of w v) ≡ w
    size = length-bytes_of w v

    by_place :
        ((rest : List Segment)
          → store_to xs d (bytes_of w v) ≡ some rest
          → load_from rest d w ≡ some v)
        → {ss' : List Segment} → Stored x xs d (bytes_of w v) ss'
        → load_from ss' d w ≡ some v
    by_place go (here e) =
        rw
          (
            patched-holds x (d - x.data_addr) d w (bytes_of w v),
            subst (λ n. holds x d n ≡ true) size e,
          )
          (ap some (
            subst
              (λ n.
                little_endian n
                  (drop (d - x.data_addr) (patch (d - x.data_addr) (bytes_of w v) x.bytes))
                ≡ v)
              size
              (little_endian-patch (d - x.data_addr) (bytes_of w v) x.bytes
                  (omega (arith, holds-end x d (length (bytes_of w v)) e))
                ∙ subst (λ n. little_endian n (bytes_of w v) ≡ v) (sym size)
                    (little_endian-bytes_of w v small))))
    by_place go (later {rest} e f) = rw (subst (λ n. holds x d n ≡ false) size e) (go rest f)

-- Bytes that the store does not meet are as before.
pub load_from-store_to_apart :
    (d : ℕ) (vs : List ℕ) (b w : ℕ) (ss : List Segment) {ss' : List Segment}
    → store_to ss d vs ≡ some ss'
    → (b + w ≤ d) ⊎ (d + length vs ≤ b)
    → load_from ss' b w ≡ load_from ss b w
unfolding load_from
load_from-store_to_apart d vs b w [] h apart = unfold store_to in cc
load_from-store_to_apart d vs b w (x ∷ xs) h apart =
    by_place (λ rest k. load_from-store_to_apart d vs b w xs k apart) (store_to-Stored x xs d vs h)
  where
    same :
        (b + w ≤ d) ⊎ (d + length vs ≤ b)
        → x.data_addr ≤ b
        → x.data_addr ≤ d
        → little_endian w (drop (b - x.data_addr) (patch (d - x.data_addr) vs x.bytes))
          ≡ little_endian w (drop (b - x.data_addr) x.bytes)
    same (inl before) k l =
        little_endian-patch_before (b - x.data_addr) w (d - x.data_addr) vs x.bytes (omega arith)
    same (inr behind) k l =
        ap (little_endian w)
          (drop-patch_behind (b - x.data_addr) (d - x.data_addr) vs x.bytes (omega arith))

    by_holds :
        x.data_addr ≤ d
        → (t : Bool) → holds x b w ≡ t
        → load_from (patched x d vs ∷ xs) b w ≡ load_from (x ∷ xs) b w
    by_holds l true e =
        rw (patched-holds x (d - x.data_addr) b w vs, e)
          (ap some (same apart (holds-end x b w e).0 l))
    by_holds l false e = rw (patched-holds x (d - x.data_addr) b w vs, e) refl

    by_place :
        ((rest : List Segment)
          → store_to xs d vs ≡ some rest
          → load_from rest b w ≡ load_from xs b w)
        → {ss' : List Segment} → Stored x xs d vs ss'
        → load_from ss' b w ≡ load_from (x ∷ xs) b w
    by_place go (here e) = by_holds (holds-end x d (length vs) e).0 (holds x b w) refl
    by_place go (later {rest} e f) =
        ap (λ r. if holds x b w then some (little_endian w (drop (b - x.data_addr) x.bytes)) else r)
          (go rest f)
