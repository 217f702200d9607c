-- ===== src/Rpc/Exports/References.antt =====
-- What `capn_rpc_export` and `handle_release` do to the references of one server.
use c_capnproto.Common.{
  ℕ, zero, suc, ◌+◌, ◌-◌, ◌^◌, ◌≤◌, ◌<◌, ◌≡◌, ◌≢◌, ◌↔◌, refl, sym, ap, ap₂, subst, ◌∙◌, true, false,
  ◌&&◌, Option, none, some, List, ltb, leb, if◌then◌else◌, ℤ, pos, negsuc, sub_ℕ, pos_part, to_int,
  wrap_int, wrap_int-small, wrap_int-big, wrap_int-negative, ltb→lt, ltb→le, get_or, length, arith,
  Bool-cases, Bool-clash, &&-true, inl, inr, ==→eq, eq→==, ne→==, lt→ltb, le→ltb, eq_of_some,
}
use c_capnproto.Rpc.Conn.{Export, Conn, max_exports, no_export}
use c_capnproto.Rpc.Table.{
  find_slot, get-update, find_slot-holds, find_slot-misses, find_slot_unique, find_slot-none,
}
use c_capnproto.Rpc.Exports.{
  export_at, serves, is_free, add_reference, new_export, set_export, claim_export, export_as,
  export, minus, is_spent, keep_references, drop_references, handle_release,
}
use c_capnproto.Rpc.Exports.Valid.{IsValid, export-IsValid}

serves-holds :
    (server : ℕ) (e : Export) → serves server e ≡ true → (e.used ≡ true) × (e.server ≡ server)
serves-holds server e h = ((&&-true _ _ h).0, ==→eq _ _ (&&-true _ _ h).1)

-- What an export that succeeds has done to its slot.
abbrev Exported : Conn → ℕ → ℕ → ℕ → Conn → Type 0
Exported c server dispatch i c' =
    (i < length c.exports) × ((export_at c' i).used ≡ true) × ((export_at c' i).server ≡ server)

set_export-at :
    (c : Conn) (i : ℕ) (f : Export → Export)
    → i < length c.exports
    → export_at (set_export c i f) i ≡ f (export_at c i)
set_export-at c i f h = get-update i f c.exports no_export h

claim_export-Exported :
    (c : Conn) (server dispatch i : ℕ) (o : Option ℕ)
    → find_slot is_free c.exports ≡ o
    → (claim_export c server dispatch o).1 ≡ some i
    → Exported c server dispatch i (claim_export c server dispatch o).0
unfolding claim_export
claim_export-Exported c server dispatch i none e h = cc
claim_export-Exported c server dispatch i (some k) e h =
    subst (λ j. Exported c server dispatch j (set_export c k (new_export server dispatch)))
      (eq_of_some h) (at.0, ap (λ x. x.used) there, ap (λ x. x.server) there)
  where
    at : (k < length c.exports) × (is_free (export_at c k) ≡ true)
    at = find_slot-holds is_free c.exports no_export e

    there :
        export_at (set_export c k (new_export server dispatch)) k
        ≡ new_export server dispatch (export_at c k)
    there = set_export-at c k (new_export server dispatch) at.0

export_as-Exported :
    (c : Conn) (server dispatch i : ℕ) (o : Option ℕ)
    → find_slot (serves server) c.exports ≡ o
    → (export_as c server dispatch o).1 ≡ some i
    → Exported c server dispatch i (export_as c server dispatch o).0
unfolding export_as
export_as-Exported c server dispatch i none e h =
    claim_export-Exported c server dispatch i (find_slot is_free c.exports) refl h
export_as-Exported c server dispatch i (some k) e h =
    subst (λ j. Exported c server dispatch j (set_export c k add_reference)) (eq_of_some h)
      (at.0, ap (λ x. x.used) there ∙ is.0, ap (λ x. x.server) there ∙ is.1)
  where
    at : (k < length c.exports) × (serves server (export_at c k) ≡ true)
    at = find_slot-holds (serves server) c.exports no_export e

    is : ((export_at c k).used ≡ true) × ((export_at c k).server ≡ server)
    is = serves-holds server (export_at c k) at.1

    there : export_at (set_export c k add_reference) k ≡ add_reference (export_at c k)
    there = set_export-at c k add_reference at.0

-- The index that `capn_rpc_export` returns is that of a slot in use, and its server is the one given.
pub export-Exported :
    (c : Conn) (server dispatch i : ℕ)
    → (export c server dispatch).1 ≡ some i
    → (i < length c.exports)
      × ((export_at (export c server dispatch).0 i).used ≡ true)
      × ((export_at (export c server dispatch).0 i).server ≡ server)
unfolding export
export-Exported c server dispatch i h =
    export_as-Exported c server dispatch i (find_slot (serves server) c.exports) refl h

-- In a valid table a server that a slot in use has is found there.
serves-found :
    (xs : List Export) (server i : ℕ)
    → IsValid xs
    → i < length xs
    → (get_or xs i no_export).used ≡ true
    → (get_or xs i no_export).server ≡ server
    → find_slot (serves server) xs ≡ some i
serves-found xs server i v l u e =
    find_slot_unique (serves server) xs no_export i l (rw (u, eq→== _ _ e)) (λ j m h.
      v.distinct j i (serves-holds server (get_or xs j no_export) h).0 u
        ((serves-holds server (get_or xs j no_export) h).1 ∙ sym e))

-- Exported again, a server has the id that it has, whatever is said of its dispatch: the count goes up by one.
pub export-again :
    (c : Conn) (server dispatch other i : ℕ)
    → IsValid c.exports
    → (export c server dispatch).1 ≡ some i
    → export (export c server dispatch).0 server other
      ≡ (set_export (export c server dispatch).0 i add_reference, some i)
unfolding export export_as
export-again c server dispatch other i v h = rw (found) refl
  where
    done : IsValid (export c server dispatch).0.exports
    done = export-IsValid c server dispatch v

    at : Exported c server dispatch i (export c server dispatch).0
    at = export-Exported c server dispatch i h

    found : find_slot (serves server) (export c server dispatch).0.exports ≡ some i
    found =
        serves-found (export c server dispatch).0.exports server i done
          (omega (arith, at.0, done.size, v.size)) at.1 at.2

-- A server is refused if and only if all slots are in use and none has it.
pub export-refused :
    (c : Conn) (server dispatch : ℕ)
    → length c.exports ≡ max_exports
    → ((export c server dispatch).1 ≡ none) ↔ (
        (i : ℕ)
        → i < max_exports
        → ((export_at c i).used ≡ true) × ((export_at c i).server ≢ server))
unfolding export export_as claim_export
export-refused c server dispatch v = (
  λ h i l.
      refused (find_slot (serves server) c.exports) (find_slot is_free c.exports) refl refl h i
        (omega (arith, v)),
  λ h. rw (none_serves h, none_free h) refl,
)
  where
    refused :
        (o f : Option ℕ)
        → find_slot (serves server) c.exports ≡ o
        → find_slot is_free c.exports ≡ f
        → (export_as c server dispatch o).1 ≡ none
        → (i : ℕ) → i < length c.exports
        → ((export_at c i).used ≡ true) × ((export_at c i).server ≢ server)
    refused (some k) f eo ef h i l = cc
    refused none (some k) eo ef h i l =
        absurd (some-ne (subst (λ f. (claim_export c server dispatch f).1 ≡ none) ef h))
      where
        some-ne : ◌≢◌ {A = Option ℕ} (some k) none
        some-ne e = cc
    refused none none eo ef h i l = (
      in_use,
      λ e.
          Bool-clash (serves server (export_at c i)) (rw (in_use, eq→== _ _ e) refl)
            (find_slot-misses (serves server) c.exports no_export eo i l),
    )
      where
        in_use : (export_at c i).used ≡ true
        in_use = elim (Bool-cases (export_at c i).used) [
          | inl u ↦ u
          | inr n ↦
              Bool-clash (is_free (export_at c i)) (rw (n) refl)
                (find_slot-misses is_free c.exports no_export ef i l)
        ]

    none_serves :
        ((i : ℕ)
          → i < max_exports
          → ((export_at c i).used ≡ true) × ((export_at c i).server ≢ server))
        → find_slot (serves server) c.exports ≡ none
    none_serves h =
        find_slot-none (serves server) c.exports no_export
          (λ j l. rw ((h j (omega (arith, v, l))).0, ne→== _ _ (h j (omega (arith, v, l))).1) refl)

    none_free :
        ((i : ℕ)
          → i < max_exports
          → ((export_at c i).used ≡ true) × ((export_at c i).server ≢ server))
        → find_slot is_free c.exports ≡ none
    none_free h =
        find_slot-none is_free c.exports no_export (λ j l. rw ((h j (omega (arith, v, l))).0) refl)

sub_ℕ-spent : (n k : ℕ) → n ≤ k → is_spent (sub_ℕ n k) ≡ true
sub_ℕ-spent n k h = elim (Bool-cases (leb k n)) [
  | inl e ↦ rw (e) (ap (λ m. is_spent (pos m)) {x = n - k} {y = 0} (ground (arith, e)))
  | inr e ↦ rw (e) refl
]

sub_ℕ-left : (n k : ℕ) → k < n → sub_ℕ n k ≡ pos (n - k)
sub_ℕ-left n k h = rw (leb-true) refl
  where
    leb-true : leb k n ≡ true
    leb-true = ground arith

is_spent-left : (n : ℕ) → 0 < n → is_spent (pos n) ≡ false
is_spent-left zero h = absurd (omega arith)
is_spent-left (suc n) h = refl

minus-small : (n k : ℕ) → k < 2 ^ 31 → minus (pos n) (to_int k) ≡ sub_ℕ n k
minus-small n k h =
    rw (lt→ltb k (2 ^ 31) h)
      (ap₂ sub_ℕ {x = n + 0} {y = n} {u = 0 + k} {v = k} (omega arith) (omega arith))

minus-big : (n k : ℕ) → 2 ^ 31 ≤ k → k < 2 ^ 32 → minus (pos n) (to_int k) ≡ pos (n + (2 ^ 32 - k))
minus-big n k h g = rw (le→ltb k (2 ^ 31) h) (
    ap₂ sub_ℕ {x = n + suc (2 ^ 32 - k - 1)} {y = n + (2 ^ 32 - k)} {u = 0 + 0} {v = 0}
      (omega arith) (omega arith)
    ∙ rw (sub_ℕ-left (n + (2 ^ 32 - k)) 0 (omega arith))
        (ap pos {x = n + (2 ^ 32 - k) - 0} {y = n + (2 ^ 32 - k)} (omega arith)))

-- Nothing that is spent stays.
keep_references-live :
    (e : Export) (left : ℤ)
    → (keep_references e left).used ≡ true
    → 0 < pos_part (keep_references e left).refcount
keep_references-live e (pos zero) u = cc
keep_references-live e (pos (suc n)) u = omega arith
keep_references-live e (negsuc n) u = cc

keep_references-spent :
    (e : Export) (n k : ℕ)
    → n ≤ k
    → n < 2 ^ 31
    → k < 2 ^ 31
    → keep_references e (wrap_int (sub_ℕ n k)) ≡ no_export
keep_references-spent e n k h a b = elim (Bool-cases (leb k n)) [
  | inl t ↦ rw t (
      ap (keep_references e)
        (wrap_int-small (n - k) (omega (arith, a)) ∙ ap pos {x = n - k} {y = 0} (omega (arith, h))))
  | inr t ↦ rw (t, wrap_int-negative (k - n - 1) (omega (arith, b))) refl
]

handle_release-drops :
    (c : Conn) (id n count : ℕ) (left : ℤ)
    → IsValid c.exports
    → id < max_exports
    → (export_at c id).used ≡ true
    → (export_at c id).refcount ≡ pos n
    → wrap_int (minus (pos n) (to_int count)) ≡ left
    → export_at (handle_release c id count) id ≡ keep_references (export_at c id) left
unfolding handle_release drop_references
handle_release-drops c id n count left v l u r e =
    ap (λ t. export_at (if t then set_export c id (drop_references count) else c) id) in_use
    ∙ set_export-at c id (drop_references count) (omega (arith, v.size))
    ∙ ap (keep_references (export_at c id)) (ap (λ k. wrap_int (minus k (to_int count))) r ∙ e)
  where
    in_use : (ltb id max_exports && (export_at c id).used) ≡ true
    in_use = rw (lt→ltb id 64 l, u) refl

-- `handle_release` of `count` references of an export that has `n`, an `int`: below 2^31 it takes them
-- off, and clears the slot if none is left. From 2^31 on the count is negative as an `int`, and
-- 2^32 - count references are added in place of that; if the sum is no `int`, it wraps around to a negative
-- number and the slot is cleared. Whatever the count, a slot that is still in use has a reference.
pub handle_release-counts :
    (c : Conn) (id n count : ℕ)
    → IsValid c.exports
    → id < max_exports
    → (export_at c id).used ≡ true
    → (export_at c id).refcount ≡ pos n
    → n < 2 ^ 31
    → count < 2 ^ 32
    → (count < 2 ^ 31
        → export_at (handle_release c id count) id ≡ (
            if leb n count
            then no_export
            else record (export_at c id) { refcount = pos (n - count) }))
      × (2 ^ 31 ≤ count
          → export_at (handle_release c id count) id ≡ (
              if ltb (n + (2 ^ 32 - count)) (2 ^ 31)
              then record (export_at c id) { refcount = pos (n + (2 ^ 32 - count)) }
              else no_export))
      × ((export_at (handle_release c id count) id).used ≡ true
          → 0 < pos_part (export_at (handle_release c id count) id).refcount)
handle_release-counts c id n count v l u r int word = (
  taken,
  added,
  λ e.
      subst (λ (x : Export). 0 < pos_part x.refcount) (sym kept)
        (keep_references-live (export_at c id) (wrap_int (minus (pos n) (to_int count)))
          (subst (λ (x : Export). x.used ≡ true) kept e)),
)
  where
    kept :
        export_at (handle_release c id count) id
        ≡ keep_references (export_at c id) (wrap_int (minus (pos n) (to_int count)))
    kept = handle_release-drops c id n count _ v l u r refl

    taken :
        count < 2 ^ 31
        → export_at (handle_release c id count) id ≡ (
            if leb n count
            then no_export
            else record (export_at c id) { refcount = pos (n - count) })
    taken small = elim (Bool-cases (leb n count)) [
      | inl e ↦
          kept
          ∙ rw (e, minus-small n count small)
              (keep_references-spent (export_at c id) n count (ground (arith, e)) int small)
      | inr e ↦
          kept
          ∙ rw
              (
                e,
                minus-small n count small,
                sub_ℕ-left n count (ground (arith, e)),
                wrap_int-small (n - count) (omega (arith, int)),
                is_spent-left (n - count) (ground (arith, e)),
              )
              refl
    ]

    added :
        2 ^ 31 ≤ count
        → export_at (handle_release c id count) id ≡ (
            if ltb (n + (2 ^ 32 - count)) (2 ^ 31)
            then record (export_at c id) { refcount = pos (n + (2 ^ 32 - count)) }
            else no_export)
    added big = elim (Bool-cases (ltb (n + (2 ^ 32 - count)) (2 ^ 31))) [
      | inl e ↦
          kept
          ∙ rw
              (
                e,
                minus-big n count big word,
                wrap_int-small (n + (2 ^ 32 - count)) (ltb→lt _ _ e),
                is_spent-left (n + (2 ^ 32 - count)) (omega (arith, word)),
              )
              refl
      | inr e ↦
          kept
          ∙ rw
              (
                e,
                minus-big n count big word,
                wrap_int-big (n + (2 ^ 32 - count)) (ltb→le _ _ e) (omega (arith, big, int)),
              )
              refl
    ]
