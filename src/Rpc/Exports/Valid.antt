-- ===== src/Rpc/Exports/Valid.antt =====
-- The invariant of the export table.
use c_capnproto.Common.{
  ℕ, suc, ◌≡◌, ◌≢◌, refl, sym, ap, ◌∙◌, Bool, true, false, ◌&&◌, Option, none, some, List, ltb,
  if◌then◌else◌, ℤ, pos, negsuc, get_or, to_int, wrap_int, length, Bool-cases, Bool-clash,
  Option-cases, inl, inr, ◌⊎◌, eq→==, ltb→lt, ltb→le, zero, get_or-past,
}
use c_capnproto.Rpc.Conn.{Export, Conn, max_exports, no_export}
use c_capnproto.Rpc.Table.{find_slot, update, length-update, find_slot-misses, update_cases}
use c_capnproto.Rpc.Exports.{
  export_at, serves, is_free, add_reference, new_export, set_export, claim_export, export_as,
  export, minus, keep_references, drop_references, handle_release,
}

-- The table has its size, and no two slots in use have one server: a server is sent under one id.
pub record IsValid (xs : List Export) : Type 0 where
  pub size : length xs ≡ max_exports
  pub distinct :
      (i j : ℕ)
      → (get_or xs i no_export).used ≡ true
      → (get_or xs j no_export).used ≡ true
      → (get_or xs i no_export).server ≡ (get_or xs j no_export).server
      → i ≡ j

-- An assignment that keeps the server of a slot in use, or frees it.
pub update-IsValid :
    (xs : List Export) (k : ℕ) (f : Export → Export)
    → IsValid xs
    → ((e : Export) → (f e).used ≡ true → (e.used ≡ true) × ((f e).server ≡ e.server))
    → IsValid (update k f xs)
update-IsValid xs k f v same = record {
  size = length-update k f xs ∙ v.size;
  distinct = λ i j ui uj e.
      v.distinct i j (before i ui).0 (before j uj).0 (sym (before i ui).1 ∙ e ∙ (before j uj).1);
}
  where
    before :
        (i : ℕ)
        → (get_or (update k f xs) i no_export).used ≡ true
        → ((get_or xs i no_export).used ≡ true)
          × ((get_or (update k f xs) i no_export).server ≡ (get_or xs i no_export).server)
    before i =
        update_cases
          (λ x.
            x.used ≡ true
            → ((get_or xs i no_export).used ≡ true) × (x.server ≡ (get_or xs i no_export).server))
          k f xs no_export i (λ e l h. same _ h) (λ n h. (h, refl)) (λ h. cc)

-- A claim of a free slot for a server that no slot in use has.
claim-IsValid :
    (xs : List Export) (k server dispatch : ℕ)
    → IsValid xs
    → ((i : ℕ) → (get_or xs i no_export).used ≡ true → (get_or xs i no_export).server ≢ server)
    → IsValid (update k (new_export server dispatch) xs)
claim-IsValid xs k server dispatch v fresh = record {
  size = length-update k f xs ∙ v.size;
  distinct = λ i j ui uj e. join i j (before i ui) (before j uj) e;
}
  where
    f : Export → Export
    f = new_export server dispatch

    Source : ℕ → ℕ → Type 0
    Source i s =
        ((k ≡ i) × (s ≡ server))
        ⊎ (((get_or xs i no_export).used ≡ true) × (s ≡ (get_or xs i no_export).server))

    before :
        (i : ℕ)
        → (get_or (update k f xs) i no_export).used ≡ true
        → Source i (get_or (update k f xs) i no_export).server
    before i =
        update_cases (λ x. x.used ≡ true → Source i x.server) k f xs no_export i
          (λ e l h. inl (e, refl)) (λ n h. inr (h, refl)) (λ h. cc)

    join : (i j : ℕ) {s t : ℕ} → Source i s → Source j t → s ≡ t → i ≡ j
    join i j (inl (e, a)) (inl (g, b)) h = sym e ∙ g
    join i j (inl (e, a)) (inr (u, b)) h = absurd (fresh j u (sym b ∙ sym h ∙ a))
    join i j (inr (u, a)) (inl (g, b)) h = absurd (fresh i u (sym a ∙ h ∙ b))
    join i j (inr (u, a)) (inr (w, b)) h = v.distinct i j u w (sym a ∙ h ∙ b)

-- No slot in use has a server that the first loop does not find.
serves-misses :
    (xs : List Export) (server : ℕ)
    → find_slot (serves server) xs ≡ none
    → (i : ℕ) → (get_or xs i no_export).used ≡ true
    → (get_or xs i no_export).server ≢ server
serves-misses xs server h i u e = elim (Bool-cases (ltb i (length xs))) [
  | inl l ↦
      Bool-clash (serves server (get_or xs i no_export)) (rw (u, eq→== _ _ e))
        (find_slot-misses (serves server) xs no_export h i (ltb→lt _ _ l))
  | inr g ↦
      Bool-clash (get_or xs i no_export).used u
        (ap (λ x. x.used) (get_or-past xs i no_export (ltb→le _ _ g)))
]

keep_references-used :
    (e : Export) (left : ℤ)
    → (keep_references e left).used ≡ true
    → (e.used ≡ true) × ((keep_references e left).server ≡ e.server)
keep_references-used e (pos zero) u = cc
keep_references-used e (pos (suc n)) u = (u, refl)
keep_references-used e (negsuc n) u = cc

pub export_as-IsValid :
    (c : Conn) (server dispatch : ℕ) (o : Option ℕ)
    → find_slot (serves server) c.exports ≡ o
    → IsValid c.exports
    → IsValid (export_as c server dispatch o).0.exports
unfolding export_as claim_export
export_as-IsValid c server dispatch (some i) e v =
    update-IsValid c.exports i add_reference v (λ x u. (u, refl))
export_as-IsValid c server dispatch none e v = elim (Option-cases (find_slot is_free c.exports)) [
  | inl n ↦ rw (n, claim_export) v
  | inr (k, s) ↦
      rw (s, claim_export)
        (claim-IsValid c.exports k server dispatch v (serves-misses c.exports server e))
]

-- `capn_rpc_export` keeps the invariant.
pub export-IsValid :
    (c : Conn) (server dispatch : ℕ)
    → IsValid c.exports
    → IsValid (export c server dispatch).0.exports
unfolding export
export-IsValid c server dispatch v = export_as-IsValid c server dispatch _ refl v

-- So does a reference that the vat adds.
pub add_reference-IsValid :
    (xs : List Export) (i : ℕ) → IsValid xs → IsValid (update i add_reference xs)
add_reference-IsValid xs i v = update-IsValid xs i add_reference v (λ x u. (u, refl))

-- And so does `handle_release`, whatever the count.
pub handle_release-IsValid :
    (c : Conn) (id count : ℕ) → IsValid c.exports → IsValid (handle_release c id count).exports
unfolding handle_release drop_references
handle_release-IsValid c id count v = by_test (ltb id max_exports && (export_at c id).used)
  where
    dropped : IsValid (update id (drop_references count) c.exports)
    dropped =
        update-IsValid c.exports id (drop_references count) v
          (λ e u. keep_references-used e (wrap_int (minus e.refcount (to_int count))) u)

    by_test :
        (t : Bool) → IsValid (if t then set_export c id (drop_references count) else c).exports
    by_test true = dropped
    by_test false = v

-- `capn_rpc_export` changes nothing but the exports.
pub export-changes :
    (c : Conn) (server dispatch : ℕ)
    → (export c server dispatch).0 ≡ record c { exports = (export c server dispatch).0.exports }
unfolding export export_as claim_export
export-changes c server dispatch = exported (find_slot (serves server) c.exports)
  where
    claimed :
        (o : Option ℕ)
        → (claim_export c server dispatch o).0
          ≡ record c { exports = (claim_export c server dispatch o).0.exports }
    claimed none = refl
    claimed (some i) = refl

    exported :
        (o : Option ℕ)
        → (export_as c server dispatch o).0
          ≡ record c { exports = (export_as c server dispatch o).0.exports }
    exported none = claimed (find_slot is_free c.exports)
    exported (some i) = refl
