-- ===== src/Session/Valid.antt =====
-- The segment table of lib/capn.c: its invariant, and what `capn_append_segment` and `lookup_segment`
-- do on it.
use c_capnproto.Common.{
  ℕ, zero, suc, ◌+◌, ◌-◌, ◌%◌, ◌^◌, ◌≤◌, ◌<◌, ◌≡◌, refl, sym, ap, ap₂, subst, ◌∙◌, Bool, true,
  false, Option, none, some, List, [], ◌∷◌, ◌++◌, ◌==◌, arith, inl, inr, Bool-cases, map,
  map-append, length, length-append, append_assoc, lt→ltb, le→ltb, ==→eq,
}
use c_capnproto.Tree.{Tree, nil, node, Ancestors, top, under, tree_insert, plug}
use c_capnproto.Tree.Order.{inorder, keys_before, keys_behind, inorder-plug, tree_insert-inorder}
use c_capnproto.Tree.Balance.{
  Balanced, IsRedBlack, Fine, BlackHeight, PathOk, Fits, insert_fixup-Balanced,
}
use c_capnproto.Tree.Search.{
  Search, found, missing, search_id, SearchLem, found_lem, search_id_lem, Dense, range,
  Dense-inorder, inorder-Dense, range_split, range_eq, range-append,
}
use c_capnproto.Session.{
  Segment, Session, empty_session, link_list, link_segment, append_segment, lookup_segment,
  lookup_tree,
}

abbrev pub last_id : ℕ → Option ℕ
last_id zero = none
last_id (suc n) = some n

-- The segments are 0, 1, … `segnum - 1`, in the list in this order and in a balanced search tree.
pub record IsValid (c : Session) : Type 0 where
  pub tree_ids : Dense 0 c.segnum c.segtree
  pub balanced : Balanced c.segtree
  pub list_ids : map (λ s. s.id) c.seglist ≡ range 0 c.segnum
  pub last : c.lastseg ≡ last_id c.segnum

pub empty_session-IsValid : IsValid empty_session
empty_session-IsValid = record {
  tree_ids = refl;
  balanced = (0, record { root_black = refl; heights = refl; reds = tt });
  list_ids = refl;
  last = refl;
}

-- A new key at the end of a path.
insert_at :
    (id : ℕ) (path : Ancestors ℕ)
    → PathOk path 0
    → (t : Tree ℕ) × (tree_insert id path ≡ some t) × Balanced t
unfolding tree_insert
insert_at id path p = insert_fixup-Balanced nil id nil path 0 ((refl, refl), (refl, refl, tt, tt)) p

-- Nothing stands behind the last key.
module _ (n : ℕ) (red : Bool) (l : Tree ℕ) (path : Ancestors ℕ) where
  around :
      (r : Tree ℕ)
      → inorder (plug (node red l n r) path) ≡ range 0 (suc n)
      → (keys_before path ++ inorder l ≡ range 0 n) × (inorder r ++ keys_behind path ≡ [])
  around r e =
      let s =
        range_split (keys_before path ++ inorder l) (inorder r ++ keys_behind path) n 0 (suc n)
          (regroup ∙ sym (inorder-plug (node red l n r) path) ∙ e) in
      (
        s.1 ∙ range_eq 0 0 (length (keys_before path ++ inorder l)) n refl (omega (arith, s.0)),
        s.2
            ∙ range_eq (suc n) (suc n) (suc n - length (keys_before path ++ inorder l) - 1) 0 refl
                (omega (arith, s.0)),
      )
    where
      regroup :
          (keys_before path ++ inorder l) ++ (n ∷ (inorder r ++ keys_behind path))
          ≡ keys_before path ++ (inorder (node red l n r) ++ keys_behind path)
      regroup = unfold inorder in simp append_assoc

  last_place :
      (r : Tree ℕ) (h : ℕ)
      → Fine h (node red l n r)
      → PathOk path h
      → Fits red path
      → inorder (plug (node red l n r) path) ≡ range 0 (suc n)
      → PathOk (under true red n l path) 0
  last_place (node x a k b) h f p c e = absurd (
      omega (
        arith,
        ap (λ xs. length xs) (around (node x a k b) e).1,
        length-append {0} (inorder (node x a k b)) (keys_behind path),
        some_keys,
      ))
    where
      some_keys : length (inorder (node x a k b)) ≡ length (inorder a) + suc (length (inorder b))
      some_keys = unfold inorder in length-append {0} (inorder a) (k ∷ inorder b)
  last_place nil h f p c e = at_nil red h f p c
    where
      at_nil :
          (x : Bool) (i : ℕ)
          → Fine i (node x l n nil)
          → PathOk path i
          → Fits x path
          → PathOk (under true x n l path) 0
      at_nil true i g q d =
          (g.1.0, d.0, d.1, g.1.2, subst (BlackHeight l) g.0.1 g.0.0, subst (PathOk path) g.0.1 q)
      at_nil false zero g q d = absurd g.0
      at_nil false (suc i) g q d =
          (g.1.0, subst (BlackHeight l) g.0.1 g.0.0, subst (λ j. PathOk path (suc j)) g.0.1 q)

no_keys : (xs ys : List ℕ) → xs ++ ys ≡ [] → ys ≡ []
no_keys [] ys e = e
no_keys (x ∷ xs) ys e = cc

-- The keys once the next one stands behind the last.
new_keys :
    (n : ℕ) (red : Bool) (l : Tree ℕ) (path : Ancestors ℕ)
    → keys_before path ++ inorder l ≡ range 0 n
    → keys_behind path ≡ []
    → keys_before (under true red n l path) ++ (suc n ∷ keys_behind (under true red n l path))
      ≡ range 0 (suc (suc n))
unfolding keys_before keys_behind
new_keys n red l path before behind =
    regroup
    ∙ ap₂ (λ x y. x ++ (n ∷ suc n ∷ y)) before behind
    ∙ ap (λ t. range 0 n ++ t) (range_eq n (0 + n) 2 2 (omega arith) refl)
    ∙ range-append n 2 0
    ∙ range_eq 0 0 (n + 2) (suc (suc n)) refl (omega arith)
  where
    regroup :
        (keys_before path ++ (inorder l ++ (n ∷ []))) ++ (suc n ∷ keys_behind path)
        ≡ (keys_before path ++ inorder l) ++ (n ∷ suc n ∷ keys_behind path)
    regroup = simp append_assoc

linked :
    (n : ℕ) (tree : Tree ℕ) (h : ℕ)
    → Dense 0 n tree
    → IsRedBlack h tree
    → (t : Tree ℕ) × (link_segment (last_id n) n tree ≡ some t)
      × Balanced t
      × (inorder t ≡ range 0 (suc n))
unfolding link_segment
linked zero tree h d b =
    let (t, e, bal) = insert_at 0 top tt in
    (t, e, bal, tree_insert-inorder 0 top e ∙ unfold keys_before keys_behind in refl)
linked (suc n) tree h d b = behind (search_id n tree top) (
    search_id_lem n tree tree top 0 (suc n) h d (omega arith) (omega arith) (unfold plug in refl)
      (b.heights, b.reds) tt (rw b.root_black tt))
  where
    behind :
        (r : Search)
        → SearchLem n tree r
        → (t : Tree ℕ) × ((elim r [
          | found red l r' path ↦ tree_insert (suc n) (under true red n l path)
          | missing path ↦ none
        ])
            ≡ some t)
          × Balanced t
          × (inorder t ≡ range 0 (suc (suc n)))
    behind _ (found_lem {red} {l} {r} {path} h' e f p c) =
        let whole =
          ap inorder e
          ∙ (Dense-inorder tree 0 (suc n) d).1
          ∙ range_eq 0 0 (suc n - 0) (suc n) refl (omega arith) in
        let (t, ok, bal) =
          insert_at (suc n) (under true red n l path) (last_place n red l path r h' f p c whole) in
        let (before, after) = around n red l path r whole in
        (
          t,
          ok,
          bal,
          tree_insert-inorder (suc n) (under true red n l path) ok
              ∙ new_keys n red l path before (no_keys (inorder r) (keys_behind path) after),
        )

list_lem :
    (n : ℕ) (o : Option ℕ) (ss : List Segment) (s : Segment)
    → o ≡ last_id n
    → map (λ x. x.id) ss ≡ range 0 n
    → link_list o ss s ≡ ss ++ (s ∷ [])
unfolding link_list
list_lem n (some last) ss s e f = refl
list_lem zero none [] s e f = refl
list_lem zero none (x ∷ xs) s e f = cc
list_lem (suc n) none ss s e f = cc

-- `capn_append_segment` on a valid table with room for an id succeeds. The new segment gets the next
-- id, stands last in the list, and the table is valid again.
pub append_segment-IsValid :
    (c : Session) (s : Segment)
    → IsValid c
    → suc c.segnum < 2 ^ 32
    → (c' : Session) × (append_segment c s ≡ some c')
      × IsValid c'
      × (c'.segnum ≡ c.segnum + 1)
      × (c'.seglist ≡ c.seglist ++ (record s { id = c.segnum } ∷ []))
unfolding append_segment
append_segment-IsValid c s v small =
    let (h, b) = v.balanced in
    let (t, e, bal, keys) = linked c.segnum c.segtree h v.tree_ids b in
    let added =
      list_lem c.segnum c.lastseg c.seglist (record s { id = c.segnum }) v.last v.list_ids in
    let n : suc c.segnum ≡ (c.segnum + 1) % 2 ^ 32 = omega arith in
    (
      record c {
        segnum = (c.segnum + 1) % 2 ^ 32;
        segtree = t;
        seglist = link_list c.lastseg c.seglist (record s { id = c.segnum });
        lastseg = some c.segnum;
      },
      rw (link_eq ∙ e, append_segment),
      record {
        tree_ids = subst (λ m. Dense 0 m t) (omega arith) (inorder-Dense t 0 (suc c.segnum) keys);
        balanced = bal;
        list_ids =
            ap (map (λ s. s.id)) added
            ∙ map-append (λ s. s.id) c.seglist (record s { id = c.segnum } ∷ [])
            ∙ ap₂ ◌++◌ v.list_ids (range_eq c.segnum (0 + c.segnum) 1 1 (omega arith) refl)
            ∙ range-append c.segnum 1 0
            ∙ range_eq 0 0 (c.segnum + 1) ((c.segnum + 1) % 2 ^ 32) refl (omega arith);
        last = ap last_id n;
      },
      omega arith,
      added,
    )
  where
    link_eq :
        link_segment c.lastseg c.segnum c.segtree
        ≡ link_segment (last_id c.segnum) c.segnum c.segtree
    link_eq = ap (λ o. link_segment o c.segnum c.segtree) v.last

lookup_tree-some : (c : Session) (id : ℕ) → IsValid c → id < c.segnum → lookup_tree c id ≡ some id
unfolding lookup_tree
lookup_tree-some c id v h =
    let (n, b) = v.balanced in
    rw (lt→ltb id c.segnum h) (
      at (search_id id c.segtree top) (
        search_id_lem id c.segtree c.segtree top 0 c.segnum n v.tree_ids (omega arith) h
          (unfold plug in refl) (b.heights, b.reds) tt (rw b.root_black tt)))
  where
    at :
        (r : Search)
        → SearchLem id c.segtree r
        → (elim r [ found red l k path ↦ some id | missing path ↦ none ]) ≡ some id
    at _ (found_lem h e f p k) = refl

lookup_tree-none : (c : Session) (id : ℕ) → c.segnum ≤ id → lookup_tree c id ≡ none
unfolding lookup_tree
lookup_tree-none c id h = rw (le→ltb id c.segnum h)

-- On a valid table `lookup_segment` finds exactly the ids below `segnum`, whatever segment the search
-- starts from, if that is one of the table.
pub lookup_segment_lem :
    (c : Session) (s : Option ℕ) (id : ℕ)
    → IsValid c
    → ((own : ℕ) → s ≡ some own → own < c.segnum)
    → (id < c.segnum → lookup_segment c s id ≡ some id)
      × (c.segnum ≤ id → lookup_segment c s id ≡ none)
unfolding lookup_segment
lookup_segment_lem c none id v own = (lookup_tree-some c id v, lookup_tree-none c id)
lookup_segment_lem c (some own_id) id v own = elim (Bool-cases (own_id == id)) [
  | inl e ↦ (
    λ h. rw e (ap some (==→eq own_id id e)),
    λ h. absurd (omega (arith, own own_id refl, ==→eq own_id id e)),
  )
  | inr e ↦ (λ h. rw e (lookup_tree-some c id v h), λ h. rw e (lookup_tree-none c id h))
]
