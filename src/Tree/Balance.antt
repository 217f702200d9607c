-- ===== src/Tree/Balance.antt =====
-- The balance of the red-black tree of lib/capn.c, and that `capn_tree_insert` keeps it.
use c_capnproto.Common.{
  ℕ, zero, suc, ◌+◌, ◌*◌, ◌^◌, ◌≤◌, max, ◌≡◌, refl, Bool, true, false, some, if◌then◌else◌, inl,
  inr, Bool-cases, arith, ◌∷◌, length, length-append,
}
use c_capnproto.Tree.{
  Tree, nil, node, Ancestors, top, under, is_red, blacken, join, plug, rotate, insert_fixup,
}
use native.Mathlib.Nat.{pow-suc}
use c_capnproto.Tree.Order.{inorder}

one_if_red : (b : Bool) → (if b then 1 else 0) ≤ 1
one_if_red true = omega arith
one_if_red false = omega arith

module _ {ℓ} {A : Type ℓ} where
  -- Every way down from the root meets `h` black nodes.
  abbrev pub BlackHeight : Tree A → ℕ → Type 0
  BlackHeight nil h = h ≡ 0
  BlackHeight (node true l k r) h = BlackHeight l h × BlackHeight r h
  BlackHeight (node false l k r) zero = ⊥
  BlackHeight (node false l k r) (suc h) = BlackHeight l h × BlackHeight r h

  -- No red node has a red child.
  abbrev pub NoRedRed : Tree A → Type 0
  NoRedRed nil = Unit {0}
  NoRedRed (node true l k r) = (is_red l ≡ false) × (is_red r ≡ false) × NoRedRed l × NoRedRed r
  NoRedRed (node false l k r) = NoRedRed l × NoRedRed r

  -- A red-black tree with `h` black nodes on every way down.
  pub record IsRedBlack (h : ℕ) (t : Tree A) : Type 0 where
    pub root_black : is_red t ≡ false
    pub heights : BlackHeight t h
    pub reds : NoRedRed t

  abbrev pub parent_red : Ancestors A → Bool
  parent_red top = false
  parent_red (under dir red key other up) = red

  abbrev pub is_top : Ancestors A → Bool
  is_top top = true
  is_top (under dir red key other up) = false

  -- A path on which a node of black height `h` makes a tree that is red-black but for the colours of
  -- the node and its parent: what the loop of `capn_tree_insert` relies on.
  abbrev pub PathOk : Ancestors A → ℕ → Type 0
  PathOk top h = Unit {0}
  PathOk (under dir true k other up) h =
      (is_red other ≡ false)
      × (parent_red up ≡ false)
      × (is_top up ≡ false)
      × NoRedRed other
      × BlackHeight other h
      × PathOk up h
  PathOk (under dir false k other up) h = NoRedRed other × BlackHeight other h × PathOk up (suc h)

  -- A node of the given colour may stand at the end of the path.
  abbrev pub Fits : Bool → Ancestors A → Type 0
  Fits false path = Unit {0}
  Fits true path = (parent_red path ≡ false) × (is_top path ≡ false)

  -- A red-black tree with some black height.
  abbrev pub Balanced : Tree A → Type 0
  Balanced t = (h : ℕ) × IsRedBlack h t

  -- A subtree of black height `h` that no two red nodes in a row spoil.
  abbrev pub Fine : ℕ → Tree A → Type 0
  Fine h t = BlackHeight t h × NoRedRed t

  join_red-Fine :
      (dir : Bool) (k : A) (a b : Tree A) (h : ℕ)
      → Fine h a
      → Fine h b
      → is_red a ≡ false
      → is_red b ≡ false
      → Fine h (join dir true k a b)
  join_red-Fine true k a b h x y c d = ((y.0, x.0), (d, c, y.1, x.1))
  join_red-Fine false k a b h x y c d = ((x.0, y.0), (c, d, x.1, y.1))

  join_black-Fine :
      (dir : Bool) (k : A) (a b : Tree A) (h : ℕ)
      → Fine h a
      → Fine h b
      → Fine (suc h) (join dir false k a b)
  join_black-Fine true k a b h x y = ((y.0, x.0), (y.1, x.1))
  join_black-Fine false k a b h x y = ((x.0, y.0), (x.1, y.1))

  is_red-join : (dir red : Bool) (k : A) (a b : Tree A) → is_red (join dir red k a b) ≡ red
  is_red-join true red k a b = refl
  is_red-join false red k a b = refl

  blacken-Fine : (t : Tree A) (h : ℕ) → Fine h t → is_red t ≡ true → Fine (suc h) (blacken t)
  blacken-Fine nil h x e = cc
  blacken-Fine (node true l k r) h x e = (x.0, (x.1.2, x.1.3))
  blacken-Fine (node false l k r) h x e = cc

  Fits-below_red :
      (red dir : Bool) (k : A) (other : Tree A) (up : Ancestors A)
      → Fits red (under dir true k other up)
      → red ≡ false
  Fits-below_red true dir k other up f = cc (f.0)
  Fits-below_red false dir k other up f = refl

  Fits-top : (red : Bool) (path : Ancestors A) → is_top path ≡ true → Fits red path → red ≡ false
  Fits-top true path e f = cc (e, f.1)
  Fits-top false path e f = refl

  is_red-blacken : (t : Tree A) → is_red (blacken t) ≡ false
  is_red-blacken nil = refl
  is_red-blacken (node red l k r) = refl

  plug-Balanced :
      (n : Tree A) (path : Ancestors A) (h : ℕ)
      → Fine h n
      → PathOk path h
      → Fits (is_red n) path
      → Balanced (plug n path)
  unfolding plug
  plug-Balanced n top h b p f =
      (h, record { root_black = Fits-top (is_red n) top refl f; heights = b.0; reds = b.1 })
  plug-Balanced n (under dir true k other up) h b p f =
      plug-Balanced (join dir true k n other) up h
        (join_red-Fine dir k n other h b (p.4, p.3) (Fits-below_red (is_red n) dir k other up f)
          p.0)
        p.5 (rw (is_red-join dir true k n other) (p.1, p.2))
  plug-Balanced n (under dir false k other up) h b p f =
      plug-Balanced (join dir false k n other) up (suc h)
        (join_black-Fine dir k n other h b (p.1, p.0)) p.2 (rw (is_red-join dir false k n other) tt)

  module _ (l : Tree A) (k : A) (r : Tree A) (q : A) (other : Tree A) (g : A) (u : Tree A) (h : ℕ)
      (fn : Fine h (node true l k r)) (fo : Fine h other) (fu : Fine h u)
      (bo : is_red other ≡ false) (bu : is_red u ≡ false) where
    fl : Fine h l
    fl = (fn.0.0, fn.1.2)

    fr : Fine h r
    fr = (fn.0.1, fn.1.3)

    -- A rotation gives a black node in the place of `g`.
    rotate-Fine :
        (dn dir : Bool)
        → (t : Tree A) × (rotate dn (node true l k r) q other dir g u ≡ some t)
          × Fine (suc h) t
          × (is_red t ≡ false)
    unfolding rotate
    rotate-Fine true true = (
      _,
      refl,
      join_black-Fine true q (node true l k r) (join true true g other u) h fn
          (join_red-Fine true g other u h fo fu bo bu),
      refl,
    )
    rotate-Fine false false = (
      _,
      refl,
      join_black-Fine false q (node true l k r) (join false true g other u) h fn
          (join_red-Fine false g other u h fo fu bo bu),
      refl,
    )
    rotate-Fine false true = (
      _,
      refl,
      join_black-Fine true k (join true true q other r) (join true true g l u) h
          (join_red-Fine true q other r h fo fr bo fn.1.1)
          (join_red-Fine true g l u h fl fu fn.1.0 bu),
      refl,
    )
    rotate-Fine true false = (
      _,
      refl,
      join_black-Fine false k (join false true q other l) (join false true g r u) h
          (join_red-Fine false q other l h fo fl bo fn.1.0)
          (join_red-Fine false g r u h fr fu fn.1.1 bu),
      refl,
    )

  -- The loop of `capn_tree_insert`, where the uncle is black and where it is red.
  abbrev pub Fixed : Tree A → Ancestors A → Type ℓ
  Fixed n path = (t : Tree A) × (insert_fixup n path ≡ some t) × Balanced t

  turned :
      (dn dir : Bool) (l : Tree A) (k : A) (r : Tree A) (q : A) (other : Tree A) (g : A)
      (u : Tree A) (up : Ancestors A) (h : ℕ)
      → Fine h (node true l k r)
      → PathOk (under dn true q other (under dir false g u up)) h
      → is_red u ≡ false
      → Fixed (node true l k r) (under dn true q other (under dir false g u up))
  unfolding insert_fixup
  turned dn dir l k r q other g u up h fn p e =
      let (t, c, ft, bt) =
        rotate-Fine l k r q other g u h fn (p.4, p.3) (p.5.1, p.5.0) p.0 e dn dir in
      (plug t up, rw (e, c), plug-Balanced t up (suc h) ft p.5.2 (rw bt tt))

  recoloured :
      (dn dir : Bool) (l : Tree A) (k : A) (r : Tree A) (q : A) (other : Tree A) (g : A)
      (u : Tree A) (up : Ancestors A)
      → is_red u ≡ true
      → Fixed (join dir true g (join dn false q (node true l k r) other) (blacken u)) up
      → Fixed (node true l k r) (under dn true q other (under dir false g u up))
  unfolding insert_fixup
  recoloured dn dir l k r q other g u up e f = (f.0, rw e f.1, f.2)

  -- On such a path `capn_tree_insert` meets no null pointer, and the new tree is red-black.
  pub insert_fixup-Balanced :
      (l : Tree A) (k : A) (r : Tree A) (path : Ancestors A) (h : ℕ)
      → Fine h (node true l k r)
      → PathOk path h
      → Fixed (node true l k r) path
  insert_fixup-Balanced l k r top h b p =
      unfold insert_fixup in
      (
        node false l k r,
        refl,
        (suc h, record { root_black = refl; heights = b.0; reds = (b.1.2, b.1.3) }),
      )
  insert_fixup-Balanced l k r (under dn false q other up) h b p =
      unfold insert_fixup in
      (_, refl, plug-Balanced (node true l k r) (under dn false q other up) h b p (refl, refl))
  insert_fixup-Balanced l k r (under dn true q other top) h b p = cc (p.2)
  insert_fixup-Balanced l k r (under dn true q other (under dir true g u up)) h b p = cc (p.1)
  insert_fixup-Balanced l k r (under dn true q other (under true false g u up)) h b p =
      elim (Bool-cases (is_red u)) [
        | inl e ↦ recoloured dn true l k r q other g u up e (
            insert_fixup-Balanced (blacken u) g (join dn false q (node true l k r) other) up (suc h)
              (join_red-Fine true g (join dn false q (node true l k r) other) (blacken u) (suc h)
                (join_black-Fine dn q (node true l k r) other h b (p.4, p.3))
                (blacken-Fine u h (p.5.1, p.5.0) e) (is_red-join dn false q (node true l k r) other)
                (is_red-blacken u))
              p.5.2)
        | inr e ↦ turned dn true l k r q other g u up h b p e
      ]
  insert_fixup-Balanced l k r (under dn true q other (under false false g u up)) h b p =
      elim (Bool-cases (is_red u)) [
        | inl e ↦ recoloured dn false l k r q other g u up e (
            insert_fixup-Balanced (join dn false q (node true l k r) other) g (blacken u) up (suc h)
              (join_red-Fine false g (join dn false q (node true l k r) other) (blacken u) (suc h)
                (join_black-Fine dn q (node true l k r) other h b (p.4, p.3))
                (blacken-Fine u h (p.5.1, p.5.0) e) (is_red-join dn false q (node true l k r) other)
                (is_red-blacken u))
              p.5.2)
        | inr e ↦ turned dn false l k r q other g u up h b p e
      ]

  -- The size of a tree, and the longest way down.
  unfoldable pub depth : Tree A → ℕ
  depth nil = 0
  depth (node red l k r) = suc (max (depth l) (depth r))

  depth_bound : (t : Tree A) (h : ℕ) → Fine h t → depth t ≤ 2 * h + (if is_red t then 1 else 0)
  unfolding depth
  depth_bound nil h f = omega arith
  depth_bound (node true l k r) h f =
      let a = rw f.1.0 at (depth_bound l h (f.0.0, f.1.2)) in
      let b = rw f.1.1 at (depth_bound r h (f.0.1, f.1.3)) in omega arith
  depth_bound (node false l k r) zero f = absurd f.0
  depth_bound (node false l k r) (suc h) f = omega (
    arith,
    depth_bound l h (f.0.0, f.1.0),
    depth_bound r h (f.0.1, f.1.1),
    one_if_red (is_red l),
    one_if_red (is_red r),
  )

  size_bound : (t : Tree A) (h : ℕ) → Fine h t → 2 ^ h ≤ length (inorder t) + 1
  unfolding inorder
  size_bound nil h f = rw f.0 (omega arith)
  size_bound (node true l k r) h f =
      omega (arith, size_bound l h (f.0.0, f.1.2), length-append (inorder l) (k ∷ inorder r))
  size_bound (node false l k r) zero f = absurd f.0
  size_bound (node false l k r) (suc h) f = omega (
    arith,
    pow-suc 2 h,
    size_bound l h (f.0.0, f.1.0),
    size_bound r h (f.0.1, f.1.1),
    length-append (inorder l) (k ∷ inorder r),
  )

  -- A red-black tree with black height `h` is at most `2 * h` deep and holds at least `2 ^ h - 1` keys:
  -- the depth is at most twice the logarithm of the number of keys.
  pub depth-le-log :
      (t : Tree A) → Balanced t → (h : ℕ) × (depth t ≤ 2 * h) × (2 ^ h ≤ length (inorder t) + 1)
  depth-le-log t (h, b) =
      let d = rw b.root_black at (depth_bound t h (b.heights, b.reds)) in
      (h, omega arith, size_bound t h (b.heights, b.reds))
