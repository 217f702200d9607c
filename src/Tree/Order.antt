-- ===== src/Tree/Order.antt =====
-- The order of the keys in a tree of lib/capn.c, and that `capn_tree_insert` does not change it.
use c_capnproto.Common.{
  ◌≡◌, refl, sym, ap, ◌∙◌, Bool, true, false, Option, none, some, List, [], ◌∷◌, ◌++◌, append_assoc,
  append-nil, ap₂, eq_of_some, inl, inr, Bool-cases,
}
use c_capnproto.Tree.{
  Tree, nil, node, Ancestors, top, under, is_red, blacken, join, plug, rotate, insert_fixup,
  tree_insert,
}

module _ {ℓ} {A : Type ℓ} where
  -- The keys from the first to the last.
  unfoldable pub inorder : Tree A → List A
  inorder nil = []
  inorder (node red l k r) = inorder l ++ (k ∷ inorder r)

  -- The keys before and behind the place that a path leads to.
  unfoldable pub keys_before : Ancestors A → List A
  unfolding inorder
  keys_before top = []
  keys_before (under true red k other up) = keys_before up ++ (inorder other ++ (k ∷ []))
  keys_before (under false red k other up) = keys_before up

  unfoldable pub keys_behind : Ancestors A → List A
  unfolding inorder
  keys_behind top = []
  keys_behind (under true red k other up) = keys_behind up
  keys_behind (under false red k other up) = (k ∷ inorder other) ++ keys_behind up

  inorder-blacken : (t : Tree A) → inorder (blacken t) ≡ inorder t
  unfolding inorder
  inorder-blacken nil = refl
  inorder-blacken (node red l k r) = refl

  pub inorder-plug :
      (n : Tree A) (path : Ancestors A)
      → inorder (plug n path) ≡ keys_before path ++ (inorder n ++ keys_behind path)
  unfolding inorder keys_before keys_behind plug
  inorder-plug n top = sym (append-nil (inorder n))
  inorder-plug n (under true red k other up) =
      inorder-plug (node red other k n) up ∙ simp append_assoc
  inorder-plug n (under false red k other up) =
      inorder-plug (node red n k other) up ∙ simp append_assoc

  rotate-inorder :
      (dn : Bool) (n : Tree A) (p : A) (other : Tree A) (dir : Bool) (g : A) (u : Tree A)
      {t : Tree A}
      → rotate dn n p other dir g u ≡ some t
      → inorder t ≡ inorder (join dir true g (join dn true p n other) u)
  unfolding inorder rotate
  rotate-inorder dn nil p other dir g u e = cc
  rotate-inorder true (node red l k r) p other true g u e =
      sym (ap inorder (eq_of_some e)) ∙ simp append_assoc
  rotate-inorder false (node red l k r) p other false g u e =
      sym (ap inorder (eq_of_some e)) ∙ simp append_assoc
  rotate-inorder false (node red l k r) p other true g u e =
      sym (ap inorder (eq_of_some e)) ∙ simp append_assoc
  rotate-inorder true (node red l k r) p other false g u e =
      sym (ap inorder (eq_of_some e)) ∙ simp append_assoc

  -- The order depends on the order of the parts only.
  join-cong :
      (dir red red' : Bool) (k : A) (a b c d : Tree A)
      → inorder a ≡ inorder b
      → inorder c ≡ inorder d
      → inorder (join dir red k a c) ≡ inorder (join dir red' k b d)
  unfolding inorder
  join-cong true red red' k a b c d e f = ap₂ (λ x y. x ++ (k ∷ y)) f e
  join-cong false red red' k a b c d e f = ap₂ (λ x y. x ++ (k ∷ y)) e f

  plug-cong :
      (a b : Tree A) (up : Ancestors A)
      → inorder a ≡ inorder b
      → inorder (plug a up) ≡ inorder (plug b up)
  plug-cong a b up e =
      inorder-plug a up
      ∙ ap (λ x. keys_before up ++ (x ++ keys_behind up)) e
      ∙ sym (inorder-plug b up)

  -- `capn_tree_insert` leaves the keys in order: those before the new node's place, its own, and those
  -- behind.
  insert_fixup-inorder :
      (n : Tree A) (path : Ancestors A) {t : Tree A}
      → insert_fixup n path ≡ some t
      → inorder t ≡ inorder (plug n path)
  unfolding insert_fixup
  insert_fixup-inorder n top {t} e =
      sym (ap inorder (eq_of_some e)) ∙ inorder-blacken n ∙ unfold plug in refl
  insert_fixup-inorder n (under dn false p other up) e = sym (ap inorder (eq_of_some e))
  insert_fixup-inorder n (under dn true p other top) e = cc
  insert_fixup-inorder n (under dn true p other (under dir gred g u up)) {t} e =
      elim (Bool-cases (is_red u)) [
        | inl r ↦
            insert_fixup-inorder (join dir true g (join dn false p n other) (blacken u)) up
              (rw r at e)
            ∙ unfold plug in
              plug-cong _ _ up (
                join-cong dir true gred g _ _ _ _
                  (join-cong dn false true p n n other other refl refl) (inorder-blacken u))
        | inr b ↦ unfold plug in turn (rotate dn n p other dir g u) refl (rw b at e)
      ]
    where
      turn :
          (r : Option (Tree A))
          → rotate dn n p other dir g u ≡ r
          → (elim r [ none ↦ none | some s ↦ some (plug s up) ]) ≡ some t
          → inorder t ≡ inorder (plug (join dir gred g (join dn true p n other) u) up)
      turn none _ f = cc
      turn (some s) c f =
          sym (ap inorder (eq_of_some f))
          ∙ plug-cong s _ up
              (rotate-inorder dn n p other dir g u c ∙ join-cong dir true gred g _ _ u u refl refl)

  -- The keys after an insertion: those before the place, the new one, those behind.
  pub tree_insert-inorder :
      (k : A) (path : Ancestors A) {t : Tree A}
      → tree_insert k path ≡ some t
      → inorder t ≡ keys_before path ++ (k ∷ keys_behind path)
  unfolding tree_insert inorder
  tree_insert-inorder k path e =
      insert_fixup-inorder (node true nil k nil) path e ∙ inorder-plug (node true nil k nil) path
