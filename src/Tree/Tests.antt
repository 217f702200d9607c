-- ===== src/Tree/Tests.antt =====
-- Insertions of lib/capn.c into small trees, and the theorems at one of them.
use c_capnproto.Common.{ℕ, ◌≡◌, refl, true, false, some, ◌∷◌, ◌++◌}
use c_capnproto.Tree.{
  Tree, nil, node, Ancestors, top, under, plug, rotate, insert_fixup, tree_insert,
}
use c_capnproto.Tree.Order.{inorder, keys_before, keys_behind, tree_insert-inorder}
use c_capnproto.Tree.Balance.{Fixed, insert_fixup-Balanced}

-- 2 with two red children, and the place behind the last key.
abbrev three : Tree ℕ
three = node false (node true nil 1 nil) 2 (node true nil 3 nil)

abbrev behind_three : Ancestors ℕ
behind_three = under true true 3 nil (under true false 2 (node true nil 1 nil) top)

-- The uncle is red: the colours change.
insert_red_uncle :
    tree_insert 4 behind_three
    ≡ some (node false (node false nil 1 nil) 2 (node false nil 3 (node true nil 4 nil)))
unfolding tree_insert insert_fixup plug
insert_red_uncle = refl

-- No uncle: an inner grandchild makes two rotations.
insert_inner :
    tree_insert {A = ℕ} 2 (under true true 1 nil (under false false 3 nil top))
    ≡ some (node false (node true nil 1 nil) 2 (node true nil 3 nil))
unfolding tree_insert insert_fixup plug rotate
insert_inner = refl

tree_insert-inorder_example :
    inorder (node false (node false nil 1 nil) 2 (node false nil 3 (node true nil 4 nil)))
    ≡ keys_before behind_three ++ (4 ∷ keys_behind behind_three)
tree_insert-inorder_example = tree_insert-inorder 4 behind_three insert_red_uncle

insert_fixup-Balanced_example : Fixed (node true nil 4 nil) behind_three
insert_fixup-Balanced_example =
    insert_fixup-Balanced nil 4 nil behind_three 0 ((refl, refl), (refl, refl, tt, tt))
      (refl, refl, refl, tt, refl, ((refl, refl, tt, tt), (refl, refl), tt))
