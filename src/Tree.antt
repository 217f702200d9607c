-- ===== src/Tree.antt =====
-- `struct capn_tree` of lib/capnp_c.h and `capn_tree_insert` of lib/capn.c: the red-black tree behind
-- the segment table and the copy table.
-- A node is its colour, its two links and the key of the object that it heads. The parent pointers of
-- a node are a path: the chain of its ancestors, each with the link that is not taken.
pub mod Order
pub mod Balance
pub mod Search
mod Tests
use c_capnproto.Common.{Bool, true, false, not, Option, none, some, if◌then◌else◌}

pub data Tree {ℓ} (A : Type ℓ) : Type ℓ where
  nil : Tree A
  node : (red : Bool) (link0 : Tree A) (key : A) (link1 : Tree A) → Tree A

-- `under dir red key other up`: the parent holds the node at `link[dir]` and `other` at `link[!dir]`.
pub data Ancestors {ℓ} (A : Type ℓ) : Type ℓ where
  top : Ancestors A
  under : (dir red : Bool) (key : A) (other : Tree A) (up : Ancestors A) → Ancestors A

module _ {ℓ} {A : Type ℓ} where
  abbrev pub is_red : Tree A → Bool
  is_red nil = false
  is_red (node red l k r) = red

  -- `red = 0`.
  abbrev pub blacken : Tree A → Tree A
  blacken nil = nil
  blacken (node red l k r) = node false l k r

  -- A node with `child` at `link[dir]` and `other` at `link[!dir]`.
  abbrev pub join : Bool → Bool → A → Tree A → Tree A → Tree A
  join true red k child other = node red other k child
  join false red k child other = node red child k other

  -- The whole tree, from a node and its ancestors.
  unfoldable pub plug : Tree A → Ancestors A → Tree A
  plug n top = n
  plug n (under dir red k other up) = plug (join dir red k n other) up

  -- Case 4 (`n` is the inner grandchild) and case 5 of `capn_tree_insert`: the subtree that takes the
  -- place of `g`. `none` is a read through a null pointer.
  unfoldable pub rotate : Bool → Tree A → A → Tree A → Bool → A → Tree A → Option (Tree A)
  rotate dn nil p other dir g u = none
  rotate true (node red l k r) p other true g u =
      some (join true false p (node red l k r) (join true true g other u))
  rotate false (node red l k r) p other false g u =
      some (join false false p (node red l k r) (join false true g other u))
  rotate false (node red l k r) p other true g u =
      some (join true false k (join true true p other r) (join true true g l u))
  rotate true (node red l k r) p other false g u =
      some (join false false k (join false true p other l) (join false true g r u))

  -- The loop of `capn_tree_insert`, from `n` upwards. The result is the new root.
  unfoldable pub insert_fixup : Tree A → Ancestors A → Option (Tree A)
  insert_fixup n top = some (blacken n)
  insert_fixup n (under dn false p other up) = some (plug n (under dn false p other up))
  insert_fixup n (under dn true p other top) = none
  insert_fixup n (under dn true p other (under dir gred g u up)) =
      let moved_up = insert_fixup (join dir true g (join dn false p n other) (blacken u)) up in
      if is_red u
      then moved_up
      else elim (rotate dn n p other dir g u) [ none ↦ none | some t ↦ some (plug t up) ]

  -- `n` has been linked at the end of the path; its links are set to null and it turns red.
  unfoldable pub tree_insert : A → Ancestors A → Option (Tree A)
  tree_insert k path = insert_fixup (node true nil k nil) path
