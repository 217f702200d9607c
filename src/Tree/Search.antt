-- ===== src/Tree/Search.antt =====
-- The search for a segment id in the tree of lib/capn.c (the loop of `lookup_segment`).
use c_capnproto.Common.{
  ℕ, zero, suc, ◌+◌, ◌≤◌, ◌<◌, ◌≡◌, refl, sym, ap, ap₂, subst, ◌∙◌, ◌-◌, Bool, true, false, List,
  [], ◌∷◌, ◌++◌, ltb, ◌==◌, if◌then◌else◌, arith, inl, inr, Bool-cases, ==→eq, ==→ne, ltb→lt,
  ltb→le, length,
}
use c_capnproto.Tree.{Tree, nil, node, Ancestors, under, is_red, plug}
use c_capnproto.Tree.Order.{inorder}
use c_capnproto.Tree.Balance.{Fine, Fits, PathOk}

-- Where the search ends: at the node that holds the id, or at an empty link.
pub data Search : Type 0 where
  found : (red : Bool) (link0 link1 : Tree ℕ) (path : Ancestors ℕ) → Search
  missing : (path : Ancestors ℕ) → Search

-- `while (*x)`, with the path down to `*x`.
unfoldable pub search_id : ℕ → Tree ℕ → Ancestors ℕ → Search
search_id id nil path = missing path
search_id id (node red l k r) path =
    let left = search_id id l (under false red k r path) in
    let right = search_id id r (under true red k l path) in
    if id == k then found red l r path else if ltb id k then left else right

-- The ids of the tree are `lo`, `lo + 1`, … up to `hi`, which is not among them.
abbrev pub Dense : ℕ → ℕ → Tree ℕ → Type 0
Dense lo hi nil = lo ≡ hi
Dense lo hi (node red l k r) = Dense lo k l × Dense (suc k) hi r

-- Every id of the range is found, and a found node stands where the path leads.
pub data SearchLem (id : ℕ) (whole : Tree ℕ) : Search → Type 0 where
  found_lem :
      {red : Bool} {l r : Tree ℕ} {path : Ancestors ℕ} (h : ℕ)
      → plug (node red l id r) path ≡ whole
      → Fine h (node red l id r)
      → PathOk path h
      → Fits red path
      → SearchLem id whole (found red l r path)

black_child_Fits :
    (dir : Bool) (k : ℕ) (other : Tree ℕ) (path : Ancestors ℕ) (b : Bool)
    → Fits b (under dir false k other path)
black_child_Fits dir k other path true = (refl, refl)
black_child_Fits dir k other path false = tt

pub search_id_lem :
    (id : ℕ) (t whole : Tree ℕ) (path : Ancestors ℕ) (lo hi h : ℕ)
    → Dense lo hi t
    → lo ≤ id
    → id < hi
    → plug t path ≡ whole
    → Fine h t
    → PathOk path h
    → Fits (is_red t) path
    → SearchLem id whole (search_id id t path)
unfolding search_id plug
search_id_lem id nil whole path lo hi h d a b e f p c = absurd (omega arith)
search_id_lem id (node true l k r) whole path lo hi h d a b e f p c = elim (Bool-cases (id == k)) [
  | inl q ↦
      rw q (
        found_lem h (subst (λ x. plug (node true l x r) path ≡ whole) (sym (==→eq id k q)) e) f p c)
  | inr q ↦ rw q (elim (Bool-cases (ltb id k)) [
    | inl m ↦ rw m (
        search_id_lem id l whole (under false true k r path) lo k h d.0 a (ltb→lt id k m) e
          (f.0.0, f.1.2) (f.1.1, c.0, c.1, f.1.3, f.0.1, p) (rw f.1.0 tt))
    | inr m ↦ rw m (
        search_id_lem id r whole (under true true k l path) (suc k) hi h d.1
          (omega (arith, ==→ne id k q, ltb→le id k m)) b e (f.0.1, f.1.3)
          (f.1.0, c.0, c.1, f.1.2, f.0.0, p) (rw f.1.1 tt))
  ])
]
search_id_lem id (node false l k r) whole path lo hi zero d a b e f p c = absurd f.0
search_id_lem id (node false l k r) whole path lo hi (suc h) d a b e f p c =
    elim (Bool-cases (id == k)) [
      | inl q ↦ rw q (
          found_lem (suc h)
            (subst (λ x. plug (node false l x r) path ≡ whole) (sym (==→eq id k q)) e) f p c)
      | inr q ↦ rw q (elim (Bool-cases (ltb id k)) [
        | inl m ↦ rw m (
            search_id_lem id l whole (under false false k r path) lo k h d.0 a (ltb→lt id k m) e
              (f.0.0, f.1.0) (f.1.1, f.0.1, p) (black_child_Fits false k r path (is_red l)))
        | inr m ↦ rw m (
            search_id_lem id r whole (under true false k l path) (suc k) hi h d.1
              (omega (arith, ==→ne id k q, ltb→le id k m)) b e (f.0.1, f.1.1) (f.1.0, f.0.0, p)
              (black_child_Fits true k l path (is_red r)))
      ])
    ]

-- `lo`, `lo + 1`, … : `n` numbers.
abbrev pub range : ℕ → ℕ → List ℕ
range lo zero = []
range lo (suc n) = lo ∷ range (suc lo) n

pub range_eq : (a b m n : ℕ) → a ≡ b → m ≡ n → range a m ≡ range b n
range_eq a b m n e f = ap₂ range e f

pub range-append : (m n lo : ℕ) → range lo m ++ range (lo + m) n ≡ range lo (m + n)
range-append zero n lo = range_eq (lo + 0) lo n (0 + n) (omega arith) (omega arith)
range-append (suc m) n lo =
    ap (λ t. lo ∷ t)
      (ap (λ t. range (suc lo) m ++ t) (range_eq (lo + suc m) (suc lo + m) n n (omega arith) refl)
        ∙ range-append m n (suc lo))
    ∙ range_eq lo lo (suc (m + n)) (suc m + n) refl (omega arith)

-- A dense tree holds its range in order, and a tree that does is dense.
pub Dense-inorder :
    (t : Tree ℕ) (lo hi : ℕ) → Dense lo hi t → (lo ≤ hi) × (inorder t ≡ range lo (hi - lo))
unfolding inorder
Dense-inorder nil lo hi d = (omega arith, range_eq lo lo 0 (hi - lo) refl (omega arith))
Dense-inorder (node red l k r) lo hi d =
    let a = Dense-inorder l lo k d.0 in
    let b = Dense-inorder r (suc k) hi d.1 in
    (
      omega (arith, a.0, b.0),
      ap₂ (λ x y. x ++ (k ∷ y)) a.1 b.1
          ∙ ap (λ t. range lo (k - lo) ++ t)
              (range_eq k (lo + (k - lo)) (suc (hi - suc k)) (suc (hi - suc k)) (omega (arith, a.0))
                refl)
          ∙ range-append (k - lo) (suc (hi - suc k)) lo
          ∙ range_eq lo lo (k - lo + suc (hi - suc k)) (hi - lo) refl (omega (arith, a.0, b.0)),
    )

head_eq : {x y : ℕ} {xs ys : List ℕ} → x ∷ xs ≡ y ∷ ys → x ≡ y
head_eq e = cc

tail_eq : {x y : ℕ} {xs ys : List ℕ} → x ∷ xs ≡ y ∷ ys → xs ≡ ys
tail_eq e = cc

pub range_split :
    (xs ys : List ℕ) (k lo n : ℕ)
    → xs ++ (k ∷ ys) ≡ range lo n
    → (k ≡ lo + length xs)
      × (xs ≡ range lo (length xs))
      × (ys ≡ range (suc k) (n - length xs - 1))
      × (length xs < n)
range_split [] ys k lo zero e = cc
range_split [] ys k lo (suc n) e =
    let h = head_eq e in
    (
      omega arith,
      refl,
      tail_eq e ∙ range_eq (suc lo) (suc k) n (suc n - 0 - 1) (omega arith) (omega arith),
      omega arith,
    )
range_split (x ∷ xs) ys k lo zero e = cc
range_split (x ∷ xs) ys k lo (suc n) e =
    let h = head_eq e in
    let r = range_split xs ys k (suc lo) n (tail_eq e) in
    (
      omega (arith, r.0),
      ap₂ ◌∷◌ h r.1,
      r.2
          ∙ range_eq (suc k) (suc k) (n - length xs - 1) (suc n - suc (length xs) - 1) refl
              (omega arith),
      omega (arith, r.3),
    )

pub inorder-Dense : (t : Tree ℕ) (lo n : ℕ) → inorder t ≡ range lo n → Dense lo (lo + n) t
unfolding inorder
inorder-Dense nil lo zero e = omega arith
inorder-Dense nil lo (suc n) e = cc
inorder-Dense (node red l k r) lo n e =
    let s = range_split (inorder l) (inorder r) k lo n e in
    (
      subst (λ m. Dense lo m l) (sym s.0) (inorder-Dense l lo (length (inorder l)) s.1),
      subst (λ m. Dense (suc k) m r) (omega (arith, s.0, s.3))
          (inorder-Dense r (suc k) (n - length (inorder l) - 1) s.2),
    )
