-- ===== src/Rpc/Table.antt =====
-- Tables of a fixed number of slots: the loops `for (i = 0; i < MAX; i++)` of lib/capn-rpc.c that look
-- for a slot, and assignments to a slot.
use c_capnproto.Common.{
  ℕ, zero, suc, ◌<◌, ◌≡◌, ◌≢◌, refl, ap, subst, ◌∙◌, Bool, true, false, Option, none, some, List,
  [], ◌∷◌, length, get_or, All, arith, if◌then◌else◌, Bool-clash, inl, inr, Option-cases,
  eq_of_some,
}
use mathlib.Core.Option

module _ {ℓ} {A : Type ℓ} where
  -- The first slot that passes a test.
  unfoldable pub find_slot : (A → Bool) → List A → Option ℕ
  find_slot p [] = none
  find_slot p (x ∷ xs) = if p x then some 0 else Option.map suc (find_slot p xs)

  -- An assignment to the slot `i`; there is no slot past the end of the table.
  unfoldable pub update : ℕ → (A → A) → List A → List A
  update i f [] = []
  update zero f (x ∷ xs) = f x ∷ xs
  update (suc i) f (x ∷ xs) = x ∷ update i f xs

module _ {ℓ} {A : Type ℓ} where
  pub length-update : (i : ℕ) (f : A → A) (xs : List A) → length (update i f xs) ≡ length xs
  unfolding update
  length-update i f [] = refl
  length-update zero f (x ∷ xs) = refl
  length-update (suc i) f (x ∷ xs) = ap suc (length-update i f xs)

  pub get-update :
      (i : ℕ) (f : A → A) (xs : List A) (d : A)
      → i < length xs
      → get_or (update i f xs) i d ≡ f (get_or xs i d)
  unfolding update
  get-update i f [] d h = absurd (omega arith)
  get-update zero f (x ∷ xs) d h = refl
  get-update (suc i) f (x ∷ xs) d h = get-update i f xs d (omega arith)

  pub get-update_other :
      (i j : ℕ) (f : A → A) (xs : List A) (d : A)
      → i ≢ j
      → get_or (update i f xs) j d ≡ get_or xs j d
  unfolding update
  get-update_other i j f [] d h = refl
  get-update_other zero zero f (x ∷ xs) d h = absurd (h refl)
  get-update_other zero (suc j) f (x ∷ xs) d h = refl
  get-update_other (suc i) zero f (x ∷ xs) d h = refl
  get-update_other (suc i) (suc j) f (x ∷ xs) d h = get-update_other i j f xs d (λ e. h (ap suc e))

  -- A slot that was found is in the table and passes the test.
  pub find_slot-holds :
      (p : A → Bool) (xs : List A) (d : A) {i : ℕ}
      → find_slot p xs ≡ some i
      → (i < length xs) × (p (get_or xs i d) ≡ true)
  unfolding find_slot
  find_slot-holds p [] d h = cc
  find_slot-holds p (x ∷ xs) d h =
      here (p x) (find_slot p xs) refl (λ j e. find_slot-holds p xs d e) h
    where
      here :
          (t : Bool) (o : Option ℕ)
          → p x ≡ t
          → ((j : ℕ) → o ≡ some j → (j < length xs) × (p (get_or xs j d) ≡ true))
          → {i : ℕ} → (if t then some 0 else Option.map suc o) ≡ some i
          → (i < suc (length xs)) × (p (get_or (x ∷ xs) i d) ≡ true)
      here true o e rest h =
          subst (λ k. (k < suc (length xs)) × (p (get_or (x ∷ xs) k d) ≡ true)) (eq_of_some h)
            (omega arith, e)
      here false none e rest h = cc
      here false (some j) e rest h =
          subst (λ k. (k < suc (length xs)) × (p (get_or (x ∷ xs) k d) ≡ true)) (eq_of_some h)
            (omega (arith, (rest j refl).0), (rest j refl).1)

  pub find_slot-misses :
      (p : A → Bool) (xs : List A) (d : A)
      → find_slot p xs ≡ none
      → (i : ℕ) → i < length xs
      → p (get_or xs i d) ≡ false
  unfolding find_slot
  find_slot-misses p [] d h i g = absurd (omega arith)
  find_slot-misses p (x ∷ xs) d h i g =
      here (p x) (find_slot p xs) refl (find_slot-misses p xs d) h i g
    where
      here :
          (t : Bool) (o : Option ℕ)
          → p x ≡ t
          → (o ≡ none → (j : ℕ) → j < length xs → p (get_or xs j d) ≡ false)
          → (if t then some 0 else Option.map suc o) ≡ none
          → (j : ℕ) → j < suc (length xs)
          → p (get_or (x ∷ xs) j d) ≡ false
      here true o e rest h j g = cc
      here false (some k) e rest h j g = cc
      here false none e rest h zero g = e
      here false none e rest h (suc j) g = rest refl j (omega arith)

  -- A test that one slot alone passes finds that slot.
  pub find_slot_unique :
      (p : A → Bool) (xs : List A) (d : A) (i : ℕ)
      → i < length xs
      → p (get_or xs i d) ≡ true
      → ((j : ℕ) → j < length xs → p (get_or xs j d) ≡ true → j ≡ i)
      → find_slot p xs ≡ some i
  find_slot_unique p xs d i h e only = elim (Option-cases (find_slot p xs)) [
    | inl n ↦ Bool-clash (p (get_or xs i d)) e (find_slot-misses p xs d n i h)
    | inr (j, s) ↦ s ∙ ap some (only j (find_slot-holds p xs d s).0 (find_slot-holds p xs d s).1)
  ]

  -- A test that no slot passes finds none.
  pub find_slot-none :
      (p : A → Bool) (xs : List A) (d : A)
      → ((j : ℕ) → j < length xs → p (get_or xs j d) ≡ false)
      → find_slot p xs ≡ none
  find_slot-none p xs d fails = elim (Option-cases (find_slot p xs)) [
    | inl n ↦ n
    | inr (j, s) ↦
        Bool-clash (p (get_or xs j d)) (find_slot-holds p xs d s).1
          (fails j (find_slot-holds p xs d s).0)
  ]

  -- A property of all slots, by their numbers.
  pub All-get :
      (P : A → Type 0) (xs : List A) (d : A)
      → All P xs
      → (i : ℕ) → i < length xs
      → P (get_or xs i d)
  All-get P [] d h i g = absurd (omega arith)
  All-get P (x ∷ xs) d h zero g = h.0
  All-get P (x ∷ xs) d h (suc i) g = All-get P xs d h.1 i (omega arith)

  -- An assignment keeps a property of all slots if the slot that it changes has it afterwards.
  pub All-update :
      (P : A → Type 0) (i : ℕ) (f : A → A) (xs : List A) (d : A)
      → (i < length xs → P (get_or xs i d) → P (f (get_or xs i d)))
      → All P xs
      → All P (update i f xs)
  unfolding update
  All-update P i f [] d g h = tt
  All-update P zero f (x ∷ xs) d g h = (g (omega arith) h.0, h.1)
  All-update P (suc i) f (x ∷ xs) d g h =
      (h.0, All-update P i f xs d (λ l. g (omega (arith, l))) h.1)

  -- What a slot holds after an assignment to some slot.
  pub update_cases {κ} :
      (P : A → Type κ) (k : ℕ) (f : A → A) (xs : List A) (d : A) (i : ℕ)
      → (k ≡ i → i < length xs → P (f (get_or xs i d)))
      → (k ≢ i → P (get_or xs i d))
      → P d
      → P (get_or (update k f xs) i d)
  unfolding update
  update_cases P k f [] d i at other out = out
  update_cases P zero f (x ∷ xs) d zero at other out = at refl (omega arith)
  update_cases P zero f (x ∷ xs) d (suc i) at other out = other (omega arith)
  update_cases P (suc k) f (x ∷ xs) d zero at other out = other (omega arith)
  update_cases P (suc k) f (x ∷ xs) d (suc i) at other out =
      update_cases P k f xs d i (λ e l. at (omega (arith, e)) (omega (arith, l)))
        (λ n. other (λ e. n (omega (arith, e)))) out

  -- Of two assignments to one slot the second stands if it does not depend on the first.
  pub update-update :
      (i : ℕ) (f : A → A) (a : A) (xs : List A)
      → update i (λ x. a) (update i f xs) ≡ update i (λ x. a) xs
  unfolding update
  update-update i f a [] = refl
  update-update zero f a (x ∷ xs) = refl
  update-update (suc i) f a (x ∷ xs) = ap (λ t. x ∷ t) (update-update i f a xs)

  -- An assignment that the test does not see changes nothing for the search.
  pub find_slot-update :
      (p : A → Bool) (i : ℕ) (f : A → A) (xs : List A) (d : A)
      → (i < length xs → p (f (get_or xs i d)) ≡ p (get_or xs i d))
      → find_slot p (update i f xs) ≡ find_slot p xs
  unfolding find_slot update
  find_slot-update p i f [] d h = refl
  find_slot-update p zero f (x ∷ xs) d h =
      ap (λ t. if t then some 0 else Option.map suc (find_slot p xs)) (h (omega arith))
  find_slot-update p (suc i) f (x ∷ xs) d h =
      ap (λ o. if p x then some 0 else Option.map suc o)
        (find_slot-update p i f xs d (λ l. h (omega (arith, l))))

  -- Assignments to two slots can be exchanged.
  pub update_comm :
      (i j : ℕ) (f g : A → A) (xs : List A)
      → i ≢ j
      → update i f (update j g xs) ≡ update j g (update i f xs)
  unfolding update
  update_comm i j f g [] n = refl
  update_comm zero zero f g (x ∷ xs) n = absurd (n refl)
  update_comm zero (suc j) f g (x ∷ xs) n = refl
  update_comm (suc i) zero f g (x ∷ xs) n = refl
  update_comm (suc i) (suc j) f g (x ∷ xs) n =
      ap (λ t. x ∷ t) (update_comm i j f g xs (λ e. n (ap suc e)))

  pub update-const :
      (i : ℕ) (f : A → A) (a : A) (xs : List A)
      → update i f (update i (λ x. a) xs) ≡ update i (λ x. f a) xs
  unfolding update
  update-const i f a [] = refl
  update-const zero f a (x ∷ xs) = refl
  update-const (suc i) f a (x ∷ xs) = ap (λ t. x ∷ t) (update-const i f a xs)
