-- ===== src/Decode/Safety/Objects.antt =====
-- The size of an object that the pointer words of lib/capn.c describe.
use c_capnproto.Common.{
  ℕ, ◌+◌, ◌-◌, ◌*◌, ◌/◌, ◌%◌, ◌^◌, ◌<◌, ◌≡◌, refl, sym, ap, subst, ◌∙◌, Bool, true, false, Option,
  none, some, ltb, leb, ◌==◌, if◌then◌else◌, arith, inl, inr, Bool-cases, ltb→lt, ==→eq, eq_of_some,
  if-eq-some, >>=-eq-some, guard-eq-some,
}
use native.Mathlib.Nat.{mul_comm}
use c_capnproto.Session.{Segment}
use c_capnproto.Decode.Pointers.{
  PtrType, null, struct, list, ptr_list, bit_list, far_pointer, interface, load64, low32,
}
use c_capnproto.Decode.Limits.{size_max, bounds_ok, mul_size}
use c_capnproto.Decode.Shapes.{
  Shape, struct_bytes, struct_shape, data_list, composite_list, bit_list_shape, ptr_list_shape,
  sized_list, list_shape, object_shape,
}
use c_capnproto.Decode.Safety.Bounds.{mul_size-exact}

-- The bytes that a pointer's fields give a reader access to: all data and pointer words of a struct or
-- of the elements of a list, or the word of a pointer that is not read yet.
abbrev pub extent : PtrType → ℕ → ℕ → ℕ → ℕ
extent null datasz ptrs len = 0
extent struct datasz ptrs len = datasz + 8 * ptrs
extent list datasz ptrs len = len * (datasz + 8 * ptrs)
extent ptr_list datasz ptrs len = len * 8
extent bit_list datasz ptrs len = (ptrs + len + 7) / 8
extent far_pointer datasz ptrs len = 8
extent interface datasz ptrs len = 0

pub record Measured (sh : Shape) : Type 0 where
  pub bytes : sh.nbytes ≡ extent sh.type sh.datasz sh.ptrs sh.len
  pub len_lt : sh.len < 2 ^ 31

abbrev Sound : Option Shape → Type 0
Sound o = (sh : Shape) → o ≡ some sh → Measured sh

none-Sound : Sound none
none-Sound sh h = cc

some-Sound : (sh : Shape) → Measured sh → Sound (some sh)
some-Sound sh m sh' h = subst Measured (eq_of_some h) m

if-Sound :
    (t : Bool) (x y : Option Shape)
    → (t ≡ true → Sound x)
    → (t ≡ false → Sound y)
    → Sound (if t then x else y)
if-Sound true x y f g = f refl
if-Sound false x y f g = g refl

struct_bytes-exact :
    (datasz ptrs : ℕ) {n : ℕ} → struct_bytes datasz ptrs ≡ some n → n ≡ datasz + 8 * ptrs
unfolding struct_bytes
struct_bytes-exact datasz ptrs h =
    sym (eq_of_some (if-eq-some (ltb (size_max - 8 * ptrs) datasz) (some (datasz + 8 * ptrs)) h).1)

struct_shape-Sound : (d val : ℕ) → Sound (struct_shape d val)
unfolding struct_shape
struct_shape-Sound d val sh h =
    let (n, e, eq) =
      >>=-eq-some (struct_bytes (val / 2 ^ 32 % 2 ^ 16 * 8) (val / 2 ^ 48 % 2 ^ 16)) _ h in
    subst Measured (eq_of_some eq)
      (record { bytes = size n (struct_bytes-exact _ _ e); len_lt = omega arith })
  where
    size :
        (n : ℕ)
        → n ≡ val / 2 ^ 32 % 2 ^ 16 * 8 + 8 * (val / 2 ^ 48 % 2 ^ 16)
        → n
          ≡ extent
              (if val == 0 then null else struct)
              (val / 2 ^ 32 % 2 ^ 16 * 8)
              (val / 2 ^ 48 % 2 ^ 16)
              0
    size n e = elim (Bool-cases (val == 0)) [
      | inl f ↦ rw f (omega (arith, ==→eq val 0 f))
      | inr f ↦ rw f e
    ]

data_list-Sound : (d len size : ℕ) → len < 2 ^ 31 → Sound (data_list d len size)
unfolding data_list
data_list-Sound d len size small sh h =
    let (n, e, eq) = >>=-eq-some (mul_size len size) _ h in
    subst Measured (eq_of_some eq) (record {
      bytes = mul_size-exact len size e ∙ ap (λ k. len * k) (omega arith);
      len_lt = small;
    })

ptr_list_shape-Sound : (d len : ℕ) → len < 2 ^ 31 → Sound (ptr_list_shape d len)
unfolding ptr_list_shape
ptr_list_shape-Sound d len small sh h =
    let (n, e, eq) = >>=-eq-some (mul_size len 8) _ h in
    subst Measured (eq_of_some eq) (record { bytes = mul_size-exact len 8 e; len_lt = small })

bit_list_shape-Sound : (d len : ℕ) → len < 2 ^ 31 → Sound (bit_list_shape d len)
unfolding bit_list_shape
bit_list_shape-Sound d len small =
    if-Sound (ltb (2 ^ 19 - 1) ((len + 7) / 8)) none _ (λ e. none-Sound)
      (λ e. some-Sound _ (record { bytes = omega arith; len_lt = small }))

composite_list-Sound : (s : Segment) (d len : ℕ) → Sound (composite_list s d len)
unfolding composite_list
composite_list-Sound s d len sh h =
    let (words, e₁, h₁) = >>=-eq-some (mul_size len 8) _ h in
    let (_, h₂) = guard-eq-some (bounds_ok s d 8) _ h₁ in
    let (_, h₃) = guard-eq-some (bounds_ok s (d + 8) words) _ h₂ in
    let (small, h₄) = guard-eq-some (ltb (low32 (load64 s d) / 4) (2 ^ 31)) _ h₃ in
    let (stride, e₂, h₅) =
      >>=-eq-some (struct_bytes (load64 s d / 2 ^ 32 % 2 ^ 16 * 8) (load64 s d / 2 ^ 48 % 2 ^ 16)) _
        h₄ in
    let (total, e₃, h₆) = >>=-eq-some (mul_size stride (low32 (load64 s d) / 4)) _ h₅ in
    let (same, h₇) = guard-eq-some (total == words) _ h₆ in
    subst Measured (eq_of_some h₇) (record {
      bytes =
          sym (==→eq total words same)
          ∙ mul_size-exact stride (low32 (load64 s d) / 4) e₃
          ∙ mul_comm stride (low32 (load64 s d) / 4)
          ∙ ap (λ k. low32 (load64 s d) / 4 * k) (struct_bytes-exact _ _ e₂);
      len_lt = ltb→lt (low32 (load64 s d) / 4) (2 ^ 31) small;
    })

sized_list-Sound : (s : Segment) (d len code : ℕ) → len < 2 ^ 31 → Sound (sized_list s d len code)
unfolding sized_list
sized_list-Sound s d len code h =
    if-Sound (code == 0) _ _ (λ e. data_list-Sound d len 0 h)
      (λ e.
        if-Sound (code == 1) _ _ (λ e. bit_list_shape-Sound d len h)
          (λ e.
            if-Sound (code == 2) _ _ (λ e. data_list-Sound d len 1 h)
              (λ e.
                if-Sound (code == 3) _ _ (λ e. data_list-Sound d len 2 h)
                  (λ e.
                    if-Sound (code == 4) _ _ (λ e. data_list-Sound d len 4 h)
                      (λ e.
                        if-Sound (code == 5) _ _ (λ e. data_list-Sound d len 8 h)
                          (λ e.
                            if-Sound (code == 6) _ _ (λ e. ptr_list_shape-Sound d len h)
                              (λ e. composite_list-Sound s d len)))))))

list_shape-Sound : (s : Segment) (d val : ℕ) → Sound (list_shape s d val)
unfolding list_shape
list_shape-Sound s d val =
    if-Sound (leb (2 ^ 31) (val / 2 ^ 35 % 2 ^ 32)) none _ (λ e. none-Sound)
      (λ e. sized_list-Sound s d (val / 2 ^ 35 % 2 ^ 32) (val / 2 ^ 32 % 8) (ground arith))

-- The size that `read_ptr` checks and charges for is the extent of the pointer that it makes.
pub object_shape-Measured :
    (s : Segment) (d val : ℕ) {sh : Shape} → object_shape s d val ≡ some sh → Measured sh
unfolding object_shape
object_shape-Measured s d val {sh} h =
    if-Sound (val % 4 == 0) (struct_shape d val) _ (λ e. struct_shape-Sound d val)
      (λ e.
        if-Sound (val % 4 == 1) (list_shape s d val) none (λ f. list_shape-Sound s d val)
          (λ f. none-Sound))
      sh h
