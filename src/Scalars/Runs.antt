-- ===== src/Scalars/Runs.antt =====
-- `capn_getv8` to `capn_getv64` and `capn_setv8` to `capn_setv64` of lib/capn-list.inc: a run of
-- members. `little` is `CAPN_LITTLE`.
use c_capnproto.Common.{
  ℕ, zero, suc, ◌+◌, Bool, true, false, ◌&&◌, ◌||◌, Option, none, some, List, [], ◌∷◌, ltb, ◌==◌,
  if◌then◌else◌, ℤ, negsuc, pos_part, neg_part, sub_ℕ, ◌+ℤ◌, scale, wrap_int, is_neg, pos, ◌/◌,
  take, ◌>>=◌,
}
use c_capnproto.Session.{Session}
use c_capnproto.Decode.Pointers.{
  PtrType, null, struct, list, ptr_list, bit_list, far_pointer, interface, Ptr,
}
use c_capnproto.Decode.Read.{struct_ptr, resolve}
use c_capnproto.Decode.Get.{below, advance}
use c_capnproto.Scalars.{load, store}
use c_capnproto.Scalars.Members.{stride}

-- `sz`, cut to the members that are left, in `int`s. It is negative behind the end of the list.
unfoldable pub members_left : ℤ → ℤ → ℕ → ℤ
members_left off sz len =
    if below (wrap_int (off +ℤ sz)) (suc len)
    then sz
    else wrap_int (sub_ℕ (len + neg_part off) (pos_part off))

-- The test for the `memcpy`, and its start: the offset counts bytes there.
abbrev pub packed : Bool → ℕ → Ptr → Bool
packed little w p = (p.datasz == w) && (p.ptrs == 0) && ((w == 1) || little)

unfoldable pub load_run : Session → ℕ → ℕ → ℕ → ℕ → Option (List ℕ)
load_run c d step w zero = some []
load_run c d step w (suc n) = do v ← load c d w; vs ← load_run c (d + step) step w n; some (v ∷ vs)

unfoldable pub store_run : Session → ℕ → ℕ → ℕ → List ℕ → Option Session
store_run c d step w [] = some c
store_run c d step w (v ∷ vs) = store c d w v >>= λ c'. store_run c' (d + step) step w vs

-- The loop, from the member `off` on. The place of a member is computed from its index.
unfoldable pub load_members : Session → ℕ → ℤ → ℕ → ℕ → ℕ → Option (List ℕ)
load_members c addr off step w zero = some []
load_members c addr off step w (suc n) = do
  v ← load c (advance addr off step) w
  vs ← load_members c addr (off +ℤ pos 1) step w n
  some (v ∷ vs)

unfoldable pub store_members : Session → ℕ → ℤ → ℕ → ℕ → List ℕ → Option Session
store_members c addr off step w [] = some c
store_members c addr off step w (v ∷ vs) =
    store c (advance addr off step) w v >>= λ c'. store_members c' addr (off +ℤ pos 1) step w vs

-- The size of a `memcpy`, an `int` that is converted to `size_t`: the members that it copies, and `none`
-- for a negative number, which is a huge size.
unfoldable pub copy_count : ℕ → ℤ → Option ℕ
copy_count w n =
    if is_neg (wrap_int (scale n w)) then none else some (pos_part (wrap_int (scale n w)) / w)

-- The loop over the pointers of a pointer list. `false` is the return from its middle.
unfoldable pub load_structs : Session → Option ℕ → ℕ → ℤ → ℕ → ℕ → Option (Session × List ℕ × Bool)
load_structs c seg addr off w zero = some (c, [], true)
load_structs c seg addr off w (suc n) =
    let (c', d) = struct_ptr c seg (advance addr off 8) w in
    let next = load_structs c' seg addr (off +ℤ pos 1) w n in
    if d == 0
    then some (c', [], false)
    else (load c' d w >>= λ v. next >>= λ (c'', vs, done). some (c'', v ∷ vs, done))

unfoldable pub store_structs : Session → Option ℕ → ℕ → ℤ → ℕ → List ℕ → Option (Session × Bool)
store_structs c seg addr off w [] = some (c, true)
store_structs c seg addr off w (v ∷ vs) =
    let (c', d) = struct_ptr c seg (advance addr off 8) w in
    if d == 0
    then some (c', false)
    else (store c' d w v >>= λ c''. store_structs c'' seg addr (off +ℤ pos 1) w vs)

-- The `switch` of `capn_getv`, for `n` members: the session, what is stored to `to`, and the result.
unfoldable pub getv_as : PtrType → Bool → ℕ → Session → Ptr → ℤ → ℤ → Option (Session × List ℕ × ℤ)
getv_as list little w c p off n =
    let loop = load_members c p.addr off (stride p) w (pos_part n) in
    if packed little w p
    then (copy_count w n >>= λ k. load_run c (advance p.addr off 1) w w k >>= λ vs. some (c, vs, n))
    else if ltb p.datasz w
    then some (c, [], negsuc 0)
    else (loop >>= λ vs. some (c, vs, n))
getv_as ptr_list little w c p off n =
    load_structs c p.seg p.addr off w (pos_part n) >>= λ (c', vs, done).
    some (c', vs, if done then n else negsuc 0)
getv_as null little w c p off n = some (c, [], negsuc 0)
getv_as struct little w c p off n = some (c, [], negsuc 0)
getv_as bit_list little w c p off n = some (c, [], negsuc 0)
getv_as far_pointer little w c p off n = some (c, [], negsuc 0)
getv_as interface little w c p off n = some (c, [], negsuc 0)

-- `capn_getv`.
unfoldable pub getv : Bool → ℕ → Session → Ptr → ℤ → ℤ → Option (Session × List ℕ × ℤ)
getv little w c p off sz =
    let (c', q) = resolve c p in getv_as q.type little w c' q off (members_left off sz q.len)

-- `capn_setv`, with at least `sz` numbers in `from`. It does not resolve the pointer.
unfoldable pub setv_as : PtrType → Bool → ℕ → Session → Ptr → ℤ → List ℕ → ℤ → Option (Session × ℤ)
setv_as list little w c p off from n =
    let vs = take (pos_part n) from in
    if packed little w p
    then (copy_count w n >>= λ k.
        store_run c (advance p.addr off 1) w w (take k from) >>= λ c'. some (c', n))
    else if ltb p.datasz w
    then some (c, negsuc 0)
    else (store_members c p.addr off (stride p) w vs >>= λ c'. some (c', n))
setv_as ptr_list little w c p off from n =
    store_structs c p.seg p.addr off w (take (pos_part n) from) >>= λ (c', done).
    some (c', if done then n else negsuc 0)
setv_as null little w c p off from n = some (c, negsuc 0)
setv_as struct little w c p off from n = some (c, negsuc 0)
setv_as bit_list little w c p off from n = some (c, negsuc 0)
setv_as far_pointer little w c p off from n = some (c, negsuc 0)
setv_as interface little w c p off from n = some (c, negsuc 0)

unfoldable pub setv : Bool → ℕ → Session → Ptr → ℤ → List ℕ → ℤ → Option (Session × ℤ)
setv little w c p off from sz = setv_as p.type little w c p off from (members_left off sz p.len)
