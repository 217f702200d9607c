-- ===== src/Rpc/Exports.antt =====
-- The export table of lib/capn-rpc.c: `capn_rpc_export`, the references that the vat takes itself, and
-- `handle_release`. A reference count is an `int`, and wraps around.
pub mod Valid
pub mod References
use c_capnproto.Common.{
  ℕ, zero, suc, ◌+◌, ◌-◌, ◌^◌, Bool, true, false, not, ◌&&◌, Option, none, some, List, ltb, ◌==◌,
  if◌then◌else◌, ℤ, pos, negsuc, sub_ℕ, pos_part, neg_part, ◌+ℤ◌, get_or, to_int, wrap_int,
}
use c_capnproto.Rpc.Conn.{Export, Conn, max_exports, no_export}
use c_capnproto.Rpc.Table.{find_slot, update}

-- `c->exports[id]`.
abbrev pub export_at : Conn → ℕ → Export
export_at c id = get_or c.exports id no_export

abbrev pub serves : ℕ → Export → Bool
serves server e = e.used && (e.server == server)

abbrev pub is_free : Export → Bool
is_free e = not e.used

-- `refcount++`.
abbrev pub add_reference : Export → Export
add_reference e = record e { refcount = wrap_int (e.refcount +ℤ pos 1) }

abbrev pub new_export : ℕ → ℕ → Export → Export
new_export server dispatch e = record {
  used = true;
  refcount = pos 1;
  server = server;
  dispatch = dispatch;
}

abbrev pub set_export : Conn → ℕ → (Export → Export) → Conn
set_export c id f = record c { exports = update id f c.exports }

-- The second loop of `capn_rpc_export`.
unfoldable pub claim_export : Conn → ℕ → ℕ → Option ℕ → Conn × Option ℕ
claim_export c server dispatch none = (c, none)
claim_export c server dispatch (some i) = (set_export c i (new_export server dispatch), some i)

-- The first loop, and the second if it finds nothing.
unfoldable pub export_as : Conn → ℕ → ℕ → Option ℕ → Conn × Option ℕ
unfolding claim_export
export_as c server dispatch (some i) = (set_export c i add_reference, some i)
export_as c server dispatch none = claim_export c server dispatch (find_slot is_free c.exports)

-- `capn_rpc_export`.
unfoldable pub export : Conn → ℕ → ℕ → Conn × Option ℕ
unfolding export_as
export c server dispatch = export_as c server dispatch (find_slot (serves server) c.exports)

abbrev pub minus : ℤ → ℤ → ℤ
minus a b = sub_ℕ (pos_part a + neg_part b) (neg_part a + pos_part b)

-- `refcount <= 0`.
abbrev pub is_spent : ℤ → Bool
is_spent (pos zero) = true
is_spent (pos (suc n)) = false
is_spent (negsuc n) = true

-- The slot is cleared if no reference is left.
abbrev pub keep_references : Export → ℤ → Export
keep_references e left = if is_spent left then no_export else record e { refcount = left }

-- `refcount -= (int) count`.
unfoldable pub drop_references : ℕ → Export → Export
drop_references count e = keep_references e (wrap_int (minus e.refcount (to_int count)))

-- `handle_release`.
unfoldable pub handle_release : Conn → ℕ → ℕ → Conn
unfolding drop_references
handle_release c id count =
    if ltb id max_exports && (export_at c id).used
    then set_export c id (drop_references count)
    else c
