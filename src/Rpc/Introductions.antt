-- ===== src/Rpc/Introductions.antt =====
-- The capabilities of a third vat in lib/capn-rpc.c: `note_introductions`, what is done with an
-- introduction, and `capn_rpc_write_third_party_cap`.
pub mod Pickup
use c_capnproto.Common.{
  ℕ, suc, ◌+◌, Bool, true, false, not, ◌&&◌, Option, none, some, List, [], ◌∷◌, ◌++◌, ltb, ◌==◌,
  length, if◌then◌else◌, ℤ, pos, negsuc, get_or, take, ◌>>=◌, ◌>>◌, guard,
}
use c_capnproto.Rpc.Messages.{
  VatId, ThirdPartyCapId, ThirdParty, CapDescriptor, third_party_hosted, Message, release,
}
use c_capnproto.Rpc.Table.{find_slot, update}
use c_capnproto.Rpc.Conn.{Conn, Env, Introduction, no_introduction, Handled, max_host, send_message}

abbrev pub is_free : Introduction → Bool
is_free x = not x.used

-- The introduction that a descriptor makes: a host that does not fit is refused. The host is stored
-- with a zero byte after it.
unfoldable pub introduced : ThirdParty → Option Introduction
introduced tp = do
  id ← tp.id
  vat ← id.vat
  guard (ltb (length vat.host) max_host)
  some (record {
    used = true;
    nonce = id.nonce;
    vine_id = tp.vine_id;
    port = vat.port;
    host = vat.host ++ (0 ∷ []);
  })

abbrev pub introduction_of : CapDescriptor → Option Introduction
introduction_of (third_party_hosted (some tp)) = introduced tp
introduction_of cd = none

-- The inner loop: with no slot left the introduction is lost.
unfoldable pub put_introduction : Conn → Introduction → Option ℕ → Conn
put_introduction c x none = c
put_introduction c x (some j) = record c { introductions = update j (λ y. x) c.introductions }

unfoldable pub note_introduction : Conn → Option Introduction → Conn
unfolding put_introduction
note_introduction c none = c
note_introduction c (some x) = put_introduction c x (find_slot is_free c.introductions)

-- `note_introductions`.
unfoldable pub note_introductions : Conn → List CapDescriptor → Conn
unfolding note_introduction
note_introductions c [] = c
note_introductions c (cd ∷ cds) = note_introductions (note_introduction c (introduction_of cd)) cds

unfoldable pub held_introductions : List Introduction → List Introduction
held_introductions [] = []
held_introductions (x ∷ xs) = let rest = held_introductions xs in if x.used then x ∷ rest else rest

-- `capn_rpc_pending_introductions`: what is copied to `out`, and the result.
unfoldable pub pending_introductions : Conn → ℕ → List Introduction × ℕ
unfolding held_introductions
pending_introductions c max =
    (take max (held_introductions c.introductions), length (held_introductions c.introductions))

-- `capn_rpc_send_release`.
unfoldable pub send_release : Env → Conn → ℕ → ℕ → Handled
send_release env c import_id count = send_message env c (release import_id count)

abbrev pub has_nonce : ℕ → Introduction → Bool
has_nonce nonce x = x.used && (x.nonce == nonce)

unfoldable pub finish_introduction : Env → Conn → Option ℕ → Handled
unfolding send_release
finish_introduction env c none = (c, negsuc 0)
finish_introduction env c (some i) =
    let released = (send_release env c (get_or c.introductions i no_introduction).vine_id 1).0 in
    (
      record released { introductions = update i (λ x. no_introduction) released.introductions },
      pos 0,
    )

-- `capn_rpc_introduction_done`.
unfoldable pub introduction_done : Env → Conn → ℕ → Handled
unfolding finish_introduction
introduction_done env c nonce =
    finish_introduction env c (find_slot (has_nonce nonce) c.introductions)

-- `capn_rpc_write_third_party_cap` on a descriptor that is not null, with what it writes there; a null host
-- is refused.
unfoldable pub write_third_party_cap : Option (List ℕ) → ℕ → ℕ → ℕ → Option CapDescriptor
write_third_party_cap none port nonce vine_id = none
write_third_party_cap (some host) port nonce vine_id =
    let vat : VatId = record { host = host; port = port } in
    let id : ThirdPartyCapId = record { vat = some vat; nonce = nonce } in
    some (third_party_hosted (some (record { id = some id; vine_id = vine_id })))
