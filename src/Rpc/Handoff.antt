-- ===== src/Rpc/Handoff.antt =====
-- The level 3 handoff of lib/capn-rpc.c: provisions, and the embargo on an Accept.
pub mod Claims
use c_capnproto.Common.{
  ℕ, suc, ◌+◌, Bool, true, false, not, ◌&&◌, Option, none, some, List, [], ◌∷◌, ◌==◌, length,
  if◌then◌else◌, ℤ, pos, negsuc, get_or, take, map,
}
use c_capnproto.Rpc.Messages.{
  RecipientId, Target, Context, sender_loopback, receiver_loopback, provide, accept, Message,
  disembargo, empty_payload, provide_no_capability, provide_no_recipient, provide_table_full,
  accept_no_provision, accept_no_such_provision, accept_table_full,
}
use c_capnproto.Rpc.Table.{find_slot, update}
use c_capnproto.Rpc.Conn.{Conn, Env, Export, Provision, no_provision, Handled, send_message}
use c_capnproto.Rpc.Exports.{export, export_at, add_reference, set_export}
use c_capnproto.Rpc.Answers.{
  send_answer, send_return_exception, return_results, return_cap, resolve_target,
}

abbrev pub provision_at : Conn → ℕ → Provision
provision_at c i = get_or c.provisions i no_provision

abbrev pub set_provision : Conn → ℕ → (Provision → Provision) → Conn
set_provision c i f = record c { provisions = update i f c.provisions }

-- `send_empty_return`.
unfoldable pub send_empty_return : Env → Conn → ℕ → Handled
send_empty_return env c qid = send_answer env c qid (return_results qid empty_payload)

-- `send_accepted_cap`.
unfoldable pub send_accepted_cap : Env → Conn → ℕ → ℕ → Handled
send_accepted_cap env c qid eid = send_answer env c qid (return_cap qid eid)

abbrev pub is_free : Provision → Bool
is_free p = not p.used

abbrev pub awaits : ℕ → Provision → Bool
awaits provide_qid p = p.used && (p.embargoed && (p.question_id == provide_qid))

unfoldable pub lift_embargo : Env → Conn → Option ℕ → Handled
unfolding send_accepted_cap
lift_embargo env c none = (c, pos 0)
lift_embargo env c (some i) =
    send_accepted_cap env (set_provision c i (λ p. no_provision))
      (provision_at c i).accept_question_id (provision_at c i).export_id

-- `release_provide_embargo`.
unfoldable pub release_provide_embargo : Env → Conn → ℕ → Handled
unfolding lift_embargo
release_provide_embargo env c provide_qid =
    lift_embargo env c (find_slot (awaits provide_qid) c.provisions)

-- `handle_disembargo`.
unfoldable pub handle_disembargo : Env → Conn → Option Target → Context → Handled
unfolding release_provide_embargo
handle_disembargo env c target (provide qid) = release_provide_embargo env c qid
handle_disembargo env c target (sender_loopback id) =
    send_message env c (disembargo target (receiver_loopback id))
handle_disembargo env c target (receiver_loopback id) = (c, pos 0)
handle_disembargo env c target accept = (c, pos 0)

unfoldable pub count_embargoed : List Provision → ℕ
count_embargoed [] = 0
count_embargoed (p ∷ ps) =
    let rest = count_embargoed ps in if p.used && p.embargoed then suc rest else rest

-- `capn_rpc_embargoed_accepts`.
unfoldable pub embargoed_accepts : Conn → ℕ
unfolding count_embargoed
embargoed_accepts c = count_embargoed c.provisions

-- The fields that `handle_provide` assigns: the id of the Accept stays.
abbrev pub hold : ℕ → ℕ → ℕ → Export → Provision → Provision
hold nonce qid eid e p = record p {
  used = true;
  nonce = nonce;
  server = e.server;
  dispatch = e.dispatch;
  export_id = eid;
  question_id = qid;
  embargoed = false;
}

unfoldable pub provide_in : Env → Conn → ℕ → ℕ → ℕ → Option ℕ → Handled
unfolding send_empty_return
provide_in env c qid nonce eid none = send_return_exception env c qid provide_table_full
provide_in env c qid nonce eid (some i) =
    send_empty_return env
      (set_export (set_provision c i (hold nonce qid eid (export_at c eid))) eid add_reference) qid

unfoldable pub provide_target : Env → Conn → ℕ → Option RecipientId → Option ℕ → Handled
unfolding provide_in
provide_target env c qid recipient none = send_return_exception env c qid provide_no_capability
provide_target env c qid none (some eid) = send_return_exception env c qid provide_no_recipient
provide_target env c qid (some rid) (some eid) =
    provide_in env c qid rid.nonce eid (find_slot is_free c.provisions)

-- `handle_provide`.
unfoldable pub handle_provide : Env → Conn → ℕ → Option Target → Option RecipientId → Handled
unfolding provide_target
handle_provide env c qid target recipient =
    provide_target env c qid recipient (resolve_target env c target)

abbrev pub claimable : ℕ → Provision → Bool
claimable nonce p = p.used && (not p.embargoed && (p.nonce == nonce))

-- With an embargo the slot is kept for the answer, else it is free.
abbrev pub claim : Bool → ℕ → ℕ → Provision → Provision
claim true qid eid p = record p { export_id = eid; embargoed = true; accept_question_id = qid }
claim false qid eid p = record p { export_id = eid; used = false }

unfoldable pub claim_slot : Env → Conn → ℕ → Bool → ℕ → Option ℕ → Handled
claim_slot env c qid embargo i none = send_return_exception env c qid accept_table_full
claim_slot env c qid true i (some eid) = (set_provision c i (claim true qid eid), pos 0)
claim_slot env c qid false i (some eid) =
    send_answer env (set_provision c i (claim false qid eid)) qid (return_cap qid eid)

unfoldable pub accept_slot : Env → Conn → ℕ → Bool → Option ℕ → Handled
unfolding claim_slot
accept_slot env c qid embargo none = send_return_exception env c qid accept_no_such_provision
accept_slot env c qid embargo (some i) =
    let exported = export c (provision_at c i).server (provision_at c i).dispatch in
    claim_slot env exported.0 qid embargo i exported.1

-- `handle_accept`, with the nonce of the ProvisionId.
unfoldable pub handle_accept : Env → Conn → ℕ → Option ℕ → Bool → Handled
unfolding accept_slot
handle_accept env c qid none embargo = send_return_exception env c qid accept_no_provision
handle_accept env c qid (some nonce) embargo =
    accept_slot env c qid embargo (find_slot (claimable nonce) c.provisions)

unfoldable pub provided : List Provision → List ℕ
provided [] = []
provided (p ∷ ps) = let rest = provided ps in if p.used then p.nonce ∷ rest else rest

-- `capn_rpc_pending_provisions`: what is copied to `out`, and the result.
unfoldable pub pending_provisions : Conn → ℕ → List ℕ × ℕ
unfolding provided
pending_provisions c max = (take max (provided c.provisions), length (provided c.provisions))
