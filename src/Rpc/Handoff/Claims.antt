-- ===== src/Rpc/Handoff/Claims.antt =====
-- A provision is claimed once, by its nonce, and an embargo delays the answer.
use c_capnproto.Common.{
  ℕ, ◌<◌, ◌≡◌, refl, sym, ap, ◌∙◌, Bool, true, false, ◌&&◌, Option, none, some, List, length,
  get_or, arith, Bool-cases, Bool-clash, inl, inr, &&-true, eq→==,
}
use c_capnproto.Rpc.Messages.{RecipientId, Target, provide, accept_no_such_provision, empty_payload}
use c_capnproto.Rpc.Table.{
  find_slot, update, update_cases, get-update, length-update, find_slot-holds, find_slot_unique,
  find_slot-none,
}
use c_capnproto.Rpc.Conn.{Conn, Env, Export, Provision, no_provision, Handled, set_vat}
use c_capnproto.Rpc.Exports.{export, export_at, set_export, add_reference}
use c_capnproto.Rpc.Exports.Valid.{export-changes}
use c_capnproto.Rpc.Exports.References.{export-Exported}
use c_capnproto.Rpc.Answers.{
  send_answer, send_return_exception, return_cap, return_results, resolve_target,
}
use c_capnproto.Rpc.Answers.Pipelining.{send_answer-changes}
use c_capnproto.Rpc.Handoff.{
  provision_at, set_provision, send_empty_return, send_accepted_cap, is_free, awaits, lift_embargo,
  release_provide_embargo, handle_disembargo, hold, provide_in, provide_target, handle_provide,
  claimable, claim, claim_slot, accept_slot, handle_accept,
}

-- The connection `d` when the table of its vat is that of `c`.
abbrev pub on_vat : Conn → Conn → Conn
on_vat d c = set_vat d c.provisions

-- No other provision can be claimed by the nonce than that of the slot `i`.
abbrev pub Claims : List Provision → ℕ → ℕ → Type 0
Claims ps nonce i =
    (find_slot (claimable nonce) ps ≡ some i)
    × ((j : ℕ) → claimable nonce (get_or ps j no_provision) ≡ true → j ≡ i)

claimed-none :
    (ps : List Provision) (nonce i qid eid : ℕ) (embargo : Bool)
    → Claims ps nonce i
    → find_slot (claimable nonce) (update i (claim embargo qid eid) ps) ≡ none
claimed-none ps nonce i qid eid embargo h =
    find_slot-none (claimable nonce) _ no_provision (λ j l. gone j)
  where
    spent : (t : Bool) (p : Provision) → claimable nonce (claim t qid eid p) ≡ false
    spent true p = and_false p.used
      where
        and_false : (b : Bool) → (b && false) ≡ false
        and_false true = refl
        and_false false = refl
    spent false p = refl

    gone :
        (j : ℕ)
        → claimable nonce (get_or (update i (claim embargo qid eid) ps) j no_provision) ≡ false
    gone j =
        update_cases (λ p. claimable nonce p ≡ false) i (claim embargo qid eid) ps no_provision j
          (λ e l. spent embargo _)
          (λ n. elim (Bool-cases (claimable nonce (get_or ps j no_provision))) [
            | inl t ↦ absurd (n (sym (h.1 j t)))
            | inr f ↦ f
          ])
          refl

-- The export of the server of a provision, and the state after it.
abbrev Exporting : Conn → ℕ → Conn × Option ℕ
Exporting c i = export c (provision_at c i).server (provision_at c i).dispatch

handle_accept-slot :
    (env : Env) (c : Conn) (qid nonce i eid : ℕ) (embargo : Bool)
    → find_slot (claimable nonce) c.provisions ≡ some i
    → (Exporting c i).1 ≡ some eid
    → handle_accept env c qid (some nonce) embargo
      ≡ claim_slot env (Exporting c i).0 qid embargo i (some eid)
unfolding handle_accept accept_slot
handle_accept-slot env c qid nonce i eid embargo f x =
    ap (accept_slot env c qid embargo) f ∙ ap (claim_slot env (Exporting c i).0 qid embargo i) x

handle_accept-provisions :
    (env : Env) (c : Conn) (qid nonce i eid : ℕ) (embargo : Bool)
    → find_slot (claimable nonce) c.provisions ≡ some i
    → (Exporting c i).1 ≡ some eid
    → (handle_accept env c qid (some nonce) embargo).0.provisions
      ≡ update i (claim embargo qid eid) c.provisions
unfolding claim_slot
handle_accept-provisions env c qid nonce i eid embargo f x =
    ap (λ (h : Handled). h.0.provisions) (handle_accept-slot env c qid nonce i eid embargo f x)
    ∙ slot embargo
    ∙ ap (λ (d : Conn). update i (claim embargo qid eid) d.provisions)
        (export-changes c (provision_at c i).server (provision_at c i).dispatch)
  where
    slot :
        (t : Bool)
        → (claim_slot env (Exporting c i).0 qid t i (some eid)).0.provisions
          ≡ update i (claim t qid eid) (Exporting c i).0.provisions
    slot true = refl
    slot false =
        ap (λ (d : Conn). d.provisions)
          (send_answer-changes env (set_provision (Exporting c i).0 i (claim false qid eid)) qid
            (return_cap qid eid))

-- A nonce that names one provision is claimed once: after an Accept that could export the capability,
-- embargoed or not, any other Accept with the nonce, on any connection of the vat, gets an exception.
pub handle_accept-once :
    (env : Env) (c d : Conn) (qid other nonce i eid : ℕ) (embargo again : Bool)
    → Claims c.provisions nonce i
    → (export c (provision_at c i).server (provision_at c i).dispatch).1 ≡ some eid
    → handle_accept env
        (on_vat d (handle_accept env c qid (some nonce) embargo).0)
        other
        (some nonce)
        again
      ≡ send_return_exception env
          (on_vat d (handle_accept env c qid (some nonce) embargo).0)
          other
          accept_no_such_provision
unfolding handle_accept accept_slot set_vat
handle_accept-once env c d qid other nonce i eid embargo again h x =
    ap (accept_slot env (on_vat d (handle_accept env c qid (some nonce) embargo).0) other again) (
      ap (find_slot (claimable nonce))
        (handle_accept-provisions env c qid nonce i eid embargo h.0 x)
      ∙ claimed-none c.provisions nonce i qid eid embargo h)

-- No provision with the Provide question of the slot `i` is embargoed.
abbrev pub Unclaimed : List Provision → ℕ → Type 0
Unclaimed ps qid = (j : ℕ) → awaits qid (get_or ps j no_provision) ≡ false

awaits-claimed :
    (ps : List Provision) (nonce i qid eid provide_qid : ℕ)
    → find_slot (claimable nonce) ps ≡ some i
    → Unclaimed ps provide_qid
    → (get_or ps i no_provision).question_id ≡ provide_qid
    → (find_slot (awaits provide_qid) (update i (claim true qid eid) ps) ≡ some i)
      × (get_or (update i (claim true qid eid) ps) i no_provision
          ≡ claim true qid eid (get_or ps i no_provision))
awaits-claimed ps nonce i qid eid provide_qid f u e = (found, there)
  where
    at : (i < length ps) × (claimable nonce (get_or ps i no_provision) ≡ true)
    at = find_slot-holds (claimable nonce) ps no_provision f

    there :
        get_or (update i (claim true qid eid) ps) i no_provision
        ≡ claim true qid eid (get_or ps i no_provision)
    there = get-update i (claim true qid eid) ps no_provision at.0

    only :
        (j : ℕ)
        → awaits provide_qid (get_or (update i (claim true qid eid) ps) j no_provision) ≡ true
        → j ≡ i
    only j =
        update_cases (λ p. awaits provide_qid p ≡ true → j ≡ i) i (claim true qid eid) ps
          no_provision j (λ g l h. sym g)
          (λ n h. Bool-clash (awaits provide_qid (get_or ps j no_provision)) h (u j)) (λ h. cc)

    found : find_slot (awaits provide_qid) (update i (claim true qid eid) ps) ≡ some i
    found =
        find_slot_unique (awaits provide_qid) (update i (claim true qid eid) ps) no_provision i
          (omega (arith, at.0, length-update i (claim true qid eid) ps))
          (rw
            (
              there,
              (&&-true (get_or ps i no_provision).used _ at.1).0,
              e,
              eq→== provide_qid provide_qid refl,
            )
            refl)
          (λ j l. only j)

-- An embargoed Accept that could export the capability sends nothing. The Disembargo that names the
-- Provide answers it, with the capability that it claimed: the answer goes out on the connection that
-- the Disembargo comes on, whichever of the vat that is.
pub handle_disembargo-answers :
    (env : Env) (c d : Conn) (target : Option Target) (qid nonce i eid provide_qid : ℕ)
    → find_slot (claimable nonce) c.provisions ≡ some i
    → Unclaimed c.provisions provide_qid
    → (provision_at c i).question_id ≡ provide_qid
    → (export c (provision_at c i).server (provision_at c i).dispatch).1 ≡ some eid
    → ((handle_accept env c qid (some nonce) true).0.log ≡ c.log)
      × (handle_disembargo env
            (on_vat d (handle_accept env c qid (some nonce) true).0)
            target
            (provide provide_qid)
          ≡ send_answer env
              (set_provision
                (on_vat d (handle_accept env c qid (some nonce) true).0)
                i
                (λ p. no_provision))
              qid
              (return_cap qid eid))
unfolding handle_disembargo release_provide_embargo lift_embargo send_accepted_cap set_vat
    claim_slot
handle_disembargo-answers env c d target qid nonce i eid provide_qid f u e x = (quiet, answered)
  where
    table :
        (handle_accept env c qid (some nonce) true).0.provisions
        ≡ update i (claim true qid eid) c.provisions
    table = handle_accept-provisions env c qid nonce i eid true f x

    at :
        (find_slot (awaits provide_qid) (update i (claim true qid eid) c.provisions) ≡ some i)
        × (get_or (update i (claim true qid eid) c.provisions) i no_provision
            ≡ claim true qid eid (provision_at c i))
    at = awaits-claimed c.provisions nonce i qid eid provide_qid f u e

    quiet : (handle_accept env c qid (some nonce) true).0.log ≡ c.log
    quiet =
        ap (λ (h : Handled). h.0.log) (handle_accept-slot env c qid nonce i eid true f x)
        ∙ ap (λ (b : Conn). b.log)
            (export-changes c (provision_at c i).server (provision_at c i).dispatch)

    d' : Conn
    d' = on_vat d (handle_accept env c qid (some nonce) true).0

    here : provision_at d' i ≡ claim true qid eid (provision_at c i)
    here = ap (λ ps. get_or ps i no_provision) table ∙ at.1

    answered :
        lift_embargo env d' (find_slot (awaits provide_qid) d'.provisions)
        ≡ send_answer env (set_provision d' i (λ p. no_provision)) qid (return_cap qid eid)
    answered =
        ap (lift_embargo env d') (ap (find_slot (awaits provide_qid)) table ∙ at.0)
        ∙ ap
            (λ (p : Provision).
              send_answer env (set_provision d' i (λ p. no_provision)) p.accept_question_id
                (return_cap p.accept_question_id p.export_id))
            here

handle_provide-provisions :
    (env : Env) (c : Conn) (qid eid i : ℕ) (target : Option Target) (rid : RecipientId)
    → resolve_target env c target ≡ some eid
    → find_slot is_free c.provisions ≡ some i
    → (handle_provide env c qid target (some rid)).0.provisions
      ≡ update i (hold rid.nonce qid eid (export_at c eid)) c.provisions
unfolding handle_provide provide_target provide_in send_empty_return
handle_provide-provisions env c qid eid i target rid t f =
    ap (λ (h : Handled). h.0.provisions)
      (ap (provide_target env c qid (some rid)) t ∙ ap (provide_in env c qid rid.nonce eid) f)
    ∙ ap (λ (b : Conn). b.provisions)
        (send_answer-changes env held qid (return_results qid empty_payload))
  where
    held : Conn
    held =
        set_export (set_provision c i (hold rid.nonce qid eid (export_at c eid))) eid add_reference

held-Claims :
    (ps : List Provision) (nonce qid eid i : ℕ) (e : Export)
    → find_slot is_free ps ≡ some i
    → ((j : ℕ) → claimable nonce (get_or ps j no_provision) ≡ false)
    → (get_or (update i (hold nonce qid eid e) ps) i no_provision
        ≡ hold nonce qid eid e (get_or ps i no_provision))
      × (find_slot (claimable nonce) (update i (hold nonce qid eid e) ps) ≡ some i)
held-Claims ps nonce qid eid i e f n = (there, found)
  where
    at : i < length ps
    at = (find_slot-holds is_free ps no_provision f).0

    there :
        get_or (update i (hold nonce qid eid e) ps) i no_provision
        ≡ hold nonce qid eid e (get_or ps i no_provision)
    there = get-update i (hold nonce qid eid e) ps no_provision at

    only :
        (j : ℕ)
        → claimable nonce (get_or (update i (hold nonce qid eid e) ps) j no_provision) ≡ true
        → j ≡ i
    only j =
        update_cases (λ p. claimable nonce p ≡ true → j ≡ i) i (hold nonce qid eid e) ps
          no_provision j (λ g l h. sym g)
          (λ m h. Bool-clash (claimable nonce (get_or ps j no_provision)) h (n j)) (λ h. cc)

    found : find_slot (claimable nonce) (update i (hold nonce qid eid e) ps) ≡ some i
    found =
        find_slot_unique (claimable nonce) (update i (hold nonce qid eid e) ps) no_provision i
          (omega (arith, at, length-update i (hold nonce qid eid e) ps))
          (rw (there, eq→== nonce nonce refl) refl) (λ j l. only j)

-- What Provide holds is what Accept gets, on any connection of the vat: if the target of the Provide
-- names the export `eid`, a slot is free, no other provision has the nonce, and the connection of the
-- Accept has room for the export, the Accept is answered with an export of the server of `eid`.
pub handle_provide-accept :
    (env : Env) (c d : Conn) (qid other eid i id : ℕ) (target : Option Target) (rid : RecipientId)
    → resolve_target env c target ≡ some eid
    → find_slot is_free c.provisions ≡ some i
    → ((j : ℕ) → claimable rid.nonce (provision_at c j) ≡ false)
    → (export
        (on_vat d (handle_provide env c qid target (some rid)).0)
        (export_at c eid).server
        (export_at c eid).dispatch).1
      ≡ some id
    → (handle_accept env
          (on_vat d (handle_provide env c qid target (some rid)).0)
          other
          (some rid.nonce)
          false
        ≡ send_answer env
            (set_provision
              (export
                (on_vat d (handle_provide env c qid target (some rid)).0)
                (export_at c eid).server
                (export_at c eid).dispatch).0
              i
              (claim false other id))
            other
            (return_cap other id))
      × ((export_at
            (export
              (on_vat d (handle_provide env c qid target (some rid)).0)
              (export_at c eid).server
              (export_at c eid).dispatch).0
            id).server
          ≡ (export_at c eid).server)
unfolding set_vat claim_slot
handle_provide-accept env c d qid other eid i id target rid t f n x = (
  handle_accept-slot env d' other rid.nonce i id false found exported
      ∙ ap
          (λ (p : Provision).
            claim_slot env (export d' p.server p.dispatch).0 other false i (some id))
          here,
  (export-Exported d' (export_at c eid).server (export_at c eid).dispatch id x).2,
)
  where
    d' : Conn
    d' = on_vat d (handle_provide env c qid target (some rid)).0

    table :
        (handle_provide env c qid target (some rid)).0.provisions
        ≡ update i (hold rid.nonce qid eid (export_at c eid)) c.provisions
    table = handle_provide-provisions env c qid eid i target rid t f

    held :
        (get_or (update i (hold rid.nonce qid eid (export_at c eid)) c.provisions) i no_provision
          ≡ hold rid.nonce qid eid (export_at c eid) (provision_at c i))
        × (find_slot
              (claimable rid.nonce)
              (update i (hold rid.nonce qid eid (export_at c eid)) c.provisions)
            ≡ some i)
    held = held-Claims c.provisions rid.nonce qid eid i (export_at c eid) f n

    here : provision_at d' i ≡ hold rid.nonce qid eid (export_at c eid) (provision_at c i)
    here = ap (λ ps. get_or ps i no_provision) table ∙ held.0

    found : find_slot (claimable rid.nonce) d'.provisions ≡ some i
    found = ap (find_slot (claimable rid.nonce)) table ∙ held.1

    exported : (Exporting d' i).1 ≡ some id
    exported = ap (λ (p : Provision). (export d' p.server p.dispatch).1) here ∙ x
