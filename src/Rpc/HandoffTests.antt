-- ===== src/Rpc/HandoffTests.antt =====
-- Runs of three-party handoffs in lib/capn-rpc.c at concrete inputs, and their theorems.
use c_capnproto.Common.{
  ℕ, zero, suc, ◌≤◌, ◌<◌, ◌≡◌, refl, ap, true, false, none, some, [], ◌∷◌, get_or, replicate, pos,
  get_or-replicate, Bool-clash,
}
use c_capnproto.Rpc.Messages.{
  imported_cap, RecipientId, CapDescriptor, release, Context, accept_no_such_provision,
  third_party_hosted,
}
use c_capnproto.Rpc.Table.{find_slot, update}
use c_capnproto.Rpc.Conn.{
  Env, Conn, Provision, init, set_vat, no_provision, no_introduction, send_message,
}
use c_capnproto.Rpc.Exports.{export, export_as, claim_export, export_at}
use c_capnproto.Rpc.Answers.{return_cap, resolve_target, send_answer, send_return_exception, hosted}
use c_capnproto.Rpc.Introductions.{
  write_third_party_cap, note_introductions, introduction_done, has_nonce,
}
use c_capnproto.Rpc.Introductions.Pickup.{introduction_done-note, Unknown}
use c_capnproto.Rpc.Handoff.{
  handle_accept, handle_provide, handle_disembargo, claim, set_provision, claimable, awaits,
}
use c_capnproto.Rpc.Handoff
use c_capnproto.Rpc.Handoff.Claims.{
  on_vat, Claims, Unclaimed, handle_accept-once, handle_provide-accept, handle_disembargo-answers,
}

-- A peer that takes every frame, and a codec whose frames all stand for one Return.
abbrev peer : Env
peer = record {
  encode = λ m. 1 ∷ [];
  decode = λ frame. some (return_cap 7 0);
  transmit = λ l frame. pos 0;
  dispatch = λ l f server interface_id method_id params. (pos 0, params);
}

-- The server 500 is held for the nonce 77 under the Provide question 5.
abbrev held : Provision
held = record no_provision { used = true; nonce = 77; server = 500; dispatch = 9; question_id = 5 }

abbrev holding : Conn
holding = record init { provisions = held ∷ replicate 31 no_provision }

nothing-claimable :
    (n nonce j : ℕ) → claimable nonce (get_or (replicate n no_provision) j no_provision) ≡ false
nothing-claimable n nonce j = ap (claimable nonce) (get_or-replicate n j no_provision)

nothing-awaits :
    (n qid j : ℕ) → awaits qid (get_or (replicate n no_provision) j no_provision) ≡ false
nothing-awaits n qid j = ap (awaits qid) (get_or-replicate n j no_provision)

holding-Claims : Claims holding.provisions 77 0
unfolding find_slot
holding-Claims = (refl, only)
  where
    only : (j : ℕ) → claimable 77 (get_or holding.provisions j no_provision) ≡ true → j ≡ 0
    only zero h = refl
    only (suc j) h =
        Bool-clash (claimable 77 (get_or (replicate 31 no_provision) j no_provision)) h
          (nothing-claimable 31 77 j)

holding_exports : (export holding 500 9).1 ≡ some 0
unfolding export export_as claim_export find_slot init
holding_exports = refl

handle_accept-once_example :
    handle_accept peer
      (on_vat init (handle_accept peer holding 40 (some 77) false).0)
      41
      (some 77)
      false
    ≡ send_return_exception peer
        (on_vat init (handle_accept peer holding 40 (some 77) false).0)
        41
        accept_no_such_provision
handle_accept-once_example =
    handle_accept-once peer holding init 40 41 77 0 0 false false holding-Claims holding_exports

holding-Unclaimed : Unclaimed holding.provisions 5
holding-Unclaimed zero = refl
holding-Unclaimed (suc j) = nothing-awaits 31 5 j

-- The Accept came on one connection of the vat, and is answered on another.
handle_disembargo-answers_example :
    ((handle_accept peer holding 40 (some 77) true).0.log ≡ holding.log)
    × (handle_disembargo peer
          (on_vat init (handle_accept peer holding 40 (some 77) true).0)
          none
          (Context.provide 5)
        ≡ send_answer peer
            (set_provision
              (on_vat init (handle_accept peer holding 40 (some 77) true).0)
              0
              (λ p. no_provision))
            40
            (return_cap 40 0))
handle_disembargo-answers_example =
    handle_disembargo-answers peer holding init none 40 77 0 0 5 holding-Claims.0 holding-Unclaimed
      refl holding_exports

abbrev hosting : Conn
hosting = (export init 500 9).0

abbrev recipient : RecipientId
recipient = record { vat = none; nonce = 77 }

hosting_target : resolve_target peer hosting (some (imported_cap 0)) ≡ some 0
unfolding resolve_target hosted export export_as claim_export find_slot update init
hosting_target = refl

hosting_room : find_slot Handoff.is_free hosting.provisions ≡ some 0
unfolding export export_as claim_export find_slot init
hosting_room = refl

hosting-unclaimable : (j : ℕ) → claimable 77 (get_or hosting.provisions j no_provision) ≡ false
unfolding export export_as claim_export find_slot init
hosting-unclaimable j = nothing-claimable 32 77 j

-- The connection on which the recipient comes.
abbrev arriving : Conn
arriving = on_vat init (handle_provide peer hosting 5 (some (imported_cap 0)) (some recipient)).0

arriving_exports :
    (export arriving (export_at hosting 0).server (export_at hosting 0).dispatch).1 ≡ some 0
unfolding export export_as claim_export find_slot update init set_vat
arriving_exports = refl

handle_provide-accept_example :
    (handle_accept peer arriving 41 (some 77) false
      ≡ send_answer peer
          (set_provision
            (export arriving (export_at hosting 0).server (export_at hosting 0).dispatch).0
            0
            (claim false 41 0))
          41
          (return_cap 41 0))
    × ((export_at
          (export arriving (export_at hosting 0).server (export_at hosting 0).dispatch).0
          0).server
        ≡ (export_at hosting 0).server)
handle_provide-accept_example =
    handle_provide-accept peer hosting init 5 41 0 0 0 (some (imported_cap 0)) recipient
      hosting_target hosting_room hosting-unclaimable arriving_exports

abbrev written : CapDescriptor
written = third_party_hosted (
    some (record {
      id = some (record { vat = some (record { host = 104 ∷ []; port = 80 }); nonce = 77 });
      vine_id = 6;
    }))

written_ok : write_third_party_cap (some (104 ∷ [])) 80 77 6 ≡ some written
unfolding write_third_party_cap
written_ok = refl

init-Unknown : Unknown init 77 0
unfolding find_slot init
init-Unknown = (refl, λ i. ap (has_nonce 77) (get_or-replicate 8 i no_introduction))

introduction_done-note_example :
    (64 ≤ 1 → note_introductions init (written ∷ []) ≡ init)
    × (1 < 64
        → (get_or (note_introductions init (written ∷ [])).introductions 0 no_introduction
            ≡ record { used = true; nonce = 77; vine_id = 6; port = 80; host = 104 ∷ 0 ∷ [] })
          × ((introduction_done peer (note_introductions init (written ∷ [])) 77).1 ≡ pos 0)
          × ((introduction_done peer (note_introductions init (written ∷ [])) 77).0.log
              ≡ (send_message peer (note_introductions init (written ∷ [])) (release 6 1)).0.log)
          × (find_slot
                (has_nonce 77)
                (introduction_done peer (note_introductions init (written ∷ [])) 77).0.introductions
              ≡ none))
introduction_done-note_example =
    introduction_done-note peer init (104 ∷ []) 80 77 6 0 written written_ok init-Unknown
