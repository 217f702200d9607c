-- ===== src/Rpc/Tests.antt =====
-- Runs of lib/capn-rpc.c at concrete inputs, and its theorems there.
use c_capnproto.Common.{
  ℕ, ◌+◌, ◌-◌, ◌^◌, ◌≤◌, ◌<◌, ◌≡◌, ◌≢◌, ◌↔◌, refl, true, none, some, [], ◌∷◌, pos, arith,
  if◌then◌else◌, leb, ltb, pos_part,
}
use c_capnproto.Rpc.Messages.{promised_answer}
use c_capnproto.Rpc.Table.{find_slot, update}
use c_capnproto.Rpc.Conn.{Env, Conn, init, max_exports, no_export}
use c_capnproto.Rpc.Exports.{export, export_as, claim_export, export_at, handle_release}
use c_capnproto.Rpc.Exports.Valid.{export-IsValid}
use c_capnproto.Rpc.Exports.References.{export-refused, handle_release-counts}
use c_capnproto.Rpc.Answers
use c_capnproto.Rpc.Answers.{
  handle_bootstrap, return_cap, resolve_target, answer_drop, answer_find, send_answer,
  send_return_exception, hosted,
}
use c_capnproto.Rpc.Answers.Pipelining.{handle_bootstrap-pipelines}
use c_capnproto.Rpc.Handle.{handle}
use c_capnproto.Rpc.Handle.Tables as Tables
use c_capnproto.Rpc.Handle.Valid.{init-IsValid}
use c_capnproto.Rpc.Handle.Reachable.{start, next, receives, Reach-IsValid}

-- A peer that takes every frame, and a codec whose frames all stand for one Return.
abbrev peer : Env
peer = record {
  encode = λ m. 1 ∷ [];
  decode = λ frame. some (return_cap 7 0);
  transmit = λ l frame. pos 0;
  dispatch = λ l f server interface_id method_id params. (pos 0, params);
}

abbrev vat : Conn
vat = record init { bootstrap = some 500; bootstrap_dispatch = 9 }

-- The connection that has exported the server 500.
abbrev hosting : Conn
hosting = (export init 500 9).0

Reach-IsValid_example : Tables.IsValid (handle peer init (1 ∷ [])).0
Reach-IsValid_example = Reach-IsValid peer (next start (receives (1 ∷ []) refl))

bootstrap_exports : (export vat 500 9).1 ≡ some 0
unfolding export export_as claim_export find_slot init
bootstrap_exports = refl

room : find_slot Answers.is_free vat.answers ≡ some 0
unfolding find_slot init
room = refl

no_answer_yet : answer_find vat 7 ≡ none
unfolding answer_find find_slot init
no_answer_yet = refl

handle_bootstrap-pipelines_example :
    (resolve_target peer
        (handle_bootstrap peer vat 7).0
        (some (promised_answer (some (record { question_id = 7; transform = [] }))))
      ≡ some 0)
    × ((export_at (handle_bootstrap peer vat 7).0 0).server ≡ 500)
    × (resolve_target peer
          (answer_drop (handle_bootstrap peer vat 7).0 7)
          (some (promised_answer (some (record { question_id = 7; transform = [] }))))
        ≡ none)
handle_bootstrap-pipelines_example =
    handle_bootstrap-pipelines peer vat 7 500 0 0 init-IsValid.exports_valid refl bootstrap_exports
      room no_answer_yet (omega arith) refl

init_exports : (export init 500 9).1 ≡ some 0
unfolding export export_as claim_export find_slot init
init_exports = refl

export-refused_example : ((export init 500 9).1 ≡ none) ↔ (
    (i : ℕ)
    → i < max_exports
    → ((export_at init i).used ≡ true) × ((export_at init i).server ≢ 500))
export-refused_example = export-refused init 500 9 init-IsValid.exports_valid.size

hosted_once : ((export_at hosting 0).used ≡ true) × ((export_at hosting 0).refcount ≡ pos 1)
unfolding export export_as claim_export find_slot update init
hosted_once = (refl, refl)

handle_release-counts_example :
    (3 < 2 ^ 31
      → export_at (handle_release hosting 0 3) 0
        ≡ (if leb 1 3 then no_export else record (export_at hosting 0) { refcount = pos (1 - 3) }))
    × (2 ^ 31 ≤ 3
        → export_at (handle_release hosting 0 3) 0 ≡ (
            if ltb (1 + (2 ^ 32 - 3)) (2 ^ 31)
            then record (export_at hosting 0) { refcount = pos (1 + (2 ^ 32 - 3)) }
            else no_export))
    × ((export_at (handle_release hosting 0 3) 0).used ≡ true
        → 0 < pos_part (export_at (handle_release hosting 0 3) 0).refcount)
handle_release-counts_example =
    handle_release-counts hosting 0 1 3 (export-IsValid init 500 9 init-IsValid.exports_valid)
      (omega arith) hosted_once.0 hosted_once.1 (omega arith) (omega arith)
