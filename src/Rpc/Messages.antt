-- ===== src/Rpc/Messages.antt =====
-- What the readers that compiler/codecgen.c generates from rpc.capnp and rpc-threeparty.capnp find in
-- a message, as far as lib/capn-rpc.c looks at it. A pointer that may be null is an Option.
use c_capnproto.Common.{ℕ, zero, suc, ◌+◌, ◌*◌, ◌^◌, Bool, Option, List, [], ◌∷◌, ℤ, if◌then◌else◌}

-- A `capn_ptr` in a payload: `interface` has the capTable index, a `struct` its data words and its
-- pointers, and `other` stands for a list of any kind.
mutual
  pub data Content : Type 0 where
    null : Content
    interface : ℤ → Content
    struct : List ℕ → Contents → Content
    other : Content

  pub data Contents : Type 0 where
    nil : Contents
    cons : Content → Contents → Contents

-- `VatId`, and the ids that hold one.
pub record VatId : Type 0 where
  pub host : List ℕ
  pub port : ℕ

pub record ThirdPartyCapId : Type 0 where
  pub vat : Option VatId
  pub nonce : ℕ

pub record ThirdParty : Type 0 where
  pub id : Option ThirdPartyCapId
  pub vine_id : ℕ

pub data CapDescriptor : Type 0 where
  sender_hosted : ℕ → CapDescriptor
  third_party_hosted : Option ThirdParty → CapDescriptor
  other_cap : CapDescriptor

-- A null capTable is one without entries.
pub record Payload : Type 0 where
  pub content : Content
  pub cap_table : List CapDescriptor

abbrev pub empty_payload : Payload
empty_payload = record { content = null; cap_table = [] }

-- `PromisedAnswer.Op`: `step` stands for `getPointerField`.
pub data Op : Type 0 where
  noop : Op
  step : ℕ → Op

pub record PromisedAnswer : Type 0 where
  pub question_id : ℕ
  pub transform : List Op

pub data Target : Type 0 where
  imported_cap : ℕ → Target
  promised_answer : Option PromisedAnswer → Target
  other_target : Target

-- The reasons that the vat gives, and those of a peer.
pub data Reason : Type 0 where
  no_bootstrap export_table_full no_such_export call_failed : Reason
  provide_no_capability provide_no_recipient provide_table_full : Reason
  accept_no_provision accept_no_such_provision accept_table_full : Reason
  text : List ℕ → Reason

pub data Outcome : Type 0 where
  results : Option Payload → Outcome
  exception : Reason → Outcome
  other_outcome : Outcome

pub record Return : Type 0 where
  pub answer_id : ℕ
  pub outcome : Outcome

pub record KeyPart : Type 0 where
  pub join_id : ℕ
  pub part_count : ℕ
  pub part_num : ℕ

-- `RecipientId` holds the vat beside the nonce.
pub record RecipientId : Type 0 where
  pub vat : Option VatId
  pub nonce : ℕ

pub data Context : Type 0 where
  sender_loopback receiver_loopback provide : ℕ → Context
  accept : Context

pub data Message : Type 0 where
  bootstrap : ℕ → Message
  call : ℕ → Option Target → ℕ → ℕ → Option Payload → Message
  finish : ℕ → Message
  release : ℕ → ℕ → Message
  join : ℕ → Option Target → Option KeyPart → Message
  return : Return → Message
  resolve : List ℕ → Message
  disembargo : Option Target → Context → Message
  provides : ℕ → Option Target → Option RecipientId → Message
  accepts : ℕ → Option ℕ → Bool → Message
  unimplemented : Message → Message
  others : List ℕ → Message

-- `capn_getp(p, off, 0)` of a struct with a pointer section: past its end it is the null pointer.
unfoldable pub pointer_field : Contents → ℕ → Content
pointer_field nil off = null
pointer_field (cons p ps) zero = p
pointer_field (cons p ps) (suc off) = pointer_field ps off

-- The content of a JoinResult: the id and the bit 32 of one data word, and one pointer.
abbrev pub join_result : ℕ → Bool → Content → Content
join_result join_id succeeded c =
    struct ((join_id + 2 ^ 32 * (if succeeded then 1 else 0)) ∷ []) (cons c nil)
