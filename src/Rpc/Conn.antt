-- ===== src/Rpc/Conn.antt =====
-- The tables of lib/capn-rpc.h, and what a connection calls: the generated codecs and the callbacks.
use c_capnproto.Common.{
  ℕ, Bool, true, false, Option, none, some, List, [], ◌∷◌, length, replicate, ltb, if◌then◌else◌, ℤ,
  pos, negsuc, ◌≡◌, refl,
}
use c_capnproto.Rpc.Messages.{Content, Message}

-- An object in this process and a function that serves its calls, are named by their addresses.
pub record Export : Type 0 where
  pub used : Bool
  pub refcount : ℤ
  pub server : ℕ
  pub dispatch : ℕ

pub record Answer : Type 0 where
  pub used : Bool
  pub question_id : ℕ
  pub frame : List ℕ

pub record Question : Type 0 where
  pub used : Bool
  pub question_id : ℕ
  pub answered : Bool
  pub failed : Bool
  pub reply : List ℕ

pub record Provision : Type 0 where
  pub used : Bool
  pub nonce : ℕ
  pub server : ℕ
  pub dispatch : ℕ
  pub export_id : ℕ
  pub question_id : ℕ
  pub embargoed : Bool
  pub accept_question_id : ℕ

pub record Introduction : Type 0 where
  pub used : Bool
  pub nonce : ℕ
  pub vine_id : ℕ
  pub port : ℕ
  pub host : List ℕ

-- An export index of -1 is `none`, here and in all that follows.
pub record Join : Type 0 where
  pub used : Bool
  pub join_id : ℕ
  pub part_count : ℕ
  pub nseen : ℕ
  pub seen : List Bool
  pub qids : List ℕ
  pub eids : List (Option ℕ)

abbrev pub max_exports : ℕ
max_exports = 64

abbrev pub max_answers : ℕ
max_answers = 64

abbrev pub max_answer_bytes : ℕ
max_answer_bytes = 8192

abbrev pub max_questions : ℕ
max_questions = 64

abbrev pub max_provisions : ℕ
max_provisions = 32

abbrev pub max_introductions : ℕ
max_introductions = 8

abbrev pub max_host : ℕ
max_host = 64

abbrev pub max_joins : ℕ
max_joins = 8

abbrev pub max_join_parts : ℕ
max_join_parts = 16

-- Slots of zeros.
abbrev pub no_export : Export
no_export = record { used = false; refcount = pos 0; server = 0; dispatch = 0 }

abbrev pub no_answer : Answer
no_answer = record { used = false; question_id = 0; frame = [] }

abbrev pub no_question : Question
no_question = record { used = false; question_id = 0; answered = false; failed = false; reply = [] }

abbrev pub no_provision : Provision
no_provision = record {
  used = false;
  nonce = 0;
  server = 0;
  dispatch = 0;
  export_id = 0;
  question_id = 0;
  embargoed = false;
  accept_question_id = 0;
}

abbrev pub no_introduction : Introduction
no_introduction = record { used = false; nonce = 0; vine_id = 0; port = 0; host = [] }

abbrev pub no_join : Join
no_join = record {
  used = false;
  join_id = 0;
  part_count = 0;
  nseen = 0;
  seen = replicate max_join_parts false;
  qids = replicate max_join_parts 0;
  eids = replicate max_join_parts (some 0);
}

-- What the callbacks see of a connection: the frames sent, with what `send` returned, and the calls
-- of servers.
pub data Event : Type 0 where
  sent : List ℕ → ℤ → Event
  served : ℕ → ℕ → ℕ → ℕ → Content → Event

-- The code that the connection calls. `encode` builds a message by the generated writers and renders
-- it, `decode` is `capn_init_mem`, the root pointer and the generated readers. The callbacks may
-- depend on all that they have seen, the last event first; a server does not call the connection back.
pub record Env : Type 0 where
  pub encode : Message → List ℕ
  pub decode : List ℕ → Option Message
  pub transmit : List Event → List ℕ → ℤ
  pub dispatch : List Event → ℕ → ℕ → ℕ → ℕ → Content → ℤ × Content

-- `struct capn_rpc_conn`. `provisions` is the table of the vat that `vat` points to; `log` is not in
-- the source: it is what the callbacks have seen.
pub record Conn : Type 0 where
  pub exports : List Export
  pub answers : List Answer
  pub questions : List Question
  pub provisions : List Provision
  pub introductions : List Introduction
  pub next_question_id : ℕ
  pub joins : List Join
  pub bootstrap : Option ℕ
  pub bootstrap_dispatch : ℕ
  pub log : List Event

-- `capn_rpc_init`.
unfoldable pub init : Conn
init = record {
  exports = replicate max_exports no_export;
  answers = replicate max_answers no_answer;
  questions = replicate max_questions no_question;
  provisions = replicate max_provisions no_provision;
  introductions = replicate max_introductions no_introduction;
  next_question_id = 0;
  joins = replicate max_joins no_join;
  bootstrap = none;
  bootstrap_dispatch = 0;
  log = [];
}

-- `capn_rpc_set_vat`, with the table of the vat.
unfoldable pub set_vat : Conn → List Provision → Conn
set_vat c vat = record c { provisions = vat }

-- `capn_rpc_set_bootstrap`.
unfoldable pub set_bootstrap : Conn → Option ℕ → ℕ → Conn
set_bootstrap c server dispatch = record c { bootstrap = server; bootstrap_dispatch = dispatch }

-- What a handler leaves behind and its return code.
abbrev pub Handled : Type 0
Handled = Conn × ℤ

-- `c->send`.
unfoldable pub transmit_frame : Env → Conn → List ℕ → Handled
transmit_frame env c frame =
    let rc = env.transmit c.log frame in (record c { log = sent frame rc ∷ c.log }, rc)

-- `send_message`: a message that does not fit the buffer is not sent.
unfoldable pub send_message : Env → Conn → Message → Handled
unfolding transmit_frame
send_message env c m =
    let frame = env.encode m in
    if ltb max_answer_bytes (length frame) then (c, negsuc 0) else transmit_frame env c frame

-- A message that is sent changes the log alone.
pub send_message-changes :
    (env : Env) (c : Conn) (m : Message)
    → (send_message env c m).0 ≡ record c { log = (send_message env c m).0.log }
unfolding send_message transmit_frame
send_message-changes env c m = by_test (ltb max_answer_bytes (length (env.encode m))) (env.encode m)
  where
    by_test :
        (t : Bool) (frame : List ℕ)
        → (if t then (c, negsuc 0) else transmit_frame env c frame).0
          ≡ record c { log = (if t then (c, negsuc 0) else transmit_frame env c frame).0.log }
    by_test true frame = refl
    by_test false frame = refl
