-- ===== src/Rpc/Streams/Window.antt =====
-- A stream keeps to its window, and `capn_rpc_stream_finish` reports the oldest call that failed.
use c_capnproto.Common.{
  ℕ, ◌≤◌, ◌<◌, ◌≡◌, ◌≢◌, ◌↔◌, refl, sym, ap, ap₂, subst, ◌∙◌, Bool, true, false, not, ◌||◌, Option,
  none, some, List, [], ◌∷◌, ◌++◌, leb, ◌==◌, length, All, if◌then◌else◌, ℤ, pos, negsuc, arith,
  length-append,
}
use c_capnproto.Rpc.Messages.{Content}
use c_capnproto.Rpc.Conn.{Conn, Env}
use c_capnproto.Rpc.Questions.{no_id, send_call, send_finish, is_answered, is_failed}
use c_capnproto.Rpc.Questions.Returns.{send_finish-other}
use c_capnproto.Rpc.Streams.{
  RpcStream, max_window, stream_init, note_outcome, retire, stream_retire_oldest, add_call,
  send_open, stream_send, retire_all, stream_finish,
}

-- From 1 to 64 calls may wait, and no more do.
pub record IsValid (s : RpcStream) : Type 0 where
  pub some_window : 0 < s.window
  pub small_window : s.window ≤ max_window
  pub within : length s.qids ≤ s.window

-- `capn_rpc_stream_init` clamps the window.
pub stream_init-IsValid : (window : ℤ) → IsValid (stream_init window)
unfolding stream_init
stream_init-IsValid (pos n) = record {
  some_window = omega arith;
  small_window = omega arith;
  within = omega arith;
}
stream_init-IsValid (negsuc n) = record {
  some_window = omega arith;
  small_window = omega arith;
  within = omega arith;
}

-- Retiring keeps the window, and a call less waits.
retire-IsValid :
    (env : Env) (c : Conn) (s : RpcStream) (qids : List ℕ)
    → s.qids ≡ qids
    → IsValid s
    → IsValid (retire env c s qids).1
      × (length (retire env c s qids).1.qids < (retire env c s qids).1.window)
unfolding retire note_outcome
retire-IsValid env c s [] e v = (v, omega (arith, v.some_window, ap length e))
retire-IsValid env c s (qid ∷ qids) e v = by_test (not (is_answered c qid) || is_failed c qid)
  where
    by_test :
        (t : Bool)
        → IsValid (note_outcome t qid (record s { qids = qids }))
          × (length (note_outcome t qid (record s { qids = qids })).qids
              < (note_outcome t qid (record s { qids = qids })).window)
    by_test true = (
      record {
        some_window = v.some_window;
        small_window = v.small_window;
        within = omega (arith, v.within, ap length e);
      },
      omega (arith, v.within, ap length e),
    )
    by_test false = (
      record {
        some_window = v.some_window;
        small_window = v.small_window;
        within = omega (arith, v.within, ap length e);
      },
      omega (arith, v.within, ap length e),
    )

add_call-IsValid :
    (s : RpcStream) (c : Conn) (qid : ℕ)
    → IsValid s
    → length s.qids < s.window
    → IsValid (add_call s (c, qid)).0.1
add_call-IsValid s c qid v l = by_test (qid == no_id)
  where
    by_test :
        (t : Bool)
        → IsValid
            (if◌then◌else◌ {A = (Conn × RpcStream) × ℤ} t
              ((c, s), negsuc 0)
              ((c, record s { qids = s.qids ++ (qid ∷ []) }), pos 0)).0.1
    by_test true = v
    by_test false = record {
      some_window = v.some_window;
      small_window = v.small_window;
      within = omega (arith, l, length-append s.qids (qid ∷ []));
    }

send_open-IsValid :
    (env : Env) (cs : Conn × RpcStream) (imported interface_id method_id : ℕ) (params : Content)
    → IsValid cs.1
    → length cs.1.qids < cs.1.window
    → IsValid (send_open env cs imported interface_id method_id params).0.1
unfolding send_open
send_open-IsValid env cs imported interface_id method_id params v l = by_test cs.1.failed
  where
    sent : Conn × ℕ
    sent = send_call env cs.0 imported interface_id method_id params

    by_test :
        (t : Bool)
        → IsValid
            (if◌then◌else◌ {A = (Conn × RpcStream) × ℤ} t (cs, negsuc 0) (add_call cs.1 sent)).0.1
    by_test true = v
    by_test false = add_call-IsValid cs.1 sent.0 sent.1 v l

-- `capn_rpc_stream_send` keeps to the window: no more calls wait than it allows, and it allows at most
-- 64, so that the id that is stored is inside the array.
pub stream_send-IsValid :
    (env : Env) (c : Conn) (s : RpcStream) (imported interface_id method_id : ℕ) (params : Content)
    → IsValid s
    → IsValid (stream_send env c s imported interface_id method_id params).0.1
unfolding stream_send stream_retire_oldest
stream_send-IsValid env c s imported interface_id method_id params v = by_test s.failed
  where
    opened : Bool → (Conn × RpcStream) × ℤ
    opened t =
        send_open env (if t then stream_retire_oldest env c s else (c, s)) imported interface_id
          method_id params

    with_room : (t : Bool) → leb s.window (length s.qids) ≡ t → IsValid (opened t).0.1
    with_room true e =
        send_open-IsValid env (retire env c s s.qids) imported interface_id method_id params
          (retire-IsValid env c s s.qids refl v).0 (retire-IsValid env c s s.qids refl v).1
    with_room false e =
        send_open-IsValid env (c, s) imported interface_id method_id params v (ground (arith, e))

    by_test :
        (t : Bool)
        → IsValid
            (if◌then◌else◌ {A = (Conn × RpcStream) × ℤ} t
              ((c, s), negsuc 0)
              (opened (leb s.window (length s.qids)))).0.1
    by_test true = v
    by_test false = with_room (leb s.window (length s.qids)) refl

-- The first call that is not answered, or with an exception.
unfoldable pub first_lost : Conn → List ℕ → Option ℕ
first_lost c [] = none
first_lost c (qid ∷ qids) =
    let rest = first_lost c qids in
    if not (is_answered c qid) || is_failed c qid then some qid else rest

abbrev pub failure : RpcStream → Option ℕ
failure s = if s.have_failure then some s.first_failure else none

abbrev pub or_else : Option ℕ → Option ℕ → Option ℕ
or_else none b = b
or_else (some a) b = some a

abbrev pub IsDistinct : List ℕ → Type 0
IsDistinct [] = Unit
IsDistinct (qid ∷ qids) = All (λ x. x ≢ qid) qids × IsDistinct qids

first_lost-finish :
    (env : Env) (c : Conn) (q : ℕ) (qids : List ℕ)
    → All (λ x. x ≢ q) qids
    → first_lost (send_finish env c q).0 qids ≡ first_lost c qids
unfolding first_lost
first_lost-finish env c q [] h = refl
first_lost-finish env c q (qid ∷ qids) h =
    ap₂ (λ (t : Bool) (o : Option ℕ). if t then some qid else o)
      (ap₂ (λ a b. not a || b) (send_finish-other env c q qid h.0).0
        (send_finish-other env c q qid h.0).1)
      (first_lost-finish env c q qids h.1)

failure-none : (s : RpcStream) → failure s ≡ or_else (failure s) none
failure-none s = by_failure (failure s)
  where
    by_failure : (o : Option ℕ) → o ≡ or_else o none
    by_failure none = refl
    by_failure (some a) = refl

-- What a retired call leaves of the failures.
note_outcome-failure :
    (lost : Bool) (qid : ℕ) (s : RpcStream) (later : Option ℕ)
    → or_else (failure (note_outcome lost qid s)) later
      ≡ or_else (failure s) (if lost then some qid else later)
unfolding note_outcome
note_outcome-failure false qid s later = refl
note_outcome-failure true qid s later = by_failure s.have_failure
  where
    by_failure :
        (h : Bool)
        → some (if h then s.first_failure else qid)
          ≡ or_else (if h then some s.first_failure else none) (some qid)
    by_failure true = refl
    by_failure false = refl

note_outcome-qids :
    (lost : Bool) (qid : ℕ) (s : RpcStream) → (note_outcome lost qid s).qids ≡ s.qids
unfolding note_outcome
note_outcome-qids true qid s = refl
note_outcome-qids false qid s = refl

retire_all_lem :
    (qids : List ℕ) (env : Env) (c : Conn) (s : RpcStream)
    → s.qids ≡ qids
    → IsDistinct qids
    → ((retire_all (length qids) env (c, s)).1.qids ≡ [])
      × (failure (retire_all (length qids) env (c, s)).1 ≡ or_else (failure s) (first_lost c qids))
unfolding retire_all stream_retire_oldest first_lost retire
retire_all_lem [] env c s e d = (e, failure-none s)
retire_all_lem (qid ∷ qids) env c s e d = joined (
    retire_all_lem qids env (send_finish env c qid).0
      (note_outcome (not (is_answered c qid) || is_failed c qid) qid (record s { qids = qids }))
      (note_outcome-qids _ qid (record s { qids = qids })) d.1)
  where
    lost : Bool
    lost = not (is_answered c qid) || is_failed c qid

    s' : RpcStream
    s' = note_outcome lost qid (record s { qids = qids })

    Result : Conn × RpcStream → Type 0
    Result r =
        ((retire_all (length qids) env r).1.qids ≡ [])
        × (failure (retire_all (length qids) env r).1
            ≡ or_else (failure s) (if lost then some qid else first_lost c qids))

    at : stream_retire_oldest env c s ≡ ((send_finish env c qid).0, s')
    at = ap (retire env c s) e

    joined :
        ((retire_all (length qids) env ((send_finish env c qid).0, s')).1.qids ≡ [])
          × (failure (retire_all (length qids) env ((send_finish env c qid).0, s')).1
              ≡ or_else (failure s') (first_lost (send_finish env c qid).0 qids))
        → Result (stream_retire_oldest env c s)
    joined done = subst Result (sym at) (
      done.0,
      done.1
          ∙ ap (or_else (failure s')) (first_lost-finish env c qid qids d.0)
          ∙ note_outcome-failure lost qid (record s { qids = qids }) (first_lost c qids),
    )

-- `capn_rpc_stream_finish` ends with no call waiting. If the ids of the calls are distinct, it fails
-- if and only if a call failed before or one that waits is not answered or has an exception, and the
-- failure that is kept is the earlier one, else the oldest such call.
pub stream_finish_lem :
    (env : Env) (c : Conn) (s : RpcStream)
    → IsDistinct s.qids
    → ((stream_finish env c s).0.1.qids ≡ [])
      × (failure (stream_finish env c s).0.1 ≡ or_else (failure s) (first_lost c s.qids))
      × (((stream_finish env c s).1 ≡ pos 0) ↔ (or_else (failure s) (first_lost c s.qids) ≡ none))
unfolding stream_finish
stream_finish_lem env c s d = (done.0, done.1, code)
  where
    done :
        ((retire_all (length s.qids) env (c, s)).1.qids ≡ [])
        × (failure (retire_all (length s.qids) env (c, s)).1
            ≡ or_else (failure s) (first_lost c s.qids))
    done = retire_all_lem s.qids env c s refl d

    by_failure :
        (h : Bool) (f : ℕ)
        → ((if h then negsuc 0 else pos 0) ≡ pos 0) ↔ ((if h then some f else none) ≡ none)
    by_failure true f = (λ e. cc, λ e. cc)
    by_failure false f = (λ e. refl, λ e. refl)

    code : ((stream_finish env c s).1 ≡ pos 0) ↔ (or_else (failure s) (first_lost c s.qids) ≡ none)
    code =
        subst (λ o. ((stream_finish env c s).1 ≡ pos 0) ↔ (o ≡ none)) done.1
          (by_failure (retire_all (length s.qids) env (c, s)).1.have_failure
            (retire_all (length s.qids) env (c, s)).1.first_failure)
