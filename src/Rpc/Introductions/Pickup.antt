-- ===== src/Rpc/Introductions/Pickup.antt =====
-- An introduction is held from the payload that makes it until its pickup is done.
use c_capnproto.Common.{
  ℕ, ◌≤◌, ◌<◌, ◌≡◌, refl, sym, ap, subst, ◌∙◌, Bool, true, false, none, some, List, [], ◌∷◌, ◌++◌,
  ltb, length, get_or, pos, arith, Bool-cases, Bool-clash, inl, inr, eq→==, lt→ltb, le→ltb,
  if◌then◌else◌, eq_of_some, guard, ◌>>◌,
}
use c_capnproto.Rpc.Messages.{CapDescriptor, release}
use c_capnproto.Rpc.Table.{
  find_slot, update, update_cases, get-update, length-update, find_slot-holds, find_slot_unique,
  find_slot-none,
}
use c_capnproto.Rpc.Conn.{
  Conn, Env, Introduction, no_introduction, max_host, Handled, send_message, send_message-changes,
}
use c_capnproto.Rpc.Introductions.{
  is_free, introduced, introduction_of, put_introduction, note_introduction, note_introductions,
  send_release, has_nonce, finish_introduction, introduction_done, write_third_party_cap,
}

abbrev intro_at : Conn → ℕ → Introduction
intro_at c i = get_or c.introductions i no_introduction

-- The introduction to a vat.
abbrev intro : List ℕ → ℕ → ℕ → ℕ → Introduction
intro host port nonce vine_id = record {
  used = true;
  nonce = nonce;
  vine_id = vine_id;
  port = port;
  host = host ++ (0 ∷ []);
}

-- What a descriptor that `capn_rpc_write_third_party_cap` wrote introduces.
written-introduces :
    (host : List ℕ) (port nonce vine_id : ℕ) (cd : CapDescriptor)
    → write_third_party_cap (some host) port nonce vine_id ≡ some cd
    → introduction_of cd
      ≡ (if ltb (length host) max_host then some (intro host port nonce vine_id) else none)
unfolding write_third_party_cap introduced
written-introduces host port nonce vine_id cd e =
    ap introduction_of (sym (eq_of_some e)) ∙ by_test (ltb (length host) max_host)
  where
    by_test :
        (t : Bool)
        → (guard t >> some (intro host port nonce vine_id))
          ≡ (if t then some (intro host port nonce vine_id) else none)
    by_test true = refl
    by_test false = refl

-- A free slot, and no introduction with the nonce.
abbrev pub Unknown : Conn → ℕ → ℕ → Type 0
Unknown c nonce j =
    (find_slot is_free c.introductions ≡ some j)
    × ((i : ℕ) → has_nonce nonce (get_or c.introductions i no_introduction) ≡ false)

-- A descriptor that `capn_rpc_write_third_party_cap` wrote is held by the receiver, in the first free
-- slot, with the host that it names, if that is shorter than 64 bytes, and else it changes nothing.
-- Once held it can be found by its nonce; `capn_rpc_introduction_done` then succeeds, releases the vine
-- once and leaves no introduction with the nonce.
pub introduction_done-note :
    (env : Env) (c : Conn) (host : List ℕ) (port nonce vine_id j : ℕ) (cd : CapDescriptor)
    → write_third_party_cap (some host) port nonce vine_id ≡ some cd
    → Unknown c nonce j
    → (max_host ≤ length host → note_introductions c (cd ∷ []) ≡ c)
      × (length host < max_host
          → (get_or (note_introductions c (cd ∷ [])).introductions j no_introduction
              ≡ intro host port nonce vine_id)
            × ((introduction_done env (note_introductions c (cd ∷ [])) nonce).1 ≡ pos 0)
            × ((introduction_done env (note_introductions c (cd ∷ [])) nonce).0.log
                ≡ (send_message env (note_introductions c (cd ∷ [])) (release vine_id 1)).0.log)
            × (find_slot
                  (has_nonce nonce)
                  (introduction_done env (note_introductions c (cd ∷ [])) nonce).0.introductions
                ≡ none))
unfolding note_introductions note_introduction put_introduction introduction_done
    finish_introduction send_release
introduction_done-note env c host port nonce vine_id j cd w u = (long, short)
  where
    x : Introduction
    x = intro host port nonce vine_id

    long : max_host ≤ length host → note_introductions c (cd ∷ []) ≡ c
    long h = ap (note_introduction c) refused
      where
        refused : introduction_of cd ≡ none
        refused =
            written-introduces host port nonce vine_id cd w
            ∙ ap (λ t. if t then some x else none) (le→ltb (length host) max_host h)

    held : Conn
    held = record c { introductions = update j (λ y. x) c.introductions }

    noted : length host < max_host → note_introductions c (cd ∷ []) ≡ held
    noted h = ap (note_introduction c) stored ∙ ap (put_introduction c x) u.0
      where
        stored : introduction_of cd ≡ some x
        stored =
            written-introduces host port nonce vine_id cd w
            ∙ ap (λ t. if t then some x else none) (lt→ltb (length host) max_host h)

    at : j < length c.introductions
    at = (find_slot-holds is_free c.introductions no_introduction u.0).0

    there : get_or held.introductions j no_introduction ≡ x
    there = get-update j (λ y. x) c.introductions no_introduction at

    only : (i : ℕ) → has_nonce nonce (get_or held.introductions i no_introduction) ≡ true → i ≡ j
    only i =
        update_cases (λ y. has_nonce nonce y ≡ true → i ≡ j) j (λ y. x) c.introductions
          no_introduction i (λ e l h. sym e)
          (λ n h. Bool-clash (has_nonce nonce (get_or c.introductions i no_introduction)) h (u.1 i))
          (λ h. cc)

    found : find_slot (has_nonce nonce) held.introductions ≡ some j
    found =
        find_slot_unique (has_nonce nonce) held.introductions no_introduction j
          (omega (arith, at, length-update j (λ y. x) c.introductions))
          (rw (there, eq→== nonce nonce refl) refl) (λ i l. only i)

    released : Conn
    released = (send_message env held (release vine_id 1)).0

    done : introduction_done env held nonce ≡ (
      record released { introductions = update j (λ y. no_introduction) released.introductions },
      pos 0,
    )
    done =
        ap (finish_introduction env held) found
        ∙ ap
            (λ (y : Introduction). (
              record (send_message env held (release y.vine_id 1)).0 {
                introductions =
                    update j (λ y. no_introduction)
                      (send_message env held (release y.vine_id 1)).0.introductions;
              },
              pos 0,
            ))
            there

    kept : released.introductions ≡ held.introductions
    kept = ap (λ (d : Conn). d.introductions) (send_message-changes env held (release vine_id 1))

    gone :
        (i : ℕ)
        → has_nonce nonce
            (get_or (update j (λ y. no_introduction) held.introductions) i no_introduction)
          ≡ false
    gone i =
        update_cases (λ y. has_nonce nonce y ≡ false) j (λ y. no_introduction) held.introductions
          no_introduction i (λ e l. refl)
          (λ n. elim (Bool-cases (has_nonce nonce (get_or held.introductions i no_introduction))) [
            | inl t ↦ absurd (n (sym (only i t)))
            | inr f ↦ f
          ])
          refl

    Result : Conn → Type 0
    Result d =
        (get_or d.introductions j no_introduction ≡ x)
        × ((introduction_done env d nonce).1 ≡ pos 0)
        × ((introduction_done env d nonce).0.log ≡ (send_message env d (release vine_id 1)).0.log)
        × (find_slot (has_nonce nonce) (introduction_done env d nonce).0.introductions ≡ none)

    short : length host < max_host → Result (note_introductions c (cd ∷ []))
    short h = subst Result (sym (noted h)) (
      there,
      ap (λ (r : Handled). r.1) done,
      ap (λ (r : Handled). r.0.log) done,
      ap (λ (r : Handled). find_slot (has_nonce nonce) r.0.introductions) done
          ∙ ap (λ xs. find_slot (has_nonce nonce) (update j (λ y. no_introduction) xs)) kept
          ∙ find_slot-none (has_nonce nonce) _ no_introduction (λ i l. gone i),
    )
