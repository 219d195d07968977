-- ===== src/Client/Once.antt =====
-- ipc/DaemonClient.cpp: every request is answered once.
use luma_core.Prelude.{
  ℕ, ◌+◌, ◌≤◌, ◌≡◌, refl, ap, ◌∙◌, Bool, true, not, ◌&&◌, ◌||◌, List, [], ◌∷◌, ◌++◌, length,
  if◌then◌else◌, ltb, leb, ◌==◌, arith, Bool-cases, inl, inr, subst, ==_iff, ◌⊎◌,
}
use luma_core.Message.{Message, format, end}
use luma_core.Frames.{max_frame_bytes}
use luma_core.Client.{
  DaemonCallResult, PendingCall, DaemonClient, has_call, erase_call, remove_all, mark_written,
  is_written, new_client, failure, finish_pending_call, call_async, report_oversized, cancel_call,
  send_pending_call, fail_calls, false,
}

unfoldable pub count : ℕ → List ℕ → ℕ
count id [] = 0
count id (k ∷ ks) = (if k == id then 1 else 0) + count id ks

abbrev pub keys {ℓ} : {A : Type ℓ} → List (ℕ × A) → List ℕ
keys [] = []
keys ((k, _) ∷ ps) = k ∷ keys ps

count-append : (id : ℕ) (xs ys : List ℕ) → count id (xs ++ ys) ≡ count id xs + count id ys
unfolding count
count-append id [] ys = omega arith
count-append id (x ∷ xs) ys = let rest = count-append id xs ys in omega (arith, rest)

count-remove_all :
    (j id : ℕ) (xs : List ℕ) → count j (remove_all id xs) ≡ (if id == j then 0 else count j xs)
unfolding count remove_all
count-remove_all j id [] = ground arith
count-remove_all j id (x ∷ xs) = let rest = count-remove_all j id xs in ground (arith, rest)

keys-append {ℓ} : {A : Type ℓ} (ps qs : List (ℕ × A)) → keys (ps ++ qs) ≡ keys ps ++ keys qs
keys-append [] qs = refl
keys-append ((k, _) ∷ ps) qs = ap (λ ks. k ∷ ks) (keys-append ps qs)

keys-erase_call :
    (id : ℕ) (ps : List (ℕ × PendingCall)) → keys (erase_call id ps) ≡ remove_all id (keys ps)
unfolding erase_call remove_all
keys-erase_call id [] = refl
keys-erase_call id ((k, p) ∷ ps) =
    let rest = keys-erase_call id ps in
    elim (Bool-cases (k == id)) [
      | inl same ↦ rw (erase_call, remove_all, same) rest
      | inr other ↦ rw (erase_call, remove_all, other) (ap (λ ks. k ∷ ks) rest)
    ]

keys-mark_written : (id : ℕ) (ps : List (ℕ × PendingCall)) → keys (mark_written id ps) ≡ keys ps
unfolding mark_written
keys-mark_written id [] = refl
keys-mark_written id ((k, p) ∷ ps) = ap (λ ks. k ∷ ks) (keys-mark_written id ps)

has_call-count :
    (id : ℕ) (ps : List (ℕ × PendingCall)) → has_call ps id ≡ true → 1 ≤ count id (keys ps)
unfolding has_call count
has_call-count id [] h = cc
has_call-count id ((k, p) ∷ ps) h = let rest = has_call-count id ps in ground (arith, rest)

List-cases {ℓ} : {A : Type ℓ} (xs : List A) → (xs ≡ []) ⊎ ((y : A) × (ys : List A) × (xs ≡ y ∷ ys))
List-cases [] = inl refl
List-cases (y ∷ ys) = inr (y, ys, refl)

module _ {R : Type 0} where
  -- How often a request stands among the answered ones, the pending ones, and those that are too long.
  abbrev pub standing : DaemonClient R → ℕ → ℕ
  standing c id = count id (keys c.answered) + count id c.pending_call_order + count id c.oversized

  -- Every number that was given out, from 1 on, stands in one place, once, and no other number does;
  -- the map of the pending calls and their order agree.
  pub record IsAccounted (c : DaemonClient R) : Type 0 where
    pub first : 1 ≤ c.next_request_id
    pub agree : keys c.pending_calls ≡ c.pending_call_order
    pub once : (id : ℕ) → standing c id ≡ (if leb 1 id && ltb id c.next_request_id then 1 else 0)

  pub new_client-IsAccounted : IsAccounted new_client
  unfolding count
  new_client-IsAccounted = record { first = omega arith; agree = refl; once = λ id. ground arith }

  finish-standing :
      (c : DaemonClient R) (id : ℕ) (result : DaemonCallResult R) (j : ℕ)
      → IsAccounted c
      → has_call c.pending_calls id ≡ true
      → count j (keys (c.answered ++ ((id, result) ∷ [])))
          + count j (remove_all id c.pending_call_order)
          + count j c.oversized
        ≡ (if leb 1 j && ltb j c.next_request_id then 1 else 0)
  unfolding count
  finish-standing c id result j a there =
      let waits : 1 ≤ count id c.pending_call_order =
        subst (λ ks. 1 ≤ count id ks) a.agree (has_call-count id c.pending_calls there) in
      let out : count j (keys (c.answered ++ ((id, result) ∷ [])))
          ≡ count j (keys c.answered) + ((if id == j then 1 else 0) + 0) =
        ap (count j) (keys-append c.answered ((id, result) ∷ []))
        ∙ count-append j (keys c.answered) (id ∷ []) in
      let gone = count-remove_all j id c.pending_call_order in
      let once = a.once j in
      elim (Bool-cases (id == j)) [
        | inl same ↦
            let here : 1 ≤ count j c.pending_call_order =
              subst (λ k. 1 ≤ count k c.pending_call_order) ((==_iff id j).0 same) waits in
            ground (arith, out, gone, once, here)
        | inr other ↦ ground (arith, out, gone, once)
      ]

  pub finish-IsAccounted :
      (c : DaemonClient R) (id : ℕ) (result : DaemonCallResult R)
      → IsAccounted c
      → IsAccounted (finish_pending_call c id result)
  unfolding finish_pending_call
  finish-IsAccounted c id result a = elim (Bool-cases (has_call c.pending_calls id)) [
    | inr missing ↦ rw (finish_pending_call, missing) a
    | inl there ↦
        rw (finish_pending_call, there)
          (record {
            first = a.first;
            agree = keys-erase_call id c.pending_calls ∙ ap (remove_all id) a.agree;
            once = λ j. finish-standing c id result j a there;
          })
  ]

  pub fail_calls-IsAccounted :
      (c : DaemonClient R) (error : Message) (ids : List ℕ)
      → IsAccounted c
      → IsAccounted (fail_calls c error ids)
  unfolding fail_calls
  fail_calls-IsAccounted c error [] a = a
  fail_calls-IsAccounted c error (id ∷ ids) a =
      fail_calls-IsAccounted (finish_pending_call c id (failure error)) error ids
        (finish-IsAccounted c id (failure error) a)

  pub call_async-IsAccounted :
      (c : DaemonClient R) (payload : List ℕ) → IsAccounted c → IsAccounted (call_async c payload)
  unfolding call_async count
  call_async-IsAccounted c payload a =
      let id = c.next_request_id in
      let first = a.first in
      elim (Bool-cases (ltb max_frame_bytes (length payload))) [
        | inl long ↦
            rw (call_async, long)
              (record {
                first = omega (arith, first);
                agree = a.agree;
                once = λ j.
                    let old = a.once j in
                    let more = count-append j c.oversized (id ∷ []) in
                    ground (arith, old, more, first);
              })
        | inr fits ↦
            rw (call_async, fits)
              (record {
                first = omega (arith, first);
                agree = keys-append c.pending_calls _ ∙ ap (λ ks. ks ++ (id ∷ [])) a.agree;
                once = λ j.
                    let old = a.once j in
                    let more = count-append j c.pending_call_order (id ∷ []) in
                    ground (arith, old, more, first);
              })
      ]

  -- The handler of the first request that is too long.
  reported :
      (c : DaemonClient R) (id : ℕ) (ids : List ℕ) (result : DaemonCallResult R) (j : ℕ)
      → IsAccounted c
      → c.oversized ≡ id ∷ ids
      → count j (keys (c.answered ++ ((id, result) ∷ [])))
          + count j c.pending_call_order
          + count j ids
        ≡ (if leb 1 j && ltb j c.next_request_id then 1 else 0)
  unfolding count
  reported c id ids result j a e =
      let out : count j (keys (c.answered ++ ((id, result) ∷ [])))
          ≡ count j (keys c.answered) + ((if id == j then 1 else 0) + 0) =
        ap (count j) (keys-append c.answered ((id, result) ∷ []))
        ∙ count-append j (keys c.answered) (id ∷ []) in
      let split : count j c.oversized ≡ (if id == j then 1 else 0) + count j ids = ap (count j) e in
      let once = a.once j in omega (arith, out, split, once)

  pub report_oversized-IsAccounted :
      (c : DaemonClient R) → IsAccounted c → IsAccounted (report_oversized c)
  unfolding report_oversized
  report_oversized-IsAccounted c a = elim (List-cases c.oversized) [
    | inl empty ↦ rw (report_oversized, empty) a
    | inr (id, ids, e) ↦
        rw (report_oversized, e)
          (record {
            first = a.first;
            agree = a.agree;
            once = λ j. reported c id ids (failure _) j a e;
          })
  ]

  pub send-IsAccounted :
      (c : DaemonClient R) (id : ℕ) (connected wrote : Bool) (error : Message)
      → IsAccounted c
      → IsAccounted (send_pending_call c id connected wrote error)
  unfolding send_pending_call
  send-IsAccounted c id connected wrote error a =
      let noted = record c { last_error = error } in
      let b : IsAccounted noted = record { first = a.first; agree = a.agree; once = a.once } in
      elim (Bool-cases (is_written c.pending_calls id || not connected)) [
        | inl skip ↦ rw (send_pending_call, skip) a
        | inr ready ↦ elim (Bool-cases wrote) [
          | inr lost ↦
              rw (send_pending_call, ready, lost) (finish-IsAccounted noted id (failure error) b)
          | inl sent ↦
              rw (send_pending_call, ready, sent)
                (record {
                  first = a.first;
                  agree = keys-mark_written id c.pending_calls ∙ a.agree;
                  once = a.once;
                })
        ]
      ]

  either-IsAccounted :
      (b : Bool) (c d : DaemonClient R)
      → IsAccounted c
      → IsAccounted d
      → let out : Bool × DaemonClient R = if not b then (false, c) else (true, d) in
        IsAccounted out.1
  either-IsAccounted true c d p q = q
  either-IsAccounted false c d p q = p

  pub cancel-IsAccounted :
      (c : DaemonClient R) (id : ℕ) → IsAccounted c → IsAccounted (cancel_call c id).1
  unfolding cancel_call
  cancel-IsAccounted c id a =
      either-IsAccounted (has_call c.pending_calls id) c _ a
        (finish-IsAccounted c id (failure (format "LumaCore daemon request was cancelled." end)) a)
