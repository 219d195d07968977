-- ===== src/Client.antt =====
-- ipc/DaemonClient.h and ipc/DaemonClient.cpp, the pending calls: a request waits until its response, its
-- timeout, its cancellation or a failure of the connection. The handler of a request is called by an
-- entry in `answered`. The payload is the encoded request; the result `R` is the JSON object of a
-- response, and what the client keeps of it is not modelled.
pub mod Once
pub mod Reach
pub mod Examples
use luma_core.Prelude.{
  ℕ, suc, Bool, true, false, not, ◌||◌, List, [], ◌∷◌, ◌++◌, Option, some, none, length,
  if◌then◌else◌, ltb, ◌==◌,
}
use luma_core.Message.{Message, blank, format, end}
use luma_core.Frames.{max_frame_bytes}

pub record DaemonCallResult (R : Type 0) : Type 0 where
  pub success : Bool
  pub result : Option R
  pub error : Message

pub record PendingCall : Type 0 where
  pub payload : List ℕ
  pub written : Bool

pub record DaemonClient (R : Type 0) : Type 0 where
  pub next_request_id : ℕ
  pub pending_calls : List (ℕ × PendingCall)
  pub pending_call_order : List ℕ
  -- The requests whose handlers a timer of 0 ms calls with the error of a request that is too long.
  pub oversized : List ℕ
  pub answered : List (ℕ × DaemonCallResult R)
  pub last_error : Message

-- `QHash::contains`, `erase` and `QList::removeAll`.
unfoldable pub has_call : List (ℕ × PendingCall) → ℕ → Bool
has_call [] id = false
has_call ((k, _) ∷ ps) id = let rest = has_call ps id in if k == id then true else rest

unfoldable pub erase_call : ℕ → List (ℕ × PendingCall) → List (ℕ × PendingCall)
erase_call id [] = []
erase_call id ((k, p) ∷ ps) = let rest = erase_call id ps in if k == id then rest else (k, p) ∷ rest

unfoldable pub remove_all : ℕ → List ℕ → List ℕ
remove_all id [] = []
remove_all id (k ∷ ks) = let rest = remove_all id ks in if k == id then rest else k ∷ rest

-- `pending->written = true`.
unfoldable pub mark_written : ℕ → List (ℕ × PendingCall) → List (ℕ × PendingCall)
mark_written id [] = []
mark_written id ((k, p) ∷ ps) =
    let rest = mark_written id ps in
    (k, (if k == id then record p { written = true } else p)) ∷ rest

-- Whether the request is not there or written already.
unfoldable pub is_written : List (ℕ × PendingCall) → ℕ → Bool
is_written [] id = true
is_written ((k, p) ∷ ps) id = let rest = is_written ps id in if k == id then p.written else rest

module _ {R : Type 0} where
  abbrev pub new_client : DaemonClient R
  new_client = record {
    next_request_id = 1;
    pending_calls = [];
    pending_call_order = [];
    oversized = [];
    answered = [];
    last_error = blank;
  }

  abbrev pub failure : Message → DaemonCallResult R
  failure error = record { success = false; result = none; error = error }

  unfoldable pub finish_pending_call : DaemonClient R → ℕ → DaemonCallResult R → DaemonClient R
  unfolding has_call erase_call remove_all
  finish_pending_call c id result = if not (has_call c.pending_calls id) then c else record c {
    pending_calls = erase_call id c.pending_calls;
    pending_call_order = remove_all id c.pending_call_order;
    last_error = if result.success then blank else result.error;
    answered = c.answered ++ ((id, result) ∷ []);
  }

  unfoldable pub call_async : DaemonClient R → List ℕ → DaemonClient R
  call_async c payload =
      let id = c.next_request_id in
      let numbered = record c { next_request_id = suc id } in
      if ltb max_frame_bytes (length payload)
      then record numbered { oversized = c.oversized ++ (id ∷ []) }
      else record numbered {
        pending_calls =
            c.pending_calls ++ ((id, record { payload = payload; written = false }) ∷ []);
        pending_call_order = c.pending_call_order ++ (id ∷ []);
      }

  -- The timer behind a request that is too long.
  unfoldable pub report_oversized : DaemonClient R → DaemonClient R
  report_oversized c =
      let error = format "LumaCore daemon request exceeds the maximum message size." end in
      elim (c.oversized) [
        | [] ↦ c
        | id ∷ ids ↦ record c {
          oversized = ids;
          last_error = error;
          answered = c.answered ++ ((id, failure error) ∷ []);
        }
      ]

  unfoldable pub time_out : DaemonClient R → ℕ → DaemonClient R
  unfolding finish_pending_call
  time_out c id =
      finish_pending_call c id
        (failure (format "Timed out waiting for LumaCore daemon response." end))

  unfoldable pub cancel_call : DaemonClient R → ℕ → Bool × DaemonClient R
  unfolding finish_pending_call
  cancel_call c id = if not (has_call c.pending_calls id) then (false, c) else (
    true,
    finish_pending_call c id (failure (format "LumaCore daemon request was cancelled." end)),
  )

  -- `sendPendingCall`, for whether the socket is connected, whether it takes the whole payload, and its
  -- error.
  unfoldable pub send_pending_call : DaemonClient R → ℕ → Bool → Bool → Message → DaemonClient R
  unfolding is_written mark_written finish_pending_call
  send_pending_call c id connected wrote error =
      if is_written c.pending_calls id || not connected
      then c
      else if not wrote
      then finish_pending_call (record c { last_error = error }) id (failure error)
      else record c { pending_calls = mark_written id c.pending_calls }

  -- The loop of `failPendingCalls`.
  unfoldable pub fail_calls : DaemonClient R → Message → List ℕ → DaemonClient R
  unfolding finish_pending_call
  fail_calls c error [] = c
  fail_calls c error (id ∷ ids) = fail_calls (finish_pending_call c id (failure error)) error ids

  unfoldable pub fail_pending_calls : DaemonClient R → Message → DaemonClient R
  unfolding fail_calls
  fail_pending_calls c error = fail_calls c error c.pending_call_order
