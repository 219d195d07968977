-- ===== src/Client/Reach.antt =====
-- ipc/DaemonClient.cpp: the pending calls through whatever happens to the client.
use luma_core.Prelude.{ℕ, ◌≡◌, Bool, List, if◌then◌else◌, ltb, leb, ◌&&◌}
use luma_core.Message.{Message}
use luma_core.Client.{
  DaemonCallResult, DaemonClient, new_client, finish_pending_call, call_async, report_oversized,
  time_out, cancel_call, send_pending_call, fail_pending_calls,
}
use luma_core.Client.Once.{
  keys, standing, IsAccounted, call_async-IsAccounted, report_oversized-IsAccounted,
  new_client-IsAccounted, send-IsAccounted, finish-IsAccounted, cancel-IsAccounted,
  fail_calls-IsAccounted,
}

module _ {R : Type 0} where
  -- What can happen: a call by the program, and what the event loop delivers.
  pub data Event : DaemonClient R → DaemonClient R → Type 0 where
    called : (c : DaemonClient R) (payload : List ℕ) → Event c (call_async c payload)
    too_long : (c : DaemonClient R) → Event c (report_oversized c)
    sent :
        (c : DaemonClient R) (id : ℕ) (connected wrote : Bool) (error : Message)
        → Event c (send_pending_call c id connected wrote error)
    answered :
        (c : DaemonClient R) (id : ℕ) (result : DaemonCallResult R)
        → Event c (finish_pending_call c id result)
    timed_out : (c : DaemonClient R) (id : ℕ) → Event c (time_out c id)
    cancelled : (c : DaemonClient R) (id : ℕ) → Event c (cancel_call c id).1
    failed : (c : DaemonClient R) (error : Message) → Event c (fail_pending_calls c error)

  pub data Reach (s : DaemonClient R) : DaemonClient R → Type 0 where
    here : Reach s s
    next : {c d : DaemonClient R} → Reach s c → Event c d → Reach s d

module _ {R : Type 0} where
  Event-IsAccounted : {c d : DaemonClient R} → Event c d → IsAccounted c → IsAccounted d
  unfolding time_out fail_pending_calls
  Event-IsAccounted (called c payload) a = call_async-IsAccounted c payload a
  Event-IsAccounted (too_long c) a = report_oversized-IsAccounted c a
  Event-IsAccounted (sent c id connected wrote error) a =
      send-IsAccounted c id connected wrote error a
  Event-IsAccounted (answered c id result) a = finish-IsAccounted c id result a
  Event-IsAccounted (timed_out c id) a = finish-IsAccounted c id _ a
  Event-IsAccounted (cancelled c id) a = cancel-IsAccounted c id a
  Event-IsAccounted (failed c error) a = fail_calls-IsAccounted c error c.pending_call_order a

  Reach-IsAccounted : {s c : DaemonClient R} → Reach s c → IsAccounted s → IsAccounted c
  Reach-IsAccounted here a = a
  Reach-IsAccounted (next r e) a = Event-IsAccounted e (Reach-IsAccounted r a)

  -- Whatever happens to a new client, and in whatever order, no request is lost and none is answered
  -- twice: each number that `callAsync` gave out stands once among the answered, the pending and the
  -- requests that are too long, no other number does, and the map of the pending calls and their order
  -- hold the same requests.
  pub Reach-standing :
      (c : DaemonClient R) (id : ℕ)
      → Reach new_client c
      → (standing c id ≡ (if leb 1 id && ltb id c.next_request_id then 1 else 0))
        × (keys c.pending_calls ≡ c.pending_call_order)
  Reach-standing c id r = let a = Reach-IsAccounted r new_client-IsAccounted in (a.once id, a.agree)
