-- ===== src/Client/Examples.antt =====
-- A client with two requests, one answered and one that the connection fails, and the theorem at it.
use luma_core.Prelude.{ℕ, ◌≡◌, ◌&&◌, [], ◌∷◌, true, if◌then◌else◌, leb, ltb}
use luma_core.Message.{format, end}
use luma_core.Client.{
  DaemonCallResult, DaemonClient, new_client, call_async, finish_pending_call, fail_pending_calls,
  some, blank,
}
use luma_core.Client.Once.{standing, keys}
use luma_core.Client.Reach.{Reach, here, next, called, answered, failed, Reach-standing}

abbrev fresh : DaemonClient ℕ
fresh = new_client

abbrev good : DaemonCallResult ℕ
good = record { success = true; result = some 7; error = blank }

abbrev asked : DaemonClient ℕ
asked = call_async (call_async fresh (1 ∷ [])) (2 ∷ [])

abbrev done : DaemonClient ℕ
done = fail_pending_calls (finish_pending_call asked 1 good) (format "lost" end)

history : Reach new_client done
history =
    next
      (next (next (next here (called fresh (1 ∷ []))) (called (call_async fresh (1 ∷ [])) (2 ∷ [])))
        (answered asked 1 good))
      (failed (finish_pending_call asked 1 good) (format "lost" end))

Reach-standing_example :
    (standing done 2 ≡ (if leb 1 2 && ltb 2 done.next_request_id then 1 else 0))
    × (keys done.pending_calls ≡ done.pending_call_order)
Reach-standing_example = Reach-standing done 2 history
