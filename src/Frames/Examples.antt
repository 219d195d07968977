-- ===== src/Frames/Examples.antt =====
-- The theorems on the read loop at concrete bytes.
use luma_core.Prelude.{ℕ, ◌≡◌, refl, List, [], ◌∷◌, arith}
use luma_core.Text.{codes}
use luma_core.Frames.{handle_ready_read, waiting}
use luma_core.Frames.Split.{IsLine}
use luma_core.Frames.Stream.{AreMessages, encode, handle_ready_read-encode}
use luma_core.Frames.Bounds.{IsStopped, handle_ready_read-IsStopped}

-- A stand-in for `trimmed` on bytes without white space.
abbrev same_bytes : List ℕ → List ℕ
same_bytes bs = bs

-- Two messages and the start of a third, of which the first bytes are in the buffer.
handle_ready_read-encode_example :
    handle_ready_read same_bytes (codes "{}\n{\"i") (codes "d\"}\n{\"")
    ≡ (codes "{}" ∷ codes "{\"id\"}" ∷ [], waiting (codes "{\"") [])
unfolding IsLine AreMessages encode
handle_ready_read-encode_example =
    handle_ready_read-encode same_bytes (codes "{}" ∷ codes "{\"id\"}" ∷ []) (codes "{\"")
      (codes "{}\n{\"i") (codes "d\"}\n{\"") (grind arith) (grind arith) (omega arith) refl

handle_ready_read-IsStopped_example :
    IsStopped (handle_ready_read same_bytes (codes "{") (codes "}\n")).1
handle_ready_read-IsStopped_example =
    handle_ready_read-IsStopped same_bytes (codes "{") (codes "}\n")
