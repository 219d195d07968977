-- ===== src/Frames.antt =====
-- ipc/DaemonFrameCodec.h, ipc/DaemonFrameCodec.cpp, and the read loop of ipc/DaemonServer.cpp: how the
-- bytes of a socket become the messages of the daemon. A `QByteArray` is a list of bytes. Qt's
-- `trimmed` is a parameter. The pointer to the buffer is taken not to be null.
pub mod Split
pub mod Stream
pub mod Bounds
pub mod Examples
use luma_core.Prelude.{
  ℕ, zero, suc, ◌+◌, ◌-◌, ◌*◌, ◌≡◌, Bool, true, false, ◌&&◌, List, [], ◌∷◌, ◌++◌, Option, none,
  some, if◌then◌else◌, ltb, ◌==◌, length, take, drop,
}

-- `kDaemonMaxMessageBytes` and `kDaemonMaxFrameBytes`.
abbrev pub max_message_bytes : ℕ
max_message_bytes = 1024 * 1024

abbrev pub max_frame_bytes : ℕ
max_frame_bytes = max_message_bytes + 1

pub data DaemonFrameStatus : Type 0 where
  need_more_data empty_frame complete_frame oversized_frame : DaemonFrameStatus

pub record DaemonFrameResult : Type 0 where
  pub status : DaemonFrameStatus
  pub payload : List ℕ

unfoldable pub daemon_frame_read_capacity : List ℕ → ℕ
daemon_frame_read_capacity buffer = max_frame_bytes - length buffer

-- `QByteArray::indexOf('\n')`; -1 is `none`.
unfoldable pub newline_index : List ℕ → Option ℕ
newline_index [] = none
newline_index (b ∷ bs) =
    let rest = newline_index bs in
    if b == 10 then some 0 else elim rest [ none ↦ none | some i ↦ some (suc i) ]

abbrev pub is_blank : (List ℕ → List ℕ) → List ℕ → Bool
is_blank trimmed payload = length (trimmed payload) == 0

abbrev frame : DaemonFrameStatus → DaemonFrameResult
frame s = record { status = s; payload = [] }

-- The result, and the buffer as the call leaves it.
unfoldable pub take_next_daemon_frame : (List ℕ → List ℕ) → List ℕ → DaemonFrameResult × List ℕ
take_next_daemon_frame trimmed buffer = elim (newline_index buffer) [
  | none ↦
      if ltb max_message_bytes (length buffer)
      then (frame oversized_frame, buffer)
      else (frame need_more_data, buffer)
  | some i ↦
      if ltb max_message_bytes i
      then (frame oversized_frame, buffer)
      else if is_blank trimmed (take i buffer)
      then (frame empty_frame, drop (suc i) buffer)
      else (record { status = complete_frame; payload = take i buffer }, drop (suc i) buffer)
]

-- Where the read loop stops: it waits with a buffer and bytes that it has not read, or it has
-- disconnected the client. The last one is for the fuel.
pub data Ending : Type 0 where
  waiting : List ℕ → List ℕ → Ending
  disconnected out_of_fuel : Ending

-- The loop of `DaemonServer::handleReadyRead` on the bytes that the socket has: the payloads that
-- it hands on, in their order, and where it stops. A handler that disconnects the client is not
-- modelled.
unfoldable pub read_loop : (List ℕ → List ℕ) → ℕ → List ℕ → List ℕ → List (List ℕ) × Ending
unfolding take_next_daemon_frame daemon_frame_read_capacity
read_loop trimmed zero buffer unread = ([], out_of_fuel)
read_loop trimmed (suc fuel) buffer unread =
    let (result, rest) = take_next_daemon_frame trimmed buffer in
    elim (result.status) [
      | need_more_data ↦
          let capacity = daemon_frame_read_capacity buffer in
          elim (ltb 0 (length unread) && ltb 0 capacity) [
            | true ↦ read_loop trimmed fuel (buffer ++ take capacity unread) (drop capacity unread)
            | false ↦ ([], waiting buffer unread)
          ]
      | oversized_frame ↦ ([], disconnected)
      | empty_frame ↦ read_loop trimmed fuel rest unread
      | complete_frame ↦
          let (payloads, ending) = read_loop trimmed fuel rest unread in
          (result.payload ∷ payloads, ending)
    ]

-- `handleReadyRead`: a round passes a byte of the buffer or moves one into it, so twice the bytes
-- that are not read and those of the buffer, with one more, are enough.
unfoldable pub handle_ready_read : (List ℕ → List ℕ) → List ℕ → List ℕ → List (List ℕ) × Ending
unfolding read_loop
handle_ready_read trimmed buffer unread =
    read_loop trimmed (suc (2 * length unread + length buffer)) buffer unread
