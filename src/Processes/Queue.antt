-- ===== src/Processes/Queue.antt =====
-- "asm_5 /message_queue/msg_send.c" and "asm_5 /message_queue/msg_recv.c": two texts through a message
-- queue. As documented, `msgsnd` with IPC_NOWAIT fails when the queue has no room for the bytes;
-- `msgrcv` of type 0 takes the first message, with MSG_NOERROR cut to the size given, and with
-- IPC_NOWAIT fails when there is none. Neither program looks at the result.
pub mod Cut
mod Tests
use linux_assignment.Prelude.{
  ℕ, zero, suc, ◌>>=◌, ◌+◌, List, [], ◌∷◌, ◌++◌, leb, if◌then◌else◌, Outcome, done, fault, length,
  take, until_zero, has_zero,
}

-- The texts of the messages that are queued, each with the zero byte that the sender has put behind it.
abbrev pub Queue : Type 0
Queue = List (List ℕ)

abbrev pub used : Queue → ℕ
used [] = 0
used (text ∷ queue) = length text + used queue

-- `strlen(msg.text) + 1` bytes are sent.
abbrev pub msgsnd : (room : ℕ) → Queue → (text : List ℕ) → Queue
msgsnd room queue text =
    if leb (used queue + (length text + 1)) room then queue ++ ((text ++ (0 ∷ [])) ∷ []) else queue

-- "This is a first message" and "This is a second message"
abbrev pub first_message : List ℕ
first_message =
    84 ∷ 104 ∷ 105 ∷ 115 ∷ 32 ∷ 105 ∷ 115 ∷ 32 ∷ 97 ∷ 32 ∷ 102 ∷ 105 ∷ 114 ∷ 115 ∷ 116 ∷ 32 ∷ 109
    ∷ 101 ∷ 115 ∷ 115 ∷ 97 ∷ 103 ∷ 101 ∷ []

abbrev pub second_message : List ℕ
second_message =
    84 ∷ 104 ∷ 105 ∷ 115 ∷ 32 ∷ 105 ∷ 115 ∷ 32 ∷ 97 ∷ 32 ∷ 115 ∷ 101 ∷ 99 ∷ 111 ∷ 110 ∷ 100 ∷ 32
    ∷ 109 ∷ 101 ∷ 115 ∷ 115 ∷ 97 ∷ 103 ∷ 101 ∷ []

-- `main` of msg_send.c
unfoldable pub msg_send : (room : ℕ) → Queue → Queue
msg_send room queue = msgsnd room (msgsnd room queue first_message) second_message

-- `sizeof(msg.text)` of the receiver
abbrev pub text_size : ℕ
text_size = 20

-- what `printf` makes of the receiver's array
pub data Printed : Type 0 where
  whole : List ℕ → Printed
  behind : (received : List ℕ) → Printed  -- no zero byte was received: it reads behind these
  unwritten : Printed  -- nothing was received, and nothing had written to the array

-- `main` of msg_recv.c: what is printed, and the queue that is left.
unfoldable pub msg_recv : Queue → Printed × Queue
msg_recv [] = (unwritten, [])
msg_recv (text ∷ queue) =
    let received = take text_size text in
    (if has_zero received then whole (until_zero received) else behind received, queue)

-- Runs of the two programs, one after the other; the sender finds a queue with some room.
pub data Run : Type 0 where
  sender : (room : ℕ) → Run
  receiver : Run

-- what the receivers print, in order, and the queue that is left
pub runs : List Run → Queue → List Printed × Queue
runs [] queue = ([], queue)
runs (sender room ∷ rest) queue = runs rest (msg_send room queue)
runs (receiver ∷ rest) queue =
    let (first, left) = msg_recv queue in
    let (others, last) = runs rest left in (first ∷ others, last)
