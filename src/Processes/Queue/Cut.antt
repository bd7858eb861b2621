-- ===== src/Processes/Queue/Cut.antt =====
-- What the receiver of "asm_5 /message_queue" prints of the texts of its sender.
use linux_assignment.Prelude.{ℕ, ◌≡◌, ◌⊎◌, inl, inr, refl, List, [], ◌∷◌, ◌++◌, arith, All, take}
use linux_assignment.Processes.Queue.{
  Queue, msgsnd, first_message, second_message, msg_send, text_size, Printed, behind, unwritten,
  msg_recv, Run, sender, receiver, runs,
}

-- a message of the sender
abbrev IsSent : List ℕ → Type 0
IsSent text = (text ≡ first_message ++ (0 ∷ [])) ⊎ (text ≡ second_message ++ (0 ∷ []))

-- the first 20 bytes of a message of the sender, or nothing
abbrev pub IsCut : Printed → Type 0
IsCut printed =
    (printed ≡ unwritten)
    ⊎ ((printed ≡ behind (take text_size first_message))
        ⊎ (printed ≡ behind (take text_size second_message)))

All-append :
    (queue : Queue) (text : List ℕ)
    → All IsSent queue
    → IsSent text
    → All IsSent (queue ++ (text ∷ []))
All-append [] text h g = (g, tt)
All-append (q ∷ queue) text (h, hs) g = (h, All-append queue text hs g)

msgsnd-IsSent :
    (room : ℕ) (queue : Queue) (text : List ℕ)
    → All IsSent queue
    → IsSent (text ++ (0 ∷ []))
    → All IsSent (msgsnd room queue text)
msgsnd-IsSent room queue text h g = ground (arith, All-append queue (text ++ (0 ∷ [])) h g)

msg_send-IsSent : (room : ℕ) (queue : Queue) → All IsSent queue → All IsSent (msg_send room queue)
unfolding msg_send
msg_send-IsSent room queue h =
    msgsnd-IsSent room (msgsnd room queue first_message) second_message
      (msgsnd-IsSent room queue first_message h (inl refl)) (inr refl)

msg_recv-IsCut :
    (queue : Queue) → All IsSent queue → IsCut (msg_recv queue).0 × All IsSent (msg_recv queue).1
unfolding msg_recv
msg_recv-IsCut [] h = (inl refl, tt)
msg_recv-IsCut (text ∷ queue) (inl e, hs) = (inr (inl (rw e)), hs)
msg_recv-IsCut (text ∷ queue) (inr e, hs) = (inr (inr (rw e)), hs)

runs-IsCut : (rs : List Run) (queue : Queue) → All IsSent queue → All IsCut (runs rs queue).0
unfolding runs
runs-IsCut [] queue h = tt
runs-IsCut (sender room ∷ rs) queue h =
    runs-IsCut rs (msg_send room queue) (msg_send-IsSent room queue h)
runs-IsCut (receiver ∷ rs) queue h =
    let (cut, left) = msg_recv-IsCut queue h in (cut, runs-IsCut rs (msg_recv queue).1 left)

-- However often the two programs run, in whatever order, from an empty queue and with whatever room for
-- the sender's messages: no run of the receiver gets a text of the sender with its zero byte. Each
-- prints from an array that nothing has written, or has received the first 20 bytes of one of the two
-- texts, with no zero byte, and reads behind them.
pub never_whole : (rs : List Run) → All IsCut (runs rs []).0
never_whole rs = runs-IsCut rs [] tt
