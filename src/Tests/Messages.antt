-- ===== src/Tests/Messages.antt =====
-- Instances of the theorems on messages.
use ngrok.Prelude.{ℕ, ◌<◌, ◌≤◌, [], ◌∷◌, ◌++◌, ◌≡◌, arith, length}
use ngrok.Msg.Frame.{Bytes, max_msg_size, ok, read_msg_shared, write_frame}
use ngrok.Msg.Frame.RoundTrip.{read-write_frame, spelled, read_msg_shared-ok}

abbrev three : Bytes
three = 1 ∷ 2 ∷ 3 ∷ []

abbrev after : Bytes
after = 9 ∷ []

read-write_frame_example : read_msg_shared (write_frame three ++ after) ≡ ok (three, after)
read-write_frame_example = read-write_frame three after (omega arith) (omega arith)

read_msg_shared-ok_example :
    (0 < length three)
    × (length three ≤ max_msg_size)
    × ((b0 b1 b2 b3 b4 b5 b6 b7 : ℕ) × (length three ≡ spelled b0 b1 b2 b3 b4 b5 b6 b7)
        × (write_frame three ++ after ≡ b0 ∷ b1 ∷ b2 ∷ b3 ∷ b4 ∷ b5 ∷ b6 ∷ b7 ∷ (three ++ after)))
read_msg_shared-ok_example =
    read_msg_shared-ok (write_frame three ++ after) three after
      (read-write_frame three after (omega arith) (omega arith))
