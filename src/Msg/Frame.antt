-- ===== src/Msg/Frame.antt =====
-- The frames of `src/ngrok/msg/conn.go`: a length of eight bytes, the lowest first, and the message.
-- A connection to read from is the list of the bytes that arrive before it ends.
pub mod RoundTrip
use ngrok.Prelude.{
  ℕ, zero, suc, ◌+◌, ◌*◌, ◌/◌, ◌%◌, ◌^◌, Bool, true, false, List, [], ◌∷◌, ◌++◌, Option, none, some,
  leb, ltb, ◌==◌, ◌||◌, if◌then◌else◌, length,
}

abbrev pub Bytes : Type 0
Bytes = List ℕ

abbrev pub max_msg_size : ℕ
max_msg_size = 64 * 1024

pub data ReadError : Type 0 where
  -- the connection ends before, or in the middle of, what is read
  cut_off : ReadError
  invalid_length : ReadError
  too_long : ReadError
  malformed : ReadError

pub data Result (A : Type 0) : Type 0 where
  ok : A → Result A
  err : ReadError → Result A

infixl 5 ◌>>=◌
abbrev pub ◌>>=◌ : {A B : Type 0} → Result A → (A → Result B) → Result B
ok a >>= f = f a
err e >>= f = err e

-- `io.ReadFull`: exactly so many bytes, and what is left.
unfoldable pub read_full : ℕ → Bytes → Result (Bytes × Bytes)
read_full zero s = ok ([], s)
read_full (suc n) [] = err cut_off
read_full (suc n) (b ∷ s) = do (bs, rest) ← read_full n s; ok (b ∷ bs, rest)

-- The number that bytes spell, the lowest first.
unfoldable pub from_le : Bytes → ℕ
from_le [] = 0
from_le (b ∷ bs) = b + 256 * from_le bs

unfoldable pub to_le : ℕ → ℕ → Bytes
to_le zero n = []
to_le (suc k) n = n % 256 ∷ to_le k (n / 256)

-- `sz <= 0` of an `int64`, which is negative from 2^63 on.
abbrev pub not_positive : ℕ → Bool
not_positive sz = sz == 0 || leb (2 ^ 63) sz

-- The tests of the length, and the message.
unfoldable pub read_body : ℕ → Bytes → Result (Bytes × Bytes)
read_body sz rest =
    if not_positive sz
    then err invalid_length
    else if ltb max_msg_size sz
    then err too_long
    else read_full sz rest

unfoldable pub read_msg_shared : Bytes → Result (Bytes × Bytes)
read_msg_shared s = do (size_bytes, rest) ← read_full 8 s; read_body (from_le size_bytes) rest

-- What `WriteMsg` puts on the connection for a packed message.
unfoldable pub write_frame : Bytes → Bytes
write_frame buffer = to_le 8 (length buffer) ++ buffer
