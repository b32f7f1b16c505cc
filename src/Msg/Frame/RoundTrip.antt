-- ===== src/Msg/Frame/RoundTrip.antt =====
-- What is written as a frame is read back, and what is read is within the limit.
use ngrok.Prelude.{
  ℕ, zero, suc, ◌+◌, ◌*◌, ◌/◌, ◌^◌, ◌≤◌, ◌<◌, [], ◌∷◌, ◌++◌, append_assoc, ◌≡◌, refl, ap, ◌∙◌,
  length, arith, ◌⊎◌, inl, inr,
}
use ngrok.Msg.Frame.{
  Bytes, ReadError, read_body, max_msg_size, Result, ok, err, read_full, from_le, to_le,
  read_msg_shared, write_frame, too_long,
}

Result-cases :
    {A : Type 0} (r : Result A) → ((e : ReadError) × (r ≡ err e)) ⊎ ((a : A) × (r ≡ ok a))
Result-cases (ok a) = inr (a, refl)
Result-cases (err e) = inl (e, refl)

read_full-append : (bs rest : Bytes) → read_full (length bs) (bs ++ rest) ≡ ok (bs, rest)
unfolding read_full
read_full-append [] rest = refl
read_full-append (b ∷ bs) rest = rw (read_full-append bs rest)

length-to_le : (k n : ℕ) → length (to_le k n) ≡ k
unfolding to_le
length-to_le zero n = refl
length-to_le (suc k) n = ap suc (length-to_le k (n / 256))

from_le-to_le_eight : (n : ℕ) → n < 2 ^ 63 → from_le (to_le 8 n) ≡ n
unfolding from_le to_le
from_le-to_le_eight n h = omega arith

read_full_sized :
    (n : ℕ) (bs rest : Bytes) → length bs ≡ n → read_full n (bs ++ rest) ≡ ok (bs, rest)
read_full_sized n bs rest e = rw (← e) (read_full-append bs rest)

-- Behind its length, a message is read as its body.
read_msg_shared-to_le :
    (n : ℕ) (rest : Bytes) → n < 2 ^ 63 → read_msg_shared (to_le 8 n ++ rest) ≡ read_body n rest
unfolding read_msg_shared
read_msg_shared-to_le n rest h =
    rw (read_full_sized 8 (to_le 8 n) rest (length-to_le 8 n), from_le-to_le_eight n h)

-- A message of one to 65536 bytes that is written to a connection is read back, and what follows it
-- is left on the connection.
pub read-write_frame :
    (buffer rest : Bytes)
    → 0 < length buffer
    → length buffer ≤ max_msg_size
    → read_msg_shared (write_frame buffer ++ rest) ≡ ok (buffer, rest)
unfolding write_frame read_body
read-write_frame buffer rest full short =
    rw (append_assoc, read_msg_shared-to_le (length buffer) (buffer ++ rest) (omega arith))
      (ground (arith, read_full-append buffer rest))

-- A longer message can be written, and the other end refuses it.
pub read-write_frame_long :
    (buffer rest : Bytes)
    → max_msg_size < length buffer
    → length buffer < 2 ^ 63
    → read_msg_shared (write_frame buffer ++ rest) ≡ err too_long
unfolding write_frame read_body
read-write_frame_long buffer rest long fits =
    rw (append_assoc, read_msg_shared-to_le (length buffer) (buffer ++ rest) fits) (ground arith)

read_full-ok :
    (n : ℕ) (s bs rest : Bytes) → read_full n s ≡ ok (bs, rest) → (length bs ≡ n) × (s ≡ bs ++ rest)
unfolding read_full
read_full-ok zero s bs rest h = ground arith
read_full-ok (suc n) [] bs rest h = cc
read_full-ok (suc n) (b ∷ s) bs rest h = elim (Result-cases (read_full n s)) [
  | inl (e, fails) ↦ absurd (ground arith)
  | inr ((cs, left), reads) ↦ let (sized, cut) = read_full-ok n s cs left reads in ground arith
]

read_body-ok :
    (n : ℕ) (s bs rest : Bytes)
    → read_body n s ≡ ok (bs, rest)
    → (0 < n) × (n ≤ max_msg_size) × (read_full n s ≡ ok (bs, rest))
unfolding read_body
read_body-ok n s bs rest h = (ground arith, ground arith, ground arith)

eight_bytes :
    (bs : Bytes)
    → length bs ≡ 8
    → (b0 b1 b2 b3 b4 b5 b6 b7 : ℕ) × (bs ≡ b0 ∷ b1 ∷ b2 ∷ b3 ∷ b4 ∷ b5 ∷ b6 ∷ b7 ∷ [])
eight_bytes (b0 ∷ b1 ∷ b2 ∷ b3 ∷ b4 ∷ b5 ∷ b6 ∷ b7 ∷ []) h = (b0, b1, b2, b3, b4, b5, b6, b7, refl)
eight_bytes _ h = absurd (omega (arith, h))

-- The number that eight bytes stand for, the lowest first.
abbrev pub spelled : ℕ → ℕ → ℕ → ℕ → ℕ → ℕ → ℕ → ℕ → ℕ
spelled b0 b1 b2 b3 b4 b5 b6 b7 =
    b0
    + 2 ^ 8 * b1
    + 2 ^ 16 * b2
    + 2 ^ 24 * b3
    + 2 ^ 32 * b4
    + 2 ^ 40 * b5
    + 2 ^ 48 * b6
    + 2 ^ 56 * b7

from_le_eight :
    (b0 b1 b2 b3 b4 b5 b6 b7 : ℕ)
    → from_le (b0 ∷ b1 ∷ b2 ∷ b3 ∷ b4 ∷ b5 ∷ b6 ∷ b7 ∷ []) ≡ spelled b0 b1 b2 b3 b4 b5 b6 b7
unfolding from_le
from_le_eight b0 b1 b2 b3 b4 b5 b6 b7 = omega arith

-- Whatever bytes arrive, a message that is read has one to 65536 bytes. It stands on the connection
-- behind eight bytes that give its length, the lowest first, and what follows it is left.
pub read_msg_shared-ok :
    (s buffer rest : Bytes)
    → read_msg_shared s ≡ ok (buffer, rest)
    → (0 < length buffer)
      × (length buffer ≤ max_msg_size)
      × ((b0 b1 b2 b3 b4 b5 b6 b7 : ℕ) × (length buffer ≡ spelled b0 b1 b2 b3 b4 b5 b6 b7)
          × (s ≡ b0 ∷ b1 ∷ b2 ∷ b3 ∷ b4 ∷ b5 ∷ b6 ∷ b7 ∷ (buffer ++ rest)))
unfolding read_msg_shared
read_msg_shared-ok s buffer rest h = elim (Result-cases (read_full 8 s)) [
  | inl (e, fails) ↦ absurd (ground arith)
  | inr ((size_bytes, body), reads) ↦
      let (eight, cut) = read_full-ok 8 s size_bytes body reads in
      let read : read_body (from_le size_bytes) body ≡ ok (buffer, rest) =
        rw (reads, read_msg_shared) at h in
      let (low, high, full) = read_body-ok (from_le size_bytes) body buffer rest read in
      let (sized, split) = read_full-ok (from_le size_bytes) body buffer rest full in
      let (b0, b1, b2, b3, b4, b5, b6, b7, bytes) = eight_bytes size_bytes eight in
      (
        omega (arith, sized, low),
        omega (arith, sized, high),
        (
          b0,
          b1,
          b2,
          b3,
          b4,
          b5,
          b6,
          b7,
          sized ∙ (ap from_le bytes ∙ from_le_eight b0 b1 b2 b3 b4 b5 b6 b7),
          cut ∙ (ap (◌++◌ size_bytes) split ∙ ap (λ l. l ++ (buffer ++ rest)) bytes),
        ),
      )
]
