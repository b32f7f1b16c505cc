-- ===== src/Util/Ids.antt =====
-- The identifiers of `src/ngrok/util/id.go`. What the generators of random numbers give are arguments.
use ngrok.Prelude.{
  ℕ, zero, suc, ◌*◌, ◌/◌, ◌%◌, ◌^◌, ◌<◌, Bool, true, not, ◌&&◌, ◌||◌, List, [], ◌∷◌, ◌≡◌, refl,
  Option, none, some, if◌then◌else◌, length, All, arith, ◌==◌, leb,
}
use ngrok.Prelude.Text.{Text, hex_digit}

-- `%x` of bytes.
unfoldable pub hex_bytes : List ℕ → Text
hex_bytes [] = []
hex_bytes (b ∷ bs) = hex_digit (b / 16) ∷ hex_digit (b % 16) ∷ hex_bytes bs

-- The byte `i` of an identifier, given the results of `mrand.Uint32` in order.
unfoldable pub rand_byte : (ℕ → ℕ) → ℕ → ℕ
rand_byte draw i = (draw (i / 4) / 2 ^ (8 * (i % 4))) % 256

-- The bytes from `i` on, of which `n` are left.
unfoldable pub rand_bytes : (ℕ → ℕ) → ℕ → ℕ → List ℕ
rand_bytes draw i zero = []
rand_bytes draw i (suc n) = rand_byte draw i ∷ rand_bytes draw (suc i) n

-- `RandId`
unfoldable pub rand_id : (ℕ → ℕ) → ℕ → Text
rand_id draw idlen = hex_bytes (rand_bytes draw 0 idlen)

-- The errors of `SecureRandId`.
pub data IdError : Type 0 where
  too_few : ℕ → IdError
  read_failed : IdError

-- `SecureRandId`, given the bytes that `rand.Read` gives and whether it fails.
unfoldable pub secure_rand_id : List ℕ → Bool → ℕ → Text × Option IdError
secure_rand_id bytes failed idlen =
    if not (length bytes == idlen)
    then ([], some (too_few (length bytes)))
    else if failed
    then ([], some read_failed)
    else (hex_bytes bytes, none)

-- A lower-case hexadecimal digit.
abbrev pub IsHex : ℕ → Type 0
IsHex c = ((leb b'0' c && leb c b'9') || (leb b'a' c && leb c b'f')) ≡ true

hex_digit-IsHex : (n : ℕ) → n < 16 → IsHex (hex_digit n)
hex_digit-IsHex n h = ground arith

-- The text of bytes has two digits for each, all of them hexadecimal.
pub hex_bytes-IsHex :
    (bs : List ℕ)
    → All (λ b. b < 256) bs
    → (length (hex_bytes bs) ≡ 2 * length bs) × All IsHex (hex_bytes bs)
unfolding hex_bytes
hex_bytes-IsHex [] h = (refl, tt)
hex_bytes-IsHex (b ∷ bs) h =
    let (size, digits) = hex_bytes-IsHex bs h.1 in
    (
      omega (arith, size),
      (
        hex_digit-IsHex (b / 16) (omega (arith, h.0)),
        (hex_digit-IsHex (b % 16) (omega arith), digits),
      ),
    )

rand_bytes_lem :
    (draw : ℕ → ℕ) (i n : ℕ)
    → (length (rand_bytes draw i n) ≡ n) × All (λ b. b < 256) (rand_bytes draw i n)
unfolding rand_bytes rand_byte
rand_bytes_lem draw i zero = (refl, tt)
rand_bytes_lem draw i (suc n) =
    let (size, small) = rand_bytes_lem draw (suc i) n in (omega (arith, size), (omega arith, small))

-- An identifier of a length has twice as many characters, all of them hexadecimal digits.
pub rand_id-IsHex :
    (draw : ℕ → ℕ) (idlen : ℕ)
    → (length (rand_id draw idlen) ≡ 2 * idlen) × All IsHex (rand_id draw idlen)
unfolding rand_id
rand_id-IsHex draw idlen =
    let (size, small) = rand_bytes_lem draw 0 idlen in
    let (size', digits) = hex_bytes-IsHex (rand_bytes draw 0 idlen) small in
    (omega (arith, size, size'), digits)
