-- ===== src/Prelude/HostPort.antt =====
-- `net.SplitHostPort` of Go's library.
use Prim.Native.Nat.{ℕ, suc}
use mathlib.Core.Bool.{Bool, true, false}
use mathlib.Core.List.{[], ◌∷◌}
use mathlib.Core.Option.{Option, none, some}
use ngrok.Prelude.Tests.{◌==◌, if◌then◌else◌}
use ngrok.Prelude.Lists.{take, drop}
use ngrok.Prelude.Text.{Text}

-- `strings.IndexByte`
unfoldable pub index_byte : Text → ℕ → Option ℕ
index_byte [] b = none
index_byte (c ∷ s) b =
    if c == b then some 0 else elim (index_byte s b) [ none ↦ none | some i ↦ some (suc i) ]

unfoldable pub last_index_byte : Text → ℕ → Option ℕ
last_index_byte [] b = none
last_index_byte (c ∷ s) b = elim (last_index_byte s b) [
  | none ↦ if c == b then some 0 else none
  | some i ↦ some (suc i)
]

-- `bytes.ContainsRune` of one byte
unfoldable pub contains_byte : Text → ℕ → Bool
contains_byte [] b = false
contains_byte (c ∷ s) b = if c == b then true else contains_byte s b

-- A host in brackets, whose first closing bracket stands just before the last colon.
unfoldable pub bracketed : Text → ℕ → Option (Text × Text)
unfolding index_byte contains_byte
bracketed s i = elim (index_byte s b']') [
  | none ↦ none
  | some end ↦
      if suc end == i
      then (if contains_byte (drop 1 s) b'['
          then none
          else if contains_byte (drop (suc end) s) b']'
          then none
          else some (drop 1 (take end s), drop (suc i) s))
      else none
]

unfoldable pub plain : Text → ℕ → Option (Text × Text)
unfolding contains_byte
plain s i =
    if contains_byte (take i s) b':'
    then none
    else if contains_byte s b'['
    then none
    else if contains_byte s b']'
    then none
    else some (take i s, drop (suc i) s)

-- The host and the port, or `none` where Go returns an error.
unfoldable pub split_host_port : Text → Option (Text × Text)
unfolding last_index_byte bracketed plain
split_host_port [] = none
split_host_port (c ∷ s) = elim (last_index_byte (c ∷ s) b':') [
  | none ↦ none
  | some i ↦ if c == b'[' then bracketed (c ∷ s) i else plain (c ∷ s) i
]
