-- ===== src/Tests/Strings.antt =====
-- The text functions at inputs whose results Go's documentation fixes.
use ngrok.Prelude.{◌≡◌, refl, [], ◌∷◌, ◌++◌}
use ngrok.Prelude.Text.{text, split, split_n, trim_space, hex, decimal, trim_suffix, remove_first}

try_split : split b',' (text "a,,b") ≡ text "a" ∷ [] ∷ text "b" ∷ []
unfolding split
try_split = refl

try_split_n : split_n b':' 3 (text "a:b:c:d") ≡ text "a" ∷ text "b" ∷ text "c:d" ∷ []
unfolding split_n
try_split_n = refl

try_trim : trim_space (text "  a b \n") ≡ text "a b"
unfolding trim_space
try_trim = refl

try_hex : hex 255 ++ decimal 443 ≡ text "ff443"
unfolding hex decimal
try_hex = refl

try_suffix : trim_suffix (text "a.com:80") (text ":80") ≡ text "a.com"
unfolding trim_suffix
try_suffix = refl

try_remove : remove_first (text "http://") (text "http://a") ≡ text "a"
unfolding remove_first
try_remove = refl
