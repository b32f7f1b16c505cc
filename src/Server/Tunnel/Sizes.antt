-- ===== src/Server/Tunnel/Sizes.antt =====
-- Bounds on the lengths of the URLs that `src/ngrok/server/tunnel.go` builds.
use ngrok.Prelude.{
  ℕ, zero, suc, ◌+◌, ◌/◌, ◌%◌, ◌^◌, ◌<◌, ◌≤◌, [], ◌∷◌, ◌++◌, ◌≡◌, ◌≢◌, some, length, length-append,
  arith, In, All,
}
use ngrok.Prelude.Text.{Text, text, hex, hex_digits, hex_digit, decimal, digits}
use ngrok.Server.Vhosts.{public_vhosts}
use ngrok.Server.Tunnel.State.{Globals, Outside}
use ngrok.Server.Tunnel.Vhost.{random_url}

-- The sizes that the URLs rely on: names are texts of fewer than 2^62 characters, `rand.Int31` is
-- below 2^31, and a port is below 2^16. There is a domain.
pub record IsBounded (g : Globals) (out : Outside) : Type 0 where
  pub vhosts_short :
      (protocol : Text) (port : ℕ) (v : Text)
      → In v (public_vhosts g.vhost_env g.domains protocol port)
      → length v < 2 ^ 62
  pub domains_short : All (λ d. length d < 2 ^ 62) g.domains
  pub random_small : (i : ℕ) → out.random i < 2 ^ 31
  pub ports_small : (p q : ℕ) → out.bind p ≡ some q → q < 2 ^ 16
  pub has_domain : g.domains ≢ []

length-hex_digits-le : (f n : ℕ) → length (hex_digits f n) ≤ f
unfolding hex_digits
length-hex_digits-le zero n = omega arith
length-hex_digits-le (suc f) n = ground (
  arith,
  length-hex_digits-le f (n / 16),
  length-append (hex_digits f (n / 16)) (hex_digit (n % 16) ∷ []),
)

length-digits-le : (f n : ℕ) → length (digits f n) ≤ f
unfolding digits
length-digits-le zero n = omega arith
length-digits-le (suc f) n =
    ground
      (arith, length-digits-le f (n / 10), length-append (digits f (n / 10)) ((b'0' + n % 10) ∷ []))

pub length-decimal-le : (n : ℕ) → length (decimal n) ≤ n + 1
unfolding decimal
length-decimal-le n = omega (arith, length-digits-le (suc n) n)

-- A URL of a random number and a short host is short.
pub random_url-short :
    (protocol vhost : Text) (random : ℕ → ℕ) (i : ℕ)
    → length protocol < 2 ^ 61
    → length vhost < 2 ^ 62
    → random i < 2 ^ 31
    → length (random_url protocol vhost random i) < 2 ^ 63
unfolding hex
random_url-short protocol vhost random i hp hv hr = omega (
  arith,
  length-append protocol (text "://" ++ (hex_digits (suc (random i)) (random i) ++ b'.' ∷ vhost)),
  length-append (hex_digits (suc (random i)) (random i)) (b'.' ∷ vhost),
  length-hex_digits-le (suc (random i)) (random i),
)
