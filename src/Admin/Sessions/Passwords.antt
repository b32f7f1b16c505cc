-- ===== src/Admin/Sessions/Passwords.antt =====
-- The password that sets the administration up is the one that logs in.
use ngrok.Prelude.{
  ℕ, zero, suc, ◌-◌, ◌≤◌, true, false, not, ◌||◌, [], ◌∷◌, ◌++◌, ◌≡◌, ◌≢◌, refl, sym, ap, ◌∙◌, some,
  length, length-append, take, ltb, arith,
}
use ngrok.Prelude.Text.{Text, same, trim_space}
use ngrok.Prelude.Affixes.{same_iff, same-false_iff}
use ngrok.Admin.Sessions.{
  Crypto, xor_all, iterate, blocks, block_bytes, pbkdf2, App, password_iterations, new_admin_state,
  has_admin, check_password, set_session, handle_setup,
}

-- What the libraries promise: a sum has 32 bytes, and what is encoded is decoded.
pub record IsCrypto (k : Crypto) : Type 0 where
  pub sum : (key msg : Text) → length (k.hmac key msg) ≡ 32
  pub decode_encode : (s : Text) → k.decode (k.encode s) ≡ some s

length-xor_all : (t u : Text) → length (xor_all t u) ≡ length t
unfolding xor_all
length-xor_all [] u = refl
length-xor_all (a ∷ t) [] = refl
length-xor_all (a ∷ t) (b ∷ u) = ap suc (length-xor_all t u)

length-iterate :
    (k : Crypto) (password : Text) (n : ℕ) (u t : Text)
    → length (iterate k password n u t) ≡ length t
unfolding iterate
length-iterate k password zero u t = refl
length-iterate k password (suc n) u t =
    length-iterate k password n (k.hmac password u) (xor_all t (k.hmac password u))
    ∙ length-xor_all t (k.hmac password u)

take_all : (xs : Text) (n : ℕ) → n ≡ length xs → length (take n xs) ≡ n
take_all [] zero e = refl
take_all [] (suc n) e = absurd (omega (arith, e))
take_all (x ∷ xs) zero e = absurd (omega (arith, e))
take_all (x ∷ xs) (suc n) e = ap suc (take_all xs n (omega (arith, e)))

length-pbkdf2 :
    (k : Crypto) (password salt : Text) (iter : ℕ)
    → IsCrypto k
    → length (pbkdf2 k password salt iter 32) ≡ 32
unfolding pbkdf2 blocks
length-pbkdf2 k password salt iter law =
    let u = k.hmac password (salt ++ block_bytes 1) in
    let block = iterate k password (iter - 1) u u in
    take_all (block ++ []) 32 (
      sym (
        length-append block []
        ∙ omega (
          arith,
          length-iterate k password (iter - 1) u u,
          law.sum password (salt ++ block_bytes 1),
        )))

-- The application after it is set up.
abbrev prepared : Crypto → Text → Text → Text → Text → ℕ → App → App
prepared k username password salt id now a =
    set_session id now
      (record a { state = new_admin_state k salt username password; setup_key = [] })

handle_setup_done :
    (k : Crypto) (name password salt id : Text) (now : ℕ) (a : App)
    → has_admin a ≡ false
    → trim_space name ≢ []
    → 10 ≤ length password
    → handle_setup k a.setup_key name password salt true id now a
      ≡ prepared k (trim_space name) password salt id now a
unfolding handle_setup
handle_setup_done k name [] salt id now a fresh named long = absurd (omega (arith, long))
handle_setup_done k name (c ∷ password) salt id now a fresh named long =
    let key : (has_admin a || not (same a.setup_key a.setup_key)) ≡ false =
      ground (arith, fresh, (same_iff a.setup_key a.setup_key).1 refl) in
    let filled : (same (trim_space name) [] || same (c ∷ password) []) ≡ false = ground (
      arith,
      (same-false_iff (trim_space name) []).1 named,
      (same-false_iff (c ∷ password) []).1 (λ e. cc),
    ) in
    let enough : ltb (length (c ∷ password)) 10 ≡ false = ground (arith, long) in
    rw (key, handle_setup, filled, enough) refl

check_password-prepared :
    (k : Crypto) (username password salt id : Text) (now : ℕ) (a : App)
    → IsCrypto k
    → username ≢ []
    → check_password k (prepared k username password salt id now a) username password ≡ true
unfolding check_password set_session new_admin_state
check_password-prepared k username password salt id now a law named =
    let hash = pbkdf2 k password salt password_iterations 32 in
    let here : (not (same username username) || same username []) ≡ false =
      ground (arith, (same_iff username username).1 refl, (same-false_iff username []).1 named) in
    rw
      (
        here,
        check_password,
        law.decode_encode salt,
        law.decode_encode hash,
        length-pbkdf2 k password salt password_iterations law,
      )
      ((same_iff hash hash).1 refl)

check_password-other :
    (k : Crypto) (username password salt id other : Text) (now : ℕ) (a : App)
    → other ≢ username
    → check_password k (prepared k username password salt id now a) other password ≡ false
unfolding check_password set_session new_admin_state
check_password-other k username password salt id other now a ne =
    let here : (not (same other username) || same username []) ≡ true =
      ground (arith, (same-false_iff other username).1 ne) in
    rw (here, check_password) refl

-- After `handleSetup` has taken a name and a password, they are accepted, and no other name is. The
-- administration was not set up, the key is right, the password has ten bytes or more, and the state
-- can be saved; sums have 32 bytes, and base64 is undone by its decoder.
pub check_password-handle_setup :
    (k : Crypto) (name password salt id : Text) (now : ℕ) (a : App)
    → IsCrypto k
    → has_admin a ≡ false
    → trim_space name ≢ []
    → 10 ≤ length password
    → (check_password k
          (handle_setup k a.setup_key name password salt true id now a)
          (trim_space name)
          password
        ≡ true)
      × ((other : Text)
          → other ≢ trim_space name
          → check_password k
              (handle_setup k a.setup_key name password salt true id now a)
              other
              password
            ≡ false)
check_password-handle_setup k name password salt id now a law fresh named long =
    let done = handle_setup_done k name password salt id now a fresh named long in
    (
      rw done (check_password-prepared k (trim_space name) password salt id now a law named),
      λ other ne.
          rw done (check_password-other k (trim_space name) password salt id other now a ne),
    )
