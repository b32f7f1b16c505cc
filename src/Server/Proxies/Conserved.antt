-- ===== src/Server/Proxies/Conserved.antt =====
-- No proxy connection is lost or handed out twice, `src/ngrok/server/control.go`.
use mathlib.Core.Path.{subst}
use ngrok.Prelude.{
  ℕ, suc, ◌+◌, ◌≤◌, Bool, false, List, [], ◌∷◌, ◌++◌, ◌≡◌, ◌≢◌, All, refl, ap, sym, some,
  if◌then◌else◌, length, length-append, ltb, ltb→lt, arith, Bool-cases, inl, inr, ◌==◌,
}
use ngrok.Server.Proxies.{
  register_proxy, Waiting, out_closed, arrived, closes, expires, get_proxy, Use, registers, takes,
  History, use_pool, use_all, new_history, proxy_max_pool_size,
}

-- How often a connection stands in a list.
abbrev pub count : ℕ → List ℕ → ℕ
count c [] = 0
count c (x ∷ xs) = if c == x then suc (count c xs) else count c xs

count-append : (c : ℕ) (xs ys : List ℕ) → count c (xs ++ ys) ≡ count c xs + count c ys
count-append c [] ys = omega arith
count-append c (x ∷ xs) ys = ground (arith, count-append c xs ys)

-- Every connection registered is in the pool, or was taken from it, or was closed, exactly as often
-- as it was registered; and the pool is within its capacity.
pub record IsConserved (h : History) : Type 0 where
  pub counted :
      (c : ℕ)
      → count c h.registered ≡ count c h.taken + count c h.pool.proxies + count c h.pool.discarded
  pub within : length h.pool.proxies ≤ proxy_max_pool_size

abbrev history : List ℕ → List ℕ → List ℕ → List ℕ → History
history ps discarded registered taken = record {
  pool = record { proxies = ps; is_closed = false; discarded = discarded };
  registered = registered;
  taken = taken;
}

-- A use of an open pool gives an open pool, and conserves the connections.
abbrev Uses : Use → History → Type 0
Uses u h = (h' : History) × (use_pool u h ≡ some h') × IsConserved h' × (h'.pool.is_closed ≡ false)

module _ (ps discarded registered taken : List ℕ)
    (v : IsConserved (history ps discarded registered taken)) where
  register-IsConserved : (conn : ℕ) → Uses (registers conn) (history ps discarded registered taken)
  unfolding use_pool register_proxy
  register-IsConserved conn = elim (Bool-cases (ltb (length ps) proxy_max_pool_size)) [
    | inl room ↦ (
      history (ps ++ conn ∷ []) discarded (registered ++ conn ∷ []) taken,
      rw (room, use_pool, register_proxy) refl,
      record {
        counted = λ c. omega (
          arith,
          v.counted c,
          count-append c registered (conn ∷ []),
          count-append c ps (conn ∷ []),
        );
        within =
            omega
              (arith, length-append ps (conn ∷ []), ltb→lt (length ps) proxy_max_pool_size room);
      },
      refl,
    )
    | inr full ↦ (
      history ps (discarded ++ conn ∷ []) (registered ++ conn ∷ []) taken,
      rw (full, use_pool, register_proxy) refl,
      record {
        counted = λ c. omega (
          arith,
          v.counted c,
          count-append c registered (conn ∷ []),
          count-append c discarded (conn ∷ []),
        );
        within = v.within;
      },
      refl,
    )
  ]

take-IsConserved :
    (w : Waiting) (ps discarded registered taken : List ℕ)
    → IsConserved (history ps discarded registered taken)
    → w ≢ closes
    → Uses (takes w) (history ps discarded registered taken)
unfolding use_pool get_proxy
take-IsConserved w (conn ∷ rest) discarded registered taken v h = (
  history rest discarded registered (taken ++ conn ∷ []),
  refl,
  record {
    counted = λ c. ground (arith, v.counted c, count-append c taken (conn ∷ []));
    within = omega (arith, v.within);
  },
  refl,
)
take-IsConserved out_closed [] discarded registered taken v h =
    (history [] discarded registered taken, refl, v, refl)
take-IsConserved (arrived conn) [] discarded registered taken v h = (
  history [] discarded (registered ++ conn ∷ []) (taken ++ conn ∷ []),
  refl,
  record {
    counted = λ c. omega (
      arith,
      v.counted c,
      count-append c registered (conn ∷ []),
      count-append c taken (conn ∷ []),
    );
    within = v.within;
  },
  refl,
)
take-IsConserved closes [] discarded registered taken v h = absurd (h refl)
take-IsConserved expires [] discarded registered taken v h =
    (history [] discarded registered taken, refl, v, refl)

use_pool-IsConserved :
    (u : Use) (h : History) → IsConserved h → h.pool.is_closed ≡ false → u ≢ takes closes → Uses u h
use_pool-IsConserved u h v live fine =
    subst (λ b. IsConserved (with_flag b) → Uses u (with_flag b)) (sym live) (at_open u fine) v
  where
    with_flag : Bool → History
    with_flag b = record {
      pool = record { proxies = h.pool.proxies; is_closed = b; discarded = h.pool.discarded };
      registered = h.registered;
      taken = h.taken;
    }

    at_open :
        (u : Use) → u ≢ takes closes → IsConserved (with_flag false) → Uses u (with_flag false)
    at_open (registers conn) fine v =
        register-IsConserved h.pool.proxies h.pool.discarded h.registered h.taken v conn
    at_open (takes w) fine v =
        take-IsConserved w h.pool.proxies h.pool.discarded h.registered h.taken v
          (λ e. fine (ap takes e))

uses-IsConserved :
    (us : List Use) (h : History)
    → All (λ u. u ≢ takes closes) us
    → IsConserved h
    → h.pool.is_closed ≡ false
    → (h' : History) × (use_all us h ≡ some h') × IsConserved h'
unfolding use_all
uses-IsConserved [] h fine v live = (h, refl, v)
uses-IsConserved (u ∷ us) h fine v live =
    let (h1, run, v1, live1) = use_pool-IsConserved u h v live fine.0 in
    let (h2, run2, v2) = uses-IsConserved us h1 fine.1 v1 live1 in (h2, rw (run, use_all) run2, v2)

-- Whatever proxy connections register and are asked for, up to the closing of the pool: nothing
-- panics, every connection that registered is handed out, waiting in the pool or closed, exactly as
-- often as it registered, and no more than ten of them wait.
pub use_all-IsConserved :
    (us : List Use)
    → All (λ u. u ≢ takes closes) us
    → (h : History) × (use_all us new_history ≡ some h) × IsConserved h
use_all-IsConserved us fine =
    uses-IsConserved us new_history fine
      (record { counted = λ c. omega arith; within = omega arith }) refl
