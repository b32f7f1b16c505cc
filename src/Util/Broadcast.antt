-- ===== src/Util/Broadcast.antt =====
-- The broadcast of `src/ngrok/util/broadcast.go`. A channel of a listener is known by a number; its
-- buffer is in a store that outlives the registration. Each case of the `select` is one step.
use ngrok.Prelude.{
  ℕ, ◌<◌, ◌≤◌, not, List, [], ◌∷◌, ◌++◌, ◌≡◌, ◌≢◌, refl, sym, ◌∙◌, ap, Option, none, some,
  if◌then◌else◌, length, length-append, ltb, arith, Bool-cases, inl, inr, ◌==◌, In, ℕ_discrete,
}
use ngrok.Prelude.Maps.{Map, get, put, get-put}

abbrev pub broadcast_listener_buffer : ℕ
broadcast_listener_buffer = 16

pub record Broadcast (A : Type 0) : Type 0 where
  pub listeners : List ℕ
  pub buffers : Map ℕ (List A)

unfoldable pub without : ℕ → List ℕ → List ℕ
without l [] = []
without l (old ∷ olds) = let rest = without l olds in if not (l == old) then old ∷ rest else rest

without-out : (l : ℕ) (ls : List ℕ) → In l (without l ls) → ⊥
unfolding without
without-out l [] i = i
without-out l (k ∷ ks) i = elim (Bool-cases (not (l == k))) [
  | inl other ↦ elim (rw other at i) [
    | inl e ↦ ground (arith, other, e)
    | inr later ↦ without-out l ks later
  ]
  | inr own ↦ without-out l ks (rw own at i)
]

module _ {A : Type 0} where
  unfoldable pub new_broadcast : Broadcast A
  new_broadcast = record { listeners = []; buffers = [] }

  -- The buffer of a channel; one that does not exist holds nothing.
  unfoldable pub buffer : ℕ → Map ℕ (List A) → List A
  buffer l m = elim (get ℕ_discrete l m) [ none ↦ [] | some items ↦ items ]

  -- `Reg`, of the channel that it makes.
  unfoldable pub reg : ℕ → Broadcast A → Broadcast A
  reg l b = record { listeners = b.listeners ++ l ∷ []; buffers = put ℕ_discrete l [] b.buffers }

  unfoldable pub unreg : ℕ → Broadcast A → Broadcast A
  unreg l b = record b { listeners = without l b.listeners }

  -- The `select` with a default: the item is dropped if the buffer is full.
  unfoldable pub offer : A → ℕ → Map ℕ (List A) → Map ℕ (List A)
  offer item l m =
      if ltb (length (buffer l m)) broadcast_listener_buffer
      then put ℕ_discrete l (buffer l m ++ item ∷ []) m
      else m

  unfoldable pub offer_all : A → List ℕ → Map ℕ (List A) → Map ℕ (List A)
  offer_all item [] m = m
  offer_all item (l ∷ ls) m = offer_all item ls (offer item l m)

  unfoldable pub publish : A → Broadcast A → Broadcast A
  publish item b = record b { buffers = offer_all item b.listeners b.buffers }

  -- A listener takes the first item of its buffer.
  unfoldable pub receive : ℕ → Broadcast A → Option (A × Broadcast A)
  receive l b = elim (buffer l b.buffers) [
    | [] ↦ none
    | item ∷ rest ↦ some (item, record b { buffers = put ℕ_discrete l rest b.buffers })
  ]

  -- No buffer holds more than it has room for.
  abbrev pub IsWithin : Map ℕ (List A) → Type 0
  IsWithin m = (l : ℕ) → length (buffer l m) ≤ broadcast_listener_buffer

  buffer-put :
      (k l : ℕ) (items : List A) (m : Map ℕ (List A))
      → buffer l (put ℕ_discrete k items m) ≡ (if k == l then items else buffer l m)
  unfolding buffer
  buffer-put k l items m = ground (arith, get-put ℕ_discrete k l items m)

  offer_self :
      (item : A) (l : ℕ) (m : Map ℕ (List A))
      → length (buffer l m) < broadcast_listener_buffer
      → buffer l (offer item l m) ≡ buffer l m ++ item ∷ []
  unfolding offer
  offer_self item l m h = ground (arith, buffer-put l l (buffer l m ++ item ∷ []) m)

  offer_ne :
      (item : A) (k l : ℕ) (m : Map ℕ (List A)) → k ≢ l → buffer l (offer item k m) ≡ buffer l m
  unfolding offer
  offer_ne item k l m h = ground (arith, buffer-put k l (buffer k m ++ item ∷ []) m)

  offer-IsWithin : (item : A) (l : ℕ) (m : Map ℕ (List A)) → IsWithin m → IsWithin (offer item l m)
  unfolding offer
  offer-IsWithin item l m h k = ground (
    arith,
    h k,
    h l,
    buffer-put l k (buffer l m ++ item ∷ []) m,
    length-append (buffer l m) (item ∷ []),
    ap (length {A = A}),
  )

  pub offer_all-IsWithin :
      (item : A) (ls : List ℕ) (m : Map ℕ (List A)) → IsWithin m → IsWithin (offer_all item ls m)
  unfolding offer_all
  offer_all-IsWithin item [] m h = h
  offer_all-IsWithin item (l ∷ ls) m h =
      offer_all-IsWithin item ls (offer item l m) (offer-IsWithin item l m h)

  -- A listener that is not registered is left alone.
  offer_all_out :
      (item : A) (ls : List ℕ) (l : ℕ) (m : Map ℕ (List A))
      → (In l ls → ⊥)
      → buffer l (offer_all item ls m) ≡ buffer l m
  unfolding offer_all
  offer_all_out item [] l m h = refl
  offer_all_out item (k ∷ ks) l m h =
      offer_all_out item ks l (offer item k m) (λ i. h (inr i))
      ∙ offer_ne item k l m (λ e. h (inl (sym e)))

  -- After `UnReg`, a listener gets no item that is published: its buffer stays as it is.
  pub unreg-publish :
      (l : ℕ) (item : A) (b : Broadcast A)
      → buffer l (publish item (unreg l b)).buffers ≡ buffer l b.buffers
  unfolding publish unreg
  unreg-publish l item b =
      offer_all_out item (without l b.listeners) l b.buffers (without-out l b.listeners)
