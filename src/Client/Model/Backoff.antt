-- ===== src/Client/Model/Backoff.antt =====
-- The loop of `Run` in `src/ngrok/client/model.go`: how long it waits before it connects again.
use ngrok.Prelude.{
  ℕ, suc, ◌*◌, ◌^◌, Bool, true, false, List, [], ◌∷◌, ◌++◌, ◌≡◌, refl, ap, sym, ◌∙◌, if◌then◌else◌,
  arith, ltb, append-nil, append_assoc,
}
use ngrok.Client.Model.{ConnStatus, conn_reconnecting, conn_online, conn_connecting}

abbrev pub max_wait : ℕ
max_wait = 30

-- The waiting time in seconds, the waits that were slept and the status.
pub record Run : Type 0 where
  pub wait : ℕ
  pub waits : List ℕ
  pub conn_status : ConnStatus

unfoldable pub start_run : Run
start_run = record { wait = 1; waits = []; conn_status = conn_connecting }

abbrev pub is_online : ConnStatus → Bool
is_online conn_online = true
is_online _ = false

-- The smaller of two numbers.
abbrev pub at_most : ℕ → ℕ → ℕ
at_most m n = if ltb m n then m else n

-- The status when `control` returns: it is set when the server has established a tunnel, and kept if
-- `control` fails before.
unfoldable pub control_status : Bool → ConnStatus → ConnStatus
control_status up status = if up then conn_online else status

-- One round of the loop, given whether a tunnel was established.
unfoldable pub round : Bool → Run → Run
round up r =
    let wait = if is_online (control_status up r.conn_status) then 1 else r.wait in
    record {
      wait = at_most (2 * wait) max_wait;
      waits = r.waits ++ wait ∷ [];
      conn_status = conn_reconnecting;
    }

unfoldable pub rounds : List Bool → Run → Run
rounds [] r = r
rounds (up ∷ ups) r = rounds ups (round up r)

-- What is slept, in seconds, given the number of waits since the last success: one second after a
-- success, and otherwise a second doubled for each wait since, up to thirty seconds.
abbrev pub expected_waits : ℕ → List Bool → List ℕ
expected_waits k [] = []
expected_waits k (true ∷ ups) = 1 ∷ expected_waits 1 ups
expected_waits k (false ∷ ups) = at_most (2 ^ k) max_wait ∷ expected_waits (suc k) ups

doubled :
    (k w : ℕ)
    → w ≡ at_most (2 ^ k) max_wait
    → at_most (2 * w) max_wait ≡ at_most (2 ^ suc k) max_wait
doubled k w h = let next : 2 ^ suc k ≡ 2 * 2 ^ k = omega arith in ground (arith, h, next)

rounds_lem :
    (ups : List Bool) (k : ℕ) (r : Run)
    → r.wait ≡ at_most (2 ^ k) max_wait
    → is_online r.conn_status ≡ false
    → (rounds ups r).waits ≡ r.waits ++ expected_waits k ups
unfolding rounds round control_status
rounds_lem [] k r h away = sym (append-nil r.waits)
rounds_lem (true ∷ ups) k r h away =
    rounds_lem ups 1 (round true r) refl refl ∙ append_assoc r.waits (1 ∷ []) (expected_waits 1 ups)
rounds_lem (false ∷ ups) k r h away =
    let kept : (if is_online r.conn_status then 1 else r.wait) ≡ r.wait = rw away refl in
    let slept = kept ∙ h in
    rounds_lem ups (suc k) (round false r) (doubled k _ slept) refl
    ∙ append_assoc r.waits (_ ∷ []) (expected_waits (suc k) ups)
    ∙ ap (λ w. r.waits ++ w ∷ expected_waits (suc k) ups) slept

-- What `Run` sleeps before it connects again: whatever sequence of successes and failures there is,
-- one second after a round in which a tunnel was established, and otherwise a second doubled for each
-- wait since the last such round, or since the start, up to thirty seconds.
pub backoff_lem : (ups : List Bool) → (rounds ups start_run).waits ≡ expected_waits 0 ups
unfolding start_run
backoff_lem ups = rounds_lem ups 0 start_run refl refl
