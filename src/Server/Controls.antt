-- ===== src/Server/Controls.antt =====
-- The control registry of `src/ngrok/server/registry.go`. The controls are in a store: a control is
-- known by its address, and `Add` writes to the control that it replaces.
pub mod Replacing
use ngrok.Prelude.{ℕ, Bool, true, false, List, [], ◌∷◌, Option, none, some, ℕ_discrete}
use ngrok.Prelude.Maps.{Map, get, put, delete}
use ngrok.Prelude.Text.{Text, text_dec}
use ngrok.Util.Shutdown.{Shutdown, begin}

-- What the registry reads and writes of a control.
pub record Ctl : Type 0 where
  pub id : Text
  pub shutdown : Shutdown

pub record ControlRegistry : Type 0 where
  pub controls : Map Text ℕ
  pub store : ℕ → Option Ctl

unfoldable pub new_control_registry : (ℕ → Option Ctl) → ControlRegistry
new_control_registry store = record { controls = []; store = store }

unfoldable pub get_control : Text → ControlRegistry → Option ℕ
get_control client_id r = get text_dec client_id r.controls

-- A write to the store.
unfoldable pub set_ctl : ℕ → Ctl → (ℕ → Option Ctl) → ℕ → Option Ctl
set_ctl a c store b = elim (ℕ_discrete a b) [ yes e ↦ some c | no n ↦ store b ]

-- `Replaced`: the control forgets its id, so that its stopper removes no other control, and shuts
-- down. A panic of `Begin` is kept away by its flag.
unfoldable pub replaced : Ctl → Ctl
replaced c = record {
  id = [];
  shutdown = elim (begin c.shutdown) [ none ↦ c.shutdown | some s ↦ s ];
}

-- `Add`, with the control that it replaces.
unfoldable pub add_control : Text → ℕ → ControlRegistry → ControlRegistry × Option ℕ
add_control client_id ctl r = elim (get text_dec client_id r.controls) [
  | none ↦ (record r { controls = put text_dec client_id ctl r.controls }, none)
  | some old ↦
      let controls' = put text_dec client_id ctl r.controls in
      elim (r.store old) [
        | none ↦ (record r { controls = controls' }, some old)
        | some c ↦
            (record { controls = controls'; store = set_ctl old (replaced c) r.store }, some old)
      ]
]

-- `Del`: the flag says that there is no error.
unfoldable pub del_control : Text → ControlRegistry → ControlRegistry × Bool
del_control client_id r = elim (get text_dec client_id r.controls) [
  | none ↦ (r, false)
  | some ctl ↦ (record r { controls = delete text_dec client_id r.controls }, true)
]

-- The stopper of a control, which removes it from the registry in two steps: it reads the id, outside
-- the lock of the registry, and calls `Del` with what it has read. `Add` may come at any point.
pub data Step : Type 0 where
  reads deletes : Step
  adds : Text → ℕ → Step

-- The registry, and the id that the stopper has read.
pub record Race : Type 0 where
  pub registry : ControlRegistry
  pub id : Option Text

unfoldable pub read_id : ℕ → ControlRegistry → Option Text
read_id ctl r = elim (r.store ctl) [ none ↦ none | some c ↦ some c.id ]

-- `Del`, with what was read.
unfoldable pub delete_read : Option Text → ControlRegistry → ControlRegistry
delete_read none r = r
delete_read (some k) r = (del_control k r).0

unfoldable pub race_step : ℕ → Step → Race → Race
race_step ctl reads s = record s { id = read_id ctl s.registry }
race_step ctl deletes s = record s { registry = delete_read s.id s.registry }
race_step ctl (adds k new) s = record s { registry = (add_control k new s.registry).0 }

-- Steps in the order in which they happen, for the stopper of a control. The result is the registry.
unfoldable pub run_steps : ℕ → List Step → Race → ControlRegistry
run_steps ctl [] s = s.registry
run_steps ctl (e ∷ es) s = run_steps ctl es (race_step ctl e s)

-- The registry, before the stopper has read.
abbrev pub start_race : ControlRegistry → Race
start_race r = record { registry = r; id = none }
