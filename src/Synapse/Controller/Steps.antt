-- ===== src/Synapse/Controller/Steps.antt =====
-- Which subreconcilers are in the list of a Synapse, and in which order.
use synapse_operator.Base.{
  ℕ, ◌+◌, ◌≤◌, ◌≡◌, Bool, true, false, not, Option, none, some, List, [], ◌∷◌, ◌||◌, arith, eqb,
}
use synapse_operator.Api.{Synapse, ObjectRef}
use synapse_operator.Synapse.Controller.{
  Step, parse_input, copy_input, set_homeserver_status, make_config_map, status_bridges,
  postgres_config_map, postgres_cr, status_postgres, config_postgres, config_heisenbridge,
  config_mautrix_signal, make_service_account, make_role_binding, make_service, make_pvc,
  make_deployment, status_running, config_steps, later_steps, steps_for,
}

-- The place of each step in the order in which steps may run.
pub place : Step → ℕ
place parse_input = 0
place copy_input = 1
place set_homeserver_status = 2
place make_config_map = 3
place status_bridges = 4
place postgres_config_map = 5
place postgres_cr = 6
place status_postgres = 7
place config_postgres = 8
place config_heisenbridge = 9
place config_mautrix_signal = 10
place make_service_account = 11
place make_role_binding = 12
place make_service = 13
place make_pvc = 14
place make_deployment = 15
place status_running = 16

-- The places rise along the list, from `bound` on.
abbrev pub InOrder : ℕ → List Step → Type 0
InOrder bound [] = Unit
InOrder bound (step ∷ steps) = (bound ≤ place step) × InOrder (place step + 1) steps

pub has_step : Step → List Step → Bool
has_step step [] = false
has_step step (step' ∷ steps) = eqb (place step) (place step') || has_step step steps

abbrev given : Option ObjectRef → Bool
given none = false
given (some ref) = true

-- The steps that a Synapse asks for, by its spec and by the bridges in its status.
unfoldable pub wanted : Synapse → Step → Bool
wanted s parse_input = given s.spec.homeserver.config_map
wanted s copy_input = given s.spec.homeserver.config_map
wanted s set_homeserver_status = not (given s.spec.homeserver.config_map)
wanted s make_config_map = not (given s.spec.homeserver.config_map)
wanted s postgres_config_map = s.spec.create_new_postgresql
wanted s postgres_cr = s.spec.create_new_postgresql
wanted s status_postgres = s.spec.create_new_postgresql
wanted s config_postgres = s.spec.create_new_postgresql
wanted s config_heisenbridge = s.status.bridges.heisenbridge.enabled
wanted s config_mautrix_signal = s.status.bridges.mautrix_signal.enabled
wanted s make_service_account = s.spec.is_openshift
wanted s make_role_binding = s.spec.is_openshift
wanted s _ = true

-- The steps run in one order whatever the Synapse asks for: its ConfigMap before the edits of it,
-- these before the child resources, and the RUNNING status last. None runs twice.
pub steps_for-InOrder : (s : Synapse) → InOrder 0 (steps_for s)
unfolding steps_for config_steps later_steps place
steps_for-InOrder s = ground arith

-- The list of the subreconcilers that `Reconcile` hands to its loop has a step exactly if the Synapse
-- asks for it by its spec or by the bridges in its status.
pub has_step-steps_for : (s : Synapse) (step : Step) → has_step step (steps_for s) ≡ wanted s step
unfolding steps_for config_steps later_steps place has_step wanted
has_step-steps_for s parse_input = ground arith
has_step-steps_for s _ = ground arith
