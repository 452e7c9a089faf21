-- ===== src/MautrixSignal/Steps.antt =====
-- Which subreconcilers are in the list of a MautrixSignal, and in which order.
use synapse_operator.Base.{
  ℕ, ◌+◌, ◌≤◌, ◌≡◌, Bool, true, false, not, List, [], ◌∷◌, ◌||◌, ◌==◌, arith, eqb,
}
use synapse_operator.Api.{MautrixSignal}
use synapse_operator.MautrixSignal.Controller.{
  MautrixSignalStep, trigger_synapse, build_status, copy_input, configure, make_config_map,
  make_service_account, make_role_binding, make_signald_pvc, make_signald, make_service, make_pvc,
  make_deployment, mautrix_signal_config_steps, mautrix_signal_steps,
}

-- The place of each step in the order in which steps may run.
pub position : MautrixSignalStep → ℕ
position trigger_synapse = 0
position build_status = 1
position copy_input = 2
position configure = 3
position make_config_map = 4
position make_service_account = 5
position make_role_binding = 6
position make_signald_pvc = 7
position make_signald = 8
position make_service = 9
position make_pvc = 10
position make_deployment = 11

-- The positions rise along the list, from `bound` on.
abbrev pub Rising : ℕ → List MautrixSignalStep → Type 0
Rising bound [] = Unit
Rising bound (step ∷ steps) = (bound ≤ position step) × Rising (position step + 1) steps

pub contains_step : MautrixSignalStep → List MautrixSignalStep → Bool
contains_step step [] = false
contains_step step (step' ∷ steps) =
    eqb (position step) (position step') || contains_step step steps

-- The steps that a MautrixSignal asks for.
unfoldable pub needed : MautrixSignal → MautrixSignalStep → Bool
needed ms copy_input = not (ms.spec.config_map.name == "")
needed ms configure = not (ms.spec.config_map.name == "")
needed ms make_config_map = ms.spec.config_map.name == ""
needed ms make_service_account = ms.status.is_openshift
needed ms make_role_binding = ms.status.is_openshift
needed ms _ = true

-- In the list of the subreconcilers of a MautrixSignal the status is taken from the Synapse before
-- the ConfigMap is made of it, the copy of the ConfigMap comes before its edit, the signald objects
-- come before the bridge that uses them, and no step is there twice; and the list has a step exactly
-- if the MautrixSignal asks for it.
pub mautrix_signal_steps-Rising :
    (ms : MautrixSignal)
    → Rising 0 (mautrix_signal_steps ms)
      × ((step : MautrixSignalStep) → contains_step step (mautrix_signal_steps ms) ≡ needed ms step)
unfolding mautrix_signal_steps mautrix_signal_config_steps contains_step needed position
mautrix_signal_steps-Rising ms = (ground arith, λ step. ground arith)
