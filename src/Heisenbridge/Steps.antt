-- ===== src/Heisenbridge/Steps.antt =====
-- Which subreconcilers are in the list of a Heisenbridge, and in which order.
use synapse_operator.Base.{
  ℕ, ◌+◌, ◌≤◌, ◌≡◌, Bool, true, false, not, List, [], ◌∷◌, ◌||◌, ◌==◌, arith, eqb,
}
use synapse_operator.Api.{Heisenbridge}
use synapse_operator.Heisenbridge.Controller.{
  HeisenbridgeStep, trigger_synapse, copy_input, configure, make_config_map, make_service,
  make_deployment, heisenbridge_config_steps, heisenbridge_steps,
}

-- The place of each step in the order in which steps may run.
pub rank : HeisenbridgeStep → ℕ
rank trigger_synapse = 0
rank copy_input = 1
rank configure = 2
rank make_config_map = 3
rank make_service = 4
rank make_deployment = 5

-- The ranks rise along the list, from `bound` on.
abbrev pub Ascending : ℕ → List HeisenbridgeStep → Type 0
Ascending bound [] = Unit
Ascending bound (step ∷ steps) = (bound ≤ rank step) × Ascending (rank step + 1) steps

unfoldable pub includes : HeisenbridgeStep → List HeisenbridgeStep → Bool
unfolding rank
includes step [] = false
includes step (step' ∷ steps) = eqb (rank step) (rank step') || includes step steps

-- The steps that a Heisenbridge asks for: those on a user's ConfigMap if it names one, and the
-- default ConfigMap if it does not.
unfoldable pub asked : Heisenbridge → HeisenbridgeStep → Bool
asked h copy_input = not (h.spec.config_map.name == "")
asked h configure = not (h.spec.config_map.name == "")
asked h make_config_map = h.spec.config_map.name == ""
asked h _ = true

-- In the list of the subreconcilers of a Heisenbridge the step that tells its Synapse is the first,
-- the copy of the ConfigMap comes before its edit, these or the default ConfigMap come before the
-- Service and the Deployment, and no step is there twice; and the list has a step exactly if the
-- Heisenbridge asks for it.
pub heisenbridge_steps-Ascending :
    (h : Heisenbridge)
    → Ascending 0 (heisenbridge_steps h)
      × ((step : HeisenbridgeStep) → includes step (heisenbridge_steps h) ≡ asked h step)
unfolding heisenbridge_steps heisenbridge_config_steps includes asked rank
heisenbridge_steps-Ascending h = (ground arith, λ step. ground arith)
