-- ===== src/Manager.antt =====
-- The process of the operator, main.go: the scheme, the manager, its controllers and its checks.
pub mod Roles
pub mod Start
use synapse_operator.Base.{ℕ, String, Bool, true, false, Option, none, some, List, [], ◌∷◌, ◌++◌}
use synapse_operator.Go.{Error}
use synapse_operator.Env.{Kind, synapse, heisenbridge, mautrix_signal, service, deployment, claim}

-- The command line.
pub record Flags : Type 0 where
  pub metrics_bind_address : String
  pub health_probe_bind_address : String
  pub leader_elect : Bool

abbrev pub default_flags : Flags
default_flags = record {
  metrics_bind_address = ":8080";
  health_probe_bind_address = ":8081";
  leader_elect = false;
}

-- `ctrl.Options`
pub record ManagerOptions : Type 0 where
  pub metrics_bind_address : String
  pub port : ℕ
  pub health_probe_bind_address : String
  pub leader_election : Bool
  pub leader_election_id : String

unfoldable pub manager_options : Flags → ManagerOptions
manager_options f = record {
  metrics_bind_address = f.metrics_bind_address;
  port = 9443;
  health_probe_bind_address = f.health_probe_bind_address;
  leader_election = f.leader_elect;
  leader_election_id = "8d311e9b.opdev.io";
}

-- The packages whose types `init` adds to the scheme.
pub data SchemePart : Type 0 where
  client_go synapse_v1alpha1 postgres_operator_v1beta1 : SchemePart

-- What `NewControllerManagedBy` is told: `For` one kind, `Owns` others.
pub record Watch : Type 0 where
  pub for_kind : Kind
  pub owns : List Kind

-- The `SetupWithManager` of the three reconcilers.
abbrev pub synapse_watch : Watch
synapse_watch = record { for_kind = synapse; owns = service ∷ deployment ∷ claim ∷ [] }

abbrev pub mautrix_signal_watch : Watch
mautrix_signal_watch = record { for_kind = mautrix_signal; owns = [] }

abbrev pub heisenbridge_watch : Watch
heisenbridge_watch = record { for_kind = heisenbridge; owns = [] }

-- The calls of controller-runtime that can fail.
pub data Call : Type 0 where
  add_to_scheme : SchemePart → Call
  get_config_or_die : Call
  new_manager : ManagerOptions → Call
  set_up_controller : Watch → Call
  add_healthz_check add_readyz_check start_manager : Call

-- How the process ends: `utilruntime.Must` panics, `os.Exit` gives a code, and 0 is the code after
-- `main` has returned. `GetConfigOrDie` calls `os.Exit(1)` itself.
pub data ProcessEnd : Type 0 where
  must_panicked : ProcessEnd
  exited : ℕ → ProcessEnd

unfoldable pub end_on_error : Call → ProcessEnd
end_on_error (add_to_scheme part) = must_panicked
end_on_error call = exited 1

-- `init`, and `main` up to the start.
unfoldable pub set_up_calls : Flags → List Call
set_up_calls flags =
    add_to_scheme client_go
    ∷ add_to_scheme synapse_v1alpha1
    ∷ add_to_scheme postgres_operator_v1beta1
    ∷ get_config_or_die
    ∷ new_manager (manager_options flags)
    ∷ set_up_controller synapse_watch
    ∷ set_up_controller mautrix_signal_watch
    ∷ set_up_controller heisenbridge_watch
    ∷ add_healthz_check
    ∷ add_readyz_check
    ∷ []

-- controller-runtime: a call changes the process and the cluster.
module _ {W : Type 0} (call : Call → W → Option Error × W) where
  -- The first error ends the process.
  unfoldable pub run_calls : List Call → W → ProcessEnd × W
  run_calls [] w = (exited 0, w)
  run_calls (c ∷ cs) w =
      let (failed, w') = call c w in
      let rest = run_calls cs w' in elim failed [ none ↦ rest | some e ↦ (end_on_error c, w') ]

  unfoldable pub main : Flags → W → ProcessEnd × W
  main flags = run_calls (set_up_calls flags ++ start_manager ∷ [])
