-- ===== src/Tests/Confined.antt =====
-- Whole reconciliations of bridges in memory, beside the Deployment of another object.
use synapse_operator.Base.{◌≡◌, refl, ap, ◌∙◌, ◌==◌, false, true, List, [], ◌∷◌, inl, inr}
use synapse_operator.Go.{ok}
use synapse_operator.Kube.{NamespacedName, Deployment}
use synapse_operator.Env.{Kind, synapse, heisenbridge, mautrix_signal, deployment, Apart}
use synapse_operator.Exec.Stays.{all_but, Stored-Respects, Respects-weaken}
use synapse_operator.Helpers.Naming.{join}
use synapse_operator.Heisenbridge.Access.{empty_heisenbridge}
use synapse_operator.Heisenbridge.Controller.{reconcile_heisenbridge}
use synapse_operator.Heisenbridge.Confined.{
  OwnedByHeisenbridge, StatusOfHeisenbridge, heisenbridge_rights, reconcile_heisenbridge-confined,
}
use synapse_operator.MautrixSignal.Access.{empty_mautrix_signal}
use synapse_operator.MautrixSignal.Controller.{reconcile_mautrix_signal}
use synapse_operator.MautrixSignal.Confined.{
  OwnedByMautrixSignal, StatusOfMautrixSignal, mautrix_signal_rights, signald_key,
  reconcile_mautrix_signal-confined,
}
use synapse_operator.Tests.Whole.{request, running}
use synapse_operator.Tests.Memory.{
  memory, find, matching, subreconciler-IsSubreconciler, memory-IsQuiet, memory-IsMerge,
  memory-KeepsMeta, Stored,
}
use synapse_operator.Tests.Isolated.{memory-IsIsolated, memory-IsKeyed}

-- The bridges of this request have the Deployments `signal` and `signal-signald`, not this one.
abbrev bridge_request : NamespacedName
bridge_request = record { name = "signal"; namespace = "chat" }

abbrev homeserver_deployment : Deployment
homeserver_deployment = record {
  meta = record { name = "matrix"; namespace = "chat"; labels = []; owner_references = [] };
  replicas = 1;
  match_labels = [];
  pod_labels = [];
  pod = record { init_containers = []; containers = []; volumes = []; service_account_name = "" };
}

abbrev with_bridge : List Stored
with_bridge =
    (deployment, homeserver_deployment)
    ∷ (
      mautrix_signal,
      record empty_mautrix_signal {
        meta = record { name = "signal"; namespace = "chat"; labels = []; owner_references = [] };
        spec = record (empty_mautrix_signal.spec) {
          synapse = record { name = "matrix"; namespace = "" };
        };
      },
    )
    ∷ (synapse, running)
    ∷ []

-- Another name.
named_matrix : {A : Type 0} (n : NamespacedName) → (n.name == "matrix") ≡ false → request ≡ n → A
named_matrix n other same = cc (ap (λ (m : NamespacedName). m.name == "matrix") same, other)

signal_owned-Apart :
    (k : Kind) (n : NamespacedName)
    → OwnedByMautrixSignal bridge_request k n
    → Apart deployment request k n
unfolding signald_key join
signal_owned-Apart deployment n (inl same) = inr (λ e. named_matrix bridge_request refl (e ∙ same))
signal_owned-Apart deployment n (inr same) =
    inr (λ e. named_matrix (signald_key bridge_request) refl (e ∙ same))
signal_owned-Apart _ n h = inl (λ e. cc)

signal_status-Apart :
    (k : Kind) (n : NamespacedName)
    → StatusOfMautrixSignal bridge_request k n
    → Apart deployment request k n
signal_status-Apart deployment n h = absurd h
signal_status-Apart _ n h = inl (λ e. cc)

reconcile_mautrix_signal-confined_example :
    find deployment request (reconcile_mautrix_signal (memory true) bridge_request with_bridge).1
    ≡ ok homeserver_deployment
unfolding find matching
reconcile_mautrix_signal-confined_example =
    reconcile_mautrix_signal-confined (memory true) (memory-IsKeyed true)
      subreconciler-IsSubreconciler (memory-IsMerge true) (memory-KeepsMeta true) bridge_request
      (λ (w : List Stored). find deployment request w ≡ ok homeserver_deployment)
      (Respects-weaken (memory true).client (mautrix_signal_rights bridge_request)
        (all_but deployment request)
        (λ (w : List Stored). find deployment request w ≡ ok homeserver_deployment)
        signal_owned-Apart signal_status-Apart
        (Stored-Respects (memory true).client deployment request (ok homeserver_deployment)
          (memory-IsQuiet true) (memory-IsIsolated true)))
      with_bridge refl

abbrev with_irc : List Stored
with_irc =
    (deployment, homeserver_deployment)
    ∷ (
      heisenbridge,
      record empty_heisenbridge {
        meta = record { name = "signal"; namespace = "chat"; labels = []; owner_references = [] };
        spec = record (empty_heisenbridge.spec) {
          synapse = record { name = "matrix"; namespace = "" };
        };
      },
    )
    ∷ (synapse, running)
    ∷ []

irc_owned-Apart :
    (k : Kind) (n : NamespacedName)
    → OwnedByHeisenbridge bridge_request k n
    → Apart deployment request k n
irc_owned-Apart deployment n same = inr (λ e. named_matrix bridge_request refl (e ∙ same))
irc_owned-Apart _ n h = inl (λ e. cc)

irc_status-Apart :
    (k : Kind) (n : NamespacedName)
    → StatusOfHeisenbridge bridge_request k n
    → Apart deployment request k n
irc_status-Apart deployment n h = absurd h
irc_status-Apart _ n h = inl (λ e. cc)

reconcile_heisenbridge-confined_example :
    find deployment request (reconcile_heisenbridge (memory true) bridge_request with_irc).1
    ≡ ok homeserver_deployment
unfolding find matching
reconcile_heisenbridge-confined_example =
    reconcile_heisenbridge-confined (memory true) (memory-IsKeyed true)
      subreconciler-IsSubreconciler (memory-IsMerge true) (memory-KeepsMeta true) bridge_request
      (λ (w : List Stored). find deployment request w ≡ ok homeserver_deployment)
      (Respects-weaken (memory true).client (heisenbridge_rights bridge_request)
        (all_but deployment request)
        (λ (w : List Stored). find deployment request w ≡ ok homeserver_deployment) irc_owned-Apart
        irc_status-Apart
        (Stored-Respects (memory true).client deployment request (ok homeserver_deployment)
          (memory-IsQuiet true) (memory-IsIsolated true)))
      with_irc refl
