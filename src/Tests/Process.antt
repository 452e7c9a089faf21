-- ===== src/Tests/Process.antt =====
-- The process, the role and the texts at concrete data.
use synapse_operator.Base.{ℕ, ◌+◌, ◌≡◌, refl, true, Option, none, some, List, [], ◌∷◌, inl}
use synapse_operator.Go.{Error, external, ok}
use synapse_operator.Kube.{NamespacedName, Secret}
use synapse_operator.Env.{Kind, secret, synapse, Apart}
use synapse_operator.Text.Bytes.{split}
use synapse_operator.Text.Lines.{active, is_line}
use synapse_operator.Api.{SynapseHomeserverValues}
use synapse_operator.Exec.Stays.{all_but, Stored-Respects, Respects-weaken}
use synapse_operator.Synapse.Config.Template.{homeserver_yaml}
use synapse_operator.Synapse.Config.Template.Active.{settings, homeserver_yaml-settings}
use synapse_operator.Synapse.Controller.{reconcile}
use synapse_operator.Heisenbridge.Controller.{reconcile_heisenbridge}
use synapse_operator.MautrixSignal.Controller.{reconcile_mautrix_signal}
use synapse_operator.Manager.{Call, start_manager, default_flags, main}
use synapse_operator.Manager.Start.{Starts, main-Starts}
use synapse_operator.Manager.Roles.{
  role, grants, synapse_rules, mautrix_signal_rules, heisenbridge_rules, group_of, resource_of,
  status_resource_of, has_text,
}
use synapse_operator.Manager.Roles.Authorized.{granted_rights, reconcile-authorized}
use synapse_operator.Tests.Memory.{
  memory, find, matching, subreconciler-IsSubreconciler, memory-IsQuiet, memory-IsMerge,
  memory-KeepsMeta, Stored,
}
use synapse_operator.Tests.Isolated.{memory-IsIsolated, memory-IsKeyed}
use synapse_operator.Tests.Whole.{request, running}

-- A process that counts its calls, and whose manager stops with an error.
abbrev counting : Call → ℕ → Option Error × ℕ
counting start_manager n = (some (external "signal"), n + 1)
counting c n = (none, n + 1)

main-Starts_example : Starts counting default_flags 0 (main counting default_flags 0)
main-Starts_example = main-Starts counting default_flags 0

abbrev values : SynapseHomeserverValues
values = record { server_name = "example.com"; report_stats = true }

homeserver_yaml-settings_example : active (split 10 (homeserver_yaml values)) ≡ settings values
unfolding is_line
homeserver_yaml-settings_example = homeserver_yaml-settings values refl

abbrev password : NamespacedName
password = record { name = "password"; namespace = "chat" }

abbrev the_secret : Secret
the_secret = record {
  meta = record { name = "password"; namespace = "chat"; labels = []; owner_references = [] };
  entries = [];
}

granted-Apart :
    (k : Kind) (n : NamespacedName) → granted_rights.write k n → Apart secret password k n
unfolding role grants synapse_rules mautrix_signal_rules heisenbridge_rules group_of resource_of
    has_text
granted-Apart secret n (creates, updates, patches) = cc
granted-Apart _ n h = inl (λ e. cc)

status-Apart :
    (k : Kind) (n : NamespacedName) → granted_rights.status k n → Apart secret password k n
unfolding role grants synapse_rules mautrix_signal_rules heisenbridge_rules group_of
    status_resource_of has_text
status-Apart secret n h = cc
status-Apart _ n h = inl (λ e. cc)

abbrev with_secret : List Stored
with_secret = (secret, the_secret) ∷ (synapse, running) ∷ []

reconcile-authorized_example :
    (find secret password (reconcile (memory true) request with_secret).1 ≡ ok the_secret)
    × (find secret password (reconcile_heisenbridge (memory true) request with_secret).1
        ≡ ok the_secret)
    × (find secret password (reconcile_mautrix_signal (memory true) request with_secret).1
        ≡ ok the_secret)
unfolding find matching
reconcile-authorized_example =
    reconcile-authorized (memory true) (memory-IsKeyed true) subreconciler-IsSubreconciler
      (memory-IsMerge true) (memory-KeepsMeta true) request
      (λ (w : List Stored). find secret password w ≡ ok the_secret)
      (Respects-weaken (memory true).client granted_rights (all_but secret password)
        (λ (w : List Stored). find secret password w ≡ ok the_secret) granted-Apart status-Apart
        (Stored-Respects (memory true).client secret password (ok the_secret) (memory-IsQuiet true)
          (memory-IsIsolated true)))
      with_secret refl
