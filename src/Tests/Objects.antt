-- ===== src/Tests/Objects.antt =====
-- Concrete child resources of a Synapse, built and reconciled in memory.
use synapse_operator.Base.{◌≡◌, refl, true, none, some, [], ◌∷◌}
use synapse_operator.Kube.{
  ObjectMeta, Service, PersistentVolumeClaim, Deployment, ServiceAccount, RoleBinding, from_claim,
  from_config_map,
}
use synapse_operator.Api.{Synapse}
use synapse_operator.Env.{synapse, service, key_of}
use synapse_operator.Exec.{run, ◌>>=◌, or_requeue, attempt}
use synapse_operator.Helpers.Reconcile.{reconcile_resource}
use synapse_operator.Helpers.Reconcile.Effects.{Reconciled, reconcile_resource_idem}
use synapse_operator.Synapse.Access.{empty_synapse, latest_synapse}
use synapse_operator.Synapse.Resources.{
  labels_for_synapse, meta_for_synapse, service_for_synapse, persistent_volume_claim_for_synapse,
  service_account_for_synapse, role_binding_for_synapse,
}
use synapse_operator.Synapse.Deployment.{pod_for_synapse, deployment_for_synapse}
use synapse_operator.Synapse.Deployment.Volumes.{sources_in}
use synapse_operator.Synapse.Deployment.Wiring.{deployment-is_wired, role_binding-binds_account}
use synapse_operator.Synapse.Children.{reconcile_child}
use synapse_operator.Synapse.Children.Effects.{reconcile_child-Reconciled}
use synapse_operator.Tests.Memory.{
  memory, subreconciler-IsSubreconciler, memory-IsQuiet, memory-IsMerge, memory-KeepsMeta, find,
  matching,
}

abbrev named : ObjectMeta
named = record { name = "matrix"; namespace = "chat"; labels = []; owner_references = [] }

abbrev owned : ObjectMeta
owned = record named { owner_references = (record { kind = "Synapse"; name = "matrix" }) ∷ [] }

abbrev openshift_synapse : Synapse
openshift_synapse = record empty_synapse {
  meta = named;
  spec = record (empty_synapse.spec) { is_openshift = true };
}

abbrev the_service : Service
the_service = record {
  meta = owned;
  ports =
      (record { name = "synapse-unsecure"; protocol = "TCP"; port = 8008; target_port = 8008 })
      ∷ [];
  selector = ("app", "synapse") ∷ ("synapse_cr", "matrix") ∷ [];
  service_type = "ClusterIP";
}

abbrev the_claim : PersistentVolumeClaim
the_claim = record {
  meta = owned;
  access_modes = "ReadWriteOnce" ∷ [];
  volume_mode = "Filesystem";
  storage = 5368709120;
}

the_deployment : Deployment
the_deployment = record {
  meta = owned;
  replicas = 1;
  match_labels = labels_for_synapse "matrix";
  pod_labels = labels_for_synapse "matrix";
  pod = pod_for_synapse openshift_synapse named;
}

abbrev the_account : ServiceAccount
the_account = record { meta = owned }

abbrev the_binding : RoleBinding
the_binding = record {
  meta = owned;
  role_ref = record {
    api_group = "rbac.authorization.k8s.io";
    kind = "ClusterRole";
    name = "system:openshift:scc:anyuid";
  };
  subjects = (record { kind = "ServiceAccount"; name = "matrix"; namespace = "chat" }) ∷ [];
}

deployment-is_wired_example :
    (the_service.selector ≡ the_deployment.pod_labels)
    × (the_deployment.match_labels ≡ the_deployment.pod_labels)
    × (sources_in "/data" the_deployment.pod
        ≡ some (from_claim "matrix") ∷ some (from_claim "matrix") ∷ [])
    × (sources_in "/data-homeserver" the_deployment.pod
        ≡ some (from_config_map "matrix") ∷ some (from_config_map "matrix") ∷ [])
    × ("chat" ≡ the_deployment.meta.namespace)
    × ("chat" ≡ the_deployment.meta.namespace)
unfolding the_deployment service_for_synapse labels_for_synapse persistent_volume_claim_for_synapse
    deployment_for_synapse meta_for_synapse
deployment-is_wired_example =
    deployment-is_wired (memory true) openshift_synapse (memory-KeepsMeta true) the_service
      the_claim the_deployment refl refl refl

role_binding-binds_account_example :
    (the_deployment.pod.service_account_name ≡ "matrix")
    × (the_binding.subjects
        ≡ (record { kind = "ServiceAccount"; name = "matrix"; namespace = "chat" }) ∷ [])
    × (the_binding.role_ref ≡ record {
      api_group = "rbac.authorization.k8s.io";
      kind = "ClusterRole";
      name = "system:openshift:scc:anyuid";
    })
    × ("chat" ≡ the_deployment.meta.namespace)
    × ("chat" ≡ the_deployment.meta.namespace)
unfolding the_deployment service_account_for_synapse role_binding_for_synapse deployment_for_synapse
    meta_for_synapse
role_binding-binds_account_example =
    role_binding-binds_account (memory true) openshift_synapse (memory-KeepsMeta true) the_account
      the_binding the_deployment refl refl refl refl

reconcile_resource_idem_example :
    ((memory true).get service
      (key_of service the_service)
      (reconcile_resource
        (memory true)
        service
        the_service
        (reconcile_resource (memory true) service the_service []).1).1).0
    ≡ ((memory true).get service
        (key_of service the_service)
        (reconcile_resource (memory true) service the_service []).1).0
unfolding reconcile_resource find matching
reconcile_resource_idem_example =
    reconcile_resource_idem (memory true) (memory-IsQuiet true) (memory-IsMerge true) service
      the_service [] refl refl

reconcile_child-Reconciled_example :
    Reconciled
      (memory true)
      service
      the_service
      ((memory true).get service
        (record { name = "matrix"; namespace = "chat" })
        ((synapse, openshift_synapse) ∷ [])).0
      ((memory true).get service
        (record { name = "matrix"; namespace = "chat" })
        (reconcile_child
          (memory true)
          service
          (λ s. service_for_synapse (memory true) s (meta_for_synapse s))
          (record { name = "matrix"; namespace = "chat" })
          ((synapse, openshift_synapse) ∷ [])).1).0
unfolding reconcile_child service_for_synapse labels_for_synapse meta_for_synapse find matching
    reconcile_resource run ◌>>=◌ latest_synapse or_requeue attempt
reconcile_child-Reconciled_example =
    reconcile_child-Reconciled (memory true) (memory-IsQuiet true) subreconciler-IsSubreconciler
      service (λ s. service_for_synapse (memory true) s (meta_for_synapse s))
      (record { name = "matrix"; namespace = "chat" }) openshift_synapse
      ((synapse, openshift_synapse) ∷ []) (memory-IsMerge true) the_service (none, none) refl refl
      refl refl
