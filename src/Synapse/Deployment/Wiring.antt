-- ===== src/Synapse/Deployment/Wiring.antt =====
-- How the resources of a Synapse refer to one another: mounts to volumes, the Service to the pods,
-- the pods to the claim and the ConfigMap, and the RoleBinding to the ServiceAccount.
use synapse_operator.Base.{
  String, ◌≡◌, ◌∙◌, sym, ap, ap₂, Bool, some, true, false, List, [], ◌∷◌, ◌&&◌, ◌||◌, ◌==◌, arith,
  if◌then◌else◌,
}
use synapse_operator.Go.{ok, ok_inj, bind_ok}
use synapse_operator.Kube.{
  ObjectMeta, VolumeMount, Container, Volume, from_config_map, from_claim, PodSpec, Service,
  Deployment, PersistentVolumeClaim, ServiceAccount, RoleBinding, Subject,
}
use synapse_operator.Api.{Synapse}
use synapse_operator.Env.{synapse, Env, KeepsMeta}
use synapse_operator.Synapse.Resources.{
  labels_for_synapse, meta_for_synapse, service_for_synapse, persistent_volume_claim_for_synapse,
  service_account_for_synapse, role_binding_for_synapse,
}
use synapse_operator.Kube.{NamespacedName}
use synapse_operator.Synapse.Children.Keys.{
  service-key, claim-key, deployment-key, service_account-key, role_binding-key,
}
use synapse_operator.Synapse.Deployment.Volumes.{sources_in, data_in_pod, homeserver_in_pod}
use synapse_operator.Synapse.Deployment.{pod_for_synapse, deployment_for_synapse}

has_volume : String → List Volume → Bool
has_volume name [] = false
has_volume name (v ∷ vs) = v.name == name || has_volume name vs

all_mounted : List VolumeMount → List Volume → Bool
all_mounted [] vs = true
all_mounted (m ∷ ms) vs = has_volume m.name vs && all_mounted ms vs

containers_mounted : List Container → List Volume → Bool
containers_mounted [] vs = true
containers_mounted (c ∷ cs) vs = all_mounted c.volume_mounts vs && containers_mounted cs vs

-- Every mount of every container names a volume of the pod.
pub mounts_bound : PodSpec → Bool
unfolding has_volume all_mounted containers_mounted
mounts_bound pod =
    containers_mounted pod.init_containers pod.volumes
    && containers_mounted pod.containers pod.volumes

-- Whatever bridges are enabled, every mount of the pod names one of its volumes.
pub mounts_bound-pod_for_synapse :
    (s : Synapse) (m : ObjectMeta) → mounts_bound (pod_for_synapse s m) ≡ true
unfolding mounts_bound pod_for_synapse
mounts_bound-pod_for_synapse s m = ground arith

account_of_pod :
    (s : Synapse) (m : ObjectMeta)
    → (pod_for_synapse s m).service_account_name ≡ (if s.spec.is_openshift then s.meta.name else "")
unfolding pod_for_synapse
account_of_pod s m = ground arith

abbrev subject : String → String → Subject
subject name namespace = record { kind = "ServiceAccount"; name = name; namespace = namespace }

module _ (E : Env) (s : Synapse) where
  abbrev pub wanted_meta : ObjectMeta
  wanted_meta = meta_for_synapse s

  pub deployment-parts :
      (d : Deployment)
      → deployment_for_synapse E s wanted_meta ≡ ok d
      → (d.match_labels ≡ labels_for_synapse s.meta.name)
        × (d.pod_labels ≡ labels_for_synapse s.meta.name)
        × (d.pod ≡ pod_for_synapse s wanted_meta)
  unfolding deployment_for_synapse
  deployment-parts d made =
      let (m, owned, e) = bind_ok (E.set_controller_reference synapse s wanted_meta) _ made in
      let same = sym (ok_inj _ d e) in
      (
        ap (λ (x : Deployment). x.match_labels) same,
        ap (λ (x : Deployment). x.pod_labels) same,
        ap (λ (x : Deployment). x.pod) same,
      )

  -- If setting the owner keeps the names, the Service of a Synapse selects the pods of its Deployment
  -- and the Deployment manages the pods that it makes; both containers of a pod see the claim of the
  -- Synapse at /data and the ConfigMap of its name at /data-homeserver; and the Service and the claim
  -- are in the namespace of the Deployment.
  pub deployment-is_wired :
      KeepsMeta E
      → (svc : Service) (pvc : PersistentVolumeClaim) (d : Deployment)
      → service_for_synapse E s wanted_meta ≡ ok svc
      → persistent_volume_claim_for_synapse E s wanted_meta ≡ ok pvc
      → deployment_for_synapse E s wanted_meta ≡ ok d
      → (svc.selector ≡ d.pod_labels)
        × (d.match_labels ≡ d.pod_labels)
        × (sources_in "/data" d.pod
            ≡ some (from_claim pvc.meta.name) ∷ some (from_claim pvc.meta.name) ∷ [])
        × (sources_in "/data-homeserver" d.pod
            ≡ some (from_config_map s.meta.name) ∷ some (from_config_map s.meta.name) ∷ [])
        × (svc.meta.namespace ≡ d.meta.namespace)
        × (pvc.meta.namespace ≡ d.meta.namespace)
  unfolding service_for_synapse meta_for_synapse
  deployment-is_wired K svc pvc d made_service made_claim made_deployment =
      let (m, owned, e) =
        bind_ok (E.set_controller_reference synapse s wanted_meta) _ made_service in
      let (managed, labelled, pod) = deployment-parts d made_deployment in
      let service_at = service-key E K s wanted_meta svc made_service in
      let claim_at = claim-key E K s wanted_meta pvc made_claim in
      let deployment_at = deployment-key E K s wanted_meta d made_deployment in
      (
        ap (λ (x : Service). x.selector) (sym (ok_inj _ svc e)) ∙ sym labelled,
        managed ∙ sym labelled,
        ap (sources_in "/data") pod
            ∙ (data_in_pod s wanted_meta
                ∙ ap
                    (λ (n : NamespacedName).
                      some (from_claim n.name) ∷ some (from_claim n.name) ∷ [])
                    (sym claim_at)),
        ap (sources_in "/data-homeserver") pod ∙ homeserver_in_pod s wanted_meta,
        ap (λ (n : NamespacedName). n.namespace) (service_at ∙ sym deployment_at),
        ap (λ (n : NamespacedName). n.namespace) (claim_at ∙ sym deployment_at),
      )

  -- On OpenShift, if setting the owner keeps the names, the pods run as the ServiceAccount of the
  -- Synapse, and the RoleBinding grants the ClusterRole system:openshift:scc:anyuid to that account
  -- alone, the account and the binding being in the namespace of the Deployment.
  pub role_binding-binds_account :
      KeepsMeta E
      → (account : ServiceAccount) (binding : RoleBinding) (d : Deployment)
      → s.spec.is_openshift ≡ true
      → service_account_for_synapse E s wanted_meta ≡ ok account
      → role_binding_for_synapse E s wanted_meta ≡ ok binding
      → deployment_for_synapse E s wanted_meta ≡ ok d
      → (d.pod.service_account_name ≡ account.meta.name)
        × (binding.subjects
            ≡ (record {
              kind = "ServiceAccount";
              name = account.meta.name;
              namespace = account.meta.namespace;
            })
              ∷ [])
        × (binding.role_ref ≡ record {
          api_group = "rbac.authorization.k8s.io";
          kind = "ClusterRole";
          name = "system:openshift:scc:anyuid";
        })
        × (account.meta.namespace ≡ d.meta.namespace)
        × (binding.meta.namespace ≡ d.meta.namespace)
  unfolding service_account_for_synapse role_binding_for_synapse meta_for_synapse
  role_binding-binds_account K account binding d openshift made_account made_binding
        made_deployment =
      let reference = E.set_controller_reference synapse s wanted_meta in
      let (m, owned, e) = bind_ok reference _ made_account in
      let (m', owned', e') = bind_ok reference _ made_binding in
      let (managed, labelled, pod) = deployment-parts d made_deployment in
      let deployment_at = deployment-key E K s wanted_meta d made_deployment in
      let (name, namespace, labels) = K.kept synapse s wanted_meta m owned in
      let same : m ≡ account.meta = ap (λ (x : ServiceAccount). x.meta) (ok_inj _ account e) in
      let name' : s.meta.name ≡ account.meta.name =
        sym name ∙ ap (λ (x : ObjectMeta). x.name) same in
      let namespace' : s.meta.namespace ≡ account.meta.namespace =
        sym namespace ∙ ap (λ (x : ObjectMeta). x.namespace) same in
      (
        ap (λ (x : PodSpec). x.service_account_name) pod
            ∙ (account_of_pod s wanted_meta
                ∙ (ap (λ b. if b then s.meta.name else "") openshift ∙ name')),
        ap (λ (x : RoleBinding). x.subjects) (sym (ok_inj _ binding e'))
            ∙ ap₂ (λ n ns. subject n ns ∷ []) name' namespace',
        ap (λ (x : RoleBinding). x.role_ref) (sym (ok_inj _ binding e')),
        ap (λ (n : NamespacedName). n.namespace)
            (service_account-key E K s wanted_meta account made_account ∙ sym deployment_at),
        ap (λ (n : NamespacedName). n.namespace)
            (role_binding-key E K s wanted_meta binding made_binding ∙ sym deployment_at),
      )
