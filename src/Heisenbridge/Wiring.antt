-- ===== src/Heisenbridge/Wiring.antt =====
-- How the objects of a Heisenbridge and of its Synapse refer to one another.
use synapse_operator.Base.{ℕ, ◌<>◌, ◌≡◌, refl, sym, ap, ap₂, ◌∙◌, none, some, List, [], ◌∷◌}
use synapse_operator.Go.{ok, ok_inj, bind_ok}
use synapse_operator.Kube.{
  NamespacedName, ConfigMap, Service, ServicePort, Container, Deployment, from_config_map,
}
use synapse_operator.Api.{Synapse, Heisenbridge, MautrixSignal}
use synapse_operator.Env.{heisenbridge, config_map, Env, KeepsMeta}
use synapse_operator.Helpers.Naming.{compute_fqdn}
use synapse_operator.Synapse.Status.{with_bridges}
use synapse_operator.Synapse.Status.Bridges.{
  last_heisenbridge, heisenbridge_or, find_heisenbridge_last,
}
use synapse_operator.Helpers.Owned.{built-key}
use synapse_operator.Synapse.Resources.{meta_for_synapse}
use synapse_operator.Synapse.Children.Keys.{deployment-key}
use synapse_operator.Synapse.Deployment.{deployment_for_synapse}
use synapse_operator.Synapse.Deployment.Volumes.{sources_in, heisenbridge_in_pod}
use synapse_operator.Synapse.Deployment.Wiring.{deployment-parts}
use synapse_operator.Heisenbridge.Resources.{
  meta_for_heisenbridge, heisenbridge_url, get_heisenbridge_service_fqdn,
  deployment_for_heisenbridge, service_for_heisenbridge, config_map_for_heisenbridge,
  heisenbridge_pod,
}

-- The ports that the containers of a Deployment listen on, and those that a Service forwards to.
pub listening : List Container → List (List ℕ)
listening [] = []
listening (c ∷ cs) = c.ports ∷ listening cs

pub forwarded : List ServicePort → List ℕ
forwarded [] = []
forwarded (p ∷ ps) = p.target_port ∷ forwarded ps

-- The ports on which a Service is reached.
pub published : List ServicePort → List ℕ
published [] = []
published (p ∷ ps) = p.port ∷ published ps

module _ (E : Env) (K : KeepsMeta E) (h : Heisenbridge) where
  -- If setting the owner keeps the names, the Service of a Heisenbridge selects the pods of its
  -- Deployment, is reached on port 9898 alone, and forwards to the port of their container, and the
  -- URL under which Synapse is told to reach the bridge is that of this Service and this port.
  pub heisenbridge_url-reaches_service :
      (svc : Service) (d : Deployment)
      → service_for_heisenbridge E h (meta_for_heisenbridge h) ≡ ok svc
      → deployment_for_heisenbridge E h (meta_for_heisenbridge h) ≡ ok d
      → (svc.selector ≡ d.pod_labels)
        × (d.match_labels ≡ d.pod_labels)
        × (listening d.pod.containers ≡ forwarded svc.ports ∷ [])
        × (published svc.ports ≡ 9898 ∷ [])
        × (heisenbridge_url h
            ≡ "http://" <> (compute_fqdn svc.meta.name svc.meta.namespace <> ":9898"))
  unfolding service_for_heisenbridge deployment_for_heisenbridge meta_for_heisenbridge
      heisenbridge_pod heisenbridge_url get_heisenbridge_service_fqdn compute_fqdn listening
      forwarded published
  heisenbridge_url-reaches_service svc d made_service made_deployment =
      let reference = E.set_controller_reference heisenbridge h (meta_for_heisenbridge h) in
      let (m, owned, e) = bind_ok reference _ made_service in
      let (m', owned', e') = bind_ok reference _ made_deployment in
      let (name, namespace, labels) = K.kept heisenbridge h (meta_for_heisenbridge h) m owned in
      let same = ok_inj _ svc e in
      let same' = ok_inj _ d e' in
      (
        sym (ap (λ (x : Service). x.selector) same) ∙ ap (λ (x : Deployment). x.pod_labels) same',
        sym (ap (λ (x : Deployment). x.match_labels) same')
            ∙ ap (λ (x : Deployment). x.pod_labels) same',
        sym (ap (λ (x : Deployment). listening x.pod.containers) same')
            ∙ ap (λ (x : Service). forwarded x.ports ∷ []) same,
        sym (ap (λ (x : Service). published x.ports) same),
        ap₂ (λ n ns. "http://" <> (compute_fqdn n ns <> ":9898"))
            (sym name ∙ ap (λ (x : Service). x.meta.name) same)
            (sym namespace ∙ ap (λ (x : Service). x.meta.namespace) same),
      )

  -- If setting the owner keeps the names, and a Synapse has the Heisenbridge as the last of the list
  -- to name it and is in the same namespace, then the ConfigMap that the controller of the
  -- Heisenbridge makes is in the namespace of the Synapse's Deployment and is what the homeserver's
  -- container sees at /data-heisenbridge; the init container sees nothing there.
  pub pod_for_synapse-mounts_heisenbridge :
      (s : Synapse) (hs : List Heisenbridge) (ms : List MautrixSignal) (cm : ConfigMap)
      (d : Deployment)
      → last_heisenbridge s.meta.name hs ≡ some h
      → h.meta.namespace ≡ s.meta.namespace
      → config_map_for_heisenbridge E h (meta_for_heisenbridge h) ≡ ok cm
      → deployment_for_synapse E (with_bridges s hs ms) (meta_for_synapse s) ≡ ok d
      → (cm.meta.namespace ≡ d.meta.namespace)
        × (sources_in "/data-heisenbridge" d.pod ≡ none ∷ some (from_config_map cm.meta.name) ∷ [])
  unfolding config_map_for_heisenbridge meta_for_heisenbridge with_bridges meta_for_synapse
  pod_for_synapse-mounts_heisenbridge s hs ms cm d last together made made_deployment =
      let told = with_bridges s hs ms in
      let named =
        built-key E K heisenbridge config_map h _ (meta_for_heisenbridge h) cm (λ m. refl) made in
      let placed = deployment-key E K told (meta_for_synapse s) d made_deployment in
      let (managed, labelled, pod) = deployment-parts E told d made_deployment in
      let bridged =
        find_heisenbridge_last s.meta.name hs s.status.bridges.heisenbridge
        ∙ ap (λ found. heisenbridge_or found s.status.bridges.heisenbridge) last in
      (
        ap (λ (n : NamespacedName). n.namespace) named
            ∙ (together ∙ sym (ap (λ (n : NamespacedName). n.namespace) placed)),
        ap (sources_in "/data-heisenbridge") pod
            ∙ (heisenbridge_in_pod told (meta_for_synapse s) h.meta.name bridged
                ∙ ap (λ (n : NamespacedName). none ∷ some (from_config_map n.name) ∷ [])
                    (sym named)),
      )
