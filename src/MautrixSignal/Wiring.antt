-- ===== src/MautrixSignal/Wiring.antt =====
-- How the objects of a MautrixSignal, of its signald and of its Synapse refer to one another.
use synapse_operator.Base.{String, ◌≡◌, refl, sym, ap, ◌∙◌, Option, none, some, List, [], ◌∷◌}
use synapse_operator.Go.{ok, ok_inj, bind_ok}
use synapse_operator.Kube.{
  NamespacedName, ObjectMeta, PersistentVolumeClaim, VolumeSource, Deployment, from_claim,
}
use synapse_operator.Api.{Synapse, Heisenbridge, MautrixSignal}
use synapse_operator.Env.{mautrix_signal, claim, deployment, key_of, Env, KeepsMeta}
use synapse_operator.Helpers.Owned.{key_of_meta, built-key}
use synapse_operator.Synapse.Status.{with_bridges}
use synapse_operator.Synapse.Status.Bridges.{
  last_mautrix_signal, mautrix_signal_or, find_mautrix_signal_last,
}
use synapse_operator.Synapse.Resources.{meta_for_synapse}
use synapse_operator.Synapse.Children.Keys.{deployment-key}
use synapse_operator.Synapse.Deployment.{deployment_for_synapse}
use synapse_operator.Synapse.Deployment.Volumes.{
  source_of, source_at, sources_at, sources_in, mautrix_signal_in_pod,
}
use synapse_operator.Synapse.Deployment.Wiring.{deployment-parts}
use synapse_operator.MautrixSignal.Resources.{
  get_signald_resource_name, meta_for_mautrix_signal, meta_for_signald, mautrix_signal_pod,
  signald_pod, claim_for_mautrix_signal, deployment_for_mautrix_signal, deployment_for_signald,
}

-- The pod of the bridge: its init container and it see its data, and it sees the socket.
socket_in_bridge :
    (ms : MautrixSignal) (m : ObjectMeta)
    → sources_in "/signald" (mautrix_signal_pod ms m)
      ≡ none ∷ some (from_claim (get_signald_resource_name ms)) ∷ []
unfolding sources_in sources_at source_at source_of mautrix_signal_pod
socket_in_bridge ms m = refl

data_in_bridge :
    (ms : MautrixSignal) (m : ObjectMeta)
    → sources_in "/data" (mautrix_signal_pod ms m)
      ≡ some (from_claim m.name) ∷ some (from_claim m.name) ∷ []
unfolding sources_in sources_at source_at source_of mautrix_signal_pod
data_in_bridge ms m = refl

socket_in_signald :
    (m : ObjectMeta) → sources_in "/signald" (signald_pod m) ≡ some (from_claim m.name) ∷ []
unfolding sources_in sources_at source_at source_of signald_pod
socket_in_signald m = refl

module _ (E : Env) (K : KeepsMeta E) (ms : MautrixSignal) where
  claim-key :
      (object_meta : ObjectMeta) (pvc : PersistentVolumeClaim)
      → claim_for_mautrix_signal E ms object_meta ≡ ok pvc
      → key_of claim pvc ≡ key_of_meta object_meta
  unfolding claim_for_mautrix_signal
  claim-key object_meta pvc made =
      built-key E K mautrix_signal claim ms _ object_meta pvc (λ m. refl) made

  -- What the Deployment of the bridge runs, and where it is.
  bridge-pod :
      (d : Deployment)
      → deployment_for_mautrix_signal E ms (meta_for_mautrix_signal ms) ≡ ok d
      → (d.pod ≡ mautrix_signal_pod ms (meta_for_mautrix_signal ms))
        × (key_of deployment d ≡ key_of_meta (meta_for_mautrix_signal ms))
  unfolding deployment_for_mautrix_signal
  bridge-pod d made =
      let meta = meta_for_mautrix_signal ms in
      let (m, owned, e) = bind_ok (E.set_controller_reference mautrix_signal ms meta) _ made in
      (
        sym (ap (λ (x : Deployment). x.pod) (ok_inj _ d e)),
        built-key E K mautrix_signal deployment ms _ meta d (λ m. refl) made,
      )

  signald-pod :
      (d : Deployment)
      → deployment_for_signald E ms (meta_for_signald ms) ≡ ok d
      → (d.pod ≡ signald_pod (meta_for_signald ms))
        × (key_of deployment d ≡ key_of_meta (meta_for_signald ms))
  unfolding deployment_for_signald
  signald-pod d made =
      let meta = meta_for_signald ms in
      let (m, owned, e) = bind_ok (E.set_controller_reference mautrix_signal ms meta) _ made in
      (
        sym (ap (λ (x : Deployment). x.pod) (ok_inj _ d e)),
        built-key E K mautrix_signal deployment ms _ meta d (λ m. refl) made,
      )

  -- If setting the owner keeps the names: the bridge's container and signald's see the claim of
  -- signald at /signald, where the socket is, and both containers of the bridge's pod see the claim of
  -- the bridge at /data; the two Deployments and the two claims are in one namespace.
  pub mautrix_signal-shares_socket :
      (signald_claim bridge_claim : PersistentVolumeClaim) (bridge signald : Deployment)
      → claim_for_mautrix_signal E ms (meta_for_signald ms) ≡ ok signald_claim
      → claim_for_mautrix_signal E ms (meta_for_mautrix_signal ms) ≡ ok bridge_claim
      → deployment_for_mautrix_signal E ms (meta_for_mautrix_signal ms) ≡ ok bridge
      → deployment_for_signald E ms (meta_for_signald ms) ≡ ok signald
      → (sources_in "/signald" bridge.pod ≡ none ∷ some (from_claim signald_claim.meta.name) ∷ [])
        × (sources_in "/signald" signald.pod ≡ some (from_claim signald_claim.meta.name) ∷ [])
        × (sources_in "/data" bridge.pod
            ≡ some (from_claim bridge_claim.meta.name)
              ∷ some (from_claim bridge_claim.meta.name)
              ∷ [])
        × (signald_claim.meta.namespace ≡ bridge.meta.namespace)
        × (signald_claim.meta.namespace ≡ signald.meta.namespace)
        × (bridge_claim.meta.namespace ≡ bridge.meta.namespace)
  unfolding meta_for_mautrix_signal meta_for_signald
  mautrix_signal-shares_socket signald_claim bridge_claim bridge signald made_signald_claim
        made_bridge_claim made_bridge made_signald =
      let one : NamespacedName → List (Option VolumeSource) = λ n. some (from_claim n.name) ∷ [] in
      let two : NamespacedName → List (Option VolumeSource) =
        λ n. some (from_claim n.name) ∷ some (from_claim n.name) ∷ [] in
      let socket = sym (claim-key (meta_for_signald ms) signald_claim made_signald_claim) in
      let own = sym (claim-key (meta_for_mautrix_signal ms) bridge_claim made_bridge_claim) in
      let (bridge_pod, bridge_at) = bridge-pod bridge made_bridge in
      let (signald_runs, signald_at) = signald-pod signald made_signald in
      let space : NamespacedName → String = λ n. n.namespace in
      (
        ap (sources_in "/signald") bridge_pod
            ∙ (socket_in_bridge ms (meta_for_mautrix_signal ms) ∙ ap (λ n. none ∷ one n) socket),
        ap (sources_in "/signald") signald_runs
            ∙ (socket_in_signald (meta_for_signald ms) ∙ ap one socket),
        ap (sources_in "/data") bridge_pod
            ∙ (data_in_bridge ms (meta_for_mautrix_signal ms) ∙ ap two own),
        sym (ap space socket) ∙ sym (ap space bridge_at),
        sym (ap space socket) ∙ sym (ap space signald_at),
        sym (ap space own) ∙ sym (ap space bridge_at),
      )

  -- If setting the owner keeps the names, and a Synapse has the MautrixSignal as the last of the list
  -- to name it and is in the same namespace, then the claim of the bridge, on which its registration
  -- is, is in the namespace of the Synapse's Deployment and is what the homeserver's container sees at
  -- /data-mautrixsignal; the init container sees nothing there.
  pub pod_for_synapse-mounts_mautrix_signal :
      (s : Synapse) (hs : List Heisenbridge) (mss : List MautrixSignal)
      (bridge_claim : PersistentVolumeClaim) (d : Deployment)
      → last_mautrix_signal s.meta.name mss ≡ some ms
      → ms.meta.namespace ≡ s.meta.namespace
      → claim_for_mautrix_signal E ms (meta_for_mautrix_signal ms) ≡ ok bridge_claim
      → deployment_for_synapse E (with_bridges s hs mss) (meta_for_synapse s) ≡ ok d
      → (bridge_claim.meta.namespace ≡ d.meta.namespace)
        × (sources_in "/data-mautrixsignal" d.pod
            ≡ none ∷ some (from_claim bridge_claim.meta.name) ∷ [])
  unfolding meta_for_mautrix_signal with_bridges meta_for_synapse
  pod_for_synapse-mounts_mautrix_signal s hs mss bridge_claim d last together made made_deployment =
      let told = with_bridges s hs mss in
      let named = claim-key (meta_for_mautrix_signal ms) bridge_claim made in
      let placed = deployment-key E K told (meta_for_synapse s) d made_deployment in
      let (managed, labelled, pod) = deployment-parts E told d made_deployment in
      let bridged =
        find_mautrix_signal_last s.meta.name mss s.status.bridges.mautrix_signal
        ∙ ap (λ found. mautrix_signal_or found s.status.bridges.mautrix_signal) last in
      (
        ap (λ (n : NamespacedName). n.namespace) named
            ∙ (together ∙ sym (ap (λ (n : NamespacedName). n.namespace) placed)),
        ap (sources_in "/data-mautrixsignal") pod
            ∙ (mautrix_signal_in_pod told (meta_for_synapse s) ms.meta.name bridged
                ∙ ap (λ (n : NamespacedName). none ∷ some (from_claim n.name) ∷ []) (sym named)),
      )
