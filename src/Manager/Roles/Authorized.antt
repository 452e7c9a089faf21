-- ===== src/Manager/Roles/Authorized.antt =====
-- The role covers what the reconciliations of the three controllers write.
use synapse_operator.Base.{String, ◌≡◌, ◌≢◌, ◌↔◌, refl, true}
use synapse_operator.Kube.{NamespacedName}
use synapse_operator.Env.{
  Kind, synapse, heisenbridge, mautrix_signal, config_map, secret, service, deployment, claim,
  service_account, role_binding, postgres_cluster, Env, IsKeyed, IsSubreconciler, IsMerge,
  KeepsMeta,
}
use synapse_operator.Exec.Keeps.{Rights, Respects}
use synapse_operator.Exec.Stays.{Respects-weaken}
use synapse_operator.Synapse.Controller.{reconcile}
use synapse_operator.Synapse.Controller.Confined.{
  OwnedBySynapse, StatusOfSynapse, synapse_rights, reconcile-confined,
}
use synapse_operator.Heisenbridge.Controller.{reconcile_heisenbridge}
use synapse_operator.Heisenbridge.Confined.{
  OwnedByHeisenbridge, StatusOfHeisenbridge, heisenbridge_rights, reconcile_heisenbridge-confined,
}
use synapse_operator.MautrixSignal.Controller.{reconcile_mautrix_signal}
use synapse_operator.MautrixSignal.Confined.{
  OwnedByMautrixSignal, StatusOfMautrixSignal, mautrix_signal_rights,
  reconcile_mautrix_signal-confined,
}
use synapse_operator.Manager.Roles.{
  role, grants, synapse_rules, mautrix_signal_rules, heisenbridge_rules, group_of, resource_of,
  status_resource_of, has_text,
}

-- What the role lets the operator do, in every namespace.
abbrev pub Granted : String → Kind → Type 0
Granted verb k = grants role verb (group_of k) (resource_of k) ≡ true

abbrev pub granted_rights : Rights
granted_rights = record {
  write = λ k n. Granted "create" k × Granted "update" k × Granted "patch" k;
  status = λ k n. grants role "patch" (group_of k) (status_resource_of k) ≡ true;
}

owned-Granted :
    (req : NamespacedName) (k : Kind) (n : NamespacedName)
    → OwnedBySynapse req k n
    → granted_rights.write k n
unfolding role grants synapse_rules mautrix_signal_rules heisenbridge_rules group_of resource_of
    has_text
owned-Granted req config_map n h = (refl, refl, refl)
owned-Granted req service n h = (refl, refl, refl)
owned-Granted req deployment n h = (refl, refl, refl)
owned-Granted req claim n h = (refl, refl, refl)
owned-Granted req service_account n h = (refl, refl, refl)
owned-Granted req role_binding n h = (refl, refl, refl)
owned-Granted req postgres_cluster n h = (refl, refl, refl)
owned-Granted req _ n h = absurd h

status-Granted :
    (req : NamespacedName) (k : Kind) (n : NamespacedName)
    → StatusOfSynapse req k n
    → granted_rights.status k n
unfolding role grants synapse_rules mautrix_signal_rules heisenbridge_rules group_of
    status_resource_of has_text
status-Granted req synapse n h = refl
status-Granted req _ n h = absurd h

-- The rights of the three controllers, each for the request that it works on.
owned_by_bridges-Granted :
    (req : NamespacedName) (k : Kind) (n : NamespacedName)
    → (OwnedByHeisenbridge req k n → granted_rights.write k n)
      × (OwnedByMautrixSignal req k n → granted_rights.write k n)
unfolding role grants synapse_rules mautrix_signal_rules heisenbridge_rules group_of resource_of
    has_text
owned_by_bridges-Granted req config_map n = ((λ h. (refl, refl, refl)), (λ h. (refl, refl, refl)))
owned_by_bridges-Granted req service n = ((λ h. (refl, refl, refl)), (λ h. (refl, refl, refl)))
owned_by_bridges-Granted req deployment n = ((λ h. (refl, refl, refl)), (λ h. (refl, refl, refl)))
owned_by_bridges-Granted req claim n = ((λ h. absurd h), (λ h. (refl, refl, refl)))
owned_by_bridges-Granted req service_account n = ((λ h. absurd h), (λ h. (refl, refl, refl)))
owned_by_bridges-Granted req role_binding n = ((λ h. absurd h), (λ h. (refl, refl, refl)))
owned_by_bridges-Granted req _ n = ((λ h. absurd h), (λ h. absurd h))

status_of_bridges-Granted :
    (req : NamespacedName) (k : Kind) (n : NamespacedName)
    → (StatusOfHeisenbridge req k n → granted_rights.status k n)
      × (StatusOfMautrixSignal req k n → granted_rights.status k n)
unfolding role grants synapse_rules mautrix_signal_rules heisenbridge_rules group_of
    status_resource_of has_text
status_of_bridges-Granted req synapse n = ((λ h. refl), (λ h. refl))
status_of_bridges-Granted req heisenbridge n = ((λ h. refl), (λ h. absurd h))
status_of_bridges-Granted req mautrix_signal n = ((λ h. absurd h), (λ h. refl))
status_of_bridges-Granted req _ n = ((λ h. absurd h), (λ h. absurd h))

-- The role that the markers give covers the writes of the three controllers: a reconciliation of a
-- Synapse, of a Heisenbridge or of a MautrixSignal makes no create, update or patch, of an object or
-- of a status, that the markers do not list for the object's kind. What such writes and all reads
-- keep, each of the three reconciliations keeps, however it ends.
pub reconcile-authorized :
    (E : Env)
    → IsKeyed E.client
    → IsSubreconciler E.sub
    → IsMerge E
    → KeepsMeta E
    → (req : NamespacedName) (P : E.World → Type 0) → Respects E.client granted_rights P
    → (w : E.World) → P w
    → P (reconcile E req w).1
      × P (reconcile_heisenbridge E req w).1
      × P (reconcile_mautrix_signal E req w).1
reconcile-authorized E N L M K req P H w h = (
  reconcile-confined E N L M K req P
      (Respects-weaken E.client (synapse_rights req) granted_rights P (owned-Granted req)
        (status-Granted req) H)
      w h,
  reconcile_heisenbridge-confined E N L M K req P
      (Respects-weaken E.client (heisenbridge_rights req) granted_rights P
        (λ k n. (owned_by_bridges-Granted req k n).0) (λ k n. (status_of_bridges-Granted req k n).0)
        H)
      w h,
  reconcile_mautrix_signal-confined E N L M K req P
      (Respects-weaken E.client (mautrix_signal_rights req) granted_rights P
        (λ k n. (owned_by_bridges-Granted req k n).1) (λ k n. (status_of_bridges-Granted req k n).1)
        H)
      w h,
)

-- Of the kinds that the operator works on, the Secret alone has no marker that lets it be read.
pub read-Granted_iff : (k : Kind) → Granted "get" k ↔ (k ≢ secret)
unfolding role grants synapse_rules mautrix_signal_rules heisenbridge_rules group_of resource_of
    has_text
read-Granted_iff secret = ((λ h. cc), (λ h. absurd (h refl)))
read-Granted_iff _ = ((λ h e. cc), (λ h. refl))
