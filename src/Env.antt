-- ===== src/Env.antt =====
-- What the operator calls and does not implement, as parameters of the model: the Kubernetes API
-- client of controller-runtime, the subreconciler package, YAML, mergo and owner references.
-- The laws that a theorem needs of them are the records from IsSubreconciler to DecodesSlices.
use synapse_operator.Base.{ℕ, String, ◌≡◌, ◌≢◌, ◌⊎◌, Bool, true, false, Option, none, some, List}
use synapse_operator.Go.{Error, Result, ok, Value, string_slice, Fields, get_field}
use synapse_operator.Kube.{
  ObjectMeta, NamespacedName, ConfigMap, Secret, Service, Deployment, PersistentVolumeClaim,
  ServiceAccount, RoleBinding, PostgresCluster,
}
use synapse_operator.Api.{Synapse, Heisenbridge, MautrixSignal}

pub data Kind : Type 0 where
  synapse heisenbridge mautrix_signal : Kind
  config_map secret service deployment claim service_account role_binding postgres_cluster : Kind

abbrev pub Obj : Kind → Type 0
Obj synapse = Synapse
Obj heisenbridge = Heisenbridge
Obj mautrix_signal = MautrixSignal
Obj config_map = ConfigMap
Obj secret = Secret
Obj service = Service
Obj deployment = Deployment
Obj claim = PersistentVolumeClaim
Obj service_account = ServiceAccount
Obj role_binding = RoleBinding
Obj postgres_cluster = PostgresCluster

abbrev pub meta_of : (k : Kind) → Obj k → ObjectMeta
meta_of synapse o = o.meta
meta_of heisenbridge o = o.meta
meta_of mautrix_signal o = o.meta
meta_of config_map o = o.meta
meta_of secret o = o.meta
meta_of service o = o.meta
meta_of deployment o = o.meta
meta_of claim o = o.meta
meta_of service_account o = o.meta
meta_of role_binding o = o.meta
meta_of postgres_cluster o = o.meta

-- `types.NamespacedName{Name: o.GetName(), Namespace: o.GetNamespace()}`
abbrev pub key_of : (k : Kind) → Obj k → NamespacedName
key_of k o = record { name = (meta_of k o).name; namespace = (meta_of k o).namespace }

-- `ctrl.Result`
pub record CtrlResult : Type 0 where
  pub requeue : Bool
  pub requeue_after : ℕ

-- The pair `(*ctrl.Result, error)`: none is nil.
abbrev pub Outcome : Type 0
Outcome = Option CtrlResult × Option Error

-- The pair `(ctrl.Result, error)` that `Reconcile` returns.
abbrev pub Verdict : Type 0
Verdict = CtrlResult × Option Error

-- github.com/opdev/subreconciler
pub record Subreconciler : Type 0 where
  pub continue_reconciling : Outcome
  pub do_not_requeue : Outcome
  pub requeue_now : Outcome
  pub requeue_with_error : Error → Outcome
  pub requeue_with_delay_and_error : ℕ → Option Error → Outcome
  pub should_halt_or_requeue : Outcome → Bool
  pub evaluate : Outcome → Verdict

-- sigs.k8s.io/controller-runtime/pkg/client. Every call may change the cluster, a read too, since
-- other clients act between two calls. `patch k new base` is Patch(new, MergeFrom(base)).
pub record Client : Type 1 where
  pub World : Type 0
  pub get : (k : Kind) → NamespacedName → World → Result (Obj k) × World
  pub list_all : (k : Kind) → World → Result (List (Obj k)) × World
  pub create : (k : Kind) → Obj k → World → Option Error × World
  pub update : (k : Kind) → Obj k → World → Option Error × World
  pub patch : (k : Kind) → Obj k → Obj k → World → Option Error × World
  pub patch_status : (k : Kind) → Obj k → Obj k → World → Option Error × World
  pub is_not_found : Error → Bool

-- gopkg.in/yaml.v2: `unmarshal` into a `map[string]interface{}`.
pub record Yaml : Type 0 where
  pub marshal : Value → Result String
  pub unmarshal : String → Result Fields

pub record Env : Type 1 where
  pub client : Client
  pub open client use *
  pub sub : Subreconciler
  pub open sub use *
  pub yaml : Yaml
  pub open yaml use *
  -- `mergo.Merge(dst, src, mergo.WithOverride)`: what `dst` is after it.
  pub merge : (k : Kind) → Obj k → Obj k → Result (Obj k)
  -- `ctrl.SetControllerReference(owner, object, scheme)` writes to the object's metadata alone.
  pub set_controller_reference : (k : Kind) → Obj k → ObjectMeta → Result ObjectMeta

-- What the package documents of its functions.
pub record IsSubreconciler (s : Subreconciler) : Type 0 where
  pub halt-continue_reconciling : s.should_halt_or_requeue s.continue_reconciling ≡ false
  pub halt-do_not_requeue : s.should_halt_or_requeue s.do_not_requeue ≡ true
  pub halt-requeue_now : s.should_halt_or_requeue s.requeue_now ≡ true
  pub halt-requeue_with_error :
      (e : Error) → s.should_halt_or_requeue (s.requeue_with_error e) ≡ true
  pub halt-requeue_with_delay :
      (d : ℕ) (e : Option Error)
      → s.should_halt_or_requeue (s.requeue_with_delay_and_error d e) ≡ true

-- A read returns an object of the name and namespace that it asks for.
pub record IsKeyed (c : Client) : Type 0 where
  pub asked_for :
      (k : Kind) (n : NamespacedName) (o : Obj k) (w : c.World)
      → (c.get k n w).0 ≡ ok o
      → key_of k o ≡ n

-- The cluster while no other client writes: reads leave it as it is, and the object that a call
-- stored is the one that a later read of its key returns.
pub record IsQuiet (c : Client) : Type 0 where
  pub key-get :
      (k : Kind) (n : NamespacedName) (o : Obj k) (w : c.World)
      → (c.get k n w).0 ≡ ok o
      → key_of k o ≡ n
  pub get_world : (k : Kind) (n : NamespacedName) (w : c.World) → (c.get k n w).1 ≡ w
  pub list_world : (k : Kind) (w : c.World) → (c.list_all k w).1 ≡ w
  pub get-create :
      (k : Kind) (o : Obj k) (w : c.World)
      → (c.create k o w).0 ≡ none
      → (c.get k (key_of k o) (c.create k o w).1).0 ≡ ok o
  pub get-update :
      (k : Kind) (o : Obj k) (w : c.World)
      → (c.update k o w).0 ≡ none
      → (c.get k (key_of k o) (c.update k o w).1).0 ≡ ok o
  pub get-patch :
      (k : Kind) (o base : Obj k) (w : c.World)
      → (c.get k (key_of k o) w).0 ≡ ok base
      → (c.patch k o base w).0 ≡ none
      → (c.get k (key_of k o) (c.patch k o base w).1).0 ≡ ok o
  -- A patch of the status subresource changes the status alone.
  pub get-patch_status :
      (o base : Synapse) (w : c.World)
      → (c.get synapse (key_of synapse o) w).0 ≡ ok base
      → (c.patch_status synapse o base w).0 ≡ none
      → (c.get synapse (key_of synapse o) (c.patch_status synapse o base w).1).0
        ≡ ok (record base { status = o.status })

-- Another kind, or another name or namespace.
abbrev pub Apart : Kind → NamespacedName → Kind → NamespacedName → Type 0
Apart k n k' n' = (k ≢ k') ⊎ (n ≢ n')

-- A write of one object leaves what is read of the others as it is.
pub record IsIsolated (c : Client) : Type 0 where
  pub create_apart :
      (k k' : Kind) (n : NamespacedName) (o : Obj k') (w : c.World)
      → Apart k n k' (key_of k' o)
      → (c.get k n (c.create k' o w).1).0 ≡ (c.get k n w).0
  pub update_apart :
      (k k' : Kind) (n : NamespacedName) (o : Obj k') (w : c.World)
      → Apart k n k' (key_of k' o)
      → (c.get k n (c.update k' o w).1).0 ≡ (c.get k n w).0
  pub patch_apart :
      (k k' : Kind) (n : NamespacedName) (o base : Obj k') (w : c.World)
      → Apart k n k' (key_of k' o)
      → (c.get k n (c.patch k' o base w).1).0 ≡ (c.get k n w).0
  pub status_apart :
      (k k' : Kind) (n : NamespacedName) (o base : Obj k') (w : c.World)
      → Apart k n k' (key_of k' o)
      → (c.get k n (c.patch_status k' o base w).1).0 ≡ (c.get k n w).0

-- The operation that sets an owner keeps the name, the namespace and the labels.
pub record KeepsMeta (E : Env) : Type 0 where
  pub kept :
      (k : Kind) (o : Obj k) (m m' : ObjectMeta)
      → E.set_controller_reference k o m ≡ ok m'
      → (m'.name ≡ m.name) × (m'.namespace ≡ m.namespace) × (m'.labels ≡ m.labels)

-- Merging two objects of one key gives an object of that key, and merging the same desired object
-- once more changes nothing.
pub record IsMerge (E : Env) : Type 0 where
  pub merge_key :
      (k : Kind) (current desired merged : Obj k)
      → E.merge k current desired ≡ ok merged
      → key_of k current ≡ key_of k desired
      → key_of k merged ≡ key_of k desired
  pub merge_self : (k : Kind) (desired : Obj k) → E.merge k desired desired ≡ ok desired
  pub merge_again :
      (k : Kind) (current desired merged : Obj k)
      → E.merge k current desired ≡ ok merged
      → E.merge k merged desired ≡ ok merged

-- yaml.v2 decodes a sequence to `[]interface{}`, never to `[]string`.
pub record DecodesSlices (y : Yaml) : Type 0 where
  pub decoded :
      (t : String) (m : Fields) (k : String) (xs : List String)
      → y.unmarshal t ≡ ok m
      → get_field k m ≢ some (string_slice xs)
