-- ===== src/Synapse/Postgres/Ready.antt =====
-- When a PostgresCluster counts as ready.
use synapse_operator.Base.{
  ℕ, String, ◌≡◌, ◌↔◌, refl, Option, none, some, List, [], ◌∷◌, ◌==◌, arith, Bool-cases, inl, inr,
  if◌then◌else◌,
}
use synapse_operator.Kube.{InstanceSet, InstanceSetStatus, PostgresCluster}
use synapse_operator.Synapse.Postgres.{
  Check, passes, fails, replicas_check, instance_check, all_instances_check,
  is_postgres_cluster_ready,
}

-- The first status of a name.
pub status_of : String → List InstanceSetStatus → Option InstanceSetStatus
status_of name [] = none
status_of name (st ∷ statuses) = if st.name == name then some st else status_of name statuses

-- All three replica counts of the first status of the instance set's name are the wanted one.
abbrev pub IsUp : InstanceSet → List InstanceSetStatus → Type 0
IsUp set statuses =
    (desired : ℕ) × (st : InstanceSetStatus) × (set.replicas ≡ some desired)
    × (status_of set.name statuses ≡ some st)
    × (st.replicas ≡ desired)
    × (st.ready_replicas ≡ desired)
    × (st.updated_replicas ≡ desired)

abbrev pub AllUp : List InstanceSet → List InstanceSetStatus → Type 0
AllUp [] statuses = Unit
AllUp (set ∷ sets) statuses = IsUp set statuses × AllUp sets statuses

-- The check of one instance set, by what is looked up.
check_of : Option InstanceSetStatus → InstanceSet → Check
check_of none set = fails
check_of (some st) set = replicas_check set.replicas st

instance_check-status_of :
    (set : InstanceSet) (statuses : List InstanceSetStatus)
    → instance_check set statuses ≡ check_of (status_of set.name statuses) set
unfolding instance_check status_of check_of
instance_check-status_of set [] = refl
instance_check-status_of set (st ∷ statuses) = elim (Bool-cases (st.name == set.name)) [
  | inl same ↦ rw same
  | inr other ↦ rw other (instance_check-status_of set statuses)
]

replicas_check_iff :
    (wanted : Option ℕ) (st : InstanceSetStatus)
    → (replicas_check wanted st ≡ passes) ↔ (
        (desired : ℕ) × (wanted ≡ some desired)
        × (st.replicas ≡ desired)
        × (st.ready_replicas ≡ desired)
        × (st.updated_replicas ≡ desired))
unfolding replicas_check
replicas_check_iff none st = ((λ h. cc), (λ h. cc (h.1)))
replicas_check_iff (some n) st =
    ((λ h. (n, refl, ground arith, ground arith, ground arith)), (λ (d, e, a, b, c). ground arith))

check_of_iff :
    (found : Option InstanceSetStatus) (set : InstanceSet)
    → (check_of found set ≡ passes) ↔ (
        (desired : ℕ) × (st : InstanceSetStatus) × (set.replicas ≡ some desired)
        × (found ≡ some st)
        × (st.replicas ≡ desired)
        × (st.ready_replicas ≡ desired)
        × (st.updated_replicas ≡ desired))
unfolding check_of replicas_check
check_of_iff none set = ((λ h. cc), (λ h. cc (h.3)))
check_of_iff (some st) set = (
  (λ h.
      let (d, e, a, b, c) = (replicas_check_iff set.replicas st).0 h in (d, st, e, refl, a, b, c)),
  (λ (d, st', e, f, a, b, c). ground arith),
)

instance_check_iff :
    (set : InstanceSet) (statuses : List InstanceSetStatus)
    → (instance_check set statuses ≡ passes) ↔ IsUp set statuses
instance_check_iff set statuses =
    rw instance_check-status_of (check_of_iff (status_of set.name statuses) set)

all_instances_check-cons_iff :
    (set : InstanceSet) (sets : List InstanceSet) (statuses : List InstanceSetStatus)
    → (all_instances_check (set ∷ sets) statuses ≡ passes)
      ↔ ((instance_check set statuses ≡ passes) × (all_instances_check sets statuses ≡ passes))
unfolding all_instances_check
all_instances_check-cons_iff set sets statuses = ground arith

all_instances_check_iff :
    (sets : List InstanceSet) (statuses : List InstanceSetStatus)
    → (all_instances_check sets statuses ≡ passes) ↔ AllUp sets statuses
unfolding all_instances_check
all_instances_check_iff [] statuses = ((λ h. tt), (λ h. refl))
all_instances_check_iff (set ∷ sets) statuses =
    let here = instance_check_iff set statuses in
    let later = all_instances_check_iff sets statuses in
    let both = all_instances_check-cons_iff set sets statuses in
    (
      (λ h. (here.0 (both.0 h).0, later.0 (both.0 h).1)),
      (λ (up, ups). both.1 (here.1 up, later.1 ups)),
    )

-- The cluster is ready exactly if, for each instance set of its spec, the first status of that name
-- has the wanted number of replicas, of ready ones and of updated ones.
pub is_postgres_cluster_ready_iff :
    (p : PostgresCluster)
    → (is_postgres_cluster_ready p ≡ passes) ↔ AllUp p.spec.instance_sets p.instance_statuses
unfolding is_postgres_cluster_ready
is_postgres_cluster_ready_iff p = all_instances_check_iff p.spec.instance_sets p.instance_statuses
