-- ===== src/Exec.antt =====
-- Bodies of subreconcilers: a statement either goes on with a value or returns the pair
-- `(*ctrl.Result, error)` at once; the cluster is threaded through.
pub mod Stays
pub mod Keeps
use synapse_operator.Base.{Option, none, some, if◌then◌else◌}
use synapse_operator.Go.{Error, Result, ok, err}
use synapse_operator.Kube.{NamespacedName}
use synapse_operator.Env.{Env, Outcome}

pub data Flow {ℓ} (A : Type ℓ) : Type ℓ where
  halt : Outcome → Flow A
  crash : Flow A
  next : A → Flow A

-- How a subreconciler ends: it returns, or it panics on a nil pointer.
pub data Ending : Type 0 where
  returned : Outcome → Ending
  panicked : Ending

abbrev pub Exec {ℓ} : Type ℓ → Type ℓ → Type ℓ
Exec W A = W → Flow A × W

module _ {ℓ} {W A B : Type ℓ} where
  abbrev pub proceed : Flow A → (A → Exec W B) → Exec W B
  proceed (halt o) f w = (halt o, w)
  proceed crash f w = (crash, w)
  proceed (next a) f w = f a w

  infixl 10 ◌>>=◌
  unfoldable pub ◌>>=◌ : Exec W A → (A → Exec W B) → Exec W B
  ◌>>=◌ m f w = let (r, w') = m w in proceed r f w'

infixl 10 ◌>>◌
abbrev pub ◌>>◌ {ℓ} : {W A B : Type ℓ} → Exec W A → Exec W B → Exec W B
m >> n = m >>= λ _. n

-- `return r, err`
unfoldable pub return {ℓ} : {W A : Type ℓ} → Outcome → Exec W A
return o w = (halt o, w)

-- `*p`: a nil pointer panics.
abbrev pub flow_of_pointer {ℓ} : {A : Type ℓ} → Option A → Flow A
flow_of_pointer none = crash
flow_of_pointer (some a) = next a

unfoldable pub deref {ℓ} : {W A : Type ℓ} → Option A → Exec W A
deref p w = (flow_of_pointer p, w)

module _ (E : Env) where
  -- A subreconciler, for the name and namespace of its request.
  abbrev pub Sub : Type 0
  Sub = NamespacedName → E.World → Ending × E.World

  -- What a body that falls through to its last line returns: ContinueReconciling().
  abbrev pub settle : Flow (Unit {0}) → Ending
  settle (halt o) = returned o
  settle crash = panicked
  settle (next _) = returned E.continue_reconciling

  unfoldable pub run : Exec E.World (Unit {0}) → E.World → Ending × E.World
  run m w = let (r, w') = m w in (settle r, w')

  -- `if r, err := call; subreconciler.ShouldHaltOrRequeue(r, err) { return r, err }`, where the
  -- call fills in a value.
  abbrev pub unless_halted {ℓ} : {A : Type ℓ} → Outcome → A → Flow A
  unless_halted o a = if E.should_halt_or_requeue o then halt o else next a

  unfoldable pub checked : {A : Type 0} → (E.World → (Outcome × A) × E.World) → Exec E.World A
  checked call w = let ((o, a), w') = call w in (unless_halted o a, w')

  -- `if err != nil { return subreconciler.RequeueWithError(err) }`, for the three shapes of call.
  abbrev pub flow_of {ℓ} : {A : Type ℓ} → Result A → Flow A
  flow_of (ok a) = next a
  flow_of (err e) = halt (E.requeue_with_error e)

  abbrev pub flow_of_error : Option Error → Flow (Unit {0})
  flow_of_error none = next tt
  flow_of_error (some e) = halt (E.requeue_with_error e)

  unfoldable pub or_requeue : {A : Type 0} → Result A → Exec E.World A
  or_requeue r w = (flow_of r, w)

  unfoldable pub try : {A : Type 0} → (E.World → Result A × E.World) → Exec E.World A
  try call w = let (r, w') = call w in (flow_of r, w')

  unfoldable pub attempt : (E.World → Option Error × E.World) → Exec E.World (Unit {0})
  attempt call w = let (e, w') = call w in (flow_of_error e, w')
