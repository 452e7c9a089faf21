-- ===== src/Exec/Keeps.antt =====
-- What the body of a subreconciler keeps of the cluster: one rule for each kind of statement.
use synapse_operator.Base.{◌≡◌, refl, false, Option, none, some, Bool-cases, inl, inr}
use synapse_operator.Go.{Error, Result, ok, err}
use synapse_operator.Kube.{NamespacedName}
use synapse_operator.Env.{Kind, Obj, key_of, Env, Outcome, Client}
use synapse_operator.Exec.{
  Flow, halt, crash, next, Exec, proceed, ◌>>=◌, deref, run, checked, unless_halted, or_requeue,
  flow_of, try, flow_of_error, attempt,
}

-- Which objects may be created, updated or patched, and of which the status may be patched.
pub record Rights : Type 1 where
  pub write : Kind → NamespacedName → Type 0
  pub status : Kind → NamespacedName → Type 0

-- `P` holds on after every read, and after every write that the rights allow.
pub record Respects (c : Client) (R : Rights) (P : c.World → Type 0) : Type 0 where
  pub get_keeps : (k : Kind) (n : NamespacedName) (w : c.World) → P w → P (c.get k n w).1
  pub list_keeps : (k : Kind) (w : c.World) → P w → P (c.list_all k w).1
  pub create_keeps :
      (k : Kind) (o : Obj k) (w : c.World) → R.write k (key_of k o) → P w → P (c.create k o w).1
  pub update_keeps :
      (k : Kind) (o : Obj k) (w : c.World) → R.write k (key_of k o) → P w → P (c.update k o w).1
  pub patch_keeps :
      (k : Kind) (o base : Obj k) (w : c.World)
      → R.write k (key_of k o)
      → P w
      → P (c.patch k o base w).1
  pub status_keeps :
      (k : Kind) (o base : Obj k) (w : c.World)
      → R.status k (key_of k o)
      → P w
      → P (c.patch_status k o base w).1

-- The value that a statement goes on with, if it does.
abbrev pub Yields : {A : Type 0} → (A → Type 0) → Flow A → Type 0
Yields Post (halt o) = Unit
Yields Post crash = Unit
Yields Post (next a) = Post a

-- Keeps `P`, however it ends, and goes on only with values that meet `Post`.
pub record Keeps {W A : Type 0} (P : W → Type 0) (Post : A → Type 0) (m : Exec W A) : Type 0 where
  pub at : (w : W) → P w → P (m w).1 × Yields Post (m w).0

-- No statement on the value.
abbrev pub Any : {A : Type 0} → A → Type 0
Any a = Unit

module _ {W A B : Type 0} {P : W → Type 0} {Post : A → Type 0} {Post' : B → Type 0} where
  proceed-Keeps :
      (r : Flow A) (f : A → Exec W B) (w : W)
      → Yields Post r
      → ((a : A) → Post a → Keeps P Post' (f a))
      → P w
      → P (proceed r f w).1 × Yields Post' (proceed r f w).0
  proceed-Keeps (halt o) f w y kf h = (h, tt)
  proceed-Keeps crash f w y kf h = (h, tt)
  proceed-Keeps (next a) f w y kf h = (kf a y).at w h

  pub Keeps-bind :
      (m : Exec W A) (f : A → Exec W B)
      → Keeps P Post m
      → ((a : A) → Post a → Keeps P Post' (f a))
      → Keeps P Post' (m >>= f)
  unfolding ◌>>=◌
  Keeps-bind m f km kf = record {
    at = λ w h. let (kept, y) = km.at w h in proceed-Keeps (m w).0 f (m w).1 y kf kept;
  }

module _ {W A : Type 0} {P : W → Type 0} {Post : A → Type 0} where
  pub Keeps-deref : (p : Option A) → ((a : A) → p ≡ some a → Post a) → Keeps P Post (deref p)
  unfolding deref
  Keeps-deref none post = record { at = λ w h. (h, tt) }
  Keeps-deref (some a) post = record { at = λ w h. (h, post a refl) }

  pub Keeps-next : (a : A) → Post a → Keeps P Post (λ w. (next a, w))
  Keeps-next a post = record { at = λ w h. (h, post) }

module _ (E : Env) where
  flow_of-Yields :
      {A : Type 0} (Post : A → Type 0) (r : Result A)
      → ((a : A) → r ≡ ok a → Post a)
      → Yields Post (flow_of E r)
  flow_of-Yields Post (ok a) post = post a refl
  flow_of-Yields Post (err e) post = tt

  flow_of_error-Yields : (e : Option Error) → Yields Any (flow_of_error E e)
  flow_of_error-Yields none = tt
  flow_of_error-Yields (some e) = tt

  unless_halted-Yields :
      {A : Type 0} (Post : A → Type 0) (o : Outcome) (a : A)
      → (E.should_halt_or_requeue o ≡ false → Post a)
      → Yields Post (unless_halted E o a)
  unless_halted-Yields Post o a post = elim (Bool-cases (E.should_halt_or_requeue o)) [
    | inl halts ↦ rw halts tt
    | inr goes_on ↦ rw goes_on (post goes_on)
  ]

module _ (E : Env) {P : E.World → Type 0} where
  pub Keeps-or_requeue :
      {A : Type 0} {Post : A → Type 0} (r : Result A)
      → ((a : A) → r ≡ ok a → Post a)
      → Keeps P Post (or_requeue E r)
  unfolding or_requeue
  Keeps-or_requeue (ok a) post = record { at = λ w h. (h, post a refl) }
  Keeps-or_requeue (err e) post = record { at = λ w h. (h, tt) }

  pub Keeps-try :
      {A : Type 0} {Post : A → Type 0} (call : E.World → Result A × E.World)
      → ((w : E.World) → P w → P (call w).1)
      → ((w : E.World) (a : A) → (call w).0 ≡ ok a → Post a)
      → Keeps P Post (try E call)
  unfolding try
  Keeps-try {Post = Post} call kept post = record {
    at = λ w h. (kept w h, flow_of-Yields E Post (call w).0 (post w));
  }

  pub Keeps-attempt :
      (call : E.World → Option Error × E.World)
      → ((w : E.World) → P w → P (call w).1)
      → Keeps P Any (attempt E call)
  unfolding attempt
  Keeps-attempt call kept = record { at = λ w h. (kept w h, flow_of_error-Yields E (call w).0) }

  pub Keeps-checked :
      {A : Type 0} {Post : A → Type 0} (call : E.World → (Outcome × A) × E.World)
      → ((w : E.World) → P w → P (call w).1)
      → ((w : E.World) → E.should_halt_or_requeue (call w).0.0 ≡ false → Post (call w).0.1)
      → Keeps P Post (checked E call)
  unfolding checked
  Keeps-checked {Post = Post} call kept post = record {
    at = λ w h. (kept w h, unless_halted-Yields E Post (call w).0.0 (call w).0.1 (post w));
  }

  pub Keeps-run :
      (m : Exec E.World (Unit {0})) (w : E.World) → Keeps P Any m → P w → P (run E m w).1
  unfolding run
  Keeps-run m w km h = (km.at w h).0
