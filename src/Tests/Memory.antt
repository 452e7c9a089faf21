-- ===== src/Tests/Memory.antt =====
-- An environment in memory that meets the laws: the cluster is the list of the objects written,
-- the latest first.
use synapse_operator.Base.{
  ℕ, String, ◌≡◌, ◌≢◌, refl, sym, ap, subst, ◌∙◌, Bool, true, false, Option, none, some, List, [],
  ◌∷◌, ◌&&◌, ◌||◌, ◌==◌, eq_refl, arith, eq_iff, inl, inr, Bool-cases, if◌then◌else◌,
}
use synapse_operator.Go.{
  Error, new, external, Result, ok, err, ok_inj, Fields, text, bool, slice, nil, cons, end, field,
  string_slice, get_field,
}
use synapse_operator.Kube.{ObjectMeta, NamespacedName}
use synapse_operator.Env.{
  Kind, Obj, synapse, heisenbridge, mautrix_signal, config_map, secret, service, deployment, claim,
  service_account, role_binding, postgres_cluster, key_of, CtrlResult, Subreconciler, Client, Yaml,
  Env, IsSubreconciler, IsQuiet, KeepsMeta, IsMerge, DecodesSlices,
}

abbrev pub Stored : Type 0
Stored = (k : Kind) × Obj k

-- An object of one kind seen as one of another.
abbrev pub as_kind : (k j : Kind) → Obj j → Option (Obj k)
as_kind synapse synapse o = some o
as_kind heisenbridge heisenbridge o = some o
as_kind mautrix_signal mautrix_signal o = some o
as_kind config_map config_map o = some o
as_kind secret secret o = some o
as_kind service service o = some o
as_kind deployment deployment o = some o
as_kind claim claim o = some o
as_kind service_account service_account o = some o
as_kind role_binding role_binding o = some o
as_kind postgres_cluster postgres_cluster o = some o
as_kind _ _ o = none

as_kind_self : (k : Kind) (o : Obj k) → as_kind k k o ≡ some o
as_kind_self synapse o = refl
as_kind_self _ o = refl

abbrev pub same_key : NamespacedName → NamespacedName → Bool
same_key a b = a.name == b.name && a.namespace == b.namespace

same_key_refl : (a : NamespacedName) → same_key a a ≡ true
same_key_refl a = rw (eq_refl a.name, eq_refl a.namespace)

pub same_key-eq : (a b : NamespacedName) → same_key a b ≡ true → a ≡ b
same_key-eq a b h = ground (arith, eq_iff a.name b.name, eq_iff a.namespace b.namespace)

abbrev pub not_found : Error
not_found = external "NotFound"

unfoldable pub matching :
    (k : Kind) → NamespacedName → Option (Obj k) → Result (Obj k) → Result (Obj k)
matching k n none rest = rest
matching k n (some o) rest = if same_key (key_of k o) n then ok o else rest

unfoldable pub find : (k : Kind) → NamespacedName → List Stored → Result (Obj k)
find k n [] = err not_found
find k n ((j, o) ∷ w) = matching k n (as_kind k j o) (find k n w)

unfoldable pub collected : (k : Kind) → Option (Obj k) → List (Obj k) → List (Obj k)
collected k none rest = rest
collected k (some o) rest = o ∷ rest

unfoldable pub all_of : (k : Kind) → List Stored → List (Obj k)
all_of k [] = []
all_of k ((j, o) ∷ w) = collected k (as_kind k j o) (all_of k w)

-- A write of the status keeps the rest of the object that is there.
unfoldable pub with_status : (k : Kind) → Obj k → Obj k → Obj k
with_status synapse o base = record base { status = o.status }
with_status heisenbridge o base = record base { status = o.status }
with_status mautrix_signal o base = record base { status = o.status }
with_status k o base = o

-- The status goes to the object of the key of `o`, so nothing is there to write when `base` is
-- another one.
unfoldable pub status_written : (k : Kind) → Obj k → Obj k → List Stored → List Stored
status_written k o base w =
    if same_key (key_of k o) (key_of k base) then (k, with_status k o base) ∷ w else w

status_written-found :
    (k : Kind) (o base : Obj k) (w : List Stored)
    → key_of k base ≡ key_of k o
    → status_written k o base w ≡ (k, with_status k o base) ∷ w
unfolding status_written
status_written-found k o base w same =
    ap (λ n. if same_key (key_of k o) n then (k, with_status k o base) ∷ w else w) same
    ∙ rw (same_key_refl (key_of k o)) refl

find-cons : (k : Kind) (o : Obj k) (w : List Stored) → find k (key_of k o) ((k, o) ∷ w) ≡ ok o
unfolding find matching
find-cons k o w = rw (as_kind_self k o, matching) (rw (same_key_refl (key_of k o)))

key-matching :
    (k : Kind) (n : NamespacedName) (found : Option (Obj k)) (rest : Result (Obj k)) (o : Obj k)
    → (rest ≡ ok o → key_of k o ≡ n)
    → matching k n found rest ≡ ok o
    → key_of k o ≡ n
unfolding matching
key-matching k n none rest o ih h = ih h
key-matching k n (some p) rest o ih h = elim (Bool-cases (same_key (key_of k p) n)) [
  | inl same ↦ ap (key_of k) (sym (ok_inj p o (rw same at h))) ∙ same_key-eq (key_of k p) n same
  | inr other ↦ ih (rw other at h)
]

key-find :
    (k : Kind) (n : NamespacedName) (w : List Stored) (o : Obj k)
    → find k n w ≡ ok o
    → key_of k o ≡ n
unfolding find
key-find k n [] o h = cc
key-find k n ((j, p) ∷ w) o h = key-matching k n (as_kind k j p) (find k n w) o (key-find k n w o) h

-- Whether the kinds of postgres-operator are installed is a parameter.
abbrev pub memory_client : Bool → Client
memory_client installed = record {
  World = List Stored;
  get = λ k n w. (find k n w, w);
  list_all = λ k w. (if installed then ok (all_of k w) else err (external "no match for kind"), w);
  create = λ k o w. (none, (k, o) ∷ w);
  update = λ k o w. (none, (k, o) ∷ w);
  patch = λ k o base w. (none, (k, o) ∷ w);
  patch_status = λ k o base w. (none, status_written k o base w);
  is_not_found = λ e. elim e [ external m ↦ m == "NotFound" | new m ↦ false ];
}

abbrev pub result : Bool → ℕ → CtrlResult
result again delay = record { requeue = again; requeue_after = delay }

abbrev pub given {ℓ} : {A : Type ℓ} → Option A → Bool
given none = false
given (some a) = true

abbrev result_or_zero : Option CtrlResult → CtrlResult
result_or_zero none = result false 0
result_or_zero (some r) = r

abbrev pub subreconciler : Subreconciler
subreconciler = record {
  continue_reconciling = (none, none);
  do_not_requeue = (some (result false 0), none);
  requeue_now = (some (result true 0), none);
  requeue_with_error = λ e. (some (result true 0), some e);
  requeue_with_delay_and_error = λ d e. (some (result true d), e);
  should_halt_or_requeue = λ o. given o.0 || given o.1;
  evaluate = λ o. (result_or_zero o.0, o.1);
}

abbrev pub document : Fields
document = field "server_name" (text "example.com") (
    field "report_stats" (bool true)
      (field "app_service_config_files" (slice (cons (text "old.yaml") nil)) end))

abbrev pub yaml : Yaml
yaml = record {
  marshal = λ v. ok "written";
  unmarshal = λ t. if t == "broken" then err (external "yaml") else ok document;
}

abbrev pub memory : Bool → Env
memory installed = record {
  client = memory_client installed;
  sub = subreconciler;
  yaml = yaml;
  merge = λ k current desired. ok desired;
  set_controller_reference = λ k o m. ok (record m {
    owner_references = (record { kind = "Synapse"; name = (key_of k o).name }) ∷ m.owner_references;
  });
}

pub subreconciler-IsSubreconciler : IsSubreconciler subreconciler
subreconciler-IsSubreconciler = record {
  halt-continue_reconciling = refl;
  halt-do_not_requeue = refl;
  halt-requeue_now = refl;
  halt-requeue_with_error = λ e. refl;
  halt-requeue_with_delay = λ d e. refl;
}

pub memory-IsQuiet : (installed : Bool) → IsQuiet (memory_client installed)
unfolding with_status
memory-IsQuiet installed = record {
  key-get = λ k n o w h. key-find k n w o h;
  get_world = λ k n w. refl;
  list_world = λ k w. refl;
  get-create = λ k o w _. find-cons k o w;
  get-update = λ k o w _. find-cons k o w;
  get-patch = λ k o base w _ _. find-cons k o w;
  get-patch_status = λ o base w h _.
      let same = key-find synapse (key_of synapse o) w base h in
      rw (status_written-found synapse o base w same) (
        subst
          (λ (n : NamespacedName).
            find synapse n ((synapse, with_status synapse o base) ∷ w)
            ≡ ok (with_status synapse o base))
          same (find-cons synapse (with_status synapse o base) w));
}

pub memory-IsMerge : (installed : Bool) → IsMerge (memory installed)
memory-IsMerge installed = record {
  merge_key = λ k current desired merged h _. ap (key_of k) (sym (ok_inj desired merged h));
  merge_self = λ k desired. refl;
  merge_again = λ k current desired merged h. h;
}

pub memory-KeepsMeta : (installed : Bool) → KeepsMeta (memory installed)
memory-KeepsMeta installed = record {
  kept = λ k o m m' h.
      let p = ok_inj _ m' h in
      (
        ap (λ (x : ObjectMeta). x.name) (sym p),
        ap (λ (x : ObjectMeta). x.namespace) (sym p),
        ap (λ (x : ObjectMeta). x.labels) (sym p),
      );
}

no_string_slice : (k : String) (xs : List String) → get_field k document ≢ some (string_slice xs)
unfolding get_field
no_string_slice k xs h = ground arith

decoded : (t : String) (m : Fields) → yaml.unmarshal t ≡ ok m → ok document ≡ ok m
decoded t m h = ground arith

pub yaml-DecodesSlices : DecodesSlices yaml
yaml-DecodesSlices = record {
  decoded = λ t m k xs h e. no_string_slice k xs (rw (← ok_inj document m (decoded t m h)) at e);
}
