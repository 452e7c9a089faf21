-- ===== src/Tests/Isolated.antt =====
-- The cluster in memory meets the laws on objects apart.
use synapse_operator.Base.{
  ◌≡◌, ◌≢◌, refl, sym, ap, ◌∙◌, subst, Bool, Option, none, some, List, ◌∷◌, Bool-cases, inl, inr,
}
use synapse_operator.Go.{Result}
use synapse_operator.Kube.{NamespacedName}
use synapse_operator.Env.{
  Kind, Obj, synapse, heisenbridge, mautrix_signal, config_map, secret, service, deployment, claim,
  service_account, role_binding, postgres_cluster, key_of, Apart, IsKeyed, IsIsolated,
}
use synapse_operator.Exec.Stays.{IsQuiet-IsKeyed}
use synapse_operator.Tests.Memory.{
  Stored, as_kind, same_key, same_key-eq, find, matching, memory_client, memory-IsQuiet,
  with_status, status_written,
}

pub memory-IsKeyed : (installed : Bool) → IsKeyed (memory_client installed)
memory-IsKeyed installed = IsQuiet-IsKeyed (memory_client installed) (memory-IsQuiet installed)

some_inj : {A : Type 0} (a b : A) → some a ≡ some b → a ≡ b
some_inj a b h = cc

-- An object apart from a key, seen as one of the key's kind, does not have the key.
Apart-self :
    (k : Kind) (n : NamespacedName) (o p : Obj k)
    → Apart k n k (key_of k o)
    → some o ≡ some p
    → key_of k p ≢ n
Apart-self k n o p (inl kinds) e same = kinds refl
Apart-self k n o p (inr keys) e same = keys (sym same ∙ ap (key_of k) (sym (some_inj o p e)))

as_kind-Apart :
    (k j : Kind) (n : NamespacedName) (o : Obj j) (p : Obj k)
    → Apart k n j (key_of j o)
    → as_kind k j o ≡ some p
    → key_of k p ≢ n
as_kind-Apart synapse synapse n o p a e = Apart-self synapse n o p a e
as_kind-Apart heisenbridge heisenbridge n o p a e = Apart-self heisenbridge n o p a e
as_kind-Apart mautrix_signal mautrix_signal n o p a e = Apart-self mautrix_signal n o p a e
as_kind-Apart config_map config_map n o p a e = Apart-self config_map n o p a e
as_kind-Apart secret secret n o p a e = Apart-self secret n o p a e
as_kind-Apart service service n o p a e = Apart-self service n o p a e
as_kind-Apart deployment deployment n o p a e = Apart-self deployment n o p a e
as_kind-Apart claim claim n o p a e = Apart-self claim n o p a e
as_kind-Apart service_account service_account n o p a e = Apart-self service_account n o p a e
as_kind-Apart role_binding role_binding n o p a e = Apart-self role_binding n o p a e
as_kind-Apart postgres_cluster postgres_cluster n o p a e = Apart-self postgres_cluster n o p a e
as_kind-Apart _ _ n o p a e = cc

matching-skips :
    (k : Kind) (n : NamespacedName) (found : Option (Obj k)) (rest : Result (Obj k))
    → ((p : Obj k) → found ≡ some p → key_of k p ≢ n)
    → matching k n found rest ≡ rest
unfolding matching
matching-skips k n none rest h = refl
matching-skips k n (some p) rest h = elim (Bool-cases (same_key (key_of k p) n)) [
  | inl same ↦ absurd (h p refl (same_key-eq (key_of k p) n same))
  | inr other ↦ rw other
]

find-Apart :
    (k j : Kind) (n : NamespacedName) (o : Obj j) (w : List Stored)
    → Apart k n j (key_of j o)
    → find k n ((j, o) ∷ w) ≡ find k n w
unfolding find
find-Apart k j n o w a =
    matching-skips k n (as_kind k j o) (find k n w) (λ p e. as_kind-Apart k j n o p a e)

key_of-with_status :
    (k : Kind) (o base : Obj k)
    → key_of k o ≡ key_of k base
    → key_of k o ≡ key_of k (with_status k o base)
unfolding with_status
key_of-with_status synapse o base same = same
key_of-with_status heisenbridge o base same = same
key_of-with_status mautrix_signal o base same = same
key_of-with_status _ o base same = refl

find-status-Apart :
    (k j : Kind) (n : NamespacedName) (o base : Obj j) (w : List Stored)
    → Apart k n j (key_of j o)
    → find k n (status_written j o base w) ≡ find k n w
unfolding status_written
find-status-Apart k j n o base w a = elim (Bool-cases (same_key (key_of j o) (key_of j base))) [
  | inl same ↦
      let keys = key_of-with_status j o base (same_key-eq (key_of j o) (key_of j base) same) in
      rw same (
        find-Apart k j n (with_status j o base) w
          (subst (λ (m : NamespacedName). Apart k n j m) keys a))
  | inr other ↦ rw other refl
]

pub memory-IsIsolated : (installed : Bool) → IsIsolated (memory_client installed)
memory-IsIsolated installed = record {
  create_apart = λ k j n o w a. find-Apart k j n o w a;
  update_apart = λ k j n o w a. find-Apart k j n o w a;
  patch_apart = λ k j n o base w a. find-Apart k j n o w a;
  status_apart = λ k j n o base w a. find-status-Apart k j n o base w a;
}
