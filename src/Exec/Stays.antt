-- ===== src/Exec/Stays.antt =====
-- In a quiet cluster a stored object stays as it is while others are written.
use synapse_operator.Base.{◌≡◌, sym, subst, ◌∙◌}
use synapse_operator.Go.{Result}
use synapse_operator.Kube.{NamespacedName}
use synapse_operator.Env.{Kind, Obj, Client, IsQuiet, IsIsolated, IsKeyed, Apart, key_of}
use synapse_operator.Exec.Keeps.{Rights, Respects}

pub IsQuiet-IsKeyed : (c : Client) → IsQuiet c → IsKeyed c
IsQuiet-IsKeyed c Q = record { asked_for = Q.key-get }

-- All objects but one may be written.
abbrev pub all_but : Kind → NamespacedName → Rights
all_but k n = record { write = Apart k n; status = Apart k n }

abbrev pub Stored : (c : Client) (k : Kind) → NamespacedName → Result (Obj k) → c.World → Type 0
Stored c k n o w = (c.get k n w).0 ≡ o

pub Stored-Respects :
    (c : Client) (k : Kind) (n : NamespacedName) (o : Result (Obj k))
    → IsQuiet c
    → IsIsolated c
    → Respects c (all_but k n) (Stored c k n o)
Stored-Respects c k n o Q I = record {
  get_keeps = λ k' n' w h. subst (Stored c k n o) (sym (Q.get_world k' n' w)) h;
  list_keeps = λ k' w h. subst (Stored c k n o) (sym (Q.list_world k' w)) h;
  create_keeps = λ k' p w a h. I.create_apart k k' n p w a ∙ h;
  update_keeps = λ k' p w a h. I.update_apart k k' n p w a ∙ h;
  patch_keeps = λ k' p base w a h. I.patch_apart k k' n p base w a ∙ h;
  status_keeps = λ k' p base w a h. I.status_apart k k' n p base w a ∙ h;
}

-- What more rights respect, fewer do.
pub Respects-weaken :
    (c : Client) (R S : Rights) (P : c.World → Type 0)
    → ((k : Kind) (n : NamespacedName) → R.write k n → S.write k n)
    → ((k : Kind) (n : NamespacedName) → R.status k n → S.status k n)
    → Respects c S P
    → Respects c R P
Respects-weaken c R S P writes statuses H = record {
  get_keeps = H.get_keeps;
  list_keeps = H.list_keeps;
  create_keeps = λ k o w a. H.create_keeps k o w (writes k (key_of k o) a);
  update_keeps = λ k o w a. H.update_keeps k o w (writes k (key_of k o) a);
  patch_keeps = λ k o base w a. H.patch_keeps k o base w (writes k (key_of k o) a);
  status_keeps = λ k o base w a. H.status_keeps k o base w (statuses k (key_of k o) a);
}
