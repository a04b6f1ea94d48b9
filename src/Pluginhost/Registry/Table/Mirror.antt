-- ===== src/Pluginhost/Registry/Table/Mirror.antt =====
-- What a snapshot of core/pluginhost/registry.go routes to, against the calls that led to it.
use mathlib.Core.Option.{some-injective}
use moduless.Base.{
  ℕ, ◌≡◌, ◌≢◌, inl, inr, refl, sym, ap, ◌∙◌, none, some, List, [], ◌∷◌, arith, Bytes, ◌=?◌, =?_iff,
  Dict, lookup, insert, erase, lookup-insert, lookup-erase, HasUniqueKeys, insert-HasUniqueKeys,
  erase-HasUniqueKeys, Option-cases, if◌then◌else◌,
}
use moduless.Pluginhost.Registry.{ReplicaSet}
use moduless.Pluginhost.Registry.Table.{
  Snapshot, Registration, Registry, set_at, new_registry, replicas, rebuild_sets, register,
  install_plugin, rebuild,
}
use moduless.Pluginhost.Registry.Table.Sets.{
  IsPointing, IsRebuilt, rebuild_sets-IsRebuilt, instances_of,
}

-- The snapshot routes each key to the instances that are registered for it.
pub record IsValid (r : Registry) : Type 0 where
  pub unique : HasUniqueKeys r.regs
  pub pointing : IsPointing r.current r.sets
  pub listed : (key : Bytes) → lookup key r.regs ≡ none → lookup key r.current.plugins ≡ none
  pub mirrors : (key : Bytes) → replicas r.sets r.current key ≡ instances_of (lookup key r.regs)

replicas-some :
    (sets : List ReplicaSet) (snap : Snapshot) (key : Bytes) (p : ℕ)
    → lookup key snap.plugins ≡ some p
    → replicas sets snap key ≡ (set_at sets p).instances
unfolding replicas
replicas-some sets snap key p e = rw (e, replicas)

replicas-none :
    (sets : List ReplicaSet) (snap : Snapshot) (key : Bytes)
    → lookup key snap.plugins ≡ none
    → replicas sets snap key ≡ []
unfolding replicas
replicas-none sets snap key e = rw (e, replicas)

pub register-HasUniqueKeys :
    (reg : Registration) (regs : Dict Registration)
    → HasUniqueKeys regs
    → HasUniqueKeys (register reg regs)
unfolding register
register-HasUniqueKeys reg regs u = go reg.instances
  where
    go :
        (is : List ℕ)
        → HasUniqueKeys (elim is [ [] ↦ erase reg.key regs | i ∷ js ↦ insert reg.key reg regs ])
    go [] = erase-HasUniqueKeys reg.key regs u
    go (i ∷ is) = insert-HasUniqueKeys reg.key reg regs u

-- A rebuild from whatever the registrations are now.
rebuilt :
    (r : Registry)
    → HasUniqueKeys r.regs
    → IsPointing r.current r.sets
    → IsRebuilt r.current r.regs [] r.sets (rebuild_sets r.current r.regs [] r.sets)
rebuilt r u v = rebuild_sets-IsRebuilt r.current r.regs [] r.sets u v

rebuild-IsValid :
    (r : Registry) → HasUniqueKeys r.regs → IsPointing r.current r.sets → IsValid (rebuild r)
unfolding rebuild lookup
rebuild-IsValid r u v =
    let b = rebuilt r u v in
    record {
      unique = u;
      pointing = λ key p e. elim (Option-cases (lookup key r.regs)) [
        | inl n ↦ absurd (cc (b.absent key n, e))
        | inr (reg, m) ↦
            let (q, f, h) = b.present key reg m in
            ground (arith, h.there, some-injective _ _ (sym e ∙ f))
      ];
      listed = b.absent;
      mirrors = λ key. elim (Option-cases (lookup key r.regs)) [
        | inl n ↦ replicas-none _ _ key (b.absent key n) ∙ ap instances_of (sym n)
        | inr (reg, m) ↦
            let (q, f, h) = b.present key reg m in
            replicas-some _ _ key q f ∙ h.holds ∙ ap instances_of (sym m)
      ];
    }

pub install_plugin-IsValid :
    (reg : Registration) (r : Registry) → IsValid r → IsValid (install_plugin reg r).1
unfolding install_plugin
install_plugin-IsValid reg r v =
    rebuild-IsValid (record r { regs = register reg r.regs })
      (register-HasUniqueKeys reg r.regs v.unique) v.pointing

pub new_registry-IsValid : IsValid new_registry
unfolding new_registry replicas lookup
new_registry-IsValid = record {
  unique = tt;
  pointing = λ key p e. absurd (cc);
  listed = λ key e. refl;
  mirrors = λ key. refl;
}

register-empty :
    (reg : Registration) (regs : Dict Registration)
    → reg.instances ≡ []
    → register reg regs ≡ erase reg.key regs
unfolding register
register-empty reg regs e = rw (e, register)

register-filled :
    (reg : Registration) (regs : Dict Registration) (i : ℕ) (is : List ℕ)
    → reg.instances ≡ i ∷ is
    → register reg regs ≡ insert reg.key reg regs
unfolding register
register-filled reg regs i is e = ground (arith, e)

register-instances :
    (reg : Registration) (regs : Dict Registration) (key : Bytes)
    → instances_of (lookup key (register reg regs))
      ≡ (if reg.key =? key then reg.instances else instances_of (lookup key regs))
register-instances reg regs key = go reg.instances refl
  where
    go :
        (is : List ℕ)
        → reg.instances ≡ is
        → instances_of (lookup key (register reg regs))
          ≡ (if reg.key =? key then reg.instances else instances_of (lookup key regs))
    go [] e = rw (register-empty reg regs e) (ground (arith, e, lookup-erase reg.key key regs))
    go (i ∷ is) e =
        rw (register-filled reg regs i is e) (ground (arith, lookup-insert reg.key key reg regs))

install_plugin-regs :
    (reg : Registration) (r : Registry) (key : Bytes)
    → instances_of (lookup key (install_plugin reg r).1.regs)
      ≡ instances_of (lookup key (register reg r.regs))
unfolding install_plugin rebuild
install_plugin-regs reg r key = refl

-- A call of `InstallPlugin` gives its key the new instances, none if there are none, and leaves every
-- other key's as they were.
pub replicas-install_plugin :
    (reg : Registration) (r : Registry) (key : Bytes)
    → IsValid r
    → let r' = (install_plugin reg r).1 in
      replicas r'.sets r'.current key
      ≡ (if reg.key =? key then reg.instances else replicas r.sets r.current key)
replicas-install_plugin reg r key v =
    (install_plugin-IsValid reg r v).mirrors key
    ∙ install_plugin-regs reg r key
    ∙ register-instances reg r.regs key
    ∙ ap (λ is. if reg.key =? key then reg.instances else is) (sym (v.mirrors key))

-- The registry, driven by calls of `InstallPlugin`.
unfoldable pub install_all : List Registration → Registry → Registry
unfolding install_plugin
install_all [] r = r
install_all (reg ∷ regs) r = install_all regs (install_plugin reg r).1

-- The same calls on a function from keys to instances.
abbrev pub assign_all : List Registration → (Bytes → List ℕ) → Bytes → List ℕ
assign_all [] f = f
assign_all (reg ∷ regs) f = assign_all regs (λ key. if reg.key =? key then reg.instances else f key)

install_all_from :
    (regs : List Registration) (r : Registry) (f : Bytes → List ℕ)
    → IsValid r
    → ((key : Bytes) → replicas r.sets r.current key ≡ f key)
    → (key : Bytes)
    → replicas (install_all regs r).sets (install_all regs r).current key ≡ assign_all regs f key
unfolding install_all
install_all_from [] r f v h key = h key
install_all_from (reg ∷ regs) r f v h key =
    install_all_from regs (install_plugin reg r).1 _ (install_plugin-IsValid reg r v)
      (λ k.
        replicas-install_plugin reg r k v
        ∙ ap (λ is. if reg.key =? k then reg.instances else is) (h k))
      key

-- The registry refines a table from keys to instances: after any calls of `InstallPlugin` on a new
-- registry, the snapshot's replicas of a key are the instances of the last call for that key, and
-- none where there was no call.
pub install_all-new_registry :
    (regs : List Registration) (key : Bytes)
    → let r = install_all regs new_registry in
      replicas r.sets r.current key ≡ assign_all regs (λ k. []) key
unfolding new_registry lookup
install_all-new_registry regs key =
    install_all_from regs new_registry (λ k. []) new_registry-IsValid new_registry-IsValid.mirrors
      key

register_other :
    (reg : Registration) (regs : Dict Registration) (key : Bytes)
    → reg.key ≢ key
    → lookup key (register reg regs) ≡ lookup key regs
register_other reg regs key n = go reg.instances refl
  where
    go : (is : List ℕ) → reg.instances ≡ is → lookup key (register reg regs) ≡ lookup key regs
    go [] e =
        rw (register-empty reg regs e)
          (ground (arith, lookup-erase reg.key key regs, =?_iff reg.key key))
    go (i ∷ is) e =
        rw (register-filled reg regs i is e)
          (ground (arith, lookup-insert reg.key key reg regs, =?_iff reg.key key))

-- A call for one plugin leaves another one's replica set, with the position of its round robin, as it
-- is: where a valid registry routes a key other than the call's to a set, it routes it to the same
-- set behind the call.
pub install_plugin-carries :
    (reg : Registration) (r : Registry) (key : Bytes) (p : ℕ)
    → IsValid r
    → reg.key ≢ key
    → lookup key r.current.plugins ≡ some p
    → let r' = (install_plugin reg r).1 in
      (lookup key r'.current.plugins ≡ some p) × (set_at r'.sets p ≡ set_at r.sets p)
unfolding install_plugin rebuild
install_plugin-carries reg r key p v n e =
    let regs = register reg r.regs in
    let b =
      rebuild_sets-IsRebuilt r.current regs [] r.sets (register-HasUniqueKeys reg r.regs v.unique)
        v.pointing in
    elim (Option-cases (lookup key r.regs)) [
      | inl m ↦ absurd (cc (v.listed key m, e))
      | inr (own, m) ↦
          let (q, f, h) = b.present key own (register_other reg r.regs key n ∙ m) in
          let same =
            h.carried p e
              (sym (replicas-some r.sets r.current key p e) ∙ v.mirrors key ∙ ap instances_of m) in
          (f ∙ ap some same, (b.more p (v.pointing key p e)).1)
    ]
