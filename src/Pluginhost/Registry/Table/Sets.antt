-- ===== src/Pluginhost/Registry/Table/Sets.antt =====
-- The replica sets that `rebuildLocked` of core/pluginhost/registry.go carries over or makes.
use mathlib.Core.Option.{some-injective}
use moduless.Base.{
  ℕ, zero, suc, ◌<◌, ◌≡◌, ◌≢◌, inl, inr, refl, sym, ap, ◌∙◌, true, false, Option, none, some, List,
  [], ◌∷◌, ◌++◌, arith, length, length-append, Bytes, ◌=?◌, Dict, lookup, insert, lookup-insert,
  lookup-insert_self, =?→≡, HasUniqueKeys, Bool-cases, Option-cases, if◌then◌else◌,
}
use moduless.Pluginhost.Registry.{ReplicaSet, new_replica_set}
use moduless.Pluginhost.Registry.Table.{
  Snapshot, Registration, set_at, make_set, same_instances, set_for, rebuild_sets,
}

same_instances→≡ : (is js : List ℕ) → same_instances is js ≡ true → is ≡ js
unfolding same_instances
same_instances→≡ [] [] h = refl
same_instances→≡ [] (j ∷ js) h = absurd (cc)
same_instances→≡ (i ∷ is) [] h = absurd (cc)
same_instances→≡ (i ∷ is) (j ∷ js) h = ground (arith, same_instances→≡ is js)

same_instances_refl : (is : List ℕ) → same_instances is is ≡ true
unfolding same_instances
same_instances_refl [] = refl
same_instances_refl (i ∷ is) = ground (arith, same_instances_refl is)

-- The later list of sets goes on where the earlier one ends.
abbrev pub Extends : List ReplicaSet → List ReplicaSet → Type 0
Extends sets sets' =
    (p : ℕ) → p < length sets → (p < length sets') × (set_at sets' p ≡ set_at sets p)

Extends-refl : (sets : List ReplicaSet) → Extends sets sets
Extends-refl sets p h = (h, refl)

Extends-trans : (a b c : List ReplicaSet) → Extends a b → Extends b c → Extends a c
Extends-trans a b c h k p l = let (l', e) = h p l in let (l'', e') = k p l' in (l'', e' ∙ e)

set_at-append :
    (sets : List ReplicaSet) (rs : ReplicaSet) (p : ℕ)
    → p < length sets
    → set_at (sets ++ rs ∷ []) p ≡ set_at sets p
set_at-append [] rs p h = absurd (omega (arith, h))
set_at-append (s ∷ sets) rs zero h = refl
set_at-append (s ∷ sets) rs (suc p) h = set_at-append sets rs p (omega (arith, h))

set_at-last :
    (sets : List ReplicaSet) (rs : ReplicaSet) → set_at (sets ++ rs ∷ []) (length sets) ≡ rs
set_at-last [] rs = refl
set_at-last (s ∷ sets) rs = set_at-last sets rs

Extends-append : (sets : List ReplicaSet) (rs : ReplicaSet) → Extends sets (sets ++ rs ∷ [])
Extends-append sets rs p h =
    (omega (arith, h, length-append sets (rs ∷ [])), set_at-append sets rs p h)

-- A pointer into `sets`, to a set of the given instances, and the old pointer if that had them.
pub record IsFor (old : Snapshot) (key : Bytes) (instances : List ℕ) (before sets : List ReplicaSet)
    (p : ℕ) : Type 0 where
  pub there : p < length sets
  pub holds : (set_at sets p).instances ≡ instances
  pub carried :
      (q : ℕ) → lookup key old.plugins ≡ some q → (set_at before q).instances ≡ instances → p ≡ q

-- The old snapshot's pointers are pointers into `sets`.
abbrev pub IsPointing : Snapshot → List ReplicaSet → Type 0
IsPointing snap sets = (key : Bytes) (p : ℕ) → lookup key snap.plugins ≡ some p → p < length sets

pub record IsSetFor (old : Snapshot) (key : Bytes) (reg : Registration) (sets : List ReplicaSet)
    (r : ℕ × List ReplicaSet) : Type 0 where
  pub more : Extends sets r.1
  found : IsFor old key reg.instances sets r.1 r.0

make_set-IsSetFor :
    (old : Snapshot) (key : Bytes) (reg : Registration) (sets : List ReplicaSet)
    → ((q : ℕ) → lookup key old.plugins ≡ some q → (set_at sets q).instances ≢ reg.instances)
    → IsSetFor old key reg sets (make_set sets reg.instances)
unfolding new_replica_set
make_set-IsSetFor old key reg sets h = record {
  more = Extends-append sets (new_replica_set reg.instances);
  found = record {
    there = omega (arith, length-append sets (new_replica_set reg.instances ∷ []));
    holds = ap (λ (s : ReplicaSet). s.instances) (set_at-last sets (new_replica_set reg.instances));
    carried = λ q e i. absurd (h q e i);
  };
}

set_for-none :
    (old : Snapshot) (key : Bytes) (reg : Registration) (sets : List ReplicaSet)
    → lookup key old.plugins ≡ none
    → set_for old key reg sets ≡ make_set sets reg.instances
unfolding set_for
set_for-none old key reg sets e = rw (e, set_for)

set_for-some :
    (old : Snapshot) (key : Bytes) (reg : Registration) (sets : List ReplicaSet) (p : ℕ)
    → lookup key old.plugins ≡ some p
    → set_for old key reg sets ≡ (
        if same_instances (set_at sets p).instances reg.instances
        then (p, sets)
        else make_set sets reg.instances)
unfolding set_for
set_for-some old key reg sets p e = rw (e, set_for)

set_for-IsSetFor :
    (old : Snapshot) (key : Bytes) (reg : Registration) (sets : List ReplicaSet)
    → IsPointing old sets
    → IsSetFor old key reg sets (set_for old key reg sets)
set_for-IsSetFor old key reg sets v = elim (Option-cases (lookup key old.plugins)) [
  | inl e ↦
      rw (set_for-none old key reg sets e) (make_set-IsSetFor old key reg sets (λ q f. absurd (cc)))
  | inr (p, e) ↦
      rw (set_for-some old key reg sets p e)
        (elim (Bool-cases (same_instances (set_at sets p).instances reg.instances)) [
          | inl s ↦ rw s (record {
            more = Extends-refl sets;
            found = record {
              there = v key p e;
              holds = same_instances→≡ _ _ s;
              carried = λ q f i. some-injective _ _ (sym e ∙ f);
            };
          })
          | inr s ↦ rw s (make_set-IsSetFor old key reg sets (λ q f i. differ p q s (sym e ∙ f) i))
        ])
]
  where
    differ :
        (p q : ℕ)
        → same_instances (set_at sets p).instances reg.instances ≡ false
        → ◌≡◌ {A = Option ℕ} (some p) (some q)
        → (set_at sets q).instances ≢ reg.instances
    differ p q s pq i =
        let same : (set_at sets p).instances ≡ reg.instances =
          ap (λ m. (set_at sets m).instances) (some-injective _ _ pq) ∙ i in
        cc (s, ap (λ is. same_instances is reg.instances) same, same_instances_refl reg.instances)

-- What `rebuild_sets` makes of a list of registrations, on top of what it has.
pub record IsRebuilt (old : Snapshot) (regs : Dict Registration) (plugins : Dict ℕ)
    (sets : List ReplicaSet) (r : Dict ℕ × List ReplicaSet) : Type 0 where
  pub more : Extends sets r.1
  pub absent : (key : Bytes) → lookup key regs ≡ none → lookup key r.0 ≡ lookup key plugins
  pub present :
      (key : Bytes) (reg : Registration)
      → lookup key regs ≡ some reg
      → (p : ℕ) × (lookup key r.0 ≡ some p) × IsFor old key reg.instances sets r.1 p

IsPointing-Extends :
    (snap : Snapshot) (a b : List ReplicaSet) → Extends a b → IsPointing snap a → IsPointing snap b
IsPointing-Extends snap a b h v key p e = (h p (v key p e)).0

-- A set that was found in a shorter list is found in a longer one, and the other way round for the
-- list that the old pointers are read in.
IsFor-Extends :
    (old : Snapshot) (key : Bytes) (instances : List ℕ) (a b c d : List ReplicaSet) (p : ℕ)
    → IsPointing old a
    → Extends a b
    → Extends c d
    → IsFor old key instances b c p
    → IsFor old key instances a d p
IsFor-Extends old key instances a b c d p v h k f = record {
  there = (k p f.there).0;
  holds = ap (λ (s : ReplicaSet). s.instances) (k p f.there).1 ∙ f.holds;
  carried = λ q e i. f.carried q e (ap (λ (s : ReplicaSet). s.instances) (h q (v key q e)).1 ∙ i);
}

found_reg :
    (k key : Bytes) (reg reg' : Registration) (regs : Dict Registration)
    → (k =? key) ≡ true
    → lookup key ((k, reg) ∷ regs) ≡ some reg'
    → reg' ≡ reg
unfolding lookup
found_reg k key reg reg' regs q e = ground (arith, q, e)

pub rebuild_sets-IsRebuilt :
    (old : Snapshot) (regs : Dict Registration) (plugins : Dict ℕ) (sets : List ReplicaSet)
    → HasUniqueKeys regs
    → IsPointing old sets
    → IsRebuilt old regs plugins sets (rebuild_sets old regs plugins sets)
unfolding rebuild_sets lookup
rebuild_sets-IsRebuilt old [] plugins sets u v = record {
  more = Extends-refl sets;
  absent = λ key e. refl;
  present = λ key reg e. absurd (cc);
}
rebuild_sets-IsRebuilt old ((k, reg) ∷ regs) plugins sets u v =
    let first = set_for-IsSetFor old k reg sets v in
    let one = set_for old k reg sets in
    let v' = IsPointing-Extends old sets one.1 first.more v in
    let rest = rebuild_sets-IsRebuilt old regs (insert k one.0 plugins) one.1 u.1 v' in
    let own : (p : ℕ) × (lookup k (rebuild_sets old regs (insert k one.0 plugins) one.1).0 ≡ some p)
        × IsFor old k reg.instances sets (rebuild_sets old regs (insert k one.0 plugins) one.1).1
            p =
      (
        one.0,
        rest.absent k u.0 ∙ lookup-insert_self k one.0 plugins,
        IsFor-Extends old k reg.instances sets sets one.1 _ one.0 v (Extends-refl sets) rest.more
            first.found,
      ) in
    record {
      more = Extends-trans _ _ _ first.more rest.more;
      absent = λ key e. elim (Bool-cases (k =? key)) [
        | inl q ↦ absurd (ground (arith, q, e))
        | inr q ↦
            rest.absent key (ground (arith, q, e)) ∙ lookup-insert k key one.0 plugins ∙ rw q refl
      ];
      present = λ key reg' e. elim (Bool-cases (k =? key)) [
        | inl q ↦ rw (sym (=?→≡ k key q)) (rw (found_reg k key reg reg' regs q e) own)
        | inr q ↦
            let (p, e', f) = rest.present key reg' (ground (arith, q, e)) in
            (
              p,
              e',
              IsFor-Extends old key reg'.instances sets one.1 _ _ p v first.more (Extends-refl _) f,
            )
      ];
    }

-- The instances of a registration, if there is one.
abbrev pub instances_of : Option Registration → List ℕ
instances_of none = []
instances_of (some reg) = reg.instances
