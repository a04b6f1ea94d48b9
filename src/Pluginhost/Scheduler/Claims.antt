-- ===== src/Pluginhost/Scheduler/Claims.antt =====
-- The claims of minutes in core/pluginhost/scheduler.go, and the starts that follow them.
use moduless.Base.{
  ℕ, ◌+◌, ◌≤◌, ◌<◌, ◌≡◌, ◌≢◌, refl, inl, inr, ap, ◌∙◌, Bool, true, false, ◌&&◌, Option, none, some,
  List, [], ◌∷◌, ◌++◌, ◌==◌, if◌then◌else◌, Bytes, ◌=?◌, =?→≡, Dict, lookup, insert, lookup-insert,
  lookup-insert_self, lookup-discard_kept, arith, Bool-cases,
}
use moduless.Pluginhost.Scheduler.{Run, Scheduler, is_old, is_same, claim}

-- How often the job was started for the minute.
abbrev pub starts : Bytes → ℕ → List Run → ℕ
starts id m [] = 0
starts id m (r ∷ rs) = (if r.job =? id && r.scheduled == m then 1 else 0) + starts id m rs

pub starts-append :
    (id : Bytes) (m : ℕ) (rs : List Run) (r : Run)
    → starts id m (rs ++ r ∷ [])
      ≡ starts id m rs + (if r.job =? id && r.scheduled == m then 1 else 0)
starts-append id m [] r = omega arith
starts-append id m (q ∷ rs) r = omega (arith, starts-append id m rs r)

-- At the minute `t` of the clock: the job was started at most once for the minute `m`, not before that
-- minute, and while it lasts the start is on record.
pub record IsOnce (id : Bytes) (m t : ℕ) (s : Scheduler) : Type 0 where
  pub at_most : starts id m s.runs ≤ 1
  pub not_yet : t < m → starts id m s.runs ≡ 0
  pub on_record : t ≡ m → starts id m s.runs ≢ 0 → lookup id s.last_run ≡ some m

is_same-some : (o : Option ℕ) (m : ℕ) → is_same o m ≡ true → o ≡ some m
is_same-some none m h = absurd (cc)
is_same-some (some n) m h = ground (arith, h)

not_same : (o : Option ℕ) (m : ℕ) → is_same o m ≡ false → o ≢ some m
not_same none m h e = absurd (cc)
not_same (some n) m h e = ground (arith, h, ap (λ o. is_same o m) e)

fresh : (m : ℕ) → is_old m m ≡ false
fresh m = ground arith

-- After a claim its minute is on record, and an entry of that minute is kept.
claim-records : (id : Bytes) (m : ℕ) (last : Dict ℕ) → lookup id (claim id m last).1 ≡ some m
unfolding claim
claim-records id m last = elim (Bool-cases (is_same (lookup id last) m)) [
  | inl e ↦ rw (e, claim) (is_same-some (lookup id last) m e)
  | inr e ↦
      rw (e, claim)
        (lookup-discard_kept (is_old m) id m (insert id m last) (lookup-insert_self id m last)
          (fresh m))
]

claim-keeps :
    (id other : Bytes) (m : ℕ) (last : Dict ℕ)
    → lookup id last ≡ some m
    → lookup id (claim other m last).1 ≡ some m
unfolding claim
claim-keeps id other m last h = elim (Bool-cases (is_same (lookup other last) m)) [
  | inl e ↦ rw (e, claim) h
  | inr e ↦
      rw (e, claim)
        (lookup-discard_kept (is_old m) id m (insert other m last)
          (ground (arith, h, lookup-insert other id m last)) (fresh m))
]

-- A claim of a minute that is on record is refused.
claim-refused :
    (id : Bytes) (m : ℕ) (last : Dict ℕ) → lookup id last ≡ some m → (claim id m last).0 ≡ false
unfolding claim
claim-refused id m last h = elim (Bool-cases (is_same (lookup id last) m)) [
  | inl e ↦ rw (e, claim) refl
  | inr e ↦ absurd (not_same (lookup id last) m e h)
]

flag_le : (b : Bool) → (if b then 1 else 0) ≤ 1
flag_le true = omega arith
flag_le false = omega arith

-- A step that claims for a job, and starts it at most once, and only if that is granted.
pub IsOnce-claim :
    (id : Bytes) (m : ℕ) (job : Bytes) (t : ℕ) (s s' : Scheduler)
    → IsOnce id m t s
    → s'.last_run ≡ (claim job t s.last_run).1
    → starts id m s'.runs
      ≤ starts id m s.runs + (if (claim job t s.last_run).0 && (job =? id && t == m) then 1 else 0)
    → IsOnce id m t s'
IsOnce-claim id m job t s s' h recorded count = elim (Bool-cases (job =? id && t == m)) [
  | inr e ↦
      let same : starts id m s'.runs ≤ starts id m s.runs = ground (arith, count, e) in
      record {
        at_most = omega (arith, same, h.at_most);
        not_yet = λ l. omega (arith, same, h.not_yet l);
        on_record = λ (q : t ≡ m) n. rw recorded (
            ap (λ u. lookup id (claim job u s.last_run).1) q
            ∙ claim-keeps id job m s.last_run (h.on_record q (λ z. n (omega (arith, same, z)))));
      }
  | inl e ↦
      let now : t ≡ m = ground (arith, e) in
      let it : job ≡ id = =?→≡ job id (ground (arith, e)) in
      let held : lookup id s'.last_run ≡ some m = rw recorded (
        ap (λ u. lookup id (claim job u s.last_run).1) now
        ∙ ap (λ j. lookup id (claim j m s.last_run).1) it
        ∙ claim-records id m s.last_run) in
      record {
        at_most = elim (Bool-cases (starts id m s.runs == 0)) [
          | inl z ↦
              let none_yet : starts id m s.runs ≡ 0 = ground (arith, z) in
              omega (
                arith,
                count,
                none_yet,
                flag_le ((claim job t s.last_run).0 && (job =? id && t == m)),
              )
          | inr z ↦
              let some_yet : starts id m s.runs ≢ 0 = λ q. ground (arith, z, q) in
              let refused : (claim job t s.last_run).0 ≡ false =
                ap (λ u. (claim job u s.last_run).0) now
                ∙ ap (λ j. (claim j m s.last_run).0) it
                ∙ claim-refused id m s.last_run (h.on_record now some_yet) in
              ground (arith, count, refused, h.at_most)
        ];
        not_yet = λ l. absurd (omega (arith, l, now));
        on_record = λ q n. held;
      }
]
