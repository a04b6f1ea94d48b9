-- ===== src/Pluginhost/Scheduler/Once.antt =====
-- How often `Tick` of core/pluginhost/scheduler.go starts a job.
use moduless.Base.{
  ℕ, ◌+◌, ◌≤◌, ◌≡◌, ◌⊎◌, refl, inl, inr, Bool, ◌&&◌, List, [], ◌∷◌, ◌==◌, if◌then◌else◌, ltb, Bytes,
  ◌=?◌, Dict, lookup, arith, Bool-cases, Option-cases,
}
use moduless.Manifest.Plugin.{JobDecl}
use moduless.Manifest.Cron.{CronError, Parsed, ok, err, parse_schedule, schedule_matches}
use moduless.Pluginhost.Instance.{Instance}
use moduless.Pluginhost.Registry.{ReplicaSet}
use moduless.Pluginhost.Registry.Table.{Snapshot, pick_of}
use moduless.Pluginhost.Package.{Package}
use moduless.Pluginhost.Manager.All.{snapshot_keys}
use moduless.Pluginhost.Scheduler.{
  Moment, Scheduler, job_id, claim, run, attempt, tick_jobs, tick_keys, tick,
}
use moduless.Pluginhost.Scheduler.Claims.{starts, starts-append, IsOnce, IsOnce-claim}

Parsed-cases {ℓ} :
    {A : Type ℓ} (r : Parsed A) → ((e : CronError) × (r ≡ err e)) ⊎ ((a : A) × (r ≡ ok a))
Parsed-cases (err e) = inl (e, refl)
Parsed-cases (ok a) = inr (a, refl)

module _ (heap : ℕ → Instance) (begins : ℕ → Bool) (snap : Snapshot) where
  -- `run` starts the job once or not at all, and leaves the record alone.
  run_lem :
      (key name : Bytes) (t : ℕ) (s : Scheduler) (id : Bytes) (m : ℕ)
      → let s' = run heap begins snap key name t s in
        (s'.last_run ≡ s.last_run)
        × (starts id m s'.runs
            ≤ starts id m s.runs + (if job_id key name =? id && t == m then 1 else 0))
  unfolding run
  run_lem key name t s id m = elim (Option-cases (pick_of heap s.sets snap key).0) [
    | inl e ↦ rw (e, run) (refl, omega arith)
    | inr (i, e) ↦ elim (Bool-cases (begins i)) [
      | inr b ↦ rw (e, run, b) (refl, omega arith)
      | inl b ↦
          rw (e, run, b)
            (
              refl,
              omega (
                arith,
                starts-append id m s.runs
                    (record { job = job_id key name; scheduled = t; instance_at = i }),
              ),
            )
    ]
  ]

  attempt_lem :
      (key name : Bytes) (t : ℕ) (s : Scheduler) (id : Bytes) (m : ℕ)
      → let s' = attempt heap begins snap key name t s in
        let (granted, last_run) = claim (job_id key name) t s.last_run in
        (s'.last_run ≡ last_run)
        × (starts id m s'.runs
            ≤ starts id m s.runs + (if granted && (job_id key name =? id && t == m) then 1 else 0))
  unfolding attempt
  attempt_lem key name t s id m = elim (Bool-cases (claim (job_id key name) t s.last_run).0) [
    | inr e ↦ rw (e, attempt) (refl, omega arith)
    | inl e ↦
        rw (e, attempt)
          (run_lem key name t (record s { last_run = (claim (job_id key name) t s.last_run).1 }) id
            m)
  ]

  attempt-IsOnce :
      (id : Bytes) (m : ℕ) (key name : Bytes) (t : ℕ) (s : Scheduler)
      → IsOnce id m t s
      → IsOnce id m t (attempt heap begins snap key name t s)
  attempt-IsOnce id m key name t s h =
      let (recorded, count) = attempt_lem key name t s id m in
      IsOnce-claim id m (job_id key name) t s (attempt heap begins snap key name t s) h recorded
        count

  tick_jobs-IsOnce :
      (id : Bytes) (m : ℕ) (key : Bytes) (now : Moment) (js : List JobDecl) (s : Scheduler)
      → IsOnce id m now.minute s
      → IsOnce id m now.minute (tick_jobs heap begins snap key now js s)
  unfolding tick_jobs
  tick_jobs-IsOnce id m key now [] s h = h
  tick_jobs-IsOnce id m key now (j ∷ js) s h = elim (Parsed-cases (parse_schedule j.cron)) [
    | inl (x, e) ↦ rw (e, tick_jobs) (tick_jobs-IsOnce id m key now js s h)
    | inr (schedule, e) ↦ elim (Bool-cases (schedule_matches schedule now.parts)) [
      | inr f ↦ rw (e, tick_jobs, f) (tick_jobs-IsOnce id m key now js s h)
      | inl f ↦
          rw (e, tick_jobs, f)
            (tick_jobs-IsOnce id m key now js (attempt heap begins snap key j.name now.minute s)
              (attempt-IsOnce id m key j.name now.minute s h))
    ]
  ]

  tick_keys-IsOnce :
      (id : Bytes) (m : ℕ) (packages : Dict Package) (now : Moment) (keys : List Bytes)
      (s : Scheduler)
      → IsOnce id m now.minute s
      → IsOnce id m now.minute (tick_keys heap begins snap packages now keys s)
  unfolding tick_keys
  tick_keys-IsOnce id m packages now [] s h = h
  tick_keys-IsOnce id m packages now (key ∷ keys) s h = elim (Option-cases (lookup key packages)) [
    | inl e ↦ rw (e, tick_keys) (tick_keys-IsOnce id m packages now keys s h)
    | inr (p, e) ↦
        rw (e, tick_keys)
          (tick_keys-IsOnce id m packages now keys
            (tick_jobs heap begins snap key now p.manifest.jobs s)
            (tick_jobs-IsOnce id m key now p.manifest.jobs s h))
  ]

IsOnce-later :
    (id : Bytes) (m t t' : ℕ) (s : Scheduler) → IsOnce id m t s → t ≤ t' → IsOnce id m t' s
IsOnce-later id m t t' s h l = record {
  at_most = h.at_most;
  not_yet = λ k. h.not_yet (omega (arith, k, l));
  on_record = λ q n. elim (Bool-cases (ltb t m)) [
    | inl k ↦ absurd (n (h.not_yet (ground (arith, k))))
    | inr k ↦ h.on_record (ground (arith, k, q, l)) n
  ];
}

-- What a tick finds: the instances, what BeginRequest answers, the snapshot, the packages, the clock.
pub record Scene : Type 0 where
  pub heap : ℕ → Instance
  pub begins : ℕ → Bool
  pub snap : Snapshot
  pub packages : Dict Package
  pub now : Moment

abbrev pub tick_all : List Scene → Scheduler → Scheduler
tick_all [] s = s
tick_all (c ∷ cs) s = tick_all cs (tick c.heap c.begins c.snap c.packages c.now s)

-- The clock does not go back from one tick to the next.
abbrev pub IsForward : ℕ → List Scene → Type 0
IsForward t [] = Unit
IsForward t (c ∷ cs) = (t ≤ c.now.minute) × IsForward c.now.minute cs

tick-IsOnce :
    (id : Bytes) (m : ℕ) (c : Scene) (s : Scheduler)
    → IsOnce id m c.now.minute s
    → IsOnce id m c.now.minute (tick c.heap c.begins c.snap c.packages c.now s)
unfolding tick
tick-IsOnce id m c s h =
    tick_keys-IsOnce c.heap c.begins c.snap id m c.packages c.now (snapshot_keys c.snap.plugins) s h

tick_all-IsOnce :
    (id : Bytes) (m t : ℕ) (cs : List Scene) (s : Scheduler)
    → IsForward t cs
    → IsOnce id m t s
    → starts id m (tick_all cs s).runs ≤ 1
tick_all-IsOnce id m t [] s f h = h.at_most
tick_all-IsOnce id m t (c ∷ cs) s f h =
    tick_all-IsOnce id m c.now.minute cs (tick c.heap c.begins c.snap c.packages c.now s) f.1
      (tick-IsOnce id m c s (IsOnce-later id m t c.now.minute s h f.0))

-- Over any ticks of a new scheduler, if the clock does not go back: a job is started at most once for
-- a minute, however many ticks fall into it and whatever the plugins, their processes and their
-- schedules are in each of them.
pub tick_all-once :
    (cs : List Scene) (sets : List ReplicaSet) (id : Bytes) (m : ℕ)
    → IsForward 0 cs
    → starts id m (tick_all cs (record { last_run = []; sets = sets; runs = [] })).runs ≤ 1
tick_all-once cs sets id m f =
    tick_all-IsOnce id m 0 cs _ f
      (record { at_most = omega arith; not_yet = λ l. refl; on_record = λ q n. absurd (n refl) })
