-- ===== src/Pluginhost/Scheduler.antt =====
-- core/pluginhost/scheduler.go: a tick, and the claim of a minute. A moment is its minute, counted from
-- the epoch, with the parts that a schedule reads. What BeginRequest answers is an argument; the jobs
-- that are started are listed in order. The ticker, Stop and the call of the plugin are left out.
use moduless.Base.{
  ℕ, ◌+◌, Bool, true, false, ◌&&◌, Option, none, some, List, [], ◌∷◌, ◌++◌, ◌==◌, if◌then◌else◌,
  ltb, negate, Bytes, Dict, lookup, insert, discard,
}
use moduless.Manifest.Plugin.{JobDecl}
use moduless.Manifest.Cron.{Parsed, ok, err, Time, parse_schedule, schedule_matches}
use moduless.Pluginhost.Instance.{Instance}
use moduless.Pluginhost.Registry.{ReplicaSet}
use moduless.Pluginhost.Registry.Table.{Snapshot, pick_of}
use moduless.Pluginhost.Package.{Package}
use moduless.Pluginhost.Manager.All.{snapshot_keys}
pub mod Claims
pub mod Once
mod Tests

pub record Moment : Type 0 where
  pub minute : ℕ
  pub parts : Time

-- A job that was started: its id, the minute, and the instance.
pub record Run : Type 0 where
  pub job : Bytes
  pub scheduled : ℕ
  pub instance_at : ℕ

-- `lastRun`, the counters of the replica sets, and the jobs started so far.
pub record Scheduler : Type 0 where
  pub last_run : Dict ℕ
  pub sets : List ReplicaSet
  pub runs : List Run

-- `minute.Sub(v) > time.Hour`.
abbrev pub is_old : ℕ → ℕ → Bool
is_old minute v = ltb (v + 60) minute

abbrev pub job_id : Bytes → Bytes → Bytes
job_id key name = key ++ 0 ∷ name

abbrev pub is_same : Option ℕ → ℕ → Bool
is_same none minute = false
is_same (some last) minute = last == minute

-- `claim`, with the id of the job.
unfoldable pub claim : Bytes → ℕ → Dict ℕ → Bool × Dict ℕ
unfolding lookup insert discard
claim id minute last_run =
    if is_same (lookup id last_run) minute
    then (false, last_run)
    else (true, discard (is_old minute) (insert id minute last_run))

module _ (heap : ℕ → Instance) (begins : ℕ → Bool) (snap : Snapshot) where
  -- `run`.
  unfoldable pub run : Bytes → Bytes → ℕ → Scheduler → Scheduler
  unfolding pick_of
  run key name minute s =
      let (picked, sets) = pick_of heap s.sets snap key in
      elim picked [
        | none ↦ record s { sets = sets }
        | some i ↦
            if begins i
            then record s {
              sets = sets;
              runs =
                  s.runs
                  ++ record { job = job_id key name; scheduled = minute; instance_at = i } ∷ [];
            }
            else record s { sets = sets }
      ]

  -- `claim`, and `run` if it is granted.
  unfoldable pub attempt : Bytes → Bytes → ℕ → Scheduler → Scheduler
  unfolding claim run
  attempt key name minute s =
      let (granted, last_run) = claim (job_id key name) minute s.last_run in
      if granted
      then run key name minute (record s { last_run = last_run })
      else record s { last_run = last_run }

  -- The inner loop of `Tick`.
  unfoldable pub tick_jobs : Bytes → Moment → List JobDecl → Scheduler → Scheduler
  unfolding parse_schedule schedule_matches attempt
  tick_jobs key now [] s = s
  tick_jobs key now (j ∷ js) s = elim (parse_schedule j.cron) [
    | err e ↦ tick_jobs key now js s
    | ok schedule ↦
        tick_jobs key now js
          (if schedule_matches schedule now.parts then attempt key j.name now.minute s else s)
  ]

  -- The outer loop of `Tick`.
  unfoldable pub tick_keys : Dict Package → Moment → List Bytes → Scheduler → Scheduler
  unfolding lookup tick_jobs
  tick_keys packages now [] s = s
  tick_keys packages now (key ∷ keys) s = elim (lookup key packages) [
    | none ↦ tick_keys packages now keys s
    | some p ↦ tick_keys packages now keys (tick_jobs key now p.manifest.jobs s)
  ]

  -- `Tick`.
  unfoldable pub tick : Dict Package → Moment → Scheduler → Scheduler
  unfolding snapshot_keys tick_keys
  tick packages now s = tick_keys packages now (snapshot_keys snap.plugins) s
