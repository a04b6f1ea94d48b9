-- ===== src/Pluginhost/Scheduler/Tests.antt =====
-- Runs of the scheduler.
use moduless.Base.{◌≡◌, ◌≤◌, refl, true, List, [], ◌∷◌, bytes, pos, arith}
use moduless.Pluginhost.Instance.{ready, new_instance}
use moduless.Pluginhost.Registry.Table.{Registry, new_registry, install_plugin, bare}
use moduless.Pluginhost.Package.{Package}
use moduless.Pluginhost.Package.Sample.{auth_manifest}
use moduless.Pluginhost.Scheduler.{tick, job_id}
use moduless.Pluginhost.Scheduler.Claims.{starts}
use moduless.Pluginhost.Scheduler.Once.{Scene, tick_all, tick_all-once}

abbrev nightly : Package
nightly = record {
  dir = bytes "/plugins/auth";
  manifest = record auth_manifest {
    jobs = record { name = bytes "sweep"; cron = bytes "30 4 * * *" } ∷ [];
  };
  binary_path = [];
  checksum = [];
  frontend_dir = [];
  filters = [];
}

abbrev serving : Registry
serving = (install_plugin (bare (bytes "auth") (0 ∷ [])) new_registry).1

abbrev scene : Scene
scene = record {
  heap = λ i. record (new_instance [] [] [] (pos 1)) { state = ready };
  begins = λ i. true;
  snap = serving.current;
  packages = (bytes "auth", nightly) ∷ [];
  now = record {
    minute = 270;
    parts = record { minute = 30; hour = 4; day = 1; month = 1; weekday = 4 };
  };
}

abbrev scenes : List Scene
scenes = scene ∷ scene ∷ scene ∷ []

tick_all-once_example :
    starts
      (job_id (bytes "auth") (bytes "sweep"))
      270
      (tick_all scenes (record { last_run = []; sets = serving.sets; runs = [] })).runs
    ≤ 1
tick_all-once_example =
    tick_all-once scenes serving.sets (job_id (bytes "auth") (bytes "sweep")) 270
      (omega arith, (omega arith, (omega arith, tt)))

-- Three ticks in the minute start the job, once.
started_once :
    starts
      (job_id (bytes "auth") (bytes "sweep"))
      270
      (tick_all scenes (record { last_run = []; sets = serving.sets; runs = [] })).runs
    ≡ 1
unfolding tick install_plugin new_registry new_instance
started_once = refl
