-- ===== src/Archived/Examples.antt =====
-- The archived queue of Ex4_old.c at the queue of Sequential.Examples: its sentinel is followed by the
-- tail, so that the first call takes the Peterson lock.
use amp_project.Base.{◌≡◌}
use amp_project.Peterson.{Side, enqueuer}
use amp_project.Sequential.Memory.{World}
use amp_project.Sequential.History.{calls_spec}
use amp_project.Sequential.Examples.{world, one_spare, world-Refines, calls, calls-Admissible}
use amp_project.Archived.{done, perform_all}
use amp_project.Archived.Alone.{quiet, perform_all-quiet}

perform_all-quiet_example :
    (w' : World) × (v' : Side) × (perform_all 1 calls (quiet world enqueuer)
      ≡ done (calls_spec calls one_spare) (quiet w' v'))
perform_all-quiet_example = perform_all-quiet 0 calls enqueuer world-Refines calls-Admissible
