-- ===== src/Container/Program/Tests.antt =====
-- The program of `Initialize` over the file system with one directory.
use sex.Common.{false, ◌≡◌}
use sex.Container.{initialize}
use sex.Container.Tests.{directory, dir_sys, dir_locks}
use sex.Calls.{run_program}
use sex.Flock.Guarded.Runs.{perform}
use sex.Container.Program.{own, initialize_program}
use sex.Container.Program.Runs.{initialize_program_runs}

initialize_program_runs_example :
    run_program (perform dir_locks "/tmp" (own (directory 0))) (initialize_program dir_sys) false
    ≡ initialize (directory 0) false
initialize_program_runs_example = initialize_program_runs (directory 0) false
