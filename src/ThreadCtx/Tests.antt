-- ===== src/ThreadCtx/Tests.antt =====
-- Instances of the laws of a thread, and a run that adds no child.
use rev.Prelude.{◌+◌, ◌≡◌, refl, true, false, ◌==◌, if◌then◌else◌}
use rev.Fixtures.{start}
use rev.ThreadCtx.{RevThreadCtx, thread_ctx, add_child_pid, add_fd, find_fd, remove_fd}
use rev.ThreadCtx.Laws.{occurrences, fildes_lem}

abbrev thread : RevThreadCtx
thread = thread_ctx start 2 1

fildes_lem_example :
    (find_fd 1 thread ≡ (if occurrences 1 thread.fildes == 0 then false else true))
    × (occurrences 1 (add_fd 1 thread).fildes ≡ occurrences 1 thread.fildes + 1)
    × ((remove_fd 1 thread).0 ≡ find_fd 1 thread)
    × (occurrences 1 (remove_fd 1 thread).1.fildes + (if find_fd 1 thread then 1 else 0)
        ≡ occurrences 1 thread.fildes)
fildes_lem_example = fildes_lem 1 1 thread

-- A child is added only where it is in the list already.
no_first_child : add_child_pid 7 thread ≡ (false, thread)
unfolding add_child_pid
no_first_child = refl
