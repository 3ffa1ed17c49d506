-- ===== src/Tests/Fuses.antt =====
-- The programs that serve an image.
use atomfs.Base.{ℕ, ◌*◌, ◌≢◌, refl, none, [], arith}
use atomfs.Text.{bytes}
use atomfs.System.{Answer, answer, Call, Kernel, History, elapsed}
use atomfs.System.Trace.{Ends}
use atomfs.Fuse.{poll, squash_gives_up}
use atomfs.Fuse.Poll.{sleeps, HasClock, poll_ends}
use atomfs.Tests.Data.{machine, some_file}

abbrev ticks : History → Call → Answer ℕ
ticks h elapsed = answer (50 * sleeps h)
ticks h _ = answer 0

-- Each sleep is 50 milliseconds.
abbrev clocked : Kernel
clocked = record machine { tells_number = ticks }

clocked-HasClock : HasClock clocked
clocked-HasClock h = (50 * sleeps h, refl, omega arith)

poll_ends_example :
    Ends (poll some_file (bytes "/mnt") squash_gives_up 602) clocked [] (λ o _. o ≢ none)
poll_ends_example =
    poll_ends some_file (bytes "/mnt") squash_gives_up clocked clocked-HasClock 602 [] (omega arith)
      (omega arith)
