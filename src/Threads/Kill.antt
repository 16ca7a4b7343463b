-- ===== src/Threads/Kill.antt =====
-- The loop that waits for the threads to end.
use mptsd.Base.{
  ℕ, zero, suc, ◌+◌, ◌≤◌, ◌<◌, ◌≡◌, Bool, true, List, [], ◌∷◌, arith, length, if◌then◌else◌, ◌&&◌,
  take,
}
use mptsd.Threads.{stopped, exited, is_busy, kill_threads}

-- Something is still running at each of the looks.
abbrev pub all_busy : List (ℕ × ℕ) → Bool
all_busy [] = true
all_busy (look ∷ looks) = is_busy look && all_busy looks

kill_threads_from :
    (left loops : ℕ) (looks : List (ℕ × ℕ))
    → loops + left ≡ 61
    → left < length looks
    → kill_threads loops looks ≡ (if all_busy (take (suc left) looks) then exited else stopped)
unfolding kill_threads
kill_threads_from left loops [] e long = absurd (omega arith)
kill_threads_from zero loops (look ∷ looks) e long = ground arith
kill_threads_from (suc left) loops (look ∷ looks) e long =
    ground (arith, kill_threads_from left (loops + 1) looks)

-- The loop ends after 62 looks at most: it stops when one of them finds no input and all output threads
-- ended, and the program exits when all 62 find something that runs.
pub kill_threads_lem :
    (looks : List (ℕ × ℕ))
    → 62 ≤ length looks
    → kill_threads 0 looks ≡ (if all_busy (take 62 looks) then exited else stopped)
kill_threads_lem looks long = kill_threads_from 61 0 looks (omega arith) (omega arith)
