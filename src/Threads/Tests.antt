-- ===== src/Threads/Tests.antt =====
-- Runs of the start of the input threads, and of the end.
use mptsd.Base.{
  ℕ, ◌≡◌, refl, false, List, [], ◌∷◌, codes, str_eq, arith, replicate, take, length, if◌then◌else◌,
}
use mptsd.Channel.{Channel, blank_channel}
use mptsd.Input.{Input}
use mptsd.Threads.{stopped, exited, kill_threads, spawn_input_threads}
use mptsd.Threads.Spawn.{Spawned, spawn_input_threads_lem}
use mptsd.Threads.Kill.{all_busy, kill_threads_lem}
use mptsd.Samples.{libs, new_input, bbc}

-- The first channel has an input, the second has none, and no thread can be made for it.
abbrev two_channels : List Channel
two_channels = bbc ∷ blank_channel 502 false (codes "itv") (codes "ITV") 0 4 0 false ∷ []

abbrev one_input : List Input
one_input = record (new_input 3) { name = codes "BBC" } ∷ []

abbrev started : List Input → List Input × ℕ
started = spawn_input_threads libs false (λ name. false) (λ name. false) two_channels

spawn_input_threads_example :
    Spawned libs false
      (λ name. false)
      (λ name. false)
      two_channels
      one_input
      (started one_input).0
      (started one_input).1
    × (started (started one_input).0 ≡ ((started one_input).0, 0))
spawn_input_threads_example =
    spawn_input_threads_lem libs false (λ name. false) (λ name. false) two_channels one_input

-- The input is there, though no thread was counted.
listed_without_thread : ◌≡◌ {A = ℕ × ℕ} (length (started one_input).0, (started one_input).1) (2, 0)
unfolding spawn_input_threads str_eq
listed_without_thread = refl

kill_threads_example :
    kill_threads 0 (replicate 62 (1, 4))
    ≡ (if all_busy (take 62 (replicate 62 (1, 4))) then exited else stopped)
kill_threads_example = kill_threads_lem (replicate 62 (1, 4)) (omega arith)
