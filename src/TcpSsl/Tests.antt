-- ===== src/TcpSsl/Tests.antt =====
-- Runs of the callbacks of the TLS stream.
use mumble_web_demo.Prelude.{ℕ, ◌+◌, ◌≤◌, ◌<◌, ◌≡◌, ◌⊎◌, refl, [], ◌∷◌, Outcome, done, abort, arith}
use mumble_web_demo.Prelude.Int.{ℤ, pos}
use mumble_web_demo.BufferPool.{Pool}
use mumble_web_demo.BufferPool.Ownership.{IsValid}
use mumble_web_demo.TcpSsl.{empty_reads}
use mumble_web_demo.TcpSsl.Laws.{empty_reads-leak}

abbrev one_held : Pool
one_held = record { buffers = 10 ∷ 20 ∷ 30 ∷ []; in_use = 1; size = 4; buffer_count = 3 }

one_held-IsValid : IsValid one_held
one_held-IsValid = record { full = refl; within = omega arith; distinct = λ a. ground arith }

empty_reads-leak_example :
    let bio_write : Pool → Outcome (Pool × ℤ × ℕ) = λ p. done (p, pos 0, 0) in
    let n : ℕ = 3 in
    let nread = pos 0 in
    let pool = one_held in
    ((pool.in_use + n ≤ pool.buffer_count)
      × ((p' : Pool) × (empty_reads bio_write 0 n nread pool ≡ done (p', 0))
          × (p'.in_use ≡ pool.in_use + n)
          × IsValid p'))
    ⊎ ((pool.buffer_count < pool.in_use + n) × (empty_reads bio_write 0 n nread pool ≡ abort))
empty_reads-leak_example =
    empty_reads-leak (λ p. done (p, pos 0, 0)) 0 3 (pos 0) one_held refl one_held-IsValid
