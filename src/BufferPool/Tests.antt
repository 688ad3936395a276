-- ===== src/BufferPool/Tests.antt =====
-- Runs of the pool of buffers.
use mumble_web_demo.Prelude.{
  ℕ, ◌+◌, ◌*◌, ◌≤◌, ◌≡◌, ◌⊎◌, refl, [], ◌∷◌, none, some, done, abort, arith,
}
use mumble_web_demo.Prelude.Counts.{count}
use mumble_web_demo.BufferPool.{Pool, Malloc, init, acquire, release}
use mumble_web_demo.BufferPool.Ownership.{IsValid}
use mumble_web_demo.BufferPool.Release.{Stolen, release-free}
use mumble_web_demo.BufferPool.Holders.{
  NeverTwice, System, take, here, next, IsConsistent, Reach-safe,
}

abbrev one_held : Pool
one_held = record { buffers = 10 ∷ 20 ∷ []; in_use = 1; size = 1024; buffer_count = 2 }

abbrev two_held : Pool
two_held = record one_held { in_use = 2 }

one_held-IsValid : IsValid one_held
one_held-IsValid = record { full = refl; within = omega arith; distinct = λ a. ground arith }

acquire_second : acquire one_held ≡ done (some 20, two_held)
unfolding acquire
acquire_second = refl

acquire_third : acquire two_held ≡ done (none, two_held)
unfolding acquire
acquire_third = refl

release_first :
    release two_held 10
    ≡ done (record { buffers = 20 ∷ 10 ∷ []; in_use = 1; size = 1024; buffer_count = 2 })
unfolding release
release_first = refl

-- The second buffer is free already, and the first one is taken from its holder.
release_second :
    release one_held 20
    ≡ done (record { buffers = 20 ∷ 10 ∷ []; in_use = 0; size = 1024; buffer_count = 2 })
unfolding release
release_second = refl

counting : Malloc
counting call size = some (call * 16 + 16)

abbrev before : System
before = record { pool = one_held; mine = 10 ∷ [] }

abbrev after : System
after = record { pool = two_held; mine = 20 ∷ 10 ∷ [] }

before-IsConsistent : IsConsistent before
before-IsConsistent = record { valid = one_held-IsValid; agree = λ a. refl }

counting_pool : Pool
counting_pool = record { buffers = 32 ∷ 48 ∷ []; in_use = 0; size = 1024; buffer_count = 2 }

counting-init : init counting 2 1024 ≡ done counting_pool
unfolding init counting counting_pool
counting-init = refl

counting-NeverTwice : NeverTwice counting
unfolding counting
counting-NeverTwice i j a b p hi hj =
    let e : i * 16 + 16 ≡ j * 16 + 16 = cc (hi, hj) in omega (arith, e)

release-free_example :
    let p = one_held in
    let buf : ℕ = 20 in
    ((p.in_use ≡ 0) × (release p buf ≡ abort))
    ⊎ ((p' : Pool) × (y : ℕ) × (release p buf ≡ done p') × Stolen p buf p' y)
release-free_example = release-free one_held 20 one_held-IsValid (omega arith)

Reach-safe_example : let t = after in IsConsistent t × ((a : ℕ) → count a t.mine ≤ 1)
Reach-safe_example =
    Reach-safe before after before-IsConsistent (next here (take 20 acquire_second refl))
