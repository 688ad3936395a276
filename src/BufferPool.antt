-- ===== src/BufferPool.antt =====
-- The pool of equal buffers of lib/mumble/util/buffer_pool.c.
-- A pointer is a number. The buffers from index 0 to `in_use` are handed out, those from there on are
-- free. `in_use` is an `int` that is raised below `buffer_count` and lowered above 0 only.
pub mod Ownership
pub mod Release
pub mod Swap
pub mod Holders
pub mod Borrow
mod Tests
use mumble_web_demo.Prelude.{
  ℕ, zero, suc, ◌+◌, ◌-◌, ◌*◌, List, [], ◌∷◌, Option, none, some, ltb, ◌==◌, if◌then◌else◌, set,
  take, drop, Outcome, done, abort, ◌>>=◌, ◌>>◌, check, read,
}

-- `buffer_pool_t`
pub record Pool : Type 0 where
  pub buffers : List ℕ
  pub in_use : ℕ
  pub size : ℕ
  pub buffer_count : ℕ

-- An allocator: what the n-th call of `malloc` with this size returns.
abbrev pub Malloc : Type 0
Malloc = ℕ → ℕ → Option ℕ

-- A call of `malloc` whose result is asserted not to be NULL.
alloc : Malloc → ℕ → ℕ → Outcome ℕ
alloc malloc call size = elim (malloc call size) [ none ↦ abort | some p ↦ done p ]

-- The loop of `buffer_pool_init`, from the call of this number on, with `left` rounds to go.
init_loop : Malloc → ℕ → ℕ → ℕ → Outcome (List ℕ)
unfolding alloc
init_loop malloc size zero call = done []
init_loop malloc size (suc left) call = do
  p ← alloc malloc call size
  rest ← init_loop malloc size left (suc call)
  done (p ∷ rest)

-- `buffer_pool_init`. Call 0 of the allocator is for the array of pointers.
unfoldable pub init : Malloc → ℕ → ℕ → Outcome Pool
unfolding init_loop alloc
init malloc number_of_buffers buffer_size = do
  _ ← alloc malloc 0 (number_of_buffers * 8)
  buffers ← init_loop malloc buffer_size number_of_buffers 1
  done (record {
    buffers = buffers;
    in_use = 0;
    size = buffer_size;
    buffer_count = number_of_buffers;
  })

-- `buffer_pool_acquire`; `none` is NULL.
unfoldable pub acquire : Pool → Outcome (Option ℕ × Pool)
acquire p =
    if ltb p.in_use p.buffer_count
    then (read p.buffers p.in_use >>= λ b. done (some b, record p { in_use = p.in_use + 1 }))
    else done (none, p)

-- The body of the `if` in the loop of `buffer_pool_release`.
pub swap_out : Pool → ℕ → ℕ → Outcome Pool
swap_out p i buf = do
  check (ltb 0 p.in_use)
  last ← read p.buffers (p.in_use - 1)
  done (record p { buffers = set (set p.buffers i last) (p.in_use - 1) buf; in_use = p.in_use - 1 })

-- The loop of `buffer_pool_release` from index `i`, with `left` rounds to go.
pub release_loop : ℕ → ℕ → Pool → ℕ → Outcome Pool
release_loop zero i p buf = done p
release_loop (suc left) i p buf =
    let rest = release_loop left (i + 1) p buf in
    read p.buffers i >>= λ b. if b == buf then swap_out p i buf else rest

-- `buffer_pool_release`
unfoldable pub release : Pool → ℕ → Outcome Pool
unfolding release_loop swap_out
release p buf = release_loop p.buffer_count 0 p buf

-- The loop of `buffer_pool_free` from index `i`, with `left` rounds to go: the blocks that it frees.
pub free_loop : ℕ → ℕ → Pool → Outcome (List ℕ)
free_loop zero i p = done []
free_loop (suc left) i p = do b ← read p.buffers i; rest ← free_loop left (i + 1) p; done (b ∷ rest)

-- `buffer_pool_free`, which frees the array of pointers behind these.
unfoldable pub free_all : Pool → Outcome (List ℕ)
unfolding free_loop
free_all p = free_loop p.buffer_count 0 p

-- The buffers that are handed out, and those that are not.
abbrev pub held : Pool → List ℕ
held p = take p.in_use p.buffers

abbrev pub free : Pool → List ℕ
free p = drop p.in_use p.buffers
