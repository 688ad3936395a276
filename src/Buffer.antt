-- ===== src/Buffer.antt =====
-- The framing buffer of lib/mumble/buffer.c, which calls back with frames of one size.
-- `buf` is the allocated block. A call of the callback is recorded with what it is given; the bytes to
-- write are the list that `buf` and `size` of `mumble_buffer_write` describe.
pub mod Write
pub mod Laws
mod Tests
use mumble_web_demo.Prelude.{
  ℕ, zero, suc, ◌+◌, ◌-◌, ◌^◌, Bool, true, false, ◌&&◌, List, [], ◌∷◌, ◌++◌, ltb, ◌==◌,
  if◌then◌else◌, length, take, drop, replicate, u32, Outcome, done, no_fuel, ◌>>=◌,
}
use mumble_web_demo.Prelude.Memory.{read_at, write_at}

-- `mumble_buffer_t`, less the callback.
pub record Buffer : Type 0 where
  pub buf : List ℕ
  pub buf_allocated : ℕ
  pub buf_used : ℕ

-- One call of the callback: `buf` with `size`, and `bool_final`.
pub record Call : Type 0 where
  pub bytes : List ℕ
  pub final : Bool

-- `mumble_buffer_create`; the contents of the new block are whatever `malloc` left there.
unfoldable pub create : List ℕ → Buffer
create block = record { buf = block; buf_allocated = length block; buf_used = 0 }

-- `MIN(end_ptr - incoming_ptr, buffer->buf_allocated - buffer->buf_used)`, the second an `unsigned`.
abbrev pub amount_to_copy : Buffer → List ℕ → ℕ
amount_to_copy b incoming =
    let room = u32 (b.buf_allocated + 2 ^ 32 - b.buf_used) in
    if ltb (length incoming) room then length incoming else room

is_empty : List ℕ → Bool
is_empty [] = true
is_empty (x ∷ xs) = false

-- The part of a round that looks whether the buffer is full.
notify : Bool → Buffer → List ℕ → Outcome (Buffer × List Call)
unfolding is_empty
notify end b incoming =
    if b.buf_used == b.buf_allocated
    then (read_at b.buf 0 b.buf_used >>= λ bytes. done (
      record b { buf_used = 0 },
      record { bytes = bytes; final = if end then is_empty incoming else false } ∷ [],
    ))
    else done (b, [])

-- The loop of `mumble_buffer_write` over what is left of the bytes to write.
pub write_loop : ℕ → Bool → Buffer → List ℕ → Outcome (Buffer × List Call)
unfolding notify
write_loop fuel end b [] = done (b, [])
write_loop zero end b (x ∷ xs) = no_fuel
write_loop (suc fuel) end b (x ∷ xs) = do
  let n = amount_to_copy b (x ∷ xs)
  block ← write_at b.buf b.buf_used (take n (x ∷ xs))
  (b', call) ←
      notify end (record b { buf = block; buf_used = u32 (b.buf_used + n) }) (drop n (x ∷ xs))
  (b'', calls) ← write_loop fuel end b' (drop n (x ∷ xs))
  done (b'', call ++ calls)

-- `mumble_buffer_flush`, given what its call of `mumble_buffer_write` does.
flush_with :
    (Buffer → List ℕ → Outcome (Buffer × List Call)) → Buffer → Outcome (Buffer × List Call)
flush_with write b = do
  block ← write_at b.buf b.buf_used (replicate (u32 (b.buf_allocated + 2 ^ 32 - b.buf_used)) 0)
  write (record b { buf = block; buf_used = b.buf_allocated }) []

-- `mumble_buffer_write` with fuel for its loop, and fuel for the calls between it and the flush.
unfoldable pub write : ℕ → ℕ → Bool → Buffer → List ℕ → Outcome (Buffer × List Call)
unfolding write_loop flush_with
write zero rounds end b incoming = no_fuel
write (suc calls_left) rounds end b incoming =
    let flushed = flush_with (write calls_left rounds true) in
    write_loop rounds end b incoming >>= λ (b', calls).
    if end && ltb 0 b'.buf_used
    then (flushed b' >>= λ (b'', more). done (b'', calls ++ more))
    else done (b', calls)

unfoldable pub flush : ℕ → ℕ → Buffer → Outcome (Buffer × List Call)
unfolding flush_with
flush calls_left rounds = flush_with (write calls_left rounds true)

-- The bytes that wait for the next frame.
abbrev pub pending : Buffer → List ℕ
pending b = take b.buf_used b.buf
