-- ===== src/TcpSsl/Events/Tests.antt =====
-- A run of the events of the stream: a handshake of two steps, then bytes for the client.
use mumble_web_demo.Prelude.{
  ℕ, zero, suc, ◌<◌, ◌≡◌, ◌⊎◌, inl, inr, refl, some, List, [], ◌∷◌, ◌++◌, length, All, Outcome,
  done, ◌>>=◌, arith,
}
use mumble_web_demo.Prelude.Int.{ℤ, pos, negsuc}
use mumble_web_demo.BufferPool.{Pool, acquire, release}
use mumble_web_demo.BufferPool.Ownership.{IsValid}
use mumble_web_demo.BufferPool.Borrow.{acquire_or_abort, Kept, Kept-refl, borrow}
use mumble_web_demo.TcpSsl.{
  Ssl, ReadCallback, call_back, do_read, read_all, default_alloc_cb, read_cb,
}
use mumble_web_demo.TcpSsl.Laws.{IsTidy, Drains}
use mumble_web_demo.TcpSsl.Events.{
  ConnectCallback, tell, Phase, in_init, init_finished, Engine, Session, handshake, rbio_write,
  bio_write, arrive, connect_cb, arrive_all,
}
use mumble_web_demo.TcpSsl.Events.Run.{IsTidyConnect, IsEngine, connect_cb-arrive_all}

-- The steps of the handshake that are left, and the bytes for the client.
unfoldable read_two : ℕ × List ℕ → ℕ → (ℕ × List ℕ) × ℤ × List ℕ
read_two (steps, []) size = ((steps, []), negsuc 0, [])
read_two (steps, x ∷ xs) size = ((steps, xs), pos 1, x ∷ [])

abbrev two_steps : Ssl
two_steps = record { State = ℕ × List ℕ; read = read_two }

unfoldable phase_of : ℕ × List ℕ → Phase
phase_of (zero, xs) = init_finished
phase_of (suc steps, xs) = in_init

unfoldable put_two : ℕ × List ℕ → List ℕ → ℕ × List ℕ
put_two (zero, xs) bytes = (zero, xs ++ bytes)
put_two (suc steps, xs) bytes = (suc steps, xs)

unfoldable shake_two : ℕ × List ℕ → Pool → Outcome (Pool × (ℕ × List ℕ) × ℤ)
shake_two (suc (suc steps), xs) p = done (p, (suc steps, xs), pos 2)
shake_two (suc zero, xs) p = done (p, (0, xs), pos 0)
shake_two (zero, xs) p = done (p, (0, xs), pos 0)

abbrev steps_engine : Engine two_steps
steps_engine = record { phase = phase_of; put = put_two; shake = shake_two }

-- Both callbacks of the client write to the stream.
abbrev writes : Pool → Outcome Pool
writes p = do (b, q) ← acquire_or_abort p; release q b

abbrev on_read : ReadCallback
on_read = some (λ bytes p. writes p)

abbrev on_connect : ConnectCallback
on_connect = some (λ status p. writes p)

on_read-IsTidy : IsTidy on_read
unfolding IsTidy call_back
on_read-IsTidy bytes p v h =
    let (b, q, p', got, back, k) = borrow p v h in (p', ground (arith, got, back), k)

on_connect-IsTidyConnect : IsTidyConnect on_connect
unfolding IsTidyConnect tell
on_connect-IsTidyConnect status p v h =
    let (b, q, p', got, back, k) = borrow p v h in (p', ground (arith, got, back), k)

phase_cases : (s : ℕ × List ℕ) → (phase_of s ≡ in_init) ⊎ (phase_of s ≡ init_finished)
unfolding phase_of
phase_cases (zero, xs) = inr refl
phase_cases (suc steps, xs) = inl refl

shakes_lem :
    (s : ℕ × List ℕ) (p : Pool)
    → IsValid p
    → (p' : Pool) × (s' : ℕ × List ℕ) × (req : ℤ) × (shake_two s p ≡ done (p', s', req)) × Kept p p'
unfolding shake_two
shakes_lem (zero, xs) p v = (p, (0, xs), pos 0, refl, Kept-refl p v)
shakes_lem (suc zero, xs) p v = (p, (0, xs), pos 0, refl, Kept-refl p v)
shakes_lem (suc (suc n), xs) p v = (p, (suc n, xs), pos 2, refl, Kept-refl p v)

steps_engine-IsEngine : IsEngine steps_engine
steps_engine-IsEngine = record { settled = phase_cases; shakes = λ s p v h. shakes_lem s p v }

abbrev bytes_left : ℕ × List ℕ → ℕ
bytes_left (steps, xs) = length xs

read_two-Drains : Drains two_steps bytes_left
unfolding Drains read_two
read_two-Drains (steps, []) size h = cc
read_two-Drains (steps, x ∷ xs) size h = omega arith

abbrev none_held : Pool
none_held = record { buffers = 10 ∷ 20 ∷ 30 ∷ 40 ∷ []; in_use = 0; size = 4; buffer_count = 4 }

none_held-IsValid : IsValid none_held
none_held-IsValid = record { full = refl; within = omega arith; distinct = λ a. ground arith }

abbrev fresh : Session two_steps steps_engine on_read on_connect
fresh = record { state = (2, []); given = [] }

abbrev three_chunks : List (List ℕ)
three_chunks = (1 ∷ []) ∷ (2 ∷ 3 ∷ []) ∷ (4 ∷ []) ∷ []

three_full : All (λ bytes. 0 < length bytes) three_chunks
three_full = (omega arith, (omega arith, (omega arith, tt)))

abbrev whole_run : Outcome (ℕ × List (List ℕ))
whole_run = do
  (p, next) ← connect_cb two_steps steps_engine on_read on_connect (pos 0) (pos 0) fresh none_held
  (p', after) ←
      arrive_all two_steps steps_engine on_read on_connect (λ s. suc (bytes_left s)) three_chunks
        next p
  done (p'.in_use, after.given)

-- The first chunk ends the handshake, and the bytes of the others reach the client one by one.
given_bytes : whole_run ≡ done (0, (2 ∷ []) ∷ (3 ∷ []) ∷ (4 ∷ []) ∷ [])
unfolding connect_cb handshake tell arrive_all arrive bio_write rbio_write phase_of put_two
    shake_two read_two default_alloc_cb read_cb acquire_or_abort acquire release read_all do_read
    call_back
given_bytes = refl

connect_cb-arrive_all_example :
    let ssl = two_steps in
    let engine = steps_engine in
    let cb = on_read in
    let connected_cb = on_connect in
    let pending = bytes_left in
    let chunks = three_chunks in
    let session = fresh in
    let pool = none_held in
    (p' : Pool) × (after : Session ssl engine cb connected_cb) × ((connect_cb ssl engine cb
          connected_cb
          (pos 0)
          (pos 0)
          session
          pool
        >>= λ (p, next). arrive_all ssl engine cb connected_cb (λ s. suc (pending s)) chunks next p)
      ≡ done (p', after))
    × Kept pool p'
connect_cb-arrive_all_example =
    connect_cb-arrive_all two_steps steps_engine on_read on_connect on_read-IsTidy
      on_connect-IsTidyConnect steps_engine-IsEngine bytes_left three_chunks fresh none_held
      read_two-Drains three_full none_held-IsValid (omega arith)
