-- ===== src/TcpSsl/Events/Run.antt =====
-- Runs of the events of the stream: every event returns, and gives its buffers back.
use mumble_web_demo.Prelude.{
  ℕ, suc, ◌+◌, ◌<◌, ◌≡◌, ◌⊎◌, inl, inr, refl, true, Bool-cases, List, [], ◌∷◌, ◌++◌, if◌then◌else◌,
  length, All, done, ◌>>=◌, arith,
}
use mumble_web_demo.Prelude.Int.{ℤ, pos, ltb_ℤ, ◌==ℤ◌}
use mumble_web_demo.BufferPool.{Pool}
use mumble_web_demo.BufferPool.Ownership.{IsValid}
use mumble_web_demo.BufferPool.Borrow.{Kept, Kept-trans, Kept-refl, acquires, gives_back}
use mumble_web_demo.TcpSsl.{Ssl, ReadCallback, default_alloc_cb, read_cb}
use mumble_web_demo.TcpSsl.Laws.{IsTidy, Drains, read_all-Kept}
use mumble_web_demo.TcpSsl.Events.{
  Status, is_connected, has_failed, ConnectCallback, tell, Phase, in_init, init_finished, Engine,
  Session, handshake, rbio_write, bio_write, connect_cb, arrive, arrive_all,
}

-- With a free buffer, the callback of the connection returns, and keeps the pool.
unfoldable pub IsTidyConnect : ConnectCallback → Type 0
IsTidyConnect cb =
    (status : Status) (p : Pool)
    → IsValid p
    → p.in_use < p.buffer_count
    → (p' : Pool) × (tell cb status p ≡ done p') × Kept p p'

-- OpenSSL is in the handshake or behind it, and a step of the handshake returns with a free buffer,
-- and keeps the pool.
pub record IsEngine {ssl : Ssl} (engine : Engine ssl) : Type 0 where
  pub settled : (s : ssl.State) → (engine.phase s ≡ in_init) ⊎ (engine.phase s ≡ init_finished)
  pub shakes :
      (s : ssl.State) (p : Pool)
      → IsValid p
      → p.in_use < p.buffer_count
      → (p' : Pool) × (s' : ssl.State) × (req : ℤ) × (engine.shake s p ≡ done (p', s', req))
        × Kept p p'

-- What is free stays free when the pool is kept.
still_three :
    (p q : Pool) → Kept p q → p.in_use + 2 < p.buffer_count → q.in_use + 2 < q.buffer_count
still_three p q k h = omega (arith, k.same_use, k.same_count, h)

still_free : (p q : Pool) → Kept p q → p.in_use < p.buffer_count → q.in_use < q.buffer_count
still_free p q k h = omega (arith, k.same_use, k.same_count, h)

module _ (ssl : Ssl) (engine : Engine ssl) (cb : ReadCallback) (connected_cb : ConnectCallback)
    (tidy : IsTidy cb) (tidy_connect : IsTidyConnect connected_cb) (law : IsEngine engine) where
  -- What a call of the client in the handshake leaves.
  told_lem :
      (req : ℤ) (p : Pool)
      → IsValid p
      → p.in_use < p.buffer_count
      → (p' : Pool) × ((if req ==ℤ pos 0
            then tell connected_cb is_connected p
            else if req ==ℤ pos 1
            then tell connected_cb has_failed p
            else done p)
          ≡ done p')
        × Kept p p'
  unfolding IsTidyConnect
  told_lem req p v room = elim (Bool-cases (req ==ℤ pos 0)) [
    | inl zero_said ↦
        let (p', run, k) = tidy_connect is_connected p v room in
        (p', ground (arith, zero_said, run), k)
    | inr other ↦ elim (Bool-cases (req ==ℤ pos 1)) [
      | inl one_said ↦
          let (p', run, k) = tidy_connect has_failed p v room in
          (p', ground (arith, other, one_said, run), k)
      | inr more ↦ (p, ground (arith, other, more), Kept-refl p v)
    ]
  ]

  handshake-Kept :
      (session : Session ssl engine cb connected_cb) (pool : Pool)
      → IsValid pool
      → pool.in_use < pool.buffer_count
      → (p' : Pool) × (after : Session ssl engine cb connected_cb) × (handshake ssl engine cb
            connected_cb session pool
          ≡ done (p', after))
        × Kept pool p'
  unfolding handshake
  handshake-Kept session pool v room =
      let (p, s, req, run, k) = law.shakes session.state pool v room in
      let (p', told, k') = told_lem req p k.valid (still_free pool p k room) in
      (p', record session { state = s }, ground (arith, run, told), Kept-trans pool p p' k k')

  -- With fuel for what OpenSSL has to read.
  rbio_write-Kept :
      (pending : ssl.State → ℕ) (fuel : ℕ) (phase : Phase)
      (session : Session ssl engine cb connected_cb) (pool : Pool)
      → Drains ssl pending
      → (phase ≡ in_init) ⊎ (phase ≡ init_finished)
      → IsValid pool
      → pool.in_use + 1 < pool.buffer_count
      → pending session.state < fuel
      → (p' : Pool) × (after : Session ssl engine cb connected_cb) × (rbio_write ssl engine cb
            connected_cb phase fuel session pool
          ≡ done (p', after))
        × Kept pool p'
  unfolding rbio_write
  rbio_write-Kept pending fuel phase session pool drains which v room enough = elim which [
    | inl shaking ↦
        let (p', after, run, k) = handshake-Kept session pool v (omega arith) in
        (p', after, ground (arith, shaking, run), k)
    | inr finished ↦
        let (r, run, k, end) =
          read_all-Kept ssl cb tidy pending fuel session.state pool drains v room enough in
        (
          r.pool,
          record { state = r.state; given = session.given ++ r.given },
          ground (arith, finished, run),
          k,
        )
  ]

  -- A chunk that is not empty arrives while three buffers are free.
  arrive-Kept :
      (pending : ssl.State → ℕ) (bytes : List ℕ) (session : Session ssl engine cb connected_cb)
      (pool : Pool)
      → Drains ssl pending
      → 0 < length bytes
      → IsValid pool
      → pool.in_use + 2 < pool.buffer_count
      → (p' : Pool) × (after : Session ssl engine cb connected_cb) × (arrive ssl engine cb
            connected_cb
            (λ s. suc (pending s))
            bytes
            session
            pool
          ≡ done (p', after))
        × Kept pool p'
  unfolding arrive bio_write default_alloc_cb read_cb
  arrive-Kept pending bytes session pool drains some_bytes v room =
      let (b, q, got, t) = acquires pool v (omega arith) in
      let s = engine.put session.state bytes in
      let (q', after, run, k) =
        rbio_write-Kept pending (suc (pending s)) (engine.phase s) (record session { state = s }) q
          drains (law.settled s) t.valid (omega (arith, t.one_more, t.same_count)) (omega arith) in
      let (p', back, kept) = gives_back pool b q q' t k in
      let read : ltb_ℤ (pos 0) (pos (length bytes)) ≡ true = ground arith in
      let all : (pos (length bytes) ==ℤ pos (length bytes)) ≡ true = ground arith in
      (p', after, ground (arith, got, run, back, read, all), kept)

  arrive_all-Kept :
      (pending : ssl.State → ℕ) (chunks : List (List ℕ))
      (session : Session ssl engine cb connected_cb) (pool : Pool)
      → Drains ssl pending
      → All (λ bytes. 0 < length bytes) chunks
      → IsValid pool
      → pool.in_use + 2 < pool.buffer_count
      → (p' : Pool) × (after : Session ssl engine cb connected_cb) × (arrive_all ssl engine cb
            connected_cb
            (λ s. suc (pending s))
            chunks
            session
            pool
          ≡ done (p', after))
        × Kept pool p'
  unfolding arrive_all
  arrive_all-Kept pending [] session pool drains full v room =
      (pool, session, refl, Kept-refl pool v)
  arrive_all-Kept pending (bytes ∷ chunks) session pool drains (some_bytes, full) v room =
      let (p, next, run, k) = arrive-Kept pending bytes session pool drains some_bytes v room in
      let (p', after, runs, k') =
        arrive_all-Kept pending chunks next p drains full k.valid (still_three pool p k room) in
      (p', after, ground (arith, run, runs), Kept-trans pool p p' k k')

  -- In a valid pool three buffers are free, the callbacks of the client keep the pool, OpenSSL is in
  -- the handshake or behind it, a step of the handshake keeps the pool, and every read that
  -- succeeds leaves OpenSSL less to read. Then the connection and, behind it, chunks that are not
  -- empty are handled in full, with one round more than there is to read for each chunk, and the
  -- pool holds what it held.
  pub connect_cb-arrive_all :
      (pending : ssl.State → ℕ) (chunks : List (List ℕ))
      (session : Session ssl engine cb connected_cb) (pool : Pool)
      → Drains ssl pending
      → All (λ bytes. 0 < length bytes) chunks
      → IsValid pool
      → pool.in_use + 2 < pool.buffer_count
      → (p' : Pool) × (after : Session ssl engine cb connected_cb) × ((connect_cb ssl engine cb
              connected_cb
              (pos 0)
              (pos 0)
              session
              pool
            >>= λ (p, next).
                arrive_all ssl engine cb connected_cb (λ s. suc (pending s)) chunks next p)
          ≡ done (p', after))
        × Kept pool p'
  unfolding connect_cb
  connect_cb-arrive_all pending chunks session pool drains full v room =
      let (p, next, run, k) = handshake-Kept session pool v (omega arith) in
      let (p', after, runs, k') =
        arrive_all-Kept pending chunks next p drains full k.valid (still_three pool p k room) in
      (p', after, ground (arith, run, runs), Kept-trans pool p p' k k')
