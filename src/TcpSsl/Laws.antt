-- ===== src/TcpSsl/Laws.antt =====
-- What the callbacks of the stream leave of the pool, and what reaches the client.
use mumble_web_demo.Prelude.{
  ℕ, zero, suc, ◌+◌, ◌≤◌, ◌<◌, ◌≡◌, ◌⊎◌, inl, inr, refl, sym, ◌∙◌, true, false, Bool-cases, List,
  [], ◌∷◌, ◌++◌, length, Outcome, done, abort, fault, arith, dec_lt,
}
use mumble_web_demo.Prelude.Int.{ℤ, pos, ltb_ℤ, ◌==ℤ◌}
use mumble_web_demo.BufferPool.{Pool}
use mumble_web_demo.BufferPool.Ownership.{IsValid, acquire_lem}
use mumble_web_demo.BufferPool.Borrow.{
  acquire_or_abort, Kept, Kept-trans, Kept-refl, acquires, gives_back,
}
use mumble_web_demo.TcpSsl.{
  Ssl, ReadCallback, call_back, Read, do_read, read_all, default_alloc_cb, read_cb, wbio_write,
  empty_reads,
}

-- With a free buffer, the callback returns, and keeps the pool.
unfoldable pub IsTidy : ReadCallback → Type 0
IsTidy cb =
    (bytes : List ℕ) (p : Pool)
    → IsValid p
    → p.in_use < p.buffer_count
    → (p' : Pool) × (call_back cb bytes p ≡ done p') × Kept p p'

-- A read that succeeds leaves less to read.
unfoldable pub Drains : (ssl : Ssl) → (ssl.State → ℕ) → Type 0
Drains ssl pending =
    (s : ssl.State) (size : ℕ)
    → ltb_ℤ (pos 0) (ssl.read s size).1 ≡ true
    → pending (ssl.read s size).0 < pending s

module _ (ssl : Ssl) (cb : ReadCallback) (tidy : IsTidy cb) where
  -- One read: what the client is given is what OpenSSL returned, if anything, and the pool is kept.
  do_read_lem :
      (s : ssl.State) (pool : Pool)
      → IsValid pool
      → pool.in_use + 1 < pool.buffer_count
      → (r : Read ssl cb) × (do_read ssl cb s pool ≡ done r)
        × Kept pool r.pool
        × (r.state ≡ (ssl.read s pool.size).0)
        × (r.retry ≡ ltb_ℤ (pos 0) (ssl.read s pool.size).1)
  unfolding do_read IsTidy
  do_read_lem s pool v room =
      let (b, q, got, t) = acquires pool v (omega arith) in
      elim (Bool-cases (ltb_ℤ (pos 0) (ssl.read s pool.size).1)) [
        | inl good ↦
            let (q', called, k) =
              tidy (ssl.read s pool.size).2 q t.valid (omega (arith, t.one_more, t.same_count)) in
            let (p', back, kept) = gives_back pool b q q' t k in
            (
              record {
                state = (ssl.read s pool.size).0;
                pool = p';
                given = (ssl.read s pool.size).2 ∷ [];
                retry = true;
              },
              ground (arith, got, t.same_size, good, called, back),
              kept,
              refl,
              sym good,
            )
        | inr bad ↦
            let (p', back, kept) = gives_back pool b q q t (Kept-refl q t.valid) in
            (
              record { state = (ssl.read s pool.size).0; pool = p'; given = []; retry = false },
              ground (arith, got, t.same_size, bad, back),
              kept,
              refl,
              sym bad,
            )
      ]

  -- The loop of `uv_ssl_read` returns within one round more than there was to read.
  pub read_all-Kept :
      (pending : ssl.State → ℕ) (fuel : ℕ) (s : ssl.State) (pool : Pool)
      → Drains ssl pending
      → IsValid pool
      → pool.in_use + 1 < pool.buffer_count
      → pending s < fuel
      → (r : Read ssl cb) × (read_all ssl cb fuel s pool ≡ done r)
        × Kept pool r.pool
        × (r.retry ≡ false)
  unfolding read_all Drains
  read_all-Kept pending zero s pool drains v room h = absurd (omega arith)
  read_all-Kept pending (suc fuel) s pool drains v room h =
      let (r, run, kept, at, retry) = do_read_lem s pool v room in
      elim (Bool-cases r.retry) [
        | inr last ↦ (r, ground (arith, run, last), kept, last)
        | inl again ↦
            let less = drains s pool.size (sym retry ∙ again) in
            let fewer : pending r.state < pending s = rw at less in
            let (m, more, kept', end) =
              read_all-Kept pending fuel r.state r.pool drains kept.valid
                (omega (arith, kept.same_use, kept.same_count)) (omega (arith, fewer)) in
            (
              record m { given = r.given ++ m.given },
              ground (arith, run, again, more),
              Kept-trans pool r.pool m.pool kept kept',
              end,
            )
      ]

-- With a free buffer in a valid pool, and a socket that takes all bytes, what OpenSSL writes
-- leaves the pool holding what it held if the bytes fit a buffer; bytes that do not fit are
-- written past its end.
pub wbio_write-Kept :
    (try_write : List ℕ → ℤ) (pool : Pool) (argp : List ℕ)
    → IsValid pool
    → pool.in_use < pool.buffer_count
    → (try_write argp ==ℤ pos (length argp)) ≡ true
    → ((length argp ≤ pool.size)
        × ((p' : Pool) × (wbio_write try_write pool argp ≡ done p') × Kept pool p'))
      ⊎ ((pool.size < length argp) × (wbio_write try_write pool argp ≡ fault))
unfolding wbio_write
wbio_write-Kept try_write pool argp v free sent =
    let (b, q, got, t) = acquires pool v free in
    let (p', back, kept) = gives_back pool b q q t (Kept-refl q t.valid) in
    elim (dec_lt pool.size (length argp)) [
      | yes over ↦ inr (over, ground (arith, got, t.same_size))
      | no fits ↦ inl (omega arith, (p', ground (arith, got, t.same_size, sent, back), kept))
    ]

-- On a valid pool, libuv reports a read of nothing, or a failed one, some times in a row, each
-- behind a request for a buffer. No buffer comes back: as many are held in addition, until the
-- pool has none left and the assertion on the next one fails.
pub empty_reads-leak :
    {A : Type 0} (bio_write : Pool → Outcome (Pool × ℤ × A)) (rest : A) (n : ℕ) (nread : ℤ)
    (pool : Pool)
    → ltb_ℤ (pos 0) nread ≡ false
    → IsValid pool
    → ((pool.in_use + n ≤ pool.buffer_count)
        × ((p' : Pool) × (empty_reads bio_write rest n nread pool ≡ done (p', rest))
            × (p'.in_use ≡ pool.in_use + n)
            × IsValid p'))
      ⊎ ((pool.buffer_count < pool.in_use + n) × (empty_reads bio_write rest n nread pool ≡ abort))
unfolding empty_reads default_alloc_cb read_cb acquire_or_abort
empty_reads-leak bio_write rest zero nread pool none_read v =
    inl (omega (arith, v.within), (pool, refl, omega arith, v))
empty_reads-leak bio_write rest (suc n) nread pool none_read v = elim (acquire_lem pool v) [
  | inl (full, out) ↦ inr (omega (arith, full), ground (arith, out))
  | inr (b, q, got, t) ↦
      let first : empty_reads bio_write rest (suc n) nread pool
          ≡ empty_reads bio_write rest n nread q =
        ground (arith, got, none_read) in
      elim (empty_reads-leak bio_write rest n nread q none_read t.valid) [
        | inl (room, (p', run, many, v')) ↦ inl (
          omega (arith, room, t.one_more, t.same_count),
          (p', first ∙ run, omega (arith, many, t.one_more), v'),
        )
        | inr (over, stop) ↦ inr (omega (arith, over, t.one_more, t.same_count), first ∙ stop)
      ]
]
