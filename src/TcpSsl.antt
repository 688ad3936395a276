-- ===== src/TcpSsl.antt =====
-- The TLS stream of lib/mumble/uv_tcp_ssl.c: how its callbacks use the pool of buffers. OpenSSL, libuv
-- and the client's callback are parameters.
pub mod Laws
pub mod Events
pub mod Setup
mod Tests
use mumble_web_demo.Prelude.{
  ℕ, zero, suc, ◌*◌, ◌+◌, ◌≤◌, ◌<◌, ◌≡◌, Bool, true, false, Option, none, some, List, [], ◌∷◌, ◌++◌,
  if◌then◌else◌, leb, ltb, length, Outcome, done, abort, no_fuel, ◌>>=◌, ◌>>◌, check, in_range,
}
use mumble_web_demo.Prelude.Int.{ℤ, pos, ltb_ℤ, ◌==ℤ◌}
use mumble_web_demo.BufferPool.{Pool, Malloc, init, release}
use mumble_web_demo.BufferPool.Borrow.{acquire_or_abort}

-- `SSL_read` on a state of OpenSSL with room for so many bytes: the state behind, the result, and the
-- bytes that were stored.
pub record Ssl : Type 1 where
  pub State : Type 0
  pub read : State → ℕ → State × ℤ × List ℕ

-- What the client's callback does to the pool, as it may write to the stream; `none` is NULL.
abbrev pub ReadCallback : Type 0
ReadCallback = Option (List ℕ → Pool → Outcome Pool)

-- The pool of `mumble_uv_ssl_init`.
unfoldable pub init_pool : Malloc → Outcome Pool
init_pool malloc = init malloc 4 (16 * 1024)

unfoldable pub call_back : ReadCallback → List ℕ → Pool → Outcome Pool
call_back none bytes p = done p
call_back (some cb) bytes p = cb bytes p

module _ (ssl : Ssl) (cb : ReadCallback) where
  open ssl use {State, read}

  -- What `uv_ssl_do_read` leaves, the bytes that the callback was given, and `retry`.
  pub record Read : Type 0 where
    pub state : State
    pub pool : Pool
    pub given : List (List ℕ)
    pub retry : Bool

  -- `uv_ssl_do_read`. On a result that is not positive, only the message that is printed depends on
  -- `SSL_get_error`.
  unfoldable pub do_read : State → Pool → Outcome Read
  unfolding acquire_or_abort call_back
  do_read s pool = do
    (buf, taken) ← acquire_or_abort pool
    let (s', ret, bytes) = read s taken.size
    let good = ltb_ℤ (pos 0) ret
    pool' ← if good then call_back cb bytes taken else done taken
    pool'' ← release pool' buf
    done (record {
      state = s';
      pool = pool'';
      given = if good then bytes ∷ [] else [];
      retry = good;
    })

  -- `uv_ssl_read`, with fuel for its loop.
  unfoldable pub read_all : ℕ → State → Pool → Outcome Read
  unfolding do_read
  read_all zero s pool = no_fuel
  read_all (suc fuel) s pool = do
    r ← do_read s pool
    let rest = read_all fuel r.state r.pool
    if r.retry
        then (rest >>= λ more. done (record more { given = r.given ++ more.given }))
        else done r

-- `default_alloc_cb`
unfoldable pub default_alloc_cb : Pool → Outcome (Pool × ℕ)
unfolding acquire_or_abort
default_alloc_cb pool = do (base, pool') ← acquire_or_abort pool; done (pool', base)

-- `uv_ssl_read_cb` with what `BIO_write` leaves of the pool, what it returns, and what it leaves of
-- the rest, as the callback of the BIO reads.
unfoldable pub read_cb :
    {A : Type 0} → (Pool → Outcome (Pool × ℤ × A)) → A → Pool → ℕ → ℤ → Outcome (Pool × A)
read_cb bio_write rest pool base nread =
    if ltb_ℤ (pos 0) nread
    then (do
      (pool', ret, rest') ← bio_write pool
      check (ret ==ℤ nread)
      pool'' ← release pool' base
      done (pool'', rest'))
    else done (pool, rest)

-- The case BIO_CB_WRITE|BIO_CB_RETURN of `uv_ssl_wbio_cb`, with the result of `uv_try_write` on the bytes.
unfoldable pub wbio_write : (List ℕ → ℤ) → Pool → List ℕ → Outcome Pool
unfolding acquire_or_abort
wbio_write try_write pool argp = do
  (arg, pool') ← acquire_or_abort pool
  in_range (leb (length argp) pool'.size)
  check (try_write argp ==ℤ pos (length argp))
  release pool' arg

-- `mumble_uv_ssl_write`, with the result of `SSL_write` on the bytes.
unfoldable pub write : (List ℕ → ℤ) → List ℕ → Outcome (Unit {0})
write ssl_write buf = check (ltb_ℤ (pos 1) (ssl_write buf))

-- `mumble_uv_ssl_peername`, with the result of `uv_tcp_getpeername` and the name that it stores.
unfoldable pub peername : {Address : Type 0} → ℤ × Address → Outcome Address
peername (ret, name) = check (ret ==ℤ pos 0) >> done name

-- `n` times in a row, libuv asks for a buffer and then reports `nread`.
unfoldable pub empty_reads :
    {A : Type 0} → (Pool → Outcome (Pool × ℤ × A)) → A → ℕ → ℤ → Pool → Outcome (Pool × A)
unfolding default_alloc_cb read_cb
empty_reads bio_write rest zero nread pool = done (pool, rest)
empty_reads bio_write rest (suc n) nread pool = do
  (pool', base) ← default_alloc_cb pool
  (pool'', rest') ← read_cb bio_write rest pool' base nread
  empty_reads bio_write rest' n nread pool''
