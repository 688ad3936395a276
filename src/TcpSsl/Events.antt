-- ===== src/TcpSsl/Events.antt =====
-- The events of libuv on the TLS stream of lib/mumble/uv_tcp_ssl.c: the connection, and bytes from the
-- network, which OpenSSL takes for the handshake or for the client.
pub mod Run
mod Tests
use mumble_web_demo.Prelude.{
  ℕ, zero, suc, ◌≡◌, Bool, true, false, Option, none, some, List, [], ◌∷◌, ◌++◌, if◌then◌else◌,
  length, Outcome, done, abort, ◌>>=◌, ◌>>◌, check,
}
use mumble_web_demo.Prelude.Int.{ℤ, pos, ◌==ℤ◌}
use mumble_web_demo.BufferPool.{Pool}
use mumble_web_demo.TcpSsl.{Ssl, ReadCallback, read_all, default_alloc_cb, read_cb}

-- MUMBLE_CONNECTED and MUMBLE_FAILED
pub data Status : Type 0 where
  is_connected has_failed : Status

-- What the callback of the connection does to the pool, as it may write to the stream; `none` is
-- NULL.
abbrev pub ConnectCallback : Type 0
ConnectCallback = Option (Status → Pool → Outcome Pool)

unfoldable pub tell : ConnectCallback → Status → Pool → Outcome Pool
tell none status p = done p
tell (some cb) status p = cb status p

-- What `SSL_in_init` and `SSL_is_init_finished` say.
pub data Phase : Type 0 where
  in_init init_finished state_unknown : Phase

-- The rest of OpenSSL: the phase, `BIO_write` to the reading side, which has stored all bytes when
-- its callback is called, and `SSL_do_handshake` with what its writes do to the pool and what
-- `SSL_get_error` says.
pub record Engine (ssl : Ssl) : Type 0 where
  pub phase : ssl.State → Phase
  pub put : ssl.State → List ℕ → ssl.State
  pub shake : ssl.State → Pool → Outcome (Pool × ssl.State × ℤ)

module _ (ssl : Ssl) (engine : Engine ssl) (cb : ReadCallback)
    (connected_cb : ConnectCallback) where
  open ssl use {State}
  open engine use {phase, put, shake}

  -- The state of OpenSSL and the bytes that the client's callback was given so far.
  pub record Session : Type 0 where
    pub state : State
    pub given : List (List ℕ)

  -- `uv_ssl_handshake`. That a certificate is invalid is only printed.
  unfoldable pub handshake : Session → Pool → Outcome (Pool × Session)
  unfolding tell
  handshake session pool = do
    (pool', s, req) ← shake session.state pool
    pool'' ←
        if req ==ℤ pos 0
        then tell connected_cb is_connected pool'
        else if req ==ℤ pos 1
        then tell connected_cb has_failed pool'
        else done pool'
    done (pool'', record session { state = s })

  -- The case BIO_CB_WRITE|BIO_CB_RETURN of `uv_ssl_rbio_cb`, with fuel for `uv_ssl_read`.
  unfoldable pub rbio_write : Phase → ℕ → Session → Pool → Outcome (Pool × Session)
  unfolding handshake
  rbio_write in_init fuel session pool = handshake session pool
  rbio_write init_finished fuel session pool = do
    r ← read_all ssl cb fuel session.state pool
    done (r.pool, record { state = r.state; given = session.given ++ r.given })
  rbio_write state_unknown fuel session pool = abort

  -- `uv_ssl_connect_cb`, with the result of `uv_read_start`.
  unfoldable pub connect_cb : ℤ → ℤ → Session → Pool → Outcome (Pool × Session)
  unfolding handshake
  connect_cb status ret session pool = do
    check (status ==ℤ pos 0)
    check (ret ==ℤ pos 0)
    handshake session pool

  -- `BIO_write` to the reading side of OpenSSL, with its callback.
  unfoldable pub bio_write : (State → ℕ) → List ℕ → Session → Pool → Outcome (Pool × ℤ × Session)
  unfolding rbio_write
  bio_write rounds bytes session pool = do
    let s = put session.state bytes
    (pool', after) ← rbio_write (phase s) (rounds s) (record session { state = s }) pool
    done (pool', pos (length bytes), after)

  -- libuv asks for a buffer, stores bytes from the network there, and reports how many.
  unfoldable pub arrive : (State → ℕ) → List ℕ → Session → Pool → Outcome (Pool × Session)
  unfolding default_alloc_cb read_cb bio_write
  arrive rounds bytes session pool = do
    (pool', base) ← default_alloc_cb pool
    read_cb (bio_write rounds bytes session) session pool' base (pos (length bytes))

  -- One after the other, chunks of bytes arrive.
  unfoldable pub arrive_all :
      (State → ℕ) → List (List ℕ) → Session → Pool → Outcome (Pool × Session)
  unfolding arrive
  arrive_all rounds [] session pool = done (pool, session)
  arrive_all rounds (bytes ∷ chunks) session pool = do
    (pool', after) ← arrive rounds bytes session pool
    arrive_all rounds chunks after pool'
