-- ===== src/TcpSsl/Setup.antt =====
-- The set-up of the TLS stream of lib/mumble/uv_tcp_ssl.c, and the lookup of the server's name. What
-- OpenSSL and libuv return is a parameter, and a pointer is whether it is not NULL.
mod Tests
use mumble_web_demo.Prelude.{ℕ, List, Bool, Outcome, ◌>>=◌, ◌>>◌, check, in_range}
use mumble_web_demo.Prelude.Int.{ℤ, pos, ◌==ℤ◌}
use mumble_web_demo.BufferPool.{Pool, Malloc}
use mumble_web_demo.TcpSsl.{Ssl, ReadCallback, init_pool}
use mumble_web_demo.TcpSsl.Events.{Engine, ConnectCallback, Session, connect_cb}

-- What `mumble_uv_ssl_init` looks at: the results of `uv_tcp_init`, `SSL_CTX_new`,
-- `SSL_CTX_set_default_verify_paths` and `SSL_new`.
pub record Made : Type 0 where
  pub tcp : ℤ
  pub ssl_ctx : Bool
  pub verify_paths : ℤ
  pub ssl : Bool

-- `mumble_uv_ssl_init`
unfoldable pub init : Made → Malloc → Outcome Pool
init made malloc = do
  check (made.tcp ==ℤ pos 0)
  check made.ssl_ctx
  check (made.verify_paths ==ℤ pos 1)
  check made.ssl
  init_pool malloc

-- What `mumble_uv_ssl_connect` looks at: both calls of `malloc`, the BIO, and
-- `uv_getaddrinfo` on the name and the port.
pub record Lookup : Type 0 where
  pub creq : Bool
  pub req : Bool
  pub rbio : Bool
  pub getaddrinfo : List ℕ → List ℕ → ℤ

-- `mumble_uv_ssl_connect`, which writes through `req` without a test.
unfoldable pub connect : Lookup → List ℕ → List ℕ → Outcome (Unit {0})
connect lookup hostname port = do
  check lookup.creq
  in_range lookup.req
  check lookup.rbio
  check (lookup.getaddrinfo hostname port ==ℤ pos 0)

-- `uv_ssl_dns_cb`, with the result of `uv_tcp_connect`.
unfoldable pub dns_cb : ℤ → ℤ → Outcome (Unit {0})
dns_cb status ret = do check (status ==ℤ pos 0); check (ret ==ℤ pos 0)

-- The events up to the connection: the lookup, its answer, and what libuv says of the connection.
unfoldable pub establish :
    (ssl : Ssl) (engine : Engine ssl) (cb : ReadCallback) (connected_cb : ConnectCallback)
    → Lookup
    → List ℕ
    → List ℕ
    → ℤ × ℤ
    → ℤ × ℤ
    → Session ssl engine cb connected_cb
    → Pool
    → Outcome (Pool × Session ssl engine cb connected_cb)
unfolding connect dns_cb
establish ssl engine cb connected_cb lookup hostname port (answered, ret) (status, started) session
      pool =
    connect lookup hostname port
    >> (dns_cb answered ret >> connect_cb ssl engine cb connected_cb status started session pool)
