-- ===== src/UdpPing.antt =====
-- The liveness probe of lib/mumble/udp_ping.c. The callbacks of the two timers and the calls of the
-- client are functions on the struct. What they ask of libuv and of the socket is returned as a list
-- of calls. A time is what `time` returns, converted to uint64_t.
pub mod Attempt
pub mod States
mod Tests
use mumble_web_demo.Prelude.{
  ℕ, zero, suc, ◌+◌, ◌-◌, Bool, true, false, Option, none, some, List, [], ◌∷◌, ◌++◌, if◌then◌else◌,
  leb, ltb, ◌==◌, length, take, drop, replicate, Outcome, done, abort, ◌>>=◌, ◌>>◌, check,
}
use mumble_web_demo.Prelude.Int.{ℤ, pos, ltb_ℤ}
use mumble_web_demo.Varint.{Encoded}
use mumble_web_demo.Varint as Varint

-- PING_BUF_SIZE, DEFAULT_PING_PERIOD and DEFAULT_PING_TIMEOUT
abbrev pub ping_buf_size : ℕ
ping_buf_size = 8

abbrev pub default_period : ℕ
default_period = 5000

abbrev pub default_timeout : ℕ
default_timeout = 1000

-- Calls of `uv_udp_ssl_write`, `uv_timer_start` and `uv_timer_stop`.
pub data Call : Type 0 where
  send : List ℕ → Call
  start_reply : ℤ → Call
  stop_reply : Call
  start_period : ℤ → Call
  stop_period : Call

-- `udp_ping_t` with its `udp_ping_attempt_t`, less the timers.
pub record Ping (Socket Address : Type 0) : Type 0 where
  pub socket : Socket
  pub sockaddr : Option Address
  pub connected : Bool
  pub ping_period : ℤ
  pub timeout : ℤ
  pub timestamp : ℕ
  pub waiting : Bool
  pub ping_buf : List ℕ

module _ {Socket Address : Type 0} where
  -- `mumble_udp_ping_init_ex`; `none` is a NULL socket.
  unfoldable pub init_ex : Option Socket → ℤ → ℤ → Outcome (Ping Socket Address)
  init_ex socket timeout ping_period = do
    check (ltb_ℤ (pos 0) timeout)
    check (ltb_ℤ timeout ping_period)
    s ← elim socket [ none ↦ abort | some s ↦ done s ]
    done (record {
      socket = s;
      sockaddr = none;
      connected = false;
      ping_period = ping_period;
      timeout = timeout;
      timestamp = 0;
      waiting = false;
      ping_buf = 0x20 ∷ replicate 7 0;
    })

  -- `mumble_udp_ping_init`
  unfoldable pub init : Option Socket → Outcome (Ping Socket Address)
  unfolding init_ex
  init socket = init_ex socket (pos default_timeout) (pos default_period)

  -- `mumble_udp_ping_address`
  unfoldable pub address : Ping Socket Address → Address → Ping Socket Address
  address p a = record p { sockaddr = some a }

  -- `udp_ping_attempt_init`
  unfoldable pub attempt_init : ℕ → Ping Socket Address → Ping Socket Address
  attempt_init now p = record p { timestamp = now; waiting = true }

  -- `reply_timer_cb`
  unfoldable pub reply_timer_cb : Ping Socket Address → Ping Socket Address
  reply_timer_cb p = record p { connected = false; waiting = false }

  -- `period_timer_cb`; the clock is read twice, and `written` is not initialised.
  unfoldable pub period_timer_cb :
      ℕ → ℕ → ℕ → Ping Socket Address → Outcome (Ping Socket Address × List Call)
  unfolding attempt_init
  period_timer_cb now later written p = do
    let p' = attempt_init now p
    e ← Varint.encode later (drop 1 p'.ping_buf) (pos (ping_buf_size - 2)) written
    check (e.ret == 0)
    check (leb (e.written + 1) ping_buf_size)
    let buf = take 1 p'.ping_buf ++ e.buf
    done (
      record p' { ping_buf = buf },
      send (take (e.written + 1) buf) ∷ start_reply p'.timeout ∷ [],
    )

  -- `mumble_udp_ping_recv`
  unfoldable pub recv : Ping Socket Address → ℕ → Ping Socket Address × List Call
  recv p t =
      if p.waiting
      then (if t == p.timestamp
          then (record p { connected = true; waiting = false }, stop_reply ∷ [])
          else (p, []))
      else (p, [])

  -- `mumble_udp_ping_start`
  unfoldable pub start : Ping Socket Address → Ping Socket Address × List Call
  start p = (p, start_period p.ping_period ∷ [])

  -- `mumble_udp_ping_stop`
  unfoldable pub stop : Ping Socket Address → Ping Socket Address × List Call
  stop p = (record p { connected = false }, stop_period ∷ stop_reply ∷ [])
