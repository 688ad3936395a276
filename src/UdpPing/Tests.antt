-- ===== src/UdpPing/Tests.antt =====
-- Runs of the liveness probe.
use mumble_web_demo.Prelude.{
  ℕ, suc, ◌^◌, ◌≤◌, ◌<◌, ◌≡◌, ◌↔◌, ◌⊎◌, refl, true, false, none, List, [], ◌∷◌, done, abort, arith,
  length, replicate,
}
use mumble_web_demo.Prelude.Int.{pos}
use mumble_web_demo.Varint.{encode, decode}
use mumble_web_demo.Varint.Encoding.{encoding}
use mumble_web_demo.UdpPing.{
  Ping, send, start_reply, stop_reply, period_timer_cb, reply_timer_cb, recv, start, stop,
}
use mumble_web_demo.UdpPing.Attempt.{IsReady, period_cases, echo_connects}
use mumble_web_demo.UdpPing.States.{
  Timers, calls, created, next, started, IsSound, replies, Reach-IsSound, attempt_outcome,
  stop_late_reply,
}

abbrev idle : Ping ℕ ℕ
idle = record {
  socket = 1;
  sockaddr = none;
  connected = false;
  ping_period = pos 5000;
  timeout = pos 1000;
  timestamp = 0;
  waiting = false;
  ping_buf = 0x20 ∷ replicate 7 0;
}

abbrev asked : Ping ℕ ℕ
asked = record idle {
  timestamp = 300;
  waiting = true;
  ping_buf = 0x20 ∷ 0x81 ∷ 0x2c ∷ replicate 5 0;
}

abbrev both_off : Timers
both_off = record { period = false; reply = false }

idle-IsReady : IsReady idle
idle-IsReady = record { tail = replicate 7 0; buf = refl; room = refl }

ask :
    period_timer_cb 300 300 9 idle
    ≡ done (asked, send (0x20 ∷ 0x81 ∷ 0x2c ∷ []) ∷ start_reply (pos 1000) ∷ [])
unfolding period_timer_cb encode
ask = refl

period_cases_example :
    let Socket = ℕ in
    let Address = ℕ in
    let now : ℕ = 300 in
    let later : ℕ = 300 in
    let written : ℕ = 9 in
    let p = idle in
    ((2 ^ 32 ≤ later) × (period_timer_cb now later written p ≡ abort))
    ⊎ ((later < 2 ^ 32)
        × ((p' : Ping Socket Address) × (period_timer_cb now later written p
              ≡ done (p', send (0x20 ∷ encoding later) ∷ start_reply p.timeout ∷ []))
            × (p'.timestamp ≡ now)
            × (p'.waiting ≡ true)
            × (p'.connected ≡ p.connected)
            × IsReady p'))
period_cases_example = period_cases 300 300 9 idle idle-IsReady

echo_connects_example :
    let Socket = ℕ in
    let Address = ℕ in
    let fuel : ℕ = 0 in
    let now : ℕ = 300 in
    let later : ℕ = 300 in
    let written : ℕ = 9 in
    let r : ℕ = 5 in
    let p = idle in
    (p' : Ping Socket Address) × (bytes : List ℕ) × (n : ℕ) × (reply : ℕ) × (period_timer_cb now
        later written p
      ≡ done (p', send (0x20 ∷ bytes) ∷ start_reply p.timeout ∷ []))
    × (decode (suc fuel) bytes (pos (length bytes)) r
        ≡ done (record { ret = pos n; result = reply }))
    × (((recv p' reply).0.connected ≡ true) ↔ ((now ≡ later) × (later < 2 ^ 31)))
echo_connects_example =
    echo_connects 0 300 300 9 5 idle idle-IsReady refl (omega arith) (omega arith)

Reach-IsSound_example :
    let p = (start idle).0 in let t = (calls (start idle).1 both_off) in IsSound p t
Reach-IsSound_example =
    Reach-IsSound idle (start idle).0 (calls (start idle).1 both_off) idle-IsReady
      (next created (started idle both_off))

attempt_outcome_example :
    let p' = asked in
    let now : ℕ = 300 in
    let ts : List ℕ = 4 ∷ [] in
    (((reply_timer_cb (replies p' ts)).connected ≡ false)
      × ((reply_timer_cb (replies p' ts)).waiting ≡ false))
    × (((recv (replies p' ts) now).0.connected ≡ true)
        × ((recv (replies p' ts) now).0.waiting ≡ false)
        × ((recv (replies p' ts) now).1 ≡ stop_reply ∷ []))
attempt_outcome_example =
    attempt_outcome idle asked 300 300 9
      (send (0x20 ∷ 0x81 ∷ 0x2c ∷ []) ∷ start_reply (pos 1000) ∷ []) (4 ∷ []) idle-IsReady ask
      (λ e. absurd (omega (arith, e)), tt)

stop_late_reply_example :
    let p = asked in
    let t = both_off in
    ((recv (stop p).0 p.timestamp).0.connected ≡ true)
    × (calls (recv (stop p).0 p.timestamp).1 (calls (stop p).1 t)
        ≡ record { period = false; reply = false })
stop_late_reply_example = stop_late_reply asked both_off refl
