-- ===== src/Audio/Tests.antt =====
-- Runs of the probe and of the tunnel.
use mumble_web_demo.Prelude.{ℕ, suc, ◌≡◌, refl, true, none, List, [], ◌∷◌, replicate, done, arith}
use mumble_web_demo.Prelude.Int.{ℤ, pos}
use mumble_web_demo.Frame.{FrameBuffer, IsValid}
use mumble_web_demo.Frame.Decoder.{append, is_audio, pop}
use mumble_web_demo.UdpPing.{Ping, send, start_reply, stop_reply, period_timer_cb}
use mumble_web_demo.UdpPing.Attempt.{IsReady}
use mumble_web_demo.Fixtures.{toy_opus, blocks, sample_audio, holding}
use mumble_web_demo.Audio.{Audio, udp_cb, is_udp, tunnel}
use mumble_web_demo.Audio.Laws.{is_udp-udp_cb, is_audio-tunnel}

sample-IsReady : IsReady sample_audio.pinger
sample-IsReady = record { tail = replicate 7 0; buf = refl; room = refl }

abbrev taken : List ℕ → ℤ
taken bytes = pos 20

empty-IsValid : IsValid (holding [])
empty-IsValid = record { whole = refl; fits = omega arith; within = omega arith }

is_udp-udp_cb_example :
    let malloc = blocks in
    let fuel : ℕ = 0 in
    let unset : ℕ = 9 in
    let t : ℕ = 300 in
    let written : ℕ = 5 in
    let audio = sample_audio in
    (p' : Ping (Unit {0}) ℕ) × (bytes : List ℕ) × (audio' : Audio toy_opus ℕ) × (period_timer_cb t t
        written audio.pinger
      ≡ done (p', send bytes ∷ start_reply audio.pinger.timeout ∷ []))
    × (udp_cb malloc (suc fuel) unset (record audio { pinger = p' }) bytes
        ≡ done (audio', none, stop_reply ∷ []))
    × (is_udp audio' ≡ true)
is_udp-udp_cb_example = is_udp-udp_cb blocks 0 9 300 5 sample_audio sample-IsReady (omega arith)

is_audio-tunnel_example :
    let malloc = blocks in
    let ssl_write = taken in
    let buf : List ℕ = 7 ∷ 8 ∷ [] in
    let dec = holding [] in
    (sent : List ℕ) × (dec' : FrameBuffer) × (tunnel malloc ssl_write buf ≡ done sent)
    × (append dec sent ≡ done (dec', true))
    × (is_audio dec' ≡ done true)
    × ((dec'' : FrameBuffer) × (pop dec' ≡ done (dec'', pos 0)) × (dec''.buffer_size ≡ 0))
is_audio-tunnel_example =
    is_audio-tunnel blocks taken (7 ∷ 8 ∷ []) (replicate 8 0) (holding []) refl refl refl
      empty-IsValid refl (omega arith)
