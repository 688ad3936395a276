-- ===== src/Audio/Laws.antt =====
-- The probe through `udp_cb`, and the tunnel of audio.c up to a decoder of frames.
use mumble_web_demo.Prelude.{
  ℕ, suc, ◌+◌, ◌^◌, ◌≤◌, ◌<◌, ◌≡◌, inl, inr, refl, sym, ap, ◌∙◌, Bool, true, false, none, some,
  List, [], ◌∷◌, ◌++◌, append-nil, if◌then◌else◌, length, take, drop, replicate, length-append,
  length-drop, length-replicate, be16, be32, done, abort, ◌>>◌, check, arith,
}
use mumble_web_demo.Prelude.Int.{ℤ, pos, ltb_ℤ}
use mumble_web_demo.Prelude.Signed.{positive_lem, remaining}
use mumble_web_demo.Prelude.Memory.{write_at, write_at_back, write_at_two, read_at_two}
use mumble_web_demo.Varint.{encode_size}
use mumble_web_demo.Varint.Encoding.{encoding, encode_size_bounds}
use mumble_web_demo.Varint.RoundTrip.{received}
use mumble_web_demo.Varint.Laws.{received-eq_iff}
use mumble_web_demo.Opus.{LibOpus, Blocks}
use mumble_web_demo.Frame.{FrameBuffer, IsValid, contents, frame, type_udptunnel}
use mumble_web_demo.Frame.Decoder.{is_audio, append, pop, bool_int}
use mumble_web_demo.Frame.Decoder.Header.{append_lem, ready_short, length-contents}
use mumble_web_demo.Frame.Decoder.Laws.{ready-holds, frame_type-holds, pop_lem}
use mumble_web_demo.UdpPing.{Ping, send, start_reply, stop_reply, period_timer_cb, recv}
use mumble_web_demo.UdpPing.Attempt.{IsReady, period_cases, read_back}
use mumble_web_demo.TcpSsl
use mumble_web_demo.Audio.{Audio, udp_cb, is_udp, tunnel}

module _ {Address : Type 0} where
  -- The reply that a ping waits for.
  recv_lem :
      (p : Ping (Unit {0}) Address) (t : ℕ)
      → p.waiting ≡ true
      → p.timestamp ≡ t
      → recv p t ≡ (record p { connected = true; waiting = false }, stop_reply ∷ [])
  unfolding recv
  recv_lem p t w e = rw w (ground (arith, e))

  -- The probe is ready, and both reads of the clock give the same time, below 2 ^ 31. Then the timer of the period sends
  -- a datagram, and if that comes back, `udp_cb` stops the timer of the reply, calls no callback and voice goes
  -- over UDP from then on, by `mumble_audio_is_udp`.
  pub is_udp-udp_cb :
      {lib : LibOpus} (malloc : Blocks) (fuel unset t written : ℕ) (audio : Audio lib Address)
      → IsReady audio.pinger
      → t < 2 ^ 31
      → (p' : Ping (Unit {0}) Address) × (bytes : List ℕ) × (audio' : Audio lib Address)
        × (period_timer_cb t t written audio.pinger
            ≡ done (p', send bytes ∷ start_reply audio.pinger.timeout ∷ []))
        × (udp_cb malloc (suc fuel) unset (record audio { pinger = p' }) bytes
            ≡ done (audio', none, stop_reply ∷ []))
        × (is_udp audio' ≡ true)
  unfolding udp_cb is_udp
  is_udp-udp_cb malloc fuel unset t written audio ready' small =
      elim (period_cases t t written audio.pinger ready') [
        | inl over ↦ absurd (omega (arith, over.0))
        | inr ok ↦
            let p' = ok.1.0 in
            let back : received t ≡ t = (received-eq_iff t (omega arith)).1 (inl (omega arith)) in
            (
              p',
              0x20 ∷ encoding t,
              record audio { pinger = record p' { connected = true; waiting = false } },
              ok.1.1,
              rw
                  (
                    remaining 1 (length (encoding t)) (suc (length (encoding t))) (omega arith),
                    read_back fuel t unset (omega arith),
                    back,
                    positive_lem (pos (encode_size t)) (omega (arith, encode_size_bounds t)),
                    recv_lem p' t ok.1.3 ok.1.2,
                  )
                  refl,
              refl,
            )
      ]

check_then : (b : Bool) (x : List ℕ) → (check b >> done x) ≡ (if b then done x else abort)
check_then true x = refl
check_then false x = refl

-- With a block of the size asked for, a packet that does not go over UDP is written to the TLS stream
-- as a frame of type UDPTUNNEL; the call aborts if `SSL_write` does not return more than 1.
pub tunnel_lem :
    (malloc : Blocks) (ssl_write : List ℕ → ℤ) (buf block : List ℕ)
    → malloc (length buf + 6) ≡ some block
    → length block ≡ length buf + 6
    → tunnel malloc ssl_write buf ≡ (
        if ltb_ℤ (pos 1) (ssl_write (frame type_udptunnel buf))
        then done (frame type_udptunnel buf)
        else abort)
unfolding tunnel TcpSsl.write
tunnel_lem malloc ssl_write buf block e whole =
    let n = length buf in
    let zeros : List ℕ = replicate (n + 6) 0 in
    let zeros_length : length zeros ≡ n + 6 = length-replicate (n + 6) 0 in
    let cleared : write_at block 0 zeros ≡ done (zeros ++ drop (length zeros) block) =
      write_at_back [] block 0 refl zeros (omega (arith, zeros_length, whole)) in
    let all : List ℕ = zeros ++ drop (length zeros) block in
    let all_length : n + 6 ≤ length all =
      omega (arith, length-append zeros (drop (length zeros) block), zeros_length) in
    let behind : List ℕ = drop 4 (drop 2 all) in
    let behind_length : n ≤ length behind =
      omega (arith, length-drop 4 (drop 2 all), length-drop 2 all, all_length) in
    rw
      (
        e,
        cleared,
        write_at_back [] all 0 refl (be16 type_udptunnel) (omega (arith, all_length)),
        write_at_back (be16 type_udptunnel) (drop 2 all) 2 refl (be32 n)
            (omega (arith, length-drop 2 all, all_length)),
        write_at_two (be16 type_udptunnel) (be32 n) behind 6 refl buf behind_length,
        read_at_two (be16 type_udptunnel) (be32 n ++ buf) (drop n behind) (n + 6) (omega arith),
      )
      (check_then (ltb_ℤ (pos 1) (ssl_write (frame type_udptunnel buf))) (frame type_udptunnel buf))

-- What goes through the tunnel, appended to an empty and valid decoder of frames with room for it, is
-- ready there as one frame of audio.
pub is_audio-tunnel :
    (malloc : Blocks) (ssl_write : List ℕ → ℤ) (buf block : List ℕ) (dec : FrameBuffer)
    → malloc (length buf + 6) ≡ some block
    → length block ≡ length buf + 6
    → ltb_ℤ (pos 1) (ssl_write (frame type_udptunnel buf)) ≡ true
    → IsValid dec
    → dec.buffer_size ≡ 0
    → length buf + 6 ≤ dec.buffer_allocated
    → (sent : List ℕ) × (dec' : FrameBuffer) × (tunnel malloc ssl_write buf ≡ done sent)
      × (append dec sent ≡ done (dec', true))
      × (is_audio dec' ≡ done true)
      × ((dec'' : FrameBuffer) × (pop dec' ≡ done (dec'', pos 0)) × (dec''.buffer_size ≡ 0))
unfolding is_audio bool_int
is_audio-tunnel malloc ssl_write buf block dec e whole good v empty room =
    let sent = frame type_udptunnel buf in
    let size : length sent ≡ length buf + 6 = omega arith in
    let run : tunnel malloc ssl_write buf ≡ done sent =
      rw (tunnel_lem malloc ssl_write buf block e whole, good) refl in
    elim (append_lem dec v sent) [
      | inl full ↦ absurd (omega (arith, full.0, size, empty, room))
      | inr got ↦
          let dec' = got.1.0 in
          let v' = got.1.4 in
          let holds : contents dec' ≡ sent ++ [] =
            got.1.2 ∙ ap (λ (k : ℕ). take k dec.buffer ++ sent) empty ∙ sym (append-nil sent) in
          let popped = pop_lem dec' v' type_udptunnel buf [] holds in
          let none_left : popped.0.buffer_size ≡ 0 =
            omega (arith, ap length popped.2, length-contents popped.0 popped.3) in
          (
            sent,
            dec',
            run,
            got.1.1 ∙ rw (ready-holds dec' v' type_udptunnel buf [] holds) refl,
            rw (frame_type-holds dec' v' type_udptunnel buf [] holds (omega arith)) refl,
            (
              popped.0,
              popped.1
                  ∙ rw (ready_short popped.0 popped.3 (omega (arith, none_left)), none_left) refl,
              none_left,
            ),
          )
    ]
