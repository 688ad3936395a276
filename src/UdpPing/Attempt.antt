-- ===== src/UdpPing/Attempt.antt =====
-- One attempt: the packet that `period_timer_cb` sends, and the reply that counts.
use mumble_web_demo.Prelude.{
  ℕ, suc, ◌-◌, ◌^◌, ◌≤◌, ◌<◌, ◌≡◌, ◌↔◌, ◌⊎◌, inl, inr, refl, sym, ◌∙◌, true, false, List, [], ◌∷◌,
  ◌++◌, length, length-append, length-drop, take, take-append, append-nil, drop, done, abort, arith,
  dec_lt,
}
use mumble_web_demo.Prelude.Int.{pos}
use mumble_web_demo.Varint.{encode, encode_size, decode}
use mumble_web_demo.Varint.Encode.{encode_lem}
use mumble_web_demo.Varint.Encoding.{encoding, encode_size_bounds, length-encoding}
use mumble_web_demo.Varint.RoundTrip.{received, decode-encoding}
use mumble_web_demo.Varint.Words.{join_halves}
use mumble_web_demo.UdpPing.{Ping, send, start_reply, period_timer_cb, attempt_init, recv}

size_small : (t : ℕ) → t < 2 ^ 32 → encode_size t ≤ 5
unfolding encode_size
size_small t h = ground arith

size_large : (t : ℕ) → 2 ^ 32 ≤ t → encode_size t ≡ 9
unfolding encode_size
size_large t h = ground arith

refused :
    (t written : ℕ) (buf : List ℕ)
    → encode_size t ≡ 9
    → encode t buf (pos 6) written ≡ done (record { ret = 1; buf = buf; written = written })
unfolding encode
refused t written buf big = ground (arith, big)

received_lem :
    (now t : ℕ) → now < 2 ^ 63 → t < 2 ^ 32 → (received t ≡ now) ↔ ((now ≡ t) × (t < 2 ^ 31))
unfolding received join_halves
received_lem now t hn ht = ground arith

pub read_back :
    (fuel t r : ℕ)
    → t < 2 ^ 32
    → decode (suc fuel) (encoding t) (pos (length (encoding t))) r
      ≡ done (record { ret = pos (encode_size t); result = received t })
read_back fuel t r h =
    let n = encode_size t - 1 in
    let e : length (encoding t) ≡ suc n = omega (arith, length-encoding t, encode_size_bounds t) in
    let covers : encode_size t ≤ suc n = omega (arith, encode_size_bounds t) in
    rw (e, sym (append-nil (encoding t))) (decode-encoding fuel t n r [] covers (omega (arith, h)))

module _ {Socket Address : Type 0} where
  -- What the buffer of a ping is: the static header, and room for seven bytes.
  pub record IsReady (p : Ping Socket Address) : Type 0 where
    pub tail : List ℕ
    pub buf : p.ping_buf ≡ 0x20 ∷ tail
    pub room : length tail ≡ 7

  -- The buffer of the ping holds its header and has room for seven bytes. A time from 2 ^ 32 on at
  -- the second read of the clock does not fit the six bytes that the packet leaves for it, and the
  -- assertion on the result of `varint_encode` fails. Any other is sent behind the header, the
  -- timer of the reply is started, and the ping waits for the time that the first read of the
  -- clock gave.
  pub period_cases :
      (now later written : ℕ) (p : Ping Socket Address)
      → IsReady p
      → ((2 ^ 32 ≤ later) × (period_timer_cb now later written p ≡ abort))
        ⊎ ((later < 2 ^ 32)
            × ((p' : Ping Socket Address) × (period_timer_cb now later written p
                  ≡ done (p', send (0x20 ∷ encoding later) ∷ start_reply p.timeout ∷ []))
                × (p'.timestamp ≡ now)
                × (p'.waiting ≡ true)
                × (p'.connected ≡ p.connected)
                × IsReady p'))
  unfolding period_timer_cb attempt_init
  period_cases now later written p r = elim (dec_lt later (2 ^ 32)) [
    | no over ↦
        let e : encode later r.tail (pos 6) written
            ≡ done (record { ret = 1; buf = r.tail; written = written }) =
          refused later written r.tail (size_large later (omega arith)) in
        inl (omega arith, ground (arith, r.buf, e))
    | yes fits ↦
        let n = encode_size later in
        let small : n ≤ 5 = size_small later fits in
        let buf' = encoding later ++ drop n r.tail in
        let e : encode later r.tail (pos 6) written
            ≡ done (record { ret = 0; buf = buf'; written = n }) =
          encode_lem later r.tail (pos 6) written (omega (arith, small, r.room))
          ∙ ground (arith, small) in
        let sent : take n buf' ≡ encoding later =
          take-append n 0 (encoding later) (drop n r.tail) (omega (arith, length-encoding later))
          ∙ append-nil (encoding later) in
        inr (
          fits,
          (
            record p { timestamp = now; waiting = true; ping_buf = 0x20 ∷ buf' },
            ground (arith, r.buf, e, sent, small),
            refl,
            refl,
            refl,
            record {
              tail = buf';
              buf = refl;
              room = omega (
                arith,
                length-append (encoding later) (drop n r.tail),
                length-drop n r.tail,
                length-encoding later,
                small,
                r.room,
              );
            },
          ),
        )
  ]

  -- A ping that is not connected sends its packet at a time below 2 ^ 32 at the second read of the
  -- clock, and below 2 ^ 63 at the first. Then `varint_decode` reads the packet behind its header,
  -- and if the time that it reads comes back as the reply, the ping becomes connected exactly if
  -- both reads of the clock gave the same time, and the time is below 2 ^ 31.
  pub echo_connects :
      (fuel now later written r : ℕ) (p : Ping Socket Address)
      → IsReady p
      → p.connected ≡ false
      → now < 2 ^ 63
      → later < 2 ^ 32
      → (p' : Ping Socket Address) × (bytes : List ℕ) × (n : ℕ) × (reply : ℕ) × (period_timer_cb now
            later written p
          ≡ done (p', send (0x20 ∷ bytes) ∷ start_reply p.timeout ∷ []))
        × (decode (suc fuel) bytes (pos (length bytes)) r
            ≡ done (record { ret = pos n; result = reply }))
        × (((recv p' reply).0.connected ≡ true) ↔ ((now ≡ later) × (later < 2 ^ 31)))
  unfolding recv
  echo_connects fuel now later written r p ready off hn hl =
      elim (period_cases now later written p ready) [
        | inl over ↦ absurd (omega (arith, over.0, hl))
        | inr ok ↦ (
          ok.1.0,
          encoding later,
          encode_size later,
          received later,
          ok.1.1,
          read_back fuel later r hl,
          iff ok.1.0 ok.1.2 ok.1.3 (ok.1.4 ∙ off),
        )
      ]
    where
      iff :
          (p' : Ping Socket Address)
          → p'.timestamp ≡ now
          → p'.waiting ≡ true
          → p'.connected ≡ false
          → ((recv p' (received later)).0.connected ≡ true) ↔ ((now ≡ later) × (later < 2 ^ 31))
      iff p' at waits off' = ground (arith, received_lem now later hn hl)
