-- ===== src/Client/Connect.antt =====
-- `mumble_client_connect` of lib/mumble/mumble_client.c: the port as text, and the lookup.
mod Tests
use mumble_web_demo.Prelude.{
  ℕ, zero, suc, ◌+◌, ◌*◌, ◌-◌, ◌/◌, ◌%◌, ◌^◌, ◌<◌, ◌≤◌, ◌≡◌, ◌⊎◌, inl, inr, refl, List, [], ◌∷◌,
  ◌++◌, take, take_all, length, length-append, length-replicate, ap, replicate, ltb, ◌==◌,
  append_assoc, append-nil, if◌then◌else◌, Bool-cases, ltb→lt, true, false, Outcome, done, arith,
  dec_lt,
}
use mumble_web_demo.Opus.{LibOpus}
use mumble_web_demo.TcpSsl.Setup
use mumble_web_demo.TcpSsl.Setup.{Lookup}
use mumble_web_demo.Client.{Client}

-- The decimal digits of a number, with at most so many of them.
unfoldable pub decimal : ℕ → ℕ → List ℕ
decimal zero n = []
decimal (suc left) n =
    let front = decimal left (n / 10) in
    if ltb n 10 then (48 + n) ∷ [] else front ++ ((48 + n % 10) ∷ [])

-- `port_str`, six bytes: what `snprintf` prints of the port, cut behind five characters.
unfoldable pub port_str : ℕ → List ℕ
unfolding decimal
port_str port = let text = take 5 (decimal 5 port) in text ++ replicate (6 - length text) 0

-- `mumble_client_connect`
unfoldable pub connect :
    {lib : LibOpus} {Address : Type 0} → Lookup → Client lib Address → Outcome (Unit {0})
unfolding port_str
connect lookup client = Setup.connect lookup client.hostname (port_str client.port)

-- The number that the decimal digits before a zero stand for, with what stands before them.
abbrev pub value : ℕ → List ℕ → ℕ
value before [] = before
value before (c ∷ cs) = if c == 0 then before else value (10 * before + (c - 48)) cs

the_digits : (n : ℕ) → 10 * (n / 10) + ((48 + n % 10) - 48) ≡ n
the_digits n = omega arith

zeros_lem : (n : ℕ) → n ≤ 5 → replicate {A = ℕ} (6 - n) 0 ≡ 0 ∷ replicate (5 - n) 0
zeros_lem n h = let e : 6 - n ≡ suc (5 - n) = omega arith in rw e refl

decimal-length : (left n : ℕ) → length (decimal left n) ≤ left
unfolding decimal
decimal-length zero n = omega arith
decimal-length (suc left) n = elim (dec_lt n 10) [
  | yes h ↦ ground (arith, h)
  | no h ↦ ground (
    arith,
    h,
    decimal-length left (n / 10),
    length-append (decimal left (n / 10)) ((48 + n % 10) ∷ []),
  )
]

-- With room for all digits, they stand for the number.
value-decimal :
    (left n : ℕ) (rest : List ℕ) → n < 10 ^ left → value 0 (decimal left n ++ rest) ≡ value n rest
unfolding decimal
value-decimal zero n rest h = let e : n ≡ 0 = omega arith in rw e refl
value-decimal (suc left) n rest h = elim (dec_lt n 10) [
  | yes small ↦ ground (arith, small)
  | no large ↦
      let fewer : n / 10 < 10 ^ left = omega arith in
      let c = 48 + n % 10 in
      let front = value-decimal left (n / 10) (c ∷ rest) fewer in
      let digit : value (n / 10) (c ∷ rest) ≡ value n rest =
        ground (arith, ap (λ m. value m rest) (the_digits n)) in
      ground (arith, large, append_assoc (decimal left (n / 10)) (c ∷ []) rest, front, digit)
]

-- The port of a client is a `uint16_t`. Then the text that it is looked up by has six bytes, the last
-- of them zero, and stands for the port.
pub port_str-value :
    (port : ℕ) → port < 2 ^ 16 → (length (port_str port) ≡ 6) × (value 0 (port_str port) ≡ port)
unfolding port_str
port_str-value port h =
    let short = decimal-length 5 port in
    let whole = take_all 5 (decimal 5 port) short in
    let zeros : replicate {A = ℕ} (6 - length (decimal 5 port)) 0
        ≡ 0 ∷ replicate (5 - length (decimal 5 port)) 0 =
      zeros_lem (length (decimal 5 port)) short in
    (
      rw (whole) (
          ground (
            arith,
            length-append (decimal 5 port) (replicate (6 - length (decimal 5 port)) 0),
            length-replicate {A = ℕ} (6 - length (decimal 5 port)) 0,
            short,
          )),
      rw (whole, zeros)
          (value-decimal 5 port (0 ∷ replicate (5 - length (decimal 5 port)) 0) (omega arith)),
    )
