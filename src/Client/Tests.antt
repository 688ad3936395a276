-- ===== src/Client/Tests.antt =====
-- Runs of the client.
use mumble_web_demo.Prelude.{
  ℕ, suc, ◌≡◌, ◌≢◌, refl, ap, some, List, [], ◌∷◌, ◌++◌, length, replicate, done, abort, ◌>>=◌,
  arith,
}
use mumble_web_demo.Prelude.Int.{ℤ, pos}
use mumble_web_demo.Frame.{version, authenticate, ping, udptunnel, FrameBuffer, IsValid, contents}
use mumble_web_demo.Frame.Types.{type_number}
use mumble_web_demo.Frame.Stream.{Entry, wire}
use mumble_web_demo.Fixtures.{
  toy_opus, blocks, sample_pb, sample_laws, sample_messages, sample_client,
}
use mumble_web_demo.Client.{
  Client, start_timer, wrote, message_cb_adapter, connect_cb_adapter, handle_audio,
}
use mumble_web_demo.Client.Partial.{IsPartial}
use mumble_web_demo.Client.Pump.{tell_all, with_decoder, message_cb_adapter-tells}
use mumble_web_demo.Client.Tunnel.{handle_audio-abort}
use mumble_web_demo.Client.Writes.{IsMessages, Goes, connect_cb_adapter-wire}

version-no_audio : version ≢ udptunnel
unfolding type_number
version-no_audio e = let n : 0 ≡ 1 = ap type_number e in absurd (omega (arith, n))

authenticate-no_audio : authenticate ≢ udptunnel
unfolding type_number
authenticate-no_audio e = let n : 2 ≡ 1 = ap type_number e in absurd (omega (arith, n))

ping-no_audio : ping ≢ udptunnel
unfolding type_number
ping-no_audio e = let n : 3 ≡ 1 = ap type_number e in absurd (omega (arith, n))

abbrev hello : Entry sample_pb
unfolding type_number
hello = record {
  kind = version;
  message = (version, []);
  is_kind = refl;
  no_audio = version-no_audio;
}

abbrev login : Entry sample_pb
unfolding type_number
login = record {
  kind = authenticate;
  message = (authenticate, 110 ∷ 105 ∷ 0 ∷ 1 ∷ []);
  is_kind = refl;
  no_audio = authenticate-no_audio;
}

abbrev empty_ping : Entry sample_pb
unfolding type_number
empty_ping = record { kind = ping; message = (ping, []); is_kind = refl; no_audio = ping-no_audio }

abbrev taken : List ℕ → ℤ
taken bytes = pos 20

-- The first bytes of a frame of a Ping wait.
abbrev waiting : Client toy_opus ℕ
waiting = sample_client (0 ∷ 3 ∷ [])

waiting-IsValid : IsValid waiting.decoder
waiting-IsValid = record { whole = refl; fits = omega arith; within = omega arith }

encoder-IsValid : IsValid waiting.encoder
encoder-IsValid = record { whole = refl; fits = omega arith; within = omega arith }

abbrev left_over : List ℕ
left_over = 0 ∷ 3 ∷ 0 ∷ []

left_over-IsPartial : IsPartial left_over
left_over-IsPartial = record {
  type = 3;
  payload = [];
  more = 0 ∷ 0 ∷ 0 ∷ [];
  split = refl;
  short = omega arith;
  not_five = λ e. absurd (omega (arith, e));
  small = omega arith;
}

both_frames :
    contents waiting.decoder ++ (0 ∷ 0 ∷ 0 ∷ 0 ∷ left_over)
    ≡ wire sample_pb (empty_ping ∷ []) ++ left_over
unfolding wire type_number empty_ping
both_frames = refl

-- A frame of voice.
abbrev tunnelling : Client toy_opus ℕ
tunnelling = sample_client (0 ∷ 1 ∷ 0 ∷ 0 ∷ 0 ∷ 4 ∷ 0x80 ∷ 5 ∷ 6 ∷ 7 ∷ [])

tunnelling-IsValid : IsValid tunnelling.decoder
tunnelling-IsValid = record { whole = refl; fits = omega arith; within = omega arith }

hello-Goes : Goes sample_pb sample_laws 40 taken hello
unfolding hello
hello-Goes = record { proto = refl; fits = omega arith; taken = refl }

login-Goes : Goes sample_pb sample_laws 40 taken login
unfolding login
login-Goes = record { proto = refl; fits = omega arith; taken = refl }

empty_ping-Goes : Goes sample_pb sample_laws 40 taken empty_ping
unfolding empty_ping
empty_ping-Goes = record { proto = refl; fits = omega arith; taken = refl }

message_cb_adapter-tells_example :
    let pb = sample_pb in
    let messages = sample_messages in
    let malloc = blocks in
    let varint_fuel : ℕ = 1 in
    let unset : ℕ = 9 in
    let client = waiting in
    let buf : List ℕ = 0 ∷ 0 ∷ 0 ∷ 0 ∷ left_over in
    let rest = left_over in
    let queue = empty_ping ∷ [] in
    (dec' : FrameBuffer) × (contents dec' ≡ rest)
    × IsValid dec'
    × (message_cb_adapter pb messages malloc varint_fuel unset (suc (length queue)) client buf ≡ (
        tell_all toy_opus ℕ sample_pb sample_laws sample_messages blocks 1 9 client queue
        >>= with_decoder toy_opus ℕ sample_pb sample_laws sample_messages blocks 1 9 dec'))
message_cb_adapter-tells_example =
    message_cb_adapter-tells toy_opus ℕ sample_pb sample_laws sample_messages blocks 1 9 waiting
      (0 ∷ 0 ∷ 0 ∷ 0 ∷ left_over) left_over (empty_ping ∷ []) waiting-IsValid both_frames
      left_over-IsPartial (omega arith)

handle_audio-abort_example :
    let pb = sample_pb in
    let messages = sample_messages in
    let malloc = blocks in
    let fuel : ℕ = 0 in
    let unset : ℕ = 9 in
    let client = tunnelling in handle_audio pb messages malloc (suc fuel) unset client ≡ abort
handle_audio-abort_example =
    handle_audio-abort sample_pb sample_messages blocks 0 9 tunnelling (0x80 ∷ 5 ∷ 6 ∷ 7 ∷ []) []
      tunnelling-IsValid refl (omega arith) refl (λ e. absurd (omega (arith, e)))

sample_messages-IsMessages : IsMessages sample_messages
sample_messages-IsMessages = record {
  same_version_name = λ v w. refl;
  same_version_package = λ v w. refl;
  same_ping_name = λ v w. refl;
  same_ping_package = λ v w. refl;
  absent_version = λ n. refl;
  absent_timestamp = λ n. refl;
}

connect_cb_adapter-wire_example :
    let pb = sample_pb in
    let messages = sample_messages in
    let malloc = blocks in
    let ssl_write = taken in
    let client = waiting in
    let addr : ℕ = 17 in
    let now = pos 300 in
    let ping = empty_ping in
    (client' : Client toy_opus ℕ) × (b1 b2 b3 : List ℕ) × (connect_cb_adapter pb messages malloc
        ssl_write client
        (pos 0, addr)
        now
      ≡ done (client', start_timer 15000 30000 ∷ wrote b1 ∷ wrote b2 ∷ wrote b3 ∷ []))
    × (b1 ++ (b2 ++ b3) ≡ wire pb (hello ∷ login ∷ ping ∷ []))
    × (client'.audio.addr ≡ some addr)
    × IsValid client'.encoder
unfolding hello login empty_ping
connect_cb_adapter-wire_example =
    connect_cb_adapter-wire sample_pb sample_laws sample_messages taken blocks waiting 17 (pos 300)
      (replicate 3 0) hello login empty_ping sample_messages-IsMessages refl refl encoder-IsValid
      refl refl refl hello-Goes login-Goes empty_ping-Goes
