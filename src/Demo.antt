-- ===== src/Demo.antt =====
-- The demo program of src/main.c: its set-up, what it makes of the messages and the voice that
-- it is told of, and its tone.
-- The values of the sine, scaled to 16 bits, are a parameter.
pub mod Run
mod Tests
use mumble_web_demo.Prelude.{
  ℕ, zero, suc, ◌+◌, ◌*◌, ◌≡◌, refl, ap, sym, List, [], ◌∷◌, ◌++◌, append_assoc, length,
  length-append, length-drop, drop, ◌%◌, ◌/◌, Option, none, some, ◌==◌, if◌then◌else◌, bit_and,
  ◌>>>◌, or_fault, Outcome, done, fault, ◌>>=◌, ◌>>◌, true, arith,
}
use mumble_web_demo.Prelude.Memory.{write_at, write_at_back}
use mumble_web_demo.Ocb.{Aes}
use mumble_web_demo.Opus.{LibOpus, Blocks}
use mumble_web_demo.Audio.{Network, Sent}
use mumble_web_demo.AudioDecoder.{AudioPacket}
use mumble_web_demo.BufferPool.{Malloc}
use mumble_web_demo.TcpSsl.Setup.{Made, Lookup}
use mumble_web_demo.Client.{Client, init, set_on_audio, set_on_message, write_audio}
use mumble_web_demo.Client.Connect.{connect}

-- A `uint16_t` as it lies in memory, the low byte first.
abbrev pub sample_bytes : ℕ → List ℕ
sample_bytes s = (s % 256) ∷ ((s / 256) % 256) ∷ []

nothing_left : (xs : List ℕ) → length xs ≡ 0 → xs ≡ []
nothing_left [] e = refl
nothing_left (x ∷ xs) e = absurd (omega arith)

module _ (sample : ℕ → ℕ) where
  -- The loop of `tone` from index `i` on, with `left` rounds to go.
  unfoldable pub tone_loop : ℕ → ℕ → List ℕ → Outcome (List ℕ)
  tone_loop zero i block = done block
  tone_loop (suc left) i block = do
    block' ← write_at block (2 * i) (sample_bytes (sample i))
    tone_loop left (i + 1) block'

  -- `tone` on a number of samples. The result of `malloc` is not looked at: the first write to NULL
  -- fails.
  unfoldable pub tone : Blocks → ℕ → Outcome (List ℕ)
  unfolding tone_loop
  tone malloc samples = fill (malloc (samples * 2)) samples
    where
      fill : Option (List ℕ) → ℕ → Outcome (List ℕ)
      fill none zero = done []
      fill none (suc n) = fault
      fill (some block) n = tone_loop n 0 block

  -- The bytes of so many samples from index `i` on.
  abbrev pub wave : ℕ → ℕ → List ℕ
  wave zero i = []
  wave (suc left) i = sample_bytes (sample i) ++ wave left (i + 1)

  tone_loop_lem :
      (left i : ℕ) (front back : List ℕ)
      → length front ≡ 2 * i
      → length back ≡ 2 * left
      → tone_loop left i (front ++ back) ≡ done (front ++ wave left i)
  unfolding tone_loop
  tone_loop_lem zero i front back at room = ap (λ t. done (front ++ t)) (nothing_left back room)
  tone_loop_lem (suc left) i front back at room =
      let stored =
        write_at_back front back (2 * i) (sym at) (sample_bytes (sample i)) (omega arith) in
      let rest =
        tone_loop_lem left (i + 1) (front ++ sample_bytes (sample i)) (drop 2 back)
          (omega (arith, length-append front (sample_bytes (sample i)), at))
          (omega (arith, length-drop 2 back, room)) in
      ground (
        arith,
        stored,
        rest,
        append_assoc front (sample_bytes (sample i)) (drop 2 back),
        append_assoc front (sample_bytes (sample i)) (wave left (i + 1)),
      )

  -- In a block of the size asked for, `tone` stores its samples one behind the other, and nothing
  -- else.
  pub tone_lem :
      (malloc : Blocks) (samples : ℕ) (block : List ℕ)
      → malloc (samples * 2) ≡ some block
      → length block ≡ samples * 2
      → tone malloc samples ≡ done (wave samples 0)
  unfolding tone
  tone_lem malloc samples block got whole =
      let stored = tone_loop_lem samples 0 [] block refl (omega arith) in
      ground (arith, got, stored)

-- What `on_message` looks at in a Version and in a TextMessage.
pub record Version : Type 0 where
  pub version : ℕ
  pub release : List ℕ

pub record TextMessage : Type 0 where
  pub actor : ℕ
  pub message : List ℕ

-- What it prints.
pub data Printed : Type 0 where
  server_version : ℕ → ℕ → ℕ → List ℕ → Printed
  text : ℕ → List ℕ → Printed
  received : ℕ → ℕ → ℕ → ℕ → ℕ → Printed

-- "jnstw.us" and "testbot"
abbrev pub server : List ℕ
server = 106 ∷ 110 ∷ 115 ∷ 116 ∷ 119 ∷ 46 ∷ 117 ∷ 115 ∷ []

abbrev pub testbot : List ℕ
testbot = 116 ∷ 101 ∷ 115 ∷ 116 ∷ 98 ∷ 111 ∷ 116 ∷ []

unfoldable pub print_version : Version → Printed
print_version v =
    server_version (v.version >>> 16) (bit_and (v.version >>> 8) 0xFF) (bit_and v.version 0xFF)
      v.release

-- `on_audio`: the source, the target, the sequence number, the codec and the samples of a packet.
unfoldable pub on_audio : AudioPacket → Printed
on_audio audio = received audio.source audio.target audio.sequence audio.codec audio.samples

module _ {lib : LibOpus} {Address : Type 0} where
  -- `main` up to the loop of libuv, which calls back what is set here.
  unfoldable pub main : Made → Malloc → Blocks → (ℕ → ℕ → ℕ) → Lookup → Outcome (Client lib Address)
  main made pool_malloc malloc audio_buffer_size lookup = do
    mclient ← init made pool_malloc malloc audio_buffer_size server 64738 testbot
    connect lookup mclient
    done (set_on_audio (set_on_message mclient true) true)

module _ {lib : LibOpus} {Address : Type 0} (aes : Aes) (malloc : Blocks) (network : Network)
    (calls_left : ℕ) (unset : List ℕ) (sine : ℕ → ℕ → ℕ) where
  -- `send_tone` for a whole number of seconds, with fuel for the framing buffer.
  unfoldable pub send_tone : Client lib Address → ℕ → ℕ → Outcome (Client lib Address × List Sent)
  unfolding tone
  send_tone client frequency seconds = do
    pcm ← tone (sine frequency) malloc (seconds * 48000)
    write_audio aes malloc network calls_left unset client 0 pcm

  -- `on_message`: what is sent, and what is printed.
  unfoldable pub on_message :
      {Message : Type 0}
      → (Message → Version)
      → (Message → TextMessage)
      → Client lib Address
      → ℕ
      → Option Message
      → Outcome (Client lib Address × List Sent × List Printed)
  unfolding send_tone print_version
  on_message as_version as_text client type message =
      if type == 0
      then (or_fault message >>= λ m. done (client, [], print_version (as_version m) ∷ []))
      else if type == 11
      then (do
        m ← or_fault message
        let msg = as_text m
        (client', sent) ← send_tone client 300 2
        done (client', sent, text msg.actor msg.message ∷ []))
      else done (client, [], [])
