-- ===== src/Demo/Run.antt =====
-- The demo program of src/main.c in the loop of libuv.
use mumble_web_demo.Prelude.{ℕ, ◌≡◌, done, Ensures, Ensures-done, bind-Ensures, bind_known}
use mumble_web_demo.BufferPool.{Malloc}
use mumble_web_demo.Ocb.{Aes}
use mumble_web_demo.Opus.{LibOpus, Blocks}
use mumble_web_demo.Frame.{Protobuf}
use mumble_web_demo.Audio.Valid.{IsFit}
use mumble_web_demo.TcpSsl.Setup.{Made, Lookup}
use mumble_web_demo.Client.{Client, Messages, init, set_on_audio, set_on_message}
use mumble_web_demo.Client.Valid.{IsValid, init-IsValid}
use mumble_web_demo.Client.Connect.{connect}
use mumble_web_demo.Client.States.{Reach, Reach-IsValid}
use mumble_web_demo.Demo.{main, server, testbot}

module _ (lib : LibOpus) (Address : Type 0) (made : Made) (pool_malloc : Malloc) (malloc : Blocks)
    (audio_buffer_size : ℕ → ℕ → ℕ) (lookup : Lookup)
    (fit : IsFit pool_malloc malloc audio_buffer_size) where
  main-IsValid :
      Ensures
        (λ (client : Client lib Address). IsValid client)
        (main made pool_malloc malloc audio_buffer_size lookup)
  unfolding main set_on_audio set_on_message
  main-IsValid =
      bind_known (λ (client : Client lib Address). IsValid client)
        (λ (client : Client lib Address). IsValid client)
        (init made pool_malloc malloc audio_buffer_size server 64738 testbot) _
        (init-IsValid lib Address made pool_malloc malloc audio_buffer_size server 64738 testbot
          fit)
        (λ client v.
          bind-Ensures (λ (client : Client lib Address). IsValid client) (connect lookup client) _
            (λ nothing there. record { decoder = v.decoder; encoder = v.encoder; audio = v.audio }))

  -- What the demo program has set up stays valid, whatever comes and whatever it says, as long as each call returns.
  pub Reach-main :
      (pb : Protobuf) (messages : Messages pb) (aes : Aes) (mclient client : Client lib Address)
      → main made pool_malloc malloc audio_buffer_size lookup ≡ done mclient
      → Reach pb messages aes malloc mclient client
      → IsValid client
  Reach-main pb messages aes mclient client set_up reach =
      Reach-IsValid pb messages aes malloc reach (Ensures-done _ _ set_up main-IsValid)
