-- ===== src/Demo/Tests.antt =====
-- The demo program prints the version that the client itself announces as it is meant.
use mumble_web_demo.Prelude.{◌≡◌, refl, [], ◌∷◌, some, done, replicate, ◌+◌}
use mumble_web_demo.Client.{version_1_2_5}
use mumble_web_demo.Demo.{server_version, print_version, tone, tone_loop}

version_reads :
    print_version (record { version = version_1_2_5; release = [] }) ≡ server_version 1 2 5 []
unfolding print_version
version_reads = refl

two_samples : tone (λ i. 258 + i) (λ size. some (replicate size 0)) 2 ≡ done (2 ∷ 1 ∷ 3 ∷ 1 ∷ [])
unfolding tone tone_loop
two_samples = refl
