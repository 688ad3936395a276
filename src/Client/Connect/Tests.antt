-- ===== src/Client/Connect/Tests.antt =====
-- The port of the demo program as text.
use mumble_web_demo.Prelude.{◌≡◌, refl, ◌∷◌, []}
use mumble_web_demo.Client.Connect.{decimal, port_str}

port_64738 : port_str 64738 ≡ 54 ∷ 52 ∷ 55 ∷ 51 ∷ 56 ∷ 0 ∷ []
unfolding port_str decimal
port_64738 = refl
