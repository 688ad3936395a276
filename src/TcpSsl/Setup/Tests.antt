-- ===== src/TcpSsl/Setup/Tests.antt =====
-- Runs of the set-up and of the lookup, with what is asserted of each call, and without.
use mumble_web_demo.Prelude.{◌≡◌, refl, true, false, done, abort, fault, []}
use mumble_web_demo.Prelude.Int.{pos, negsuc}
use mumble_web_demo.TcpSsl.Setup.{Lookup, connect, dns_cb}

abbrev found : Lookup
found = record { creq = true; req = true; rbio = true; getaddrinfo = λ hostname port. pos 0 }

lookup_goes : connect found [] [] ≡ done tt
unfolding connect
lookup_goes = refl

no_request : connect (record found { req = false }) [] [] ≡ fault
unfolding connect
no_request = refl

-- A name that is not found ends the program.
unknown_name : dns_cb (negsuc 3007) (pos 0) ≡ abort
unfolding dns_cb
unknown_name = refl
