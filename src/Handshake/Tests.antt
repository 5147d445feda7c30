-- ===== src/Handshake/Tests.antt =====
-- The handshake at concrete inputs.
use tortor.Prelude.{◌≡◌, ◌↔◌, refl, true, [], ◌∷◌, replicate, length}
use tortor.Prelude.Result.{ok, err}
use tortor.Handshake.{Handshake, new, as_bytes, from_bytes, supports_extension_protocol, bad_length}
use tortor.Handshake.Codec.{IsValid, from_bytes_iff}

abbrev greeting : Handshake
greeting = new (replicate 20 7) (replicate 20 9)

greeting_extends : supports_extension_protocol greeting ≡ true
unfolding supports_extension_protocol new
greeting_extends = refl

greeting_length : length (as_bytes greeting) ≡ 68
unfolding as_bytes new
greeting_length = refl

short_buffer : from_bytes (19 ∷ []) ≡ err bad_length
unfolding from_bytes
short_buffer = refl

from_bytes_iff_example :
    (from_bytes (as_bytes greeting) ≡ ok greeting)
    ↔ ((as_bytes greeting ≡ as_bytes greeting) × IsValid greeting)
from_bytes_iff_example = from_bytes_iff (as_bytes greeting) greeting
