-- ===== src/Runtime/Certificate.antt =====
-- The DTLS certificate functions of native/src/runtime.rs. A certificate is named by its PEM text.
use kestara_webrtc.Base.{Option, none, some, List, [], ◌∷◌, Text}
use kestara_webrtc.Errors.{
  generating_key, generating_certificate, importing_certificate, no_fingerprint,
}
use kestara_webrtc.Registry.State.{RuntimeState, Engine, generate_key}
use kestara_webrtc.Registry.Task.{Task, pure, modify, or_failed, ok_or, ask, ◌>>=◌, ◌>>◌}
use kestara_webrtc.Registry.Access.{lock_certificate}

unfoldable pub generate_certificate : Engine → Task Text
generate_certificate eng = do
  reply ← ask generate_key eng.key_pair
  key ← or_failed generating_key reply
  or_failed generating_certificate (eng.from_key_pair key)

unfoldable pub import_certificate : Engine → Text → Task Text
import_certificate eng pem = or_failed importing_certificate (eng.from_pem pem)

abbrev pub first_of_list : List Text → Option Text
first_of_list [] = none
first_of_list (x ∷ xs) = some x

unfoldable pub certificate_fingerprint_value : Engine → Text → Task Text
certificate_fingerprint_value eng certificate =
    ok_or no_fingerprint (first_of_list (eng.fingerprints certificate))

unfoldable pub choose_certificate : Engine → Option Text → Task Text
choose_certificate eng (some pem) = import_certificate eng pem
choose_certificate eng none = generate_certificate eng

unfoldable pub install_certificate : Text → RuntimeState → RuntimeState
install_certificate certificate s = record s { certificate = certificate }

-- The arm of `execute` for `RotateCertificate`: nothing is stored before the last step.
unfoldable pub rotate_certificate : Engine → Option Text → Task Text
rotate_certificate eng pem = do
  certificate ← choose_certificate eng pem
  fingerprint ← certificate_fingerprint_value eng certificate
  lock_certificate
  modify (install_certificate certificate)
  pure fingerprint
