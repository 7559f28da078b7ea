-- ===== src/Runtime/Rotation.antt =====
-- Certificate rotation in native/src/runtime.rs.
use kestara_webrtc.Base.{
  Bool-cases, ◌≡◌, refl, true, false, Option, none, some, List, [], ◌∷◌, ◌⊎◌, inl, inr, Text, arith,
}
use kestara_webrtc.Errors.{
  Error, no_fingerprint, certificate_poisoned, failed, importing_certificate,
  generating_certificate, generating_key,
}
use kestara_webrtc.Registry.State.{RuntimeState, Engine, Call, generate_key, Reply, good, bad}
use kestara_webrtc.Registry.Task.{
  Outcome, done, fails, Task, pure, modify, or_failed, ok_or, ask, check_lock, ◌>>=◌, ◌>>◌,
}
use kestara_webrtc.Registry.Access.{lock_certificate}
use kestara_webrtc.Runtime.Certificate.{
  generate_certificate, import_certificate, certificate_fingerprint_value, choose_certificate,
  install_certificate, rotate_certificate,
}

-- A stored certificate with its first fingerprint, or an error and the certificate as it was.
abbrev pub Stored : Engine → (Text → Type 0) → Text → Outcome Text × RuntimeState → Type 0
Stored eng Good old r =
    ((f : Text) × (rest : List Text) × (r.0 ≡ done f)
      × (eng.fingerprints r.1.certificate ≡ f ∷ rest)
      × Good r.1.certificate)
    ⊎ ((e : Error) × (r.0 ≡ fails e) × (r.1.certificate ≡ old))

-- The part of `rotate_certificate` that follows the choice of the certificate.
abbrev store : Engine → Text → Task Text
store eng certificate = do
  fingerprint ← certificate_fingerprint_value eng certificate
  lock_certificate
  modify (install_certificate certificate)
  pure fingerprint

module _ (eng : Engine) (certificate : Text) (s : RuntimeState) where
  store_empty :
      eng.fingerprints certificate ≡ [] → store eng certificate s ≡ (fails no_fingerprint, s)
  unfolding certificate_fingerprint_value ◌>>=◌ ok_or
  store_empty e = ground arith

  store_poisoned :
      (f : Text) (rest : List Text)
      → eng.fingerprints certificate ≡ f ∷ rest
      → s.certificate_poisoned ≡ true
      → store eng certificate s ≡ (fails certificate_poisoned, s)
  unfolding certificate_fingerprint_value ◌>>=◌ ok_or lock_certificate check_lock
  store_poisoned f rest e p = ground arith

  store_installs :
      (f : Text) (rest : List Text)
      → eng.fingerprints certificate ≡ f ∷ rest
      → s.certificate_poisoned ≡ false
      → store eng certificate s ≡ (done f, install_certificate certificate s)
  unfolding certificate_fingerprint_value ◌>>=◌ ok_or lock_certificate check_lock
  store_installs f rest e p = ground arith

  store-Stored :
      (Good : Text → Type 0) (prints : List Text)
      → eng.fingerprints certificate ≡ prints
      → Good certificate
      → Stored eng Good s.certificate (store eng certificate s)
  unfolding install_certificate
  store-Stored Good [] e g = rw (store_empty e) (inr (no_fingerprint, refl, refl))
  store-Stored Good (f ∷ rest) e g = elim (Bool-cases s.certificate_poisoned) [
    | inl p ↦ rw (store_poisoned f rest e p) (inr (certificate_poisoned, refl, refl))
    | inr p ↦ rw (store_installs f rest e p) (inl (f, rest, refl, e, g))
  ]

-- What the new certificate is: the library's reading of the given text, or one made from a new key.
abbrev pub IsChosen : Engine → Option Text → List Call → Text → Type 0
IsChosen eng (some pem) calls certificate = eng.from_pem pem ≡ good certificate
IsChosen eng none calls certificate =
    (key : Text) × (eng.key_pair (generate_key ∷ calls) ≡ good key)
    × (eng.from_key_pair key ≡ good certificate)

module _ (eng : Engine) (s : RuntimeState) where
  rotate_imported :
      (pem certificate : Text)
      → eng.from_pem pem ≡ good certificate
      → rotate_certificate eng (some pem) s ≡ store eng certificate s
  unfolding rotate_certificate choose_certificate import_certificate ◌>>=◌ or_failed
  rotate_imported pem certificate e = rw (e, or_failed)

  rotate_unread :
      (pem text : Text)
      → eng.from_pem pem ≡ bad text
      → rotate_certificate eng (some pem) s ≡ (fails (failed importing_certificate text), s)
  unfolding rotate_certificate choose_certificate import_certificate ◌>>=◌ or_failed
  rotate_unread pem text e = rw (e, or_failed)

  abbrev keyed : RuntimeState
  keyed = record s { trace = generate_key ∷ s.trace }

  rotate_made :
      (key certificate : Text)
      → eng.key_pair (generate_key ∷ s.trace) ≡ good key
      → eng.from_key_pair key ≡ good certificate
      → rotate_certificate eng none s ≡ store eng certificate keyed
  unfolding rotate_certificate choose_certificate generate_certificate ◌>>=◌ or_failed ask
  rotate_made key certificate k e = rw (k, or_failed, e, or_failed)

  rotate_unmade :
      (key text : Text)
      → eng.key_pair (generate_key ∷ s.trace) ≡ good key
      → eng.from_key_pair key ≡ bad text
      → rotate_certificate eng none s ≡ (fails (failed generating_certificate text), keyed)
  unfolding rotate_certificate choose_certificate generate_certificate ◌>>=◌ or_failed ask
  rotate_unmade key text k e = rw (k, or_failed, e, or_failed)

  rotate_keyless :
      (text : Text)
      → eng.key_pair (generate_key ∷ s.trace) ≡ bad text
      → rotate_certificate eng none s ≡ (fails (failed generating_key text), keyed)
  unfolding rotate_certificate choose_certificate generate_certificate ◌>>=◌ or_failed ask
  rotate_keyless text k = rw (k, or_failed)

  import-Stored :
      (pem : Text) (reply : Reply Text)
      → eng.from_pem pem ≡ reply
      → Stored eng
          (IsChosen eng (some pem) s.trace)
          s.certificate
          (rotate_certificate eng (some pem) s)
  import-Stored pem (good certificate) e =
      rw (rotate_imported pem certificate e)
        (store-Stored eng certificate s (IsChosen eng (some pem) s.trace) _ refl e)
  import-Stored pem (bad text) e = rw (rotate_unread pem text e) (inr (_, refl, refl))

  made-Stored :
      (key : Text) (reply : Reply Text)
      → eng.key_pair (generate_key ∷ s.trace) ≡ good key
      → eng.from_key_pair key ≡ reply
      → Stored eng (IsChosen eng none s.trace) s.certificate (rotate_certificate eng none s)
  made-Stored key (good certificate) k e =
      rw (rotate_made key certificate k e)
        (store-Stored eng certificate keyed (IsChosen eng none s.trace) _ refl (key, k, e))
  made-Stored key (bad text) k e = rw (rotate_unmade key text k e) (inr (_, refl, refl))

  generate-Stored :
      (reply : Reply Text)
      → eng.key_pair (generate_key ∷ s.trace) ≡ reply
      → Stored eng (IsChosen eng none s.trace) s.certificate (rotate_certificate eng none s)
  generate-Stored (good key) e = made-Stored key _ e refl
  generate-Stored (bad text) e = rw (rotate_keyless text e) (inr (_, refl, refl))

-- A rotation is all or nothing. Either it returns the first fingerprint of the certificate that is
-- then installed, which is the library's reading of the given text or, with no text, was made from a
-- new key; or it fails, and the old certificate stays. It is never dropped.
pub rotate_all_or_nothing :
    (eng : Engine) (pem : Option Text) (s : RuntimeState)
    → Stored eng (IsChosen eng pem s.trace) s.certificate (rotate_certificate eng pem s)
rotate_all_or_nothing eng (some pem) s = import-Stored eng s pem _ refl
rotate_all_or_nothing eng none s = generate-Stored eng s _ refl
