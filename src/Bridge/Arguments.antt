-- ===== src/Bridge/Arguments.antt =====
-- The checks of single arguments at the end of native/src/bridge.rs. A `jint` or a `jlong` is an
-- integer, and the two masks of options are read bit by bit.
use kestara_webrtc.Base.{
  ℕ, zero, suc, ◌/◌, ◌%◌, ◌^◌, Bool, ◌||◌, Option, none, some, List, [], ◌∷◌, ◌++◌, Text, codes, ℤ,
  pos, negsuc, ltb, leb, ◌==◌, if◌then◌else◌, concat,
}
use kestara_webrtc.Base.Strings.{decimal}
use kestara_webrtc.Registry.Types.{
  NetworkType, udp4, udp6, tcp4, tcp6, CipherSuite, ecdsa_aes_128_ccm, ecdsa_aes_128_ccm_8,
  ecdsa_aes_128_gcm, rsa_aes_128_gcm, ecdsa_aes_256_cbc, rsa_aes_256_cbc, rsa_chacha20,
  ecdsa_chacha20, SdpType, SessionDescription, offer, answer, pranswer, rollback,
}
use kestara_webrtc.Bridge.Checked.{Checked, valid, invalid}

-- The words that an error puts around the name of its argument.
the : Text → Text → Text
the name rest = codes "The " ++ (name ++ rest)

unfoldable pub timeout : ℤ → Checked ℕ
timeout (pos n) = valid n
timeout (negsuc n) = invalid (codes "Operation timeout must not be negative")

unfoldable pub optional_duration : ℤ → Text → Checked (Option ℕ)
unfolding the
optional_duration (pos n) name = valid (some n)
optional_duration (negsuc n) name =
    if n == 0 then valid none else invalid (the name (codes " must not be negative"))

unfoldable pub positive_u32 : ℤ → Text → Checked ℕ
unfolding the
positive_u32 (pos n) name =
    if n == 0 then invalid (the name (codes " must be positive")) else valid n
positive_u32 (negsuc n) name = invalid (the name (codes " must be positive"))

unfoldable pub port : ℤ → Text → Checked ℕ
unfolding the
port (pos n) name =
    if ltb n (2 ^ 16)
    then valid n
    else invalid (the name (codes " port must be between 0 and 65535"))
port (negsuc n) name = invalid (the name (codes " port must be between 0 and 65535"))

unfoldable pub optional_u16 : ℤ → Text → Checked (Option ℕ)
unfolding the
optional_u16 (pos n) name =
    if ltb n (2 ^ 16)
    then valid (some n)
    else invalid (the name (codes " must be between 0 and 65535"))
optional_u16 (negsuc n) name =
    if n == 0 then valid none else invalid (the name (codes " must be between 0 and 65535"))

unfoldable pub handle_from_jlong : ℤ → Checked ℕ
handle_from_jlong (pos n) = valid n
handle_from_jlong (negsuc n) = invalid (codes "Native handle must not be negative")

unfoldable pub handle_to_jlong : ℕ → Checked ℤ
handle_to_jlong n =
    if ltb n (2 ^ 63) then valid (pos n) else invalid (codes "Native handle range is exhausted")

-- `mask & (1 << index) != 0`
abbrev pub bit_set : ℕ → ℕ → Bool
bit_set index mask = mask / 2 ^ index % 2 == 1

when_set {ℓ} : {A : Type ℓ} → ℕ → ℕ → A → List A
when_set index mask value = if bit_set index mask then value ∷ [] else []

-- A mask above the four bits has a bit that stands for nothing.
unfoldable pub network_types : ℤ → Checked (List NetworkType)
unfolding when_set
network_types (negsuc n) = invalid (codes "Invalid ICE network type mask")
network_types (pos mask) =
    if mask == 0 || leb 16 mask
    then invalid (codes "Invalid ICE network type mask")
    else valid (
        concat (
          when_set 0 mask udp4
          ∷ when_set 1 mask udp6
          ∷ when_set 2 mask tcp4
          ∷ when_set 3 mask tcp6
          ∷ []))

unfoldable pub cipher_suites : ℤ → Checked (List CipherSuite)
unfolding when_set
cipher_suites (negsuc n) = invalid (codes "Invalid DTLS cipher suite mask")
cipher_suites (pos mask) =
    if mask == 0 || leb 256 mask
    then invalid (codes "Invalid DTLS cipher suite mask")
    else valid (
        concat (
          when_set 0 mask ecdsa_aes_128_ccm
          ∷ when_set 1 mask ecdsa_aes_128_ccm_8
          ∷ when_set 2 mask ecdsa_aes_128_gcm
          ∷ when_set 3 mask rsa_aes_128_gcm
          ∷ when_set 4 mask ecdsa_aes_256_cbc
          ∷ when_set 5 mask rsa_aes_256_cbc
          ∷ when_set 6 mask rsa_chacha20
          ∷ when_set 7 mask ecdsa_chacha20
          ∷ []))

description_type : ℤ → Option SdpType
description_type (pos zero) = some offer
description_type (pos (suc zero)) = some answer
description_type (pos (suc (suc zero))) = some pranswer
description_type (pos (suc (suc (suc zero)))) = some rollback
description_type _ = none

pub signed_decimal : ℤ → Text
signed_decimal (pos n) = decimal n
signed_decimal (negsuc n) = codes "-" ++ decimal (suc n)

described : Checked SessionDescription → Checked SessionDescription
described (valid d) = valid d
described (invalid e) = invalid (codes "Invalid session description: " ++ e)

parse_as :
    (SdpType → Text → Checked SessionDescription)
    → Text
    → ℤ
    → Option SdpType
    → Checked SessionDescription
unfolding signed_decimal described
parse_as parse sdp number (some kind) = described (parse kind sdp)
parse_as parse sdp number none =
    invalid (codes "Unknown session description type: " ++ signed_decimal number)

-- `parse` is the library's reading of a description of the given type.
unfoldable pub parse_description :
    (SdpType → Text → Checked SessionDescription) → Text → ℤ → Checked SessionDescription
unfolding description_type parse_as
parse_description parse sdp number = parse_as parse sdp number (description_type number)
