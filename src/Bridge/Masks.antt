-- ===== src/Bridge/Masks.antt =====
-- The masks of options in native/src/bridge.rs stand for sets: nothing is lost or added.
use kestara_webrtc.Base.{
  ℕ, zero, suc, ◌+◌, ◌<◌, ◌≡◌, refl, Bool, true, false, ◌&&◌, List, [], ◌∷◌, ◌==◌, ==_iff, arith,
  pos, ltb,
}
use kestara_webrtc.Registry.Types.{
  NetworkType, unspecified, udp4, udp6, tcp4, tcp6, CipherSuite, ecdsa_aes_128_ccm,
  ecdsa_aes_128_ccm_8, ecdsa_aes_128_gcm, rsa_aes_128_gcm, ecdsa_aes_256_cbc, rsa_aes_256_cbc,
  rsa_chacha20, ecdsa_chacha20,
}
use kestara_webrtc.Bridge.Checked.{Checked, valid, invalid}
use kestara_webrtc.Bridge.Arguments.{network_types, cipher_suites}

-- The bit that stands for a network type, and for a cipher suite.
abbrev pub network_bit : NetworkType → ℕ
network_bit unspecified = 0
network_bit udp4 = 1
network_bit udp6 = 2
network_bit tcp4 = 4
network_bit tcp6 = 8

abbrev pub suite_bit : CipherSuite → ℕ
suite_bit ecdsa_aes_128_ccm = 1
suite_bit ecdsa_aes_128_ccm_8 = 2
suite_bit ecdsa_aes_128_gcm = 4
suite_bit rsa_aes_128_gcm = 8
suite_bit ecdsa_aes_256_cbc = 16
suite_bit rsa_aes_256_cbc = 32
suite_bit rsa_chacha20 = 64
suite_bit ecdsa_chacha20 = 128

-- The sum of the bits.
abbrev pub mask_of {ℓ} : {A : Type ℓ} → (A → ℕ) → List A → ℕ
mask_of bit [] = 0
mask_of bit (x ∷ xs) = bit x + mask_of bit xs

-- Each bit is above the one before it, and so none stands twice.
abbrev pub ascends {ℓ} : {A : Type ℓ} → (A → ℕ) → ℕ → List A → Bool
ascends bit low [] = true
ascends bit low (x ∷ xs) = ltb low (bit x) && ascends bit (bit x) xs

reads_test {ℓ} : {A : Type ℓ} → (A → ℕ) → ℕ → Checked (List A) → Bool
reads_test bit mask (valid xs) = mask_of bit xs == mask && ascends bit 0 xs
reads_test bit mask (invalid e) = mask == 0

below : ℕ → (ℕ → Bool) → Bool
below zero p = true
below (suc n) p = p n && below n p

below_each : (n : ℕ) (p : ℕ → Bool) (k : ℕ) → below n p ≡ true → k < n → p k ≡ true
unfolding below
below_each zero p k h lt = absurd (omega arith)
below_each (suc n) p k h lt = ground (arith, below_each n p k)

-- A mask that is not 0 and passes the test is read as such a list.
reads {ℓ} :
    {A : Type ℓ} (bit : A → ℕ) (mask : ℕ) (r : Checked (List A))
    → reads_test bit mask r ≡ true
    → 0 < mask
    → (xs : List A) × (r ≡ valid xs) × (mask_of bit xs ≡ mask) × (ascends bit 0 xs ≡ true)
unfolding reads_test
reads bit mask (valid xs) h lt =
    let (a, b) = both (mask_of bit xs == mask) (ascends bit 0 xs) h in
    (xs, refl, (==_iff _ mask).0 a, b)
  where
    both : (a b : Bool) → a && b ≡ true → (a ≡ true) × (b ≡ true)
    both true b h = (refl, h)
    both false b h = absurd (ground (arith, h))
reads bit mask (invalid e) h lt = absurd (omega (arith, (==_iff mask 0).0 h))

network_table : below 16 (λ mask. reads_test network_bit mask (network_types (pos mask))) ≡ true
unfolding below reads_test network_types
network_table = refl

suite_table : below 256 (λ mask. reads_test suite_bit mask (cipher_suites (pos mask))) ≡ true
unfolding below reads_test cipher_suites
suite_table = refl

-- A mask of network types from 1 to 15 is accepted, and read as the types whose bits make it up, each
-- once and in the order of the bits.
pub network_types_read :
    (mask : ℕ)
    → 0 < mask
    → mask < 16
    → (types : List NetworkType) × (network_types (pos mask) ≡ valid types)
      × (mask_of network_bit types ≡ mask)
      × (ascends network_bit 0 types ≡ true)
network_types_read mask low high =
    reads network_bit mask (network_types (pos mask)) (below_each 16 _ mask network_table high) low

-- A mask of cipher suites from 1 to 255 is accepted, and read as the suites whose bits make it up,
-- each once and in the order of the bits.
pub cipher_suites_read :
    (mask : ℕ)
    → 0 < mask
    → mask < 256
    → (suites : List CipherSuite) × (cipher_suites (pos mask) ≡ valid suites)
      × (mask_of suite_bit suites ≡ mask)
      × (ascends suite_bit 0 suites ≡ true)
cipher_suites_read mask low high =
    reads suite_bit mask (cipher_suites (pos mask)) (below_each 256 _ mask suite_table high) low
