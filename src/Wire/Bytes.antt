-- ===== src/Wire/Bytes.antt =====
-- `to_le_bytes` and `to_be_bytes` of Rust's integers, by the number of bytes. An `i32` is written as
-- its two's complement.
use kestara_webrtc.Base.{
  ℕ, zero, suc, ◌+◌, ◌-◌, ◌*◌, ◌/◌, ◌%◌, ◌^◌, ◌<◌, ◌≡◌, refl, List, [], ◌∷◌, ◌++◌, ℤ, pos, negsuc,
  length, length-append, arith, ltb, if◌then◌else◌,
}

unfoldable pub le_bytes : ℕ → ℕ → List ℕ
le_bytes zero n = []
le_bytes (suc k) n = n % 256 ∷ le_bytes k (n / 256)

unfoldable pub be_bytes : ℕ → ℕ → List ℕ
be_bytes zero n = []
be_bytes (suc k) n = be_bytes k (n / 256) ++ (n % 256 ∷ [])

abbrev pub i32_bits : ℤ → ℕ
i32_bits (pos n) = n % 2 ^ 32
i32_bits (negsuc n) = 2 ^ 32 - 1 - n % 2 ^ 32

unfoldable pub i32_le : ℤ → List ℕ
i32_le z = le_bytes 4 (i32_bits z)

-- The readers: the value of a run of bytes, lowest or highest byte first.
unfoldable pub from_le : List ℕ → ℕ
from_le [] = 0
from_le (b ∷ bs) = b + 256 * from_le bs

unfoldable pub from_be_onto : ℕ → List ℕ → ℕ
from_be_onto acc [] = acc
from_be_onto acc (b ∷ bs) = from_be_onto (acc * 256 + b) bs

abbrev pub from_be : List ℕ → ℕ
from_be = from_be_onto 0

-- The number that a 32-bit pattern stands for.
abbrev pub signed32 : ℕ → ℤ
signed32 w = if ltb w (2 ^ 31) then pos w else negsuc (2 ^ 32 - 1 - w)

abbrev pub IsI32 : ℤ → Type 0
IsI32 (pos n) = n < 2 ^ 31
IsI32 (negsuc n) = n < 2 ^ 31

pub signed32-i32_bits : (z : ℤ) → IsI32 z → signed32 (i32_bits z) ≡ z
signed32-i32_bits (pos n) h = ground arith
signed32-i32_bits (negsuc n) h = ground arith

pub i32_bits-lt : (z : ℤ) → i32_bits z < 2 ^ 32
i32_bits-lt (pos n) = omega arith
i32_bits-lt (negsuc n) = omega arith

pub length-le_bytes : (k n : ℕ) → length (le_bytes k n) ≡ k
unfolding le_bytes
length-le_bytes zero n = refl
length-le_bytes (suc k) n = omega (arith, length-le_bytes k (n / 256))

pub length-be_bytes : (k n : ℕ) → length (be_bytes k n) ≡ k
unfolding be_bytes
length-be_bytes zero n = refl
length-be_bytes (suc k) n =
    omega (arith, length-be_bytes k (n / 256), length-append (be_bytes k (n / 256)) (n % 256 ∷ []))

pub from_le-le_bytes : (k n : ℕ) → n < 256 ^ k → from_le (le_bytes k n) ≡ n
unfolding le_bytes from_le
from_le-le_bytes zero n h = omega arith
from_le-le_bytes (suc k) n h = omega (arith, from_le-le_bytes k (n / 256) (omega arith))

from_be_onto-append :
    (acc : ℕ) (xs ys : List ℕ) → from_be_onto acc (xs ++ ys) ≡ from_be_onto (from_be_onto acc xs) ys
unfolding from_be_onto
from_be_onto-append acc [] ys = refl
from_be_onto-append acc (x ∷ xs) ys = from_be_onto-append (acc * 256 + x) xs ys

pub from_be-be_bytes : (k n : ℕ) → n < 256 ^ k → from_be (be_bytes k n) ≡ n
unfolding be_bytes from_be_onto
from_be-be_bytes zero n h = omega arith
from_be-be_bytes (suc k) n h = omega (
  arith,
  from_be_onto-append 0 (be_bytes k (n / 256)) (n % 256 ∷ []),
  from_be-be_bytes k (n / 256) (omega arith),
)
