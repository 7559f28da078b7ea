-- ===== src/Base/Utf8.antt =====
-- `String::from_utf8_lossy` of the language's library, on bytes: each maximal piece of an ill-formed
-- sequence becomes the three bytes of U+FFFD.
use Prim.Native.Nat.{ℕ, ◌-◌}
use mathlib.Core.Bool.{Bool, true, ◌&&◌}
use mathlib.Core.List.{List, [], ◌∷◌, ◌++◌}
use mathlib.Core.Path.{◌≡◌, refl, ap}
use kestara_webrtc.Base.Tests.{leb, if◌then◌else◌}
use kestara_webrtc.Base.Lists.{All}

-- The bytes of a character so far, how many are missing, and the bounds of the next one.
record Pending : Type 0 where
  bytes : List ℕ
  missing : ℕ
  low : ℕ
  high : ℕ

data Scan : Type 0 where
  idle : Scan
  inside : Pending → Scan

within : ℕ → ℕ → ℕ → Bool
within low high b = leb low b && leb b high

abbrev replacement : List ℕ
replacement = 239 ∷ 191 ∷ 189 ∷ []

abbrev begin : ℕ → ℕ → ℕ → ℕ → List ℕ × Scan
begin b missing low high =
    ([], inside (record { bytes = b ∷ []; missing = missing; low = low; high = high }))

-- A byte where a character may begin.
first_byte : ℕ → List ℕ × Scan
unfolding within
first_byte b =
    if leb b 127
    then (b ∷ [], idle)
    else if within 194 223 b
    then begin b 1 128 191
    else if within 224 224 b
    then begin b 2 160 191
    else if within 237 237 b
    then begin b 2 128 159
    else if within 225 239 b
    then begin b 2 128 191
    else if within 240 240 b
    then begin b 3 144 191
    else if within 241 243 b
    then begin b 3 128 191
    else if within 244 244 b
    then begin b 3 128 143
    else (replacement, idle)

-- A byte that fits continues or ends the character; one that does not is read again as a first byte.
next_byte : Pending → ℕ → List ℕ × Scan
unfolding within first_byte
next_byte p b =
    let (out, after) = first_byte b in
    if within p.low p.high b
    then (if leb p.missing 1 then (p.bytes ++ (b ∷ []), idle) else (
      [],
      inside
          (record { bytes = p.bytes ++ (b ∷ []); missing = p.missing - 1; low = 128; high = 191 }),
    ))
    else (replacement ++ out, after)

scan : Scan → List ℕ → List ℕ
unfolding first_byte next_byte
scan idle [] = []
scan (inside p) [] = replacement
scan idle (b ∷ bs) = let (out, after) = first_byte b in out ++ scan after bs
scan (inside p) (b ∷ bs) = let (out, after) = next_byte p b in out ++ scan after bs

pub from_utf8_lossy : List ℕ → List ℕ
unfolding scan
from_utf8_lossy bytes = scan idle bytes

lossy_cut : from_utf8_lossy (104 ∷ 226 ∷ 130 ∷ 105 ∷ []) ≡ 104 ∷ 239 ∷ 191 ∷ 189 ∷ 105 ∷ []
unfolding from_utf8_lossy
lossy_cut = refl

lossy_euro : from_utf8_lossy (226 ∷ 130 ∷ 172 ∷ []) ≡ 226 ∷ 130 ∷ 172 ∷ []
unfolding from_utf8_lossy
lossy_euro = refl

lossy_surrogate :
    from_utf8_lossy (237 ∷ 160 ∷ 128 ∷ []) ≡ replacement ++ (replacement ++ replacement)
unfolding from_utf8_lossy
lossy_surrogate = refl

-- ASCII is kept.
pub ascii_kept :
    (bytes : List ℕ) → All (λ b. leb b 127 ≡ true) bytes → from_utf8_lossy bytes ≡ bytes
unfolding from_utf8_lossy scan first_byte
ascii_kept [] h = refl
ascii_kept (b ∷ bytes) (small, more) = rw small (ap (λ rest. b ∷ rest) (ascii_kept bytes more))
