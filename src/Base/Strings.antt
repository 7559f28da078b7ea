-- ===== src/Base/Strings.antt =====
-- A Rust `String` is its UTF-8 bytes, a list of numbers. Literals are ASCII.
use Prim.Native.Nat.{ℕ, zero, suc, ◌+◌, ◌/◌, ◌%◌}
use Prim.Native.Char.{code}
use Prim.Native.String.{String}
use mathlib.Core.Path.{◌≡◌, refl}
use mathlib.Core.Bool.{Bool, true, false, ◌&&◌, ◌||◌}
use mathlib.Core.List.{List, [], ◌∷◌, ◌++◌}
use kestara_webrtc.Base.Tests.{◌==◌, ltb, if◌then◌else◌}

abbrev pub Text : Type 0
Text = List ℕ

abbrev pub codes : String → Text
codes String.[] = []
codes (String.◌∷◌ c s) = code c ∷ codes s

-- `format!("{n}")` of an unsigned number below 10 ^ 20, the least power above every u64.
decimal_digits : ℕ → ℕ → Text
decimal_digits zero n = []
decimal_digits (suc fuel) n =
    let front = decimal_digits fuel (n / 10) in
    if ltb n 10 then (b'0' + n) ∷ [] else front ++ ((b'0' + n % 10) ∷ [])

pub decimal : ℕ → Text
unfolding decimal_digits
decimal n = decimal_digits 20 n

unfoldable pub text_eq : Text → Text → Bool
text_eq [] [] = true
text_eq [] (y ∷ ys) = false
text_eq (x ∷ xs) [] = false
text_eq (x ∷ xs) (y ∷ ys) = x == y && text_eq xs ys

abbrev pub starts_with : Text → Text → Bool
starts_with t [] = true
starts_with [] (y ∷ ys) = false
starts_with (x ∷ xs) (y ∷ ys) = x == y && starts_with xs ys

-- `text.contains(part)`
unfoldable pub contains : Text → Text → Bool
contains [] part = starts_with [] part
contains (x ∷ xs) part = starts_with (x ∷ xs) part || contains xs part

decimal_max : decimal 0xffff_ffff_ffff_ffff ≡ codes "18446744073709551615"
unfolding decimal
decimal_max = refl

contains_middle : contains (codes "no udp_sockets here") (codes "udp") ≡ true
unfolding contains
contains_middle = refl

-- `text.ends_with(part)`
unfoldable pub ends_with : Text → Text → Bool
unfolding text_eq
ends_with [] part = text_eq [] part
ends_with (x ∷ xs) part = text_eq (x ∷ xs) part || ends_with xs part

-- `bool::to_string`
pub bool_text : Bool → Text
bool_text true = codes "true"
bool_text false = codes "false"
