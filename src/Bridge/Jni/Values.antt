-- ===== src/Bridge/Jni/Values.antt =====
-- The strings and arrays of the JVM and the exceptions of native/src/bridge.rs. That the JVM fails to
-- read a string which is not null is a value here.
use kestara_webrtc.Base.{ℕ, Option, none, some, List, [], ◌∷◌, Text}
use kestara_webrtc.Bridge.Checked.{Checked}
use kestara_webrtc.Bridge.Request.{Submission}

-- A native method returns a value, throws a `WebRtcException` with a message, or throws the
-- `RuntimeException` that an error of the JNI becomes.
pub data Native {ℓ} (A : Type ℓ) : Type ℓ where
  returns : A → Native A
  throws : Text → Native A
  jni_error : Native A

-- The operator `?` on a result of the JNI.
unfoldable pub after {ℓ κ} : {A : Type ℓ} {B : Type κ} → Native A → (A → Native B) → Native B
after (returns a) f = f a
after (throws e) f = throws e
after jni_error f = jni_error

infixl 5 ◌>>=◌
abbrev ◌>>=◌ {ℓ κ} : {A : Type ℓ} {B : Type κ} → Native A → (A → Native B) → Native B
m >>= f = after m f

pub data JString : Type 0 where
  null_string unreadable : JString
  java_string : Text → JString

pub data JArray : Type 0 where
  null_array : JArray
  java_array : List JString → JArray

unfoldable pub read_string : JString → Native Text
read_string null_string = jni_error
read_string unreadable = jni_error
read_string (java_string text) = returns text

unfoldable pub read_optional_string : JString → Native (Option Text)
read_optional_string null_string = returns none
read_optional_string unreadable = jni_error
read_optional_string (java_string text) = returns (some text)

unfoldable pub read_strings : List JString → Native (List Text)
read_strings [] = returns []
read_strings (value ∷ rest) = do
  text ← read_string value
  texts ← read_strings rest
  returns (text ∷ texts)

unfoldable pub read_string_array : JArray → Native (List Text)
read_string_array null_array = jni_error
read_string_array (java_array values) = read_strings values

-- `convert_byte_array` of a byte array, or of a null reference.
unfoldable pub read_bytes : Option (List ℕ) → Native (List ℕ)
read_bytes none = jni_error
read_bytes (some bytes) = returns bytes

unfoldable pub operation_result {ℓ} : {A : Type ℓ} → Checked A → Native A
operation_result (Checked.valid a) = returns a
operation_result (Checked.invalid e) = throws e

-- `(!text.is_empty()).then_some(text)`
unfoldable pub non_empty : Text → Option Text
non_empty [] = none
non_empty (c ∷ cs) = some (c ∷ cs)

-- What a native method asks of a runtime.
pub record Call : Type 0 where
  pub runtime : ℕ
  pub what : Submission
