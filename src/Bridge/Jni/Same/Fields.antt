-- ===== src/Bridge/Jni/Same/Fields.antt =====
-- The single arguments of `nativeSubmitCreatePeer` of native/src/bridge.rs: what is accepted is what
-- native/src/c_bridge.rs reads of the request, and is within its bounds.
use kestara_webrtc.Base.{
  ℕ, zero, suc, ◌<◌, ◌≤◌, ◌≡◌, ◌||◌, Bool, Option, List, [], ◌∷◌, Text, ℤ, pos, negsuc, ltb, arith,
  Bool-cases, inl, inr,
}
use kestara_webrtc.Registry.Types.{CandidateType}
use kestara_webrtc.Bridge.Checked.{valid, ◌>>=◌}
use kestara_webrtc.Bridge.Arguments.{positive_u32}
use kestara_webrtc.Bridge.Configuration.{checked_nat_mapping, mapping_of}
use kestara_webrtc.Bridge.Jni.Calls.{relay_policy, refuse_when}
use kestara_webrtc.Bridge.Jni.Peer.{
  nat_mapping, not_negative, positive_size, candidate_pool, ice_credentials, check_sizes,
}
use kestara_webrtc.Bridge.Jni.Requests.{to_size, nat_dto, credentials_dto, is_one}

pub not_negative_size : (z : ℤ) (e : Text) (n : ℕ) → not_negative z e ≡ valid n → to_size z ≡ n
unfolding not_negative
not_negative_size (pos m) e n h = ground (arith, h)
not_negative_size (negsuc m) e n h = ground (arith, h)

pub positive_size_size : (z : ℤ) (e : Text) (n : ℕ) → positive_size z e ≡ valid n → to_size z ≡ n
unfolding positive_size not_negative refuse_when ◌>>=◌
positive_size_size (negsuc m) e n h = ground (arith, h)
positive_size_size (pos zero) e n h = ground (arith, h)
positive_size_size (pos (suc m)) e n h = ground (arith, h)

pub candidate_pool_size : (z : ℤ) (n : ℕ) → candidate_pool z ≡ valid n → to_size z ≡ n
unfolding candidate_pool
candidate_pool_size (negsuc m) n h = ground (arith, h)
candidate_pool_size (pos zero) n h = ground (arith, h)
candidate_pool_size (pos (suc zero)) n h = ground (arith, h)
candidate_pool_size (pos (suc (suc m))) n h = ground (arith, h)

pub relay_policy_is : (z : ℤ) (b : Bool) → relay_policy z ≡ valid b → is_one z ≡ b
unfolding relay_policy
relay_policy_is (negsuc m) b h = ground (arith, h)
relay_policy_is (pos zero) b h = ground (arith, h)
relay_policy_is (pos (suc zero)) b h = ground (arith, h)
relay_policy_is (pos (suc (suc m))) b h = ground (arith, h)

pub credentials_same :
    (f p : Text) (c : Option (Text × Text))
    → ice_credentials f p ≡ valid c
    → credentials_dto f p ≡ c
unfolding ice_credentials
credentials_same [] [] c h = ground (arith, h)
credentials_same [] (x ∷ xs) c h = ground (arith, h)
credentials_same (x ∷ xs) [] c h = ground (arith, h)
credentials_same (x ∷ xs) (y ∷ ys) c h = ground (arith, h)

pub nat_mapping_same :
    (a : List Text) (z : ℤ) (m : Option (List Text × CandidateType))
    → nat_mapping a z ≡ valid m
    → checked_nat_mapping (nat_dto a z) ≡ valid m
unfolding nat_mapping checked_nat_mapping mapping_of
nat_mapping_same [] (negsuc zero) m h = h
nat_mapping_same [] (negsuc (suc n)) m h = ground (arith, h)
nat_mapping_same [] (pos n) m h = h
nat_mapping_same (x ∷ xs) (negsuc zero) m h = ground (arith, h)
nat_mapping_same (x ∷ xs) (negsuc (suc n)) m h = ground (arith, h)
nat_mapping_same (x ∷ xs) (pos zero) m h = h
nat_mapping_same (x ∷ xs) (pos (suc zero)) m h = h
nat_mapping_same (x ∷ xs) (pos (suc (suc n))) m h = h

pub positive_size_bound : (z : ℤ) (e : Text) (n : ℕ) → positive_size z e ≡ valid n → 0 < n
unfolding positive_size not_negative refuse_when ◌>>=◌
positive_size_bound (negsuc m) e n h = ground (arith, h)
positive_size_bound (pos zero) e n h = ground (arith, h)
positive_size_bound (pos (suc m)) e n h = ground (arith, h)

pub positive_u32_bound : (z : ℤ) (e : Text) (n : ℕ) → positive_u32 z e ≡ valid n → 0 < n
unfolding positive_u32
positive_u32_bound (negsuc m) e n h = ground (arith, h)
positive_u32_bound (pos zero) e n h = ground (arith, h)
positive_u32_bound (pos (suc m)) e n h = ground (arith, h)

pub candidate_pool_bound : (z : ℤ) (n : ℕ) → candidate_pool z ≡ valid n → n ≤ 1
unfolding candidate_pool
candidate_pool_bound (negsuc m) n h = ground (arith, h)
candidate_pool_bound (pos zero) n h = ground (arith, h)
candidate_pool_bound (pos (suc zero)) n h = ground (arith, h)
candidate_pool_bound (pos (suc (suc m))) n h = ground (arith, h)

pub check_sizes_bound :
    (b m : ℕ) (u : Unit {0}) → check_sizes b m ≡ valid u → (m ≤ 262144) × (1500 ≤ b) × (m ≤ b)
unfolding check_sizes refuse_when ◌>>=◌
check_sizes_bound b m u h = elim (Bool-cases (ltb 262144 m)) [
  | inl l ↦ ground (arith, l, h)
  | inr l ↦ elim (Bool-cases (ltb b 1500 || ltb b m)) [
    | inl k ↦ ground (arith, l, k, h)
    | inr k ↦ (ground (arith, l), ground (arith, k), ground (arith, k))
  ]
]
