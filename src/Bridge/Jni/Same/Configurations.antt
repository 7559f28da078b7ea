-- ===== src/Bridge/Jni/Same/Configurations.antt =====
-- The native methods of native/src/bridge.rs that carry a configuration: each asks what the request of
-- native/src/c_bridge.rs does.
use kestara_webrtc.Base.{ℕ, refl, Bool, List, codes, ℤ}
use kestara_webrtc.Bridge.Checked.{Accepts-eq, ◌>>=◌, accepted_one}
use kestara_webrtc.Bridge.Arguments.{optional_u16}
use kestara_webrtc.Bridge.Request.{Readers, Request, input, optional_string, required, command_kind}
use kestara_webrtc.Bridge.Submit.{command_of, submission}
use kestara_webrtc.Bridge.Jni.Values.{
  JString, JArray, java_string, null_string, unreadable, read_string, read_string_array, after,
  operation_result,
}
use kestara_webrtc.Bridge.Jni.Calls.{
  check_servers, relay_policy, submit_set_configuration, submit_create_data_channel,
}
use kestara_webrtc.Bridge.Jni.Peer.{
  PeerStrings, PeerNumbers, read_peer_strings, create_peer_configuration, submit_create_peer,
}
use kestara_webrtc.Bridge.Jni.Methods.{NativeCall}
use kestara_webrtc.Bridge.Jni.Requests.{c_request, Agrees}
use kestara_webrtc.Bridge.Jni.Same.{Same, Same-bind, Same-after, Same-handle, Same-with_handles}
use kestara_webrtc.Bridge.Jni.Same.Fields.{relay_policy_is}
use kestara_webrtc.Bridge.Jni.Same.Peer.{Passes, create_peer_configuration-Passes}

module _ (readers : Readers) (json : List ℕ) (r o : ℤ) where
  pub create_peer-Same :
      (s : PeerStrings JString JArray) (n : PeerNumbers)
      → Agrees readers json (NativeCall.create_peer r o s n)
      → Same readers
          (c_request json (NativeCall.create_peer r o s n))
          r
          (submit_create_peer readers r o s n)
  unfolding submit_create_peer submission optional_string input command_kind command_of
      operation_result ◌>>=◌
  create_peer-Same s n agrees = Same-after readers request r (read_peer_strings s) _ λ texts et.
      Same-handle readers request r r _ (
        Same-handle readers request r o _ (
          Same-bind readers request r (create_peer_configuration readers.address texts n) _
            λ made em.
              let matches =
                accepted_one (Passes readers.address texts n)
                  (create_peer_configuration-Passes readers.address texts n) em in
              (rw (matches.0.0, agrees texts et, matches.0.1) refl, refl)))
    where
      request : Request
      request = c_request json (NativeCall.create_peer r o s n)

  pub set_configuration-Same :
      (p : ℤ) (us ns cs : JArray) (k t : ℤ)
      → Agrees readers json (NativeCall.set_configuration r o p us ns cs k t)
      → Same readers
          (c_request json (NativeCall.set_configuration r o p us ns cs k t))
          r
          (submit_set_configuration r o p us ns cs k t)
  unfolding submit_set_configuration submission optional_string input command_kind command_of ◌>>=◌
  set_configuration-Same p us ns cs k t agrees =
      Same-after readers request r (read_string_array us) _ λ urls eu.
        Same-after readers request r (read_string_array ns) _ λ names en.
          Same-after readers request r (read_string_array cs) _ λ secrets ec.
            Same-bind readers request r (check_servers urls names secrets) _ λ u e0.
              Same-bind readers request r (relay_policy k) _ λ relay e1.
                let (dto, reads, servers, only) = agrees urls names secrets eu en ec in
                Same-with_handles readers request r o t p _
                  λ millis e. rw (e, reads, servers, only, relay_policy_is k relay e1) refl
    where
      request : Request
      request = c_request json (NativeCall.set_configuration r o p us ns cs k t)

-- The three numbers of a channel's configuration are read alike.
module _ (readers : Readers) (json : List ℕ) (r o p : ℤ) (ordered : Bool) (a b n t : ℤ) where
  pub create_data_channel-Same :
      (label protocol : JString)
      → Agrees readers json (NativeCall.create_data_channel r o p label ordered a b protocol n t)
      → Same readers
          (c_request json (NativeCall.create_data_channel r o p label ordered a b protocol n t))
          r
          (submit_create_data_channel r o p label ordered a b protocol n t)
  unfolding submit_create_data_channel after read_string submission optional_string input
      command_kind command_of required ◌>>=◌
  create_data_channel-Same null_string protocol agrees = tt
  create_data_channel-Same unreadable protocol agrees = tt
  create_data_channel-Same (java_string label) null_string agrees = tt
  create_data_channel-Same (java_string label) unreadable agrees = tt
  create_data_channel-Same (java_string label) (java_string protocol) (text, agrees) =
      Same-with_handles readers
        (c_request json (
          NativeCall.create_data_channel r o p (java_string label) ordered a b
            (java_string protocol) n t))
        r o t p _
        λ millis e. Accepts-eq _ (optional_u16 a (codes "maximum packet lifetime")) _ λ life el.
          Accepts-eq _ (optional_u16 b (codes "maximum retransmissions")) _ λ retransmits er.
            Accepts-eq _ (optional_u16 n (codes "negotiated DataChannel ID")) _
              λ negotiated en. rw (e, text, agrees protocol refl, el, er, en) refl
