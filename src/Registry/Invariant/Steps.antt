-- ===== src/Registry/Invariant/Steps.antt =====
-- The synchronous changes that native/src/registry.rs makes to its maps and its handle counter.
use kestara_webrtc.Base.{ℕ, ◌+◌, ◌<◌, ◌≤◌, refl, arith, Text}
use kestara_webrtc.Map.{
  Below-mono, insert-Below, remove-Below, retain-Below, insert-Distinct, remove-Distinct,
  retain-Distinct,
}
use kestara_webrtc.Registry.State.{RuntimeState, PeerEntry, ChannelEntry}
use kestara_webrtc.Registry.Access.{issue}
use kestara_webrtc.Registry.Builder.{add_peer}
use kestara_webrtc.Registry.Peers.{forget_peer}
use kestara_webrtc.Registry.Channels.{add_channel, forget_channel}
use kestara_webrtc.Runtime.Certificate.{install_certificate}
use kestara_webrtc.Registry.Invariant.Defs.{WellFormed, HasRoom, Later, frame_Later}

pub issue-Later : {o : ℕ} (s : RuntimeState) → Later o s (issue s)
unfolding issue
issue-Later s = record {
  issued_le = omega arith;
  well_formed = λ w r. record {
    counter = omega (arith, w.counter);
    peers_distinct = w.peers_distinct;
    channels_distinct = w.channels_distinct;
    peers_below = Below-mono (s.issued + 1) _ s.peers (omega arith) w.peers_below;
    channels_below = Below-mono (s.issued + 1) _ s.channels (omega arith) w.channels_below;
  };
  quiet = refl;
}

-- A handle that was given out after `s`, or the next one to be.
abbrev pub IsFresh : ℕ → RuntimeState → RuntimeState → Type 0
IsFresh h s t = (s.issued < h) × (h ≤ t.issued)

-- An entry under a handle that was given out keeps the registry well formed.
pub add_peer-Later :
    {o : ℕ} (h : ℕ) (e : PeerEntry) (s t : RuntimeState)
    → (WellFormed s → HasRoom t → IsFresh h s t)
    → Later o s t
    → Later o s (add_peer h e t)
unfolding add_peer
add_peer-Later h e s t fresh l = record {
  issued_le = l.issued_le;
  well_formed = λ w r. record {
    counter = (l.well_formed w r).counter;
    peers_below =
        insert-Below _ h e t.peers (omega (arith, fresh w r)) (l.well_formed w r).peers_below;
    channels_below = (l.well_formed w r).channels_below;
    peers_distinct = insert-Distinct h e t.peers (l.well_formed w r).peers_distinct;
    channels_distinct = (l.well_formed w r).channels_distinct;
  };
  quiet = l.quiet;
}

pub add_channel-Later :
    {o : ℕ} (h : ℕ) (e : ChannelEntry) (s t : RuntimeState)
    → (WellFormed s → HasRoom t → IsFresh h s t)
    → Later o s t
    → Later o s (add_channel h e t)
unfolding add_channel
add_channel-Later h e s t fresh l = record {
  issued_le = l.issued_le;
  well_formed = λ w r. record {
    counter = (l.well_formed w r).counter;
    peers_below = (l.well_formed w r).peers_below;
    peers_distinct = (l.well_formed w r).peers_distinct;
    channels_distinct = insert-Distinct h e t.channels (l.well_formed w r).channels_distinct;
    channels_below =
        insert-Below _ h e t.channels (omega (arith, fresh w r)) (l.well_formed w r).channels_below;
  };
  quiet = l.quiet;
}

pub forget_channel-Later : {o : ℕ} (h : ℕ) (s : RuntimeState) → Later o s (forget_channel h s)
unfolding forget_channel
forget_channel-Later h s = record {
  issued_le = omega arith;
  well_formed = λ w r. record {
    counter = w.counter;
    peers_below = w.peers_below;
    channels_below = remove-Below _ h s.channels w.channels_below;
    peers_distinct = w.peers_distinct;
    channels_distinct = remove-Distinct h s.channels w.channels_distinct;
  };
  quiet = refl;
}

pub forget_peer-Later : {o : ℕ} (h : ℕ) (s : RuntimeState) → Later o s (forget_peer h s)
unfolding forget_peer
forget_peer-Later h s = record {
  issued_le = omega arith;
  well_formed = λ w r. record {
    counter = w.counter;
    peers_below = remove-Below _ h s.peers w.peers_below;
    channels_below = retain-Below _ _ s.channels w.channels_below;
    peers_distinct = remove-Distinct h s.peers w.peers_distinct;
    channels_distinct = retain-Distinct _ s.channels w.channels_distinct;
  };
  quiet = refl;
}

pub install_certificate-Later :
    {o : ℕ} (certificate : Text) (s : RuntimeState) → Later o s (install_certificate certificate s)
unfolding install_certificate
install_certificate-Later certificate s = frame_Later s _ refl refl refl refl refl
