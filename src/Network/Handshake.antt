-- ===== src/Network/Handshake.antt =====
-- Frames that a machine reads from another (the read loops of peer.go and proxy.go).
use discovery_self.Base.{List, [], ◌∷◌, Text, map, ◌≡◌, refl, some}
use discovery_self.Env.{Env}
use discovery_self.Model.{State, PeerConnection, ProxyConnection}
use discovery_self.Sends.{ReadEvent, read_message, received, text_opcode, IsFit}
use discovery_self.Step.{ok}
use discovery_self.Peer
use discovery_self.Proxy

-- Text messages, as they come off the connection.
abbrev pub reads : List Text → List ReadEvent
reads = map (read_message text_opcode)

received-IsFit : (f : Text) → IsFit f → received (read_message text_opcode f) ≡ some f
unfolding received
received-IsFit f h = rw h refl

-- A frame within the read limit whose handling returns is read, and the loop goes on.
pub read_frame :
    (env : Env) (far : ProxyConnection) (f : Text) (evs : List ReadEvent) (s t : State)
    → IsFit f
    → Proxy.handle env far f s ≡ ok t
    → Proxy.read_loop env far (read_message text_opcode f ∷ evs) s ≡ Proxy.read_loop env far evs t
unfolding Proxy.read_loop
read_frame env far f evs s t fit e = rw (Proxy.read_loop, received-IsFit f fit, e) refl

-- The loop waits where the reads end.
pub read_single :
    (env : Env) (far : ProxyConnection) (f : Text) (s t : State)
    → IsFit f
    → Proxy.handle env far f s ≡ ok t
    → Proxy.read_loop env far (reads (f ∷ [])) s ≡ ok t
unfolding Proxy.read_loop
read_single env far f s t fit e = read_frame env far f [] s t fit e

pub text_single :
    (env : Env) (p : PeerConnection) (f : Text) (s t : State)
    → IsFit f
    → Peer.handle env p f s ≡ ok t
    → Peer.read_loop env p (reads (f ∷ [])) s ≡ ok t
unfolding Peer.read_loop
text_single env p f s t fit e = rw (Peer.read_loop, received-IsFit f fit, e) refl
