-- ===== src/Network/Direct.antt =====
-- A direct message from a controller on one machine to a controller on another.
use discovery_self.Base.{
  ℕ, [], ◌∷◌, none, some, Text, text_eq, ◌≡◌, refl, ◌∙◌, true, All-find_first,
}
use discovery_self.Env.{Env, IsEnv, WireMessage, message, directmessage}
use discovery_self.Model.{State, ControlConnection, ProxyConnection, wrote}
use discovery_self.Step.{ok, emit}
use discovery_self.Step.Emits.{sent_wire, send_wire-live}
use discovery_self.Live.{AllLive, wire}
use discovery_self.Sends.{control_send}
use discovery_self.Control
use discovery_self.Control.Relay.{controller_of, owner_of, handle-message}
use discovery_self.Proxy
use discovery_self.Proxy.{relay, handle_wire, handle_message}

-- The receiving half: a "directmessage" frame reaches the first controller of the target's id.
pub handle-directmessage :
    (env : Env) (p : ProxyConnection) (text : Text) (i k : ℕ) (payload : Text)
    (c : ControlConnection) (s : State)
    → AllLive s.sock
    → env.unmarshal text ≡ some (wire directmessage i k payload)
    → controller_of k s ≡ some c
    → Proxy.handle env p text s ≡ ok (emit (sent_wire env c.ws (wire message i k payload)) s)
unfolding Proxy.handle handle_wire handle_message relay control_send text_eq
handle-directmessage env p text i k payload c s h e f =
    rw e (
      rw f (send_wire-live env c.ws _ s (All-find_first _ _ s.sock.controllers h.of_controllers f)))

-- On two sockets with no nil connection, a direct message whose target has no controller on the
-- sender's machine and is owned by the machine behind a proxy is one frame on that proxy's
-- connection, and that frame, read on the other machine, is one "message" to the controller of the
-- target: with the sender's id as its source, and with its payload, which is valid UTF-8.
pub direct_message_delivered :
    (env : Env) (spec : IsEnv env) (s u : State) (sender : ControlConnection) (text : Text)
    (m : WireMessage) (near far : ProxyConnection) (c : ℕ) (receiver : ControlConnection)
    → AllLive s.sock
    → AllLive u.sock
    → env.unmarshal text ≡ some m
    → m.action ≡ message
    → env.valid_utf8 m.payload ≡ true
    → controller_of m.target s ≡ none
    → owner_of m.target s ≡ some near
    → near.ws ≡ some c
    → controller_of m.target u ≡ some receiver
    → (frame : Text) × (Control.handle env sender text s ≡ ok (emit (wrote c frame ∷ []) s))
      × (Proxy.handle env far frame u
          ≡ ok (emit (sent_wire env receiver.ws (wire message sender.id m.target m.payload)) u))
direct_message_delivered env spec s u sender text m near far c receiver hs hu e act utf local remote
      w here =
    let (frame, enc, dec) =
      spec.json (wire directmessage sender.id m.target m.payload) spec.ascii.4 utf in
    (
      frame,
      handle-message env sender text m s hs e act ∙ rw (local, remote, w, enc) refl,
      handle-directmessage env far frame sender.id m.target m.payload receiver u hu dec here,
    )
