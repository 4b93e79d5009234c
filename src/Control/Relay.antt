-- ===== src/Control/Relay.antt =====
-- Direct messages (the read loops of control.go and proxy.go).
use discovery_self.Base.{
  ℕ, List, [], Option, none, some, Text, text_eq_refl, ◌≡◌, refl, ap, ◌==◌, sym, find_first,
  All-find_first, elem,
}
use discovery_self.Env.{Env, WireMessage, message, directmessage}
use discovery_self.Model.{State, ControlConnection, ProxyConnection, Effect}
use discovery_self.Step.{ok, crash, log_fatal, emit}
use discovery_self.Step.Emits.{sent_wire, emit-nil, send_wire-live}
use discovery_self.Live.{AllLive, wire}
use discovery_self.Sends.{control_send, proxy_send}
use discovery_self.Control.{handle, relay, to_controller, to_proxy, handle_wire}

-- The controller of the target, and the first proxy that owns the target.
abbrev pub controller_of : ℕ → State → Option ControlConnection
controller_of i s = find_first (λ c. c.id == i) s.sock.controllers

abbrev pub owner_of : ℕ → State → Option ProxyConnection
owner_of i s = find_first (λ p. elem i (s.maps p.peers)) s.sock.proxies

abbrev pub to_owner : Env → ℕ → WireMessage → Option ProxyConnection → List Effect
to_owner env source m none = []
to_owner env source m (some p) = sent_wire env p.ws (wire directmessage source m.target m.payload)

abbrev pub route :
    Env → ℕ → WireMessage → Option ControlConnection → Option ProxyConnection → List Effect
route env source m none o = to_owner env source m o
route env source m (some c) o = sent_wire env c.ws (wire message source m.target m.payload)

to_owner_lem :
    (env : Env) (control : ControlConnection) (m : WireMessage) (s : State)
    (o : Option ProxyConnection)
    → AllLive s.sock
    → owner_of m.target s ≡ o
    → to_proxy env control m o s ≡ ok (emit (to_owner env control.id m o) s)
unfolding to_proxy proxy_send
to_owner_lem env control m s none h e = ap ok (sym (emit-nil s))
to_owner_lem env control m s (some p) h e =
    send_wire-live env p.ws _ s (All-find_first _ _ s.sock.proxies h.of_proxies e)

pub route_lem :
    (env : Env) (control : ControlConnection) (m : WireMessage) (s : State)
    (oc : Option ControlConnection)
    → AllLive s.sock
    → controller_of m.target s ≡ oc
    → to_controller env control m oc (to_proxy env control m (owner_of m.target s)) s
      ≡ ok (emit (route env control.id m oc (owner_of m.target s)) s)
unfolding to_controller control_send
route_lem env control m s none h e = to_owner_lem env control m s (owner_of m.target s) h refl
route_lem env control m s (some c) h e =
    send_wire-live env c.ws _ s (All-find_first _ _ s.sock.controllers h.of_controllers e)

-- On a socket with no nil connection a "message" that a controller sends reaches one connection at
-- most: the first controller of the target's id, as "message"; if there is none, the first proxy
-- whose machine owns the target, as "directmessage"; if there is none either, nothing is written.
-- The id of the sender goes with it, whatever source the text claims, and the state does not
-- change.
pub handle-message :
    (env : Env) (control : ControlConnection) (text : Text) (m : WireMessage) (s : State)
    → AllLive s.sock
    → env.unmarshal text ≡ some m
    → m.action ≡ message
    → handle env control text s
      ≡ ok (emit (route env control.id m (controller_of m.target s) (owner_of m.target s)) s)
unfolding handle handle_wire relay
handle-message env control text m s h e act = rw e (
    rw act
      (rw (text_eq_refl message) (route_lem env control m s (controller_of m.target s) h refl)))

-- One text that is no wire message, from any controller, ends the process.
pub handle-malformed :
    (env : Env) (control : ControlConnection) (text : Text) (s : State)
    → env.unmarshal text ≡ none
    → handle env control text s ≡ crash log_fatal
unfolding handle
handle-malformed env control text s e = rw e refl
