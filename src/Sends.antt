-- ===== src/Sends.antt =====
-- The `send` methods of peer.go, control.go and proxy.go, what a read of a connection returns, and
-- the notification that peer.go and proxy.go raise for a text that holds a URL.
use discovery_self.Base.{
  ℕ, [], ◌∷◌, ◌++◌, Option, none, some, Text, codes, text_eq, ◌&&◌, not, if◌then◌else◌, ◌==◌,
  length, leb, ◌≡◌, true,
}
use discovery_self.Env.{Env}
use discovery_self.Model.{PeerConnection, ControlConnection, ProxyConnection, pushed, fetched}
use discovery_self.Step.{ok, crash, log_fatal, nil_dereference, Step, write, send_wire, emit}

-- What ReadMessage returns: an opcode and the bytes of the message, or an error.
pub data ReadEvent : Type 0 where
  read_message : ℕ → Text → ReadEvent
  read_error : ReadEvent

-- websocket.TextMessage
abbrev pub text_opcode : ℕ
text_opcode = 1

-- maxMessageSize, in bytes: what each read pump passes to SetReadLimit.
abbrev pub max_message_size : ℕ
max_message_size = 4096

-- A message within the read limit.
abbrev pub IsFit : Text → Type 0
IsFit text = leb (length text) max_message_size ≡ true

-- `err != nil || opCode != websocket.TextMessage` breaks the loop: `none`. For a message over the
-- read limit ReadMessage returns ErrReadLimit.
unfoldable pub received : ReadEvent → Option Text
received (read_message op text) =
    if op == text_opcode && leb (length text) max_message_size then some text else none
received read_error = none

-- SetReadLimit, SetReadDeadline and SetPongHandler, with which each read pump begins: on a nil
-- connection the first of them is a nil dereference. The limit is applied in `received`.
unfoldable pub start_reading : Option ℕ → Step
start_reading none s = crash nil_dereference
start_reading (some c) s = ok s

unfoldable pub peer_send : PeerConnection → Text → Step
peer_send peer payload = write peer.ws payload

module _ (env : Env) where
  unfoldable pub control_send : ControlConnection → Text → ℕ → ℕ → Text → Step
  control_send control action source target payload =
      send_wire env control.ws
        (record { action = action; source = source; target = target; payload = payload })

  unfoldable pub proxy_send : ProxyConnection → Text → ℕ → ℕ → Text → Step
  proxy_send proxy action source target payload =
      send_wire env proxy.ws
        (record { action = action; source = source; target = target; payload = payload })

  -- The text is shown on a desktop, or handed to the agent at `url` on an ARM device.
  unfoldable pub show_notification : Text → Text → Step
  show_notification url text s = elim env.icon_path [
    | none ↦ crash log_fatal
    | some path ↦ ok (
        if text_eq env.goos (codes "linux") && not (text_eq env.goarch (codes "arm"))
        then emit (pushed (codes "Mediascape") text path ∷ []) s
        else if text_eq env.goos (codes "linux") && text_eq env.goarch (codes "arm")
        then emit (fetched (url ++ text) ∷ []) s
        else s)
  ]
