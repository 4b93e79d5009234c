-- ===== src/Env.antt =====
-- What the proxy takes from outside of its own files: the platform (runtime.GOOS, runtime.GOARCH,
-- filepath.Abs), encoding/json on its wire messages, and the unspecified order in which Go ranges
-- over a map. ProxyWireMessage (proxy.go) and ControlWireMessage (control.go) have the same
-- fields, so one record stands for both.
-- A Go `int` is modelled by its 64-bit two's complement pattern: the program only compares ids.
use mathlib.Core.List.{Perm}
use discovery_self.Base.{ℕ, ◌≡◌, Bool, true, Option, some, List, [], Text, codes}

pub record WireMessage : Type 0 where
  pub action : Text
  pub source : ℕ
  pub target : ℕ
  pub payload : Text

pub record Env : Type 0 where
  pub goos : Text
  pub goarch : Text
  -- filepath.Abs("Mediascape.png"); `none` where it fails
  pub icon_path : Option Text
  -- json.Marshal and json.Unmarshal; `none` where they return an error
  pub marshal : WireMessage → Option Text
  pub unmarshal : Text → Option WireMessage
  -- whether a string is valid UTF-8; json.Marshal replaces the bytes that are not
  pub valid_utf8 : Text → Bool
  -- the order in which a range loop visits the keys of a map
  pub range_order : List ℕ → List ℕ

-- The actions of a wire message.
abbrev pub connect : Text
connect = codes "connect"

abbrev pub disconnect : Text
disconnect = codes "disconnect"

abbrev pub message : Text
message = codes "message"

abbrev pub directmessage : Text
directmessage = codes "directmessage"

-- The documented behaviour of encoding/json and of range loops that the theorems rely on.
pub record IsEnv (env : Env) : Type 0 where
  pub json :
      (m : WireMessage)
      → env.valid_utf8 m.action ≡ true
      → env.valid_utf8 m.payload ≡ true
      → (t : Text) × (env.marshal m ≡ some t) × (env.unmarshal t ≡ some m)
  -- bytes that are not UTF-8 are replaced, in the payload of a message whose action is
  pub coerced :
      (m : WireMessage)
      → env.valid_utf8 m.action ≡ true
      → (t : Text) × (p : Text) × (env.marshal m ≡ some t)
        × (env.unmarshal t ≡ some (record m { payload = p }))
  pub ascii :
      (env.valid_utf8 [] ≡ true)
      × (env.valid_utf8 connect ≡ true)
      × (env.valid_utf8 disconnect ≡ true)
      × (env.valid_utf8 message ≡ true)
      × (env.valid_utf8 directmessage ≡ true)
  pub range_perm : (ks : List ℕ) → Perm (env.range_order ks) ks
