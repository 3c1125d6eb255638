-- ===== src/Rpc/Register.antt =====
-- `validRegisterName` and `HandleRegister` of internal/server/rpc_handler.go. A request comes with
-- the client's address, with the identifiers that `createNodeContext` draws for it, and with whether
-- the node is saved. `equal_fold` is strings.EqualFold.
use Prim.Native.Char.{Char, code}
use Prim.Native.String.{len}
use text.Mathlib.Text.{◌==◌ as str_eq}
use vibemonitor.Prelude.{
  ℕ, Bool, true, not, ◌&&◌, ◌||◌, String, Option, none, some, value_or, if◌then◌else◌, leb, ltb,
  ◌==◌,
}
use vibemonitor.Limits.Login.{Clients, allow}
use vibemonitor.Store.Registration.{Window, registration_open}
use vibemonitor.Store.Registry.{Registry, Options, StoreError, create_node}
use vibemonitor.Store.Registry.StoreError.{name_taken}
use vibemonitor.Rpc.Dispatch.{Headers}

abbrev pub max_register_name_len : ℕ
max_register_name_len = 64

abbrev pub between : ℕ → ℕ → ℕ → Bool
between low high c = leb low c && leb c high

-- The cases of the `switch` that go on.
unfoldable pub name_char : Char → Bool
name_char c =
    between b'a' b'z' (code c)
    || between b'A' b'Z' (code c)
    || between b'0' b'9' (code c)
    || code c == b'-'
    || code c == b'_'
    || code c == b'.'

unfoldable pub name_chars : String → Bool
unfolding name_char
name_chars String.[] = true
name_chars (String.◌∷◌ c s) = name_char c && name_chars s

unfoldable pub valid_register_name : String → Bool
unfolding name_chars
valid_register_name name =
    not (str_eq name "") && not (ltb max_register_name_len (len name)) && name_chars name

-- The name that a node gets.
unfoldable pub register_name : String → String
unfolding valid_register_name
register_name name = if valid_register_name name then name else "auto-node"

pub record Registration : Type 0 where
  pub is_post : Bool
  pub authorization : String
  pub address : String
  pub name : String
  pub uuid : String
  pub token : String
  pub saved : Bool

pub data Registered : Type 0 where
  method_not_allowed : Registered
  no_window : Registered
  too_many : Registered
  conflict : String → Registered
  failed : StoreError → Registered
  created : (uuid token : String) → Registered

-- What the endpoint shares with the rest of the server.
pub record Gate (R : Type 0) : Type 0 where
  pub window : Window
  pub clients : Clients
  pub registry : Registry R

-- `!open || subtle.ConstantTimeCompare(…) != 1`
unfoldable pub refuses_key : String → Option String → Bool
refuses_key key none = true
refuses_key key (some its_key) = not (str_eq key its_key)

-- The answer to an outcome of `CreateNodeWithUniqueNameContext`.
unfoldable pub answer_for : Registration → String → Option StoreError → Registered
answer_for r name none = created r.uuid r.token
answer_for r name (some name_taken) = conflict name
answer_for r name (some e) = failed e

abbrev pub register_options : String → Options
register_options name = record { name = name; group = "Auto"; region = "DEFAULT" }

module _ {R : Type 0} where
  -- From the name on
  unfoldable pub register_node :
      (String → String → Bool) → Registration → Gate R → Registered × Gate R
  unfolding answer_for register_name
  register_node equal_fold r g =
      let name = register_name r.name in
      let outcome =
        create_node equal_fold true (register_options name) r.uuid r.token r.saved g.registry in
      (answer_for r name outcome.1, record g { registry = outcome.0 })

  -- From the key on
  unfoldable pub register_client :
      (String → String → Bool) → ℕ → Registration → Gate R → Registered × Gate R
  unfolding register_node
  register_client equal_fold now r g =
      let admitted = allow g.clients r.address now in
      let g' = record g { clients = admitted.0 } in
      if admitted.1 then register_node equal_fold r g' else (too_many, g')

  -- `HandleRegister`; `unix_now` is `now` in Unix seconds.
  unfoldable pub handle_register :
      Headers → (String → String → Bool) → ℕ → ℕ → Registration → Gate R → Registered × Gate R
  unfolding register_client refuses_key
  handle_register headers equal_fold now unix_now r g =
      let key = value_or r.authorization (headers.after_bearer r.authorization) in
      if not r.is_post
      then (method_not_allowed, g)
      else if refuses_key key (registration_open unix_now g.window)
      then (no_window, g)
      else register_client equal_fold now r g
