-- ===== src/Sessions/Sticky.antt =====
-- session_sticky.go: the session of a token, and `call_sticky`, which decides where a call runs.
-- What the encryption library makes of a token is an argument.
use allino.Base.{
  ℕ, ◌+◌, ◌-◌, ◌*◌, ◌/◌, Bool, false, not, ◌&&◌, ◌||◌, List, [], ◌∷◌, Option, none, some,
  if◌then◌else◌, ltb,
}
use allino.Base.Bytes.{Bytes, bytes_eq}
use allino.Jobs.Queue.{second}
use allino.Sessions.Store.{Entry, find_entry, put_entry}

pub data StickyError : Type 0 where
  session_not_exist type_not_match : StickyError

-- What `getStickySessionEntry` answers.
pub data Opened (V : Type 0) : Type 0 where
  refused : StickyError → Opened V
  opened : V → Opened V

-- `init` is the new value: `none` where the initializer gives another type.
unfoldable pub get_sticky_session_entry :
    {V : Type 0} → ℕ → ℕ → Option V → Bytes → List (Entry V) → Opened V × List (Entry V)
get_sticky_session_entry now expire init sid store = elim (find_entry sid store) [
  | none ↦ (refused session_not_exist, store)
  | some e ↦ elim e.value [
    | some v ↦ (opened v, put_entry (record e { expire_at = now + expire }) store)
    | none ↦ elim init [
      | none ↦ (refused type_not_match, store)
      | some v ↦ (opened v, put_entry (record e { value = some v; expire_at = now + expire }) store)
    ]
  ]
]

-- `sessionToken`; `create_at` is in seconds.
pub record Token : Type 0 where
  pub node_ip : Bytes
  pub name : Bytes
  pub session_id : Bytes
  pub create_at : ℕ

pub data Decoded : Type 0 where
  invalid expired : Decoded
  valid : Token → Decoded

-- The end of `decodeSession`; `none` is a token that the library refuses.
unfoldable pub decode_session : ℕ → ℕ → Option Token → Decoded
decode_session now expire none = invalid
decode_session now expire (some t) =
    if ltb 0 expire && ltb (t.create_at * second + expire) now then expired else valid t

-- What `Server.NodeIP` reads: the field `nodeip` of the server, its configuration, the variable of the
-- environment that the configuration names, where it is set, and the address by `Bind` and the network
-- interfaces, `none` where `Bind` has no port.
pub record Node : Type 0 where
  pub nodeip : Bytes
  pub session_node_ip : Bytes
  pub env_node_ip : Option Bytes
  pub address : Option Bytes

-- The address that tokens are issued with. A configured one is not put into the field.
unfoldable pub node_ip : Node → Bytes × Node
node_ip n =
    if not (bytes_eq n.nodeip [])
    then (n.nodeip, n)
    else if not (bytes_eq n.session_node_ip [])
    then (n.session_node_ip, n)
    else elim n.env_node_ip [
      | some val ↦ (val, record n { nodeip = val })
      | none ↦ elim n.address [ none ↦ ([], n) | some val ↦ (val, record n { nodeip = val }) ]
    ]

-- What a call with a session comes to. `runs` is true where it sends a new token.
pub data Sticky : Type 0 where
  create_failed token_invalid token_expired wrong_session proxy_loop proxy_forbidden : Sticky
  runs : Bool → Sticky
  proxied : Bytes → Sticky

-- A request as `call_sticky` sees it: its cookie, its header against loops, and the answers of the
-- hosts' patterns.
pub record Request : Type 0 where
  pub cookie : Bytes
  pub sticky_header : Bytes
  pub matches : Bytes → Bool

abbrev pub listed : Bytes → List Bytes → Bool
listed h [] = false
listed h (x ∷ xs) = bytes_eq x h || listed h xs

-- Where a call with a token runs. `nodeip` is the field of the server, which NodeIP may have left
-- empty.
unfoldable pub route : ℕ → ℕ → Bytes → Bytes → List Bytes → Request → Token → Sticky
route now expire session_name nodeip proxyable req t =
    if not (bytes_eq t.name session_name)
    then wrong_session
    else if bytes_eq t.node_ip nodeip
    then runs (ltb 0 expire && ltb (expire / (2 * second)) (now / second - t.create_at))
    else if not (bytes_eq req.sticky_header [])
    then proxy_loop
    else if not (listed t.node_ip proxyable) && not (req.matches t.node_ip)
    then proxy_forbidden
    else proxied t.node_ip

-- The token after a creation of a session; `none` is its error.
unfoldable pub route_created : (Bytes → Decoded) → (Token → Sticky) → Option Bytes → Sticky
route_created decode go none = create_failed
route_created decode go (some token) = elim (decode token) [
  | invalid ↦ token_invalid
  | expired ↦ token_expired
  | valid t ↦ go t
]

-- `call_sticky`. `decode` is `decodeSession`, `create` and `create_again` are what the handler that
-- creates sessions gives to its two calls.
unfoldable pub call_sticky :
    ℕ
    → ℕ
    → Bytes
    → Bytes
    → List Bytes
    → (Bytes → Decoded)
    → Option Bytes
    → Option Bytes
    → Request
    → Sticky
unfolding route route_created
call_sticky now expire session_name nodeip proxyable decode create create_again req =
    let go = route now expire session_name nodeip proxyable req in
    elim (if bytes_eq req.cookie [] then create else some req.cookie) [
      | none ↦ create_failed
      | some token ↦ elim (decode token) [
        | invalid ↦ token_invalid
        | expired ↦ route_created decode go create_again
        | valid t ↦ go t
      ]
    ]
