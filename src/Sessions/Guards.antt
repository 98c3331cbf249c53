-- ===== src/Sessions/Guards.antt =====
-- `call_sticky` of session_sticky.go: which calls run here and which are passed on.
use allino.Base.{
  ℕ, ◌≡◌, ◌≢◌, refl, sym, ap, ◌∙◌, subst, Bool, true, false, not, ◌&&◌, ◌||◌, List, [], Option,
  none, some, if◌then◌else◌, Bool-cases, inl, inr, arith,
}
use allino.Base.Bytes.{Bytes, bytes_eq}
use allino.Sessions.Sticky.{
  Token, Decoded, invalid, expired, valid, Sticky, create_failed, token_invalid, token_expired,
  Node, node_ip, wrong_session, proxy_loop, proxy_forbidden, runs, proxied, Request, listed, route,
  route_created, call_sticky,
}

module _ (session_name nodeip : Bytes) (proxyable : List Bytes) (req : Request) where
  -- A call runs where its token has the address in the field of the server, for this session; one that
  -- is passed on has no header against loops, and goes to the address in its token, which is allowed.
  abbrev pub Guarded : Token → Sticky → Type 0
  Guarded t (runs _) = (bytes_eq t.name session_name ≡ true) × (bytes_eq t.node_ip nodeip ≡ true)
  Guarded t (proxied host) =
      (bytes_eq t.name session_name ≡ true)
      × (bytes_eq t.node_ip nodeip ≡ false)
      × (bytes_eq req.sticky_header [] ≡ true)
      × (host ≡ t.node_ip)
      × ((listed host proxyable || req.matches host) ≡ true)
  Guarded t _ = Unit

  route-Guarded :
      (now expire : ℕ) (t : Token)
      → Guarded t (route now expire session_name nodeip proxyable req t)
  unfolding route
  route-Guarded now expire t = elim (Bool-cases (bytes_eq t.name session_name)) [
    | inr n ↦ rw n tt
    | inl n ↦ rw n (elim (Bool-cases (bytes_eq t.node_ip nodeip)) [
      | inl i ↦ rw i (n, i)
      | inr i ↦ rw i (elim (Bool-cases (bytes_eq req.sticky_header [])) [
        | inr h ↦ rw h tt
        | inl h ↦ rw h (elim (Bool-cases (listed t.node_ip proxyable || req.matches t.node_ip)) [
          | inl l ↦ rw (allowed t l) (n, i, h, refl, l)
          | inr l ↦ rw (forbidden t l) tt
        ])
      ])
    ])
  ]
    where
      allowed :
          (t : Token)
          → (listed t.node_ip proxyable || req.matches t.node_ip) ≡ true
          → (not (listed t.node_ip proxyable) && not (req.matches t.node_ip)) ≡ false
      allowed t l = ground arith

      forbidden :
          (t : Token)
          → (listed t.node_ip proxyable || req.matches t.node_ip) ≡ false
          → (not (listed t.node_ip proxyable) && not (req.matches t.node_ip)) ≡ true
      forbidden t l = ground arith

  -- Some token that decodes answers for the outcome.
  abbrev pub Vouched : (Bytes → Decoded) → Sticky → Type 0
  Vouched decode (runs b) =
      (token : Bytes) × (t : Token) × (decode token ≡ valid t) × Guarded t (runs b)
  Vouched decode (proxied host) =
      (token : Bytes) × (t : Token) × (decode token ≡ valid t) × Guarded t (proxied host)
  Vouched decode _ = Unit

  vouch :
      (decode : Bytes → Decoded) (token : Bytes) (t : Token) (r : Sticky)
      → decode token ≡ valid t
      → Guarded t r
      → Vouched decode r
  vouch decode token t (runs b) d g = (token, t, d, g)
  vouch decode token t (proxied host) d g = (token, t, d, g)
  vouch decode token t create_failed d g = tt
  vouch decode token t token_invalid d g = tt
  vouch decode token t token_expired d g = tt
  vouch decode token t wrong_session d g = tt
  vouch decode token t proxy_loop d g = tt
  vouch decode token t proxy_forbidden d g = tt

  module _ (now expire : ℕ) (decode : Bytes → Decoded) where
    -- The second token.
    created-Vouched :
        (create : Option Bytes)
        → Vouched decode
            (route_created decode (route now expire session_name nodeip proxyable req) create)
    unfolding route_created
    created-Vouched none = tt
    created-Vouched (some token) = by_token (decode token) refl
      where
        by_token :
            (d : Decoded)
            → decode token ≡ d
            → Vouched decode (
                route_created decode
                  (route now expire session_name nodeip proxyable req)
                  (some token))
        by_token invalid e = rw (route_created, e) tt
        by_token expired e = rw (route_created, e) tt
        by_token (valid t) e =
            rw (route_created, e) (vouch decode token t _ e (route-Guarded now expire t))

    first-Vouched :
        (first create_again : Option Bytes)
        → Vouched decode (elim first [
          | none ↦ create_failed
          | some token ↦ elim (decode token) [
            | invalid ↦ token_invalid
            | expired ↦
                route_created decode
                  (route now expire session_name nodeip proxyable req)
                  create_again
            | valid t ↦ route now expire session_name nodeip proxyable req t
          ]
        ])
    first-Vouched none create_again = tt
    first-Vouched (some token) create_again =
        elim (decode token)
            as (λ d.
              decode token ≡ d
              → Vouched decode (elim d [
                | invalid ↦ token_invalid
                | expired ↦
                    route_created decode (route now expire session_name nodeip proxyable req)
                      create_again
                | valid t ↦ route now expire session_name nodeip proxyable req t
              ])) [
                | invalid ↦ λ e. tt
                | expired ↦ λ e. created-Vouched create_again
                | valid t ↦ λ e. vouch decode token t _ e (route-Guarded now expire t)
              ]
          refl

    -- A call with a session runs here, or is passed on, only for a token that decodes and is of
    -- this session; it runs here only where the token has the address in the field nodeip of
    -- the server, and is passed on only to the address in the token, which is not that of the
    -- field and is allowed by the list or the patterns of hosts, and only where the request has
    -- no header X-Allino-Sticky.
    pub call_sticky-Vouched :
        (create create_again : Option Bytes)
        → Vouched decode
            (call_sticky now expire session_name nodeip proxyable decode create create_again req)
    unfolding call_sticky
    call_sticky-Vouched create create_again =
        first-Vouched (if bytes_eq req.cookie [] then create else some req.cookie) create_again

configured :
    (n : Node)
    → n.nodeip ≡ []
    → bytes_eq n.session_node_ip [] ≡ false
    → node_ip n ≡ (n.session_node_ip, n)
unfolding node_ip
configured n unset set = ground arith

-- A server whose address is configured and whose field is empty runs no call with a token that it
-- issued itself.
own_token_not_run :
    (n : Node) (session_name : Bytes) (proxyable : List Bytes) (req : Request) (now expire : ℕ)
    (t : Token) (b : Bool)
    → n.nodeip ≡ []
    → bytes_eq n.session_node_ip [] ≡ false
    → t.node_ip ≡ (node_ip n).0
    → route now expire session_name (node_ip n).1.nodeip proxyable req t ≢ runs b
own_token_not_run n session_name proxyable req now expire t b unset set issued is =
    let node = configured n unset set in
    let field = (node_ip n).1.nodeip in
    let here : bytes_eq t.node_ip field ≡ true =
      (subst (Guarded session_name field proxyable req t) is
        (route-Guarded session_name field proxyable req now expire t)).1 in
    let ip : t.node_ip ≡ n.session_node_ip = issued ∙ ap (λ y. y.0) node in
    let empty : field ≡ [] = ap (λ y. y.1.nodeip) node ∙ unset in
    let bad = sym here ∙ ap (λ f. bytes_eq t.node_ip f) empty ∙ ap (λ s. bytes_eq s []) ip ∙ set in
    cc (bad)
