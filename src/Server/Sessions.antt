-- ===== src/Server/Sessions.antt =====
-- `SurWebSocketServer` of api/src/ws/server.ts: connections, authentication, orders, channels. What
-- the handlers send is returned, each message with the id of the client that it goes to.
use sur_protocol.Common.{
  ℕ, suc, ◌/◌, ℤ, pos, ◌-ℤ◌, abs, Bool, true, false, not, ◌&&◌, ◌||◌, List, [], ◌∷◌, ◌++◌, Option,
  none, some, if◌then◌else◌, leb, ltb, ◌==◌, length, keep, nat_eq,
}
use sur_protocol.Common.Dict.{Dict, lookup, insert, erase}
use sur_protocol.Types.{MarketConfig, OrderbookSnapshot}
use sur_protocol.Engine.Book.{snapshot}
use sur_protocol.Engine.Matching
use sur_protocol.Engine.Matching.{
  Env, MatchingEngine, MatchResult, Submitted, submit_order, OrderParams, create_order,
}
use sur_protocol.Settlement.Pipeline.{SettlementPipeline}
use sur_protocol.Server.RateLimiter.{RateLimiter}
use sur_protocol.Server.Messages.{Text, ServerMessage, Failure}

-- `ConnectedClient`; `is_open` is `ws.readyState === WebSocket.OPEN`.
pub record ConnectedClient : Type 0 where
  pub subscriptions : List ℕ
  pub trader : Option ℕ
  pub is_authenticated : Bool
  pub is_open : Bool
  pub ip : ℕ

-- The state of the server; `verifying` are the calls of `verifyMessage` that have not settled, each
-- by the client that has asked for it and the address that it is about.
pub record Server : Type 0 where
  pub clients : Dict ℕ ConnectedClient
  pub engines : Dict ℕ MatchingEngine
  pub pipeline : SettlementPipeline
  pub client_counter : ℕ
  pub rate_limiter : RateLimiter
  pub max_connections : ℕ
  pub verifying : List (ℕ × ℕ)

abbrev pub engines_of : List MarketConfig → Dict ℕ MatchingEngine → Dict ℕ MatchingEngine
engines_of [] m = m
engines_of (c ∷ cs) m = engines_of cs (insert c.id (Matching.init c) m)

-- `new SurWebSocketServer(config, pipeline)`
unfoldable pub init : List MarketConfig → SettlementPipeline → ℕ → ℕ → Server
init markets pipeline max_connections max_messages = record {
  clients = [];
  engines = engines_of markets [];
  pipeline = pipeline;
  client_counter = 0;
  rate_limiter = record { windows = []; max_per_window = max_messages; window_ms = 1000 };
  max_connections = max_connections;
  verifying = [];
}

-- What a handler sends.
abbrev pub Sent : Type 0
Sent = List (ℕ × ServerMessage)

-- `handleConnection`, up to the registration of the listeners. A refused connection is closed.
unfoldable pub handle_connection : ℕ → Server → Server
handle_connection ip s = if leb s.max_connections (length s.clients) then s else record s {
  client_counter = suc s.client_counter;
  clients =
      insert (suc s.client_counter)
        (record {
          subscriptions = [];
          trader = none;
          is_authenticated = false;
          is_open = true;
          ip = ip;
        })
        s.clients;
}

-- `ws.on("close")`
unfoldable pub handle_close : ℕ → Server → Server
handle_close id s = record s { clients = erase id s.clients }

-- A socket that begins to close.
unfoldable pub socket_closing : ℕ → Server → Server
socket_closing id s = elim (lookup id s.clients) [
  | none ↦ s
  | some c ↦ record s { clients = insert id (record c { is_open = false }) s.clients }
]

-- `stop`
unfoldable pub stop : Server → Server
stop s = record s { clients = [] }

-- `send`: to a client whose socket is open.
abbrev pub send : ℕ → ConnectedClient → ServerMessage → Sent
send id c m = if c.is_open then (id, m) ∷ [] else []

abbrev pub contains : ℕ → List ℕ → Bool
contains x [] = false
contains x (y ∷ ys) = if x == y then true else contains x ys

-- `subscriptions.add` and `subscriptions.delete`
abbrev pub add : ℕ → List ℕ → List ℕ
add x ys = if contains x ys then ys else ys ++ x ∷ []

abbrev pub remove : ℕ → List ℕ → List ℕ
remove x ys = keep (λ y. not (x == y)) ys

-- `broadcastToChannel`
abbrev pub broadcast_to : ℕ → ServerMessage → Dict ℕ ConnectedClient → Sent
broadcast_to channel m [] = []
broadcast_to channel m ((id, c) ∷ cs) =
    if contains channel c.subscriptions && c.is_open
    then (id, m) ∷ broadcast_to channel m cs
    else broadcast_to channel m cs

-- `broadcast`
abbrev pub broadcast : ServerMessage → Dict ℕ ConnectedClient → Sent
broadcast m [] = []
broadcast m ((id, c) ∷ cs) = if c.is_open then (id, m) ∷ broadcast m cs else broadcast m cs

-- The channels of one `subscribe` message, each with the snapshot that the client gets for it.
-- `now` is what `Date.now()` returns.
abbrev pub snapshot_of : ℕ → Option ℕ → Dict ℕ MatchingEngine → List OrderbookSnapshot
snapshot_of now none engines = []
snapshot_of now (some market) engines = elim (lookup market engines) [
  | none ↦ []
  | some g ↦ snapshot g.book 20 now ∷ []
]

abbrev pub send_all : ℕ → ConnectedClient → List OrderbookSnapshot → Sent
send_all id c [] = []
send_all id c (v ∷ vs) = send id c (ServerMessage.orderbook v) ++ send_all id c vs

abbrev pub subscribe_all :
    Text → ℕ → ℕ → Dict ℕ MatchingEngine → List ℕ → ConnectedClient → ConnectedClient × Sent
subscribe_all text now id engines [] c = (c, [])
subscribe_all text now id engines (channel ∷ channels) c =
    let (d, sent) =
      subscribe_all text now id engines channels
        (record c { subscriptions = add channel c.subscriptions }) in
    (d, send_all id c (snapshot_of now (text.orderbook_market channel) engines) ++ sent)

abbrev pub unsubscribe_all : List ℕ → ConnectedClient → ConnectedClient
unsubscribe_all [] c = c
unsubscribe_all (channel ∷ channels) c =
    unsubscribe_all channels (record c { subscriptions = remove channel c.subscriptions })

-- The checks of `handleAuthenticate` before `verifyMessage`: a failure, or the address and the
-- signed text that are to be verified. `Math.abs(now - NaN) > 300` is false.
pub data AuthCheck : Type 0 where
  refused : Failure → AuthCheck
  to_verify : (address timestamp signature : ℕ) → AuthCheck

abbrev pub is_stale : ℕ → Option ℤ → Bool
is_stale now none = false
is_stale now (some t) = ltb 300 (abs (pos (now / 1000) -ℤ t))

unfoldable pub check_authentication : Text → ℕ → Option ℕ → Option ℕ → Option ℕ → AuthCheck
check_authentication text now (some address) (some timestamp) (some signature) =
    if is_stale now (text.number timestamp)
    then refused Failure.stale_timestamp
    else to_verify address timestamp signature
check_authentication text now _ _ _ = refused Failure.missing_fields

-- What `verifyMessage` comes to: an answer, or an error that it throws.
pub data Verification : Type 0 where
  answered : Bool → Verification
  threw : Verification

-- `handleAuthenticate` after `verifyMessage`. The client may have gone meanwhile.
abbrev pub verified : ℕ → ℕ → Verification → ConnectedClient → Server → Server × Sent
verified id address threw c s = (s, send id c (ServerMessage.error Failure.verification_threw))
verified id address (answered false) c s =
    (s, send id c (ServerMessage.error Failure.wrong_signature))
verified id address (answered true) c s = (
  record s {
    clients = insert id (record c { is_authenticated = true; trader = some address }) s.clients;
  },
  send id c (ServerMessage.authenticated address),
)

unfoldable pub resume : ℕ → ℕ → Verification → Server → Server × Sent
resume id address v s = elim (lookup id s.clients) [
  | none ↦ (s, [])
  | some c ↦ verified id address v c s
]

abbrev pub is_verifying : (id address : ℕ) → List (ℕ × ℕ) → Bool
is_verifying id address [] = false
is_verifying id address ((i, a) ∷ vs) = i == id && a == address || is_verifying id address vs

-- The calls without the first of the client about the address, which settles.
abbrev pub drop_verifying : (id address : ℕ) → List (ℕ × ℕ) → List (ℕ × ℕ)
drop_verifying id address [] = []
drop_verifying id address ((i, a) ∷ vs) =
    if i == id && a == address then vs else (i, a) ∷ drop_verifying id address vs

-- The end of a call of `verifyMessage`. Nothing happens if there is no such call.
unfoldable pub after_verify : ℕ → ℕ → Verification → Server → Server × Sent
after_verify id address v s =
    if is_verifying id address s.verifying
    then resume id address v (record s { verifying = drop_verifying id address s.verifying })
    else (s, [])
