-- ===== src/Server/Soundness.antt =====
-- What every event of the WebSocket server keeps: its books, its clients and the pipeline.
use sur_protocol.Common.{
  ◌++◌, ℕ, ◌≤◌, ◌<◌, Bool-cases, ◌≡◌, refl, subst, inl, inr, List, [], ◌∷◌, Option, none, some,
  Option-cases, arith, ◌==◌, length, nat_eq, if-elim, ◌⊎◌,
}
use sur_protocol.Common.Dict.{Dict, lookup, insert, Distinct}
use sur_protocol.Common.{not, pos, leb_ℤ}
use sur_protocol.Server.Requests.{
  Numbers, find_market, check_numbers, check_side, is_expired, is_mismatch, parse_numbers,
}
use sur_protocol.Types.{Side, Order, Trade}
use sur_protocol.Engine.Matching
use sur_protocol.Engine.Matching.{
  MatchingEngine, Submitted, submit_order, OrderParams, create_order,
}
use sur_protocol.Engine.Matching.Execution.{IsBookValid}
use sur_protocol.Engine.Matching.Submit.{submit_order-IsBookValid}
use sur_protocol.Engine.Matching.Uncrossed.{IsUncrossed, submit_order-IsUncrossed}
use sur_protocol.Engine.Matching.Cancellation.{cancel-IsBookValid, cancel-IsUncrossed}
use sur_protocol.Settlement.Pipeline.{cache_order}
use sur_protocol.Server.Messages.{Text, SubmitOrderRequest, ClientMessage}
use sur_protocol.Server.Sessions.{
  ConnectedClient, Server, Sent, subscribe_all, unsubscribe_all, AuthCheck, refused, to_verify,
  check_authentication,
}
use sur_protocol.Server.Requests.{Request, bad, good, check_request}
use sur_protocol.Server.Orders.{
  Moment, process_trades, submitted, report, is_rejected, submit_request, handle_submit_order,
  cancel_each, handle_cancel_order, set_client, begin_authentication, handle_message,
}

-- A market whose book is valid, with every bid below every ask.
pub record IsOrderly (g : MatchingEngine) : Type 0 where
  pub valid : IsBookValid g.book
  pub uncrossed : IsUncrossed g.book

abbrev pub AllOrderly : Dict ℕ MatchingEngine → Type 0
AllOrderly [] = Unit
AllOrderly ((k, g) ∷ m) = IsOrderly g × AllOrderly m

pub AllOrderly-insert :
    (k : ℕ) (g : MatchingEngine) (m : Dict ℕ MatchingEngine)
    → IsOrderly g
    → AllOrderly m
    → AllOrderly (insert k g m)
AllOrderly-insert k g [] h a = (h, tt)
AllOrderly-insert k g ((j, w) ∷ m) h a = ground (arith, AllOrderly-insert k g m h)

AllOrderly-lookup :
    (k : ℕ) (g : MatchingEngine) (m : Dict ℕ MatchingEngine)
    → AllOrderly m
    → lookup k m ≡ some g
    → IsOrderly g
AllOrderly-lookup k g [] a e = absurd (ground arith)
AllOrderly-lookup k g ((j, w) ∷ m) a e = elim (Bool-cases (k == j)) [
  | inl here ↦ subst IsOrderly (ground (arith, here, e)) a.0
  | inr below ↦ AllOrderly-lookup k g m a.1 (ground (arith, below, e))
]

-- What the events keep, apart from the books.
pub record IsServing (s : Server) : Type 0 where
  pub capacity : length s.clients ≤ s.max_connections
  pub distinct : Distinct s.clients
  pub numbered : (k : ℕ) → s.client_counter < k → lookup k s.clients ≡ none
  pub orderly : AllOrderly s.engines

-- A change of the server that handles one message: the client's own entry, the books of sound
-- markets, and caches.
pub record Change (id : ℕ) (s s' : Server) : Type 0 where
  pub clients :
      (s'.clients ≡ s.clients) ⊎ ((d : ConnectedClient) × (s'.clients ≡ insert id d s.clients))
  pub counter : s'.client_counter ≡ s.client_counter
  pub limit : s'.max_connections ≡ s.max_connections
  pub pending : s'.pipeline.pending_trades ≡ s.pipeline.pending_trades
  pub batches : s'.pipeline.batches ≡ s.pipeline.batches
  pub orderly : AllOrderly s.engines → AllOrderly s'.engines

pub Change-refl : (id : ℕ) (s : Server) → Change id s s
Change-refl id s = record {
  clients = inl refl;
  counter = refl;
  limit = refl;
  pending = refl;
  batches = refl;
  orderly = λ a. a;
}

process_trades-eq :
    (text : Text) (now : ℕ) (o : Order) (ts : List Trade) (s : Server)
    → (process_trades text now o ts s).0 ≡ s
process_trades-eq text now o [] s = refl
process_trades-eq text now o (t ∷ ts) s = process_trades-eq text now o ts s

pub report-eq :
    (text : Text) (m : Moment) (id : ℕ) (c : ConnectedClient) (o : Order) (r : Submitted)
    (s : Server)
    → (report text m id c o r s).0 ≡ s
report-eq text m id c o r s = elim (Bool-cases (is_rejected r.result.status)) [
  | inl yes' ↦ rw (yes', report) refl
  | inr no' ↦ rw (no', report) (process_trades-eq text m.now r.order r.result.trades s)
]

-- The market that a request is for is one of the server's.
abbrev ForOrderly : Request → Type 0
ForOrderly (bad why) = Unit
ForOrderly (good p g) = IsOrderly g

find_market-ForOrderly :
    (r : SubmitOrderRequest) (side : Side) (n : Numbers) (m : Dict ℕ MatchingEngine)
    → AllOrderly m
    → ForOrderly (find_market r side n m)
find_market-ForOrderly r side n m a = elim (Option-cases (lookup r.market_id m)) [
  | inl none' ↦ rw (none', find_market) tt
  | inr (g, e) ↦ rw (e, find_market) (AllOrderly-lookup r.market_id g m a e)
]

check_numbers-ForOrderly :
    (now : ℕ) (r : SubmitOrderRequest) (side : Side) (n : Option Numbers)
    (m : Dict ℕ MatchingEngine)
    → AllOrderly m
    → ForOrderly (check_numbers now r side n m)
check_numbers-ForOrderly now r side none m a = tt
check_numbers-ForOrderly now r side (some n) m a =
    if-elim ForOrderly (leb_ℤ n.size (pos 0)) _ _ tt
      (if-elim ForOrderly (is_expired now n.expiry) _ _ tt (find_market-ForOrderly r side n m a))

check_side-ForOrderly :
    (text : Text) (now : ℕ) (r : SubmitOrderRequest) (side : Option Side)
    (m : Dict ℕ MatchingEngine)
    → AllOrderly m
    → ForOrderly (check_side text now r side m)
check_side-ForOrderly text now r none m a = tt
check_side-ForOrderly text now r (some side) m a =
    if-elim ForOrderly (not (text.is_signature r.signature)) _ _ tt
      (check_numbers-ForOrderly now r side (parse_numbers text r) m a)

check_request-ForOrderly :
    (text : Text) (now : ℕ) (t : Option ℕ) (r : SubmitOrderRequest) (m : Dict ℕ MatchingEngine)
    → AllOrderly m
    → ForOrderly (check_request text now t r m)
unfolding check_request
check_request-ForOrderly text now t r m a = if-elim ForOrderly (is_mismatch t r.trader) _ _ tt (
    if-elim ForOrderly (not (text.is_address r.trader)) _ _ tt (
      if-elim ForOrderly (not (text.is_market_id r.market_id)) _ _ tt
        (check_side-ForOrderly text now r r.side m a)))

submitted-Change :
    (id : ℕ) (o : Order) (r : Submitted) (s : Server)
    → (AllOrderly s.engines → IsOrderly r.engine)
    → Change id s (submitted o r s)
unfolding cache_order
submitted-Change id o r s h = record {
  clients = inl refl;
  counter = refl;
  limit = refl;
  pending = refl;
  batches = refl;
  orderly = λ a. AllOrderly-insert o.market_id r.engine s.engines (h a) a;
}

submit_request-Change :
    (text : Text) (m : Moment) (id : ℕ) (c : ConnectedClient) (s : Server) (q : Request)
    → (AllOrderly s.engines → ForOrderly q)
    → Change id s (submit_request text m id c s q).0
submit_request-Change text m id c s (bad why) h = Change-refl id s
submit_request-Change text m id c s (good p g) h =
    let o : Order = create_order m.order_id m.now p in
    let r = submit_order m.env o g in
    rw (report-eq text m id c o r (submitted o r s)) (
      submitted-Change id o r s (λ a. record {
        valid = submit_order-IsBookValid m.env o g (h a).valid;
        uncrossed = submit_order-IsUncrossed m.env o g (h a).valid (h a).uncrossed;
      }))

cancel_each-AllOrderly :
    (i : ℕ) (m : Dict ℕ MatchingEngine) → AllOrderly m → AllOrderly (cancel_each i m).0
cancel_each-AllOrderly i [] a = tt
cancel_each-AllOrderly i ((k, g) ∷ m) a =
    let h : IsOrderly (Matching.cancel g i).0 = record {
      valid = cancel-IsBookValid g i a.0.valid;
      uncrossed = cancel-IsUncrossed g i a.0.uncrossed;
    } in
    elim (Option-cases (Matching.cancel g i).1) [
      | inl none' ↦ rw (none', cancel_each) (h, cancel_each-AllOrderly i m a.1)
      | inr (o, e) ↦ rw (e, cancel_each) (h, a.1)
    ]

handle_cancel_order-Change :
    (text : Text) (now id : ℕ) (c : ConnectedClient) (i : ℕ) (s : Server)
    → Change id s (handle_cancel_order text now id c i s).0
unfolding handle_cancel_order
handle_cancel_order-Change text now id c i s = record {
  clients = inl refl;
  counter = refl;
  limit = refl;
  pending = refl;
  batches = refl;
  orderly = cancel_each-AllOrderly i s.engines;
}

pub set_client-Change :
    (id : ℕ) (d : ConnectedClient) (s : Server) → Change id s (set_client id d s)
set_client-Change id d s = record {
  clients = inr (d, refl);
  counter = refl;
  limit = refl;
  pending = refl;
  batches = refl;
  orderly = λ a. a;
}

-- The verifications are not read by the others.
verifying-Change :
    (id : ℕ) (vs : List (ℕ × ℕ)) (s : Server) → Change id s (record s { verifying = vs })
verifying-Change id vs s = record {
  clients = inl refl;
  counter = refl;
  limit = refl;
  pending = refl;
  batches = refl;
  orderly = λ a. a;
}

begin_authentication-Change :
    (id : ℕ) (c : ConnectedClient) (q : AuthCheck) (s : Server)
    → Change id s (begin_authentication id c q s).0
begin_authentication-Change id c (refused f) s = Change-refl id s
begin_authentication-Change id c (to_verify address timestamp signature) s =
    verifying-Change id (s.verifying ++ (id, address) ∷ []) s

pub handle_message-Change :
    (text : Text) (m : Moment) (id : ℕ) (c : ConnectedClient) (msg : ClientMessage) (s : Server)
    → Change id s (handle_message text m id c msg s).0
unfolding handle_message handle_submit_order
handle_message-Change text m id c ClientMessage.ping s = Change-refl id s
handle_message-Change text m id c (ClientMessage.authenticate a t g) s =
    begin_authentication-Change id c (check_authentication text m.now a t g) s
handle_message-Change text m id c (ClientMessage.subscribe channels) s =
    set_client-Change id (subscribe_all text m.now id s.engines channels c).0 s
handle_message-Change text m id c (ClientMessage.subscribe_throwing channels) s =
    set_client-Change id (subscribe_all text m.now id s.engines channels c).0 s
handle_message-Change text m id c (ClientMessage.unsubscribe channels) s =
    set_client-Change id (unsubscribe_all channels c) s
handle_message-Change text m id c (ClientMessage.submit r) s =
    if-elim (λ (x : Server × Sent). Change id s x.0) c.is_authenticated _ _
      (submit_request-Change text m id c s (check_request text m.now c.trader r s.engines)
        (check_request-ForOrderly text m.now c.trader r s.engines))
      (Change-refl id s)
handle_message-Change text m id c (ClientMessage.cancel i) s =
    if-elim (λ (x : Server × Sent). Change id s x.0) c.is_authenticated _ _
      (handle_cancel_order-Change text m.now id c i s) (Change-refl id s)
handle_message-Change text m id c (ClientMessage.get_account_details _) s = Change-refl id s
handle_message-Change text m id c ClientMessage.unknown s = Change-refl id s
