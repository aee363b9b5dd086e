-- ===== src/Server/Rights.antt =====
-- What a message leaves of the rights of the clients of the WebSocket server.
use sur_protocol.Common.{
  ℕ, true, Bool-cases, ◌≡◌, ◌⊎◌, refl, sym, ap, ◌∙◌, inl, inr, List, [], ◌∷◌, Option, none, some,
  arith, if-elim, ltb, ◌==◌, ==_iff, nat_eq,
}
use sur_protocol.Common.Dict.{Dict, lookup, insert, lookup-insert}
use sur_protocol.Engine.Matching.{MatchingEngine, Submitted, submit_order, create_order}
use sur_protocol.Types.{Order}
use sur_protocol.Server.RateLimiter.{check}
use sur_protocol.Server.Messages.{Text, ClientMessage}
use sur_protocol.Server.Sessions.{
  ConnectedClient, Server, Sent, subscribe_all, unsubscribe_all, add, remove, AuthCheck, refused,
  to_verify, check_authentication,
}
use sur_protocol.Server.Requests.{Request, bad, good, check_request}
use sur_protocol.Server.Orders.{
  Moment, submitted, submit_request, handle_submit_order, handle_cancel_order, handle_message,
  begin_authentication, dispatch, limited,
}
use sur_protocol.Server.Soundness.{report-eq}

-- The same credentials.
pub record IsSame (c d : ConnectedClient) : Type 0 where
  pub authenticated : d.is_authenticated ≡ c.is_authenticated
  pub trader : d.trader ≡ c.trader

subscribe_all-IsSame :
    (text : Text) (now id : ℕ) (g : Dict ℕ MatchingEngine) (channels : List ℕ) (c : ConnectedClient)
    → IsSame c (subscribe_all text now id g channels c).0
subscribe_all-IsSame text now id g [] c = record { authenticated = refl; trader = refl }
subscribe_all-IsSame text now id g (x ∷ xs) c =
    let h =
      subscribe_all-IsSame text now id g xs (record c { subscriptions = add x c.subscriptions }) in
    record { authenticated = h.authenticated; trader = h.trader }

unsubscribe_all-IsSame :
    (channels : List ℕ) (c : ConnectedClient) → IsSame c (unsubscribe_all channels c)
unsubscribe_all-IsSame [] c = record { authenticated = refl; trader = refl }
unsubscribe_all-IsSame (x ∷ xs) c =
    let h = unsubscribe_all-IsSame xs (record c { subscriptions = remove x c.subscriptions }) in
    record { authenticated = h.authenticated; trader = h.trader }

-- No client changes, or the one with the number `id` does, with its credentials as they were.
abbrev pub Keeps : ℕ → ConnectedClient → Server → Server → Type 0
Keeps id c s s' =
    (s'.clients ≡ s.clients)
    ⊎ ((d : ConnectedClient) × IsSame c d × (s'.clients ≡ insert id d s.clients))

submit_request-Keeps :
    (text : Text) (m : Moment) (id : ℕ) (c : ConnectedClient) (s : Server) (q : Request)
    → Keeps id c s (submit_request text m id c s q).0
submit_request-Keeps text m id c s (bad why) = inl refl
submit_request-Keeps text m id c s (good p g) =
    let o : Order = create_order m.order_id m.now p in
    let r : Submitted = submit_order m.env o g in
    inl (ap (λ (x : Server). x.clients) (report-eq text m id c o r (submitted o r s)))

begin_authentication-Keeps :
    (id : ℕ) (c : ConnectedClient) (q : AuthCheck) (s : Server)
    → Keeps id c s (begin_authentication id c q s).0
begin_authentication-Keeps id c (refused f) s = inl refl
begin_authentication-Keeps id c (to_verify address timestamp signature) s = inl refl

handle_message-Keeps :
    (text : Text) (m : Moment) (id : ℕ) (c : ConnectedClient) (msg : ClientMessage) (s : Server)
    → Keeps id c s (handle_message text m id c msg s).0
unfolding handle_message handle_submit_order handle_cancel_order
handle_message-Keeps text m id c ClientMessage.ping s = inl refl
handle_message-Keeps text m id c (ClientMessage.authenticate a t g) s =
    begin_authentication-Keeps id c (check_authentication text m.now a t g) s
handle_message-Keeps text m id c (ClientMessage.subscribe channels) s =
    inr (_, subscribe_all-IsSame text m.now id s.engines channels c, refl)
handle_message-Keeps text m id c (ClientMessage.subscribe_throwing channels) s =
    inr (_, subscribe_all-IsSame text m.now id s.engines channels c, refl)
handle_message-Keeps text m id c (ClientMessage.unsubscribe channels) s =
    inr (_, unsubscribe_all-IsSame channels c, refl)
handle_message-Keeps text m id c (ClientMessage.submit r) s =
    if-elim (λ (x : Server × Sent). Keeps id c s x.0) c.is_authenticated _ _
      (submit_request-Keeps text m id c s (check_request text m.now c.trader r s.engines))
      (inl refl)
handle_message-Keeps text m id c (ClientMessage.cancel i) s =
    if-elim (λ (x : Server × Sent). Keeps id c s x.0) c.is_authenticated _ _ (inl refl) (inl refl)
handle_message-Keeps text m id c (ClientMessage.get_account_details _) s = inl refl
handle_message-Keeps text m id c ClientMessage.unknown s = inl refl

dispatch-Keeps :
    (text : Text) (m : Moment) (id : ℕ) (c : ConnectedClient) (size : ℕ)
    (msg : Option ClientMessage) (s : Server)
    → Keeps id c s (dispatch text m id c size msg s).0
dispatch-Keeps text m id c size none s =
    if-elim (λ (x : Server × Sent). Keeps id c s x.0) (ltb 65536 size) _ _ (inl refl) (inl refl)
dispatch-Keeps text m id c size (some k) s =
    if-elim (λ (x : Server × Sent). Keeps id c s x.0) (ltb 65536 size) _ _ (inl refl)
      (handle_message-Keeps text m id c k s)

pub limited-Keeps :
    (text : Text) (m : Moment) (id : ℕ) (c : ConnectedClient) (size : ℕ)
    (msg : Option ClientMessage) (s : Server)
    → Keeps id c s (limited text m id c size msg s).0
limited-Keeps text m id c size msg s =
    let s' : Server = record s { rate_limiter = (check id m.now s.rate_limiter).0 } in
    if-elim (λ (x : Server × Sent). Keeps id c s x.0) (check id m.now s.rate_limiter).1 _ _
      (dispatch-Keeps text m id c size msg s') (inl refl)

-- The client `k` is authenticated as the trader `a`.
abbrev pub HasRights : ℕ → ℕ → Server → Type 0
HasRights k a s =
    (c : ConnectedClient) × (lookup k s.clients ≡ some c)
    × (c.is_authenticated ≡ true)
    × (c.trader ≡ some a)

pub Keeps-HasRights :
    (id : ℕ) (c : ConnectedClient) (s s' : Server) (k a : ℕ)
    → lookup id s.clients ≡ some c
    → Keeps id c s s'
    → HasRights k a s'
    → HasRights k a s
Keeps-HasRights id c s s' k a l (inl same) (d, found, yes', trader) =
    (d, ap (lookup k) (sym same) ∙ found, yes', trader)
Keeps-HasRights id c s s' k a l (inr (d, h, set)) (e, found, yes', trader) =
    let stored = sym (lookup-insert id k d s.clients) ∙ ap (lookup k) (sym set) ∙ found in
    elim (Bool-cases (k == id)) [
      | inl hit ↦ (
        c,
        ground (arith, hit, ==_iff k id, l),
        ground (arith, stored, hit, h.authenticated, yes'),
        ground (arith, stored, hit, h.trader, trader),
      )
      | inr miss ↦ (e, ground (arith, stored, miss), yes', trader)
    ]
