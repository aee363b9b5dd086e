-- ===== src/Server/Access.antt =====
-- Who may do what at the WebSocket server.
use sur_protocol.Common.{
  ℕ, true, false, Bool-cases, ◌≡◌, ◌⊎◌, refl, sym, ap, ◌∙◌, inl, inr, [], none, some, Option-cases,
  arith, if◌then◌else◌, leb, ◌==◌, ==_iff, nat_eq, length, suc,
}
use sur_protocol.Common.Dict.{lookup, insert, lookup-insert, lookup-erase}
use sur_protocol.Server.Messages.{Text, ClientMessage}
use sur_protocol.Server.Sessions.{
  ConnectedClient, Server, handle_connection, handle_close, socket_closing, stop, Verification,
  threw, answered, verified, after_verify, resume, is_verifying, drop_verifying, AuthCheck, refused,
  to_verify, check_authentication,
}
use sur_protocol.Server.Orders.{Moment, handle_message, begin_authentication, limited, on_message}
use sur_protocol.Server.Rights.{HasRights, Keeps-HasRights, limited-Keeps}
use sur_protocol.Server.Soundness.{IsServing}
use sur_protocol.Server.Service.{
  Event, connects, closing, stops, closes, receives, verifies, cleans, handle,
}

begin_authentication_safe :
    (id : ℕ) (c : ConnectedClient) (q : AuthCheck) (s : Server)
    → let s' = (begin_authentication id c q s).0 in
      (s'.engines ≡ s.engines) × (s'.pipeline ≡ s.pipeline)
begin_authentication_safe id c (refused f) s = (refl, refl)
begin_authentication_safe id c (to_verify address timestamp signature) s = (refl, refl)

-- A client that is not authenticated changes no book and nothing of the pipeline, whatever it sends.
pub unauthenticated_safe :
    (text : Text) (m : Moment) (id : ℕ) (c : ConnectedClient) (msg : ClientMessage) (s : Server)
    → c.is_authenticated ≡ false
    → let s' = (handle_message text m id c msg s).0 in
      (s'.engines ≡ s.engines) × (s'.pipeline ≡ s.pipeline)
unfolding handle_message
unauthenticated_safe text m id c ClientMessage.ping s h = (refl, refl)
unauthenticated_safe text m id c (ClientMessage.authenticate a t g) s h =
    begin_authentication_safe id c (check_authentication text m.now a t g) s
unauthenticated_safe text m id c (ClientMessage.subscribe channels) s h = (refl, refl)
unauthenticated_safe text m id c (ClientMessage.subscribe_throwing channels) s h = (refl, refl)
unauthenticated_safe text m id c (ClientMessage.unsubscribe channels) s h = (refl, refl)
unauthenticated_safe text m id c (ClientMessage.submit r) s h = rw (h, if◌then◌else◌) (refl, refl)
unauthenticated_safe text m id c (ClientMessage.cancel i) s h = rw (h, if◌then◌else◌) (refl, refl)
unauthenticated_safe text m id c (ClientMessage.get_account_details _) s h = (refl, refl)
unauthenticated_safe text m id c ClientMessage.unknown s h = (refl, refl)

connection-HasRights :
    (ip : ℕ) (s : Server) (k a : ℕ) → HasRights k a (handle_connection ip s) → HasRights k a s
unfolding handle_connection
connection-HasRights ip s k a h = elim (Bool-cases (leb s.max_connections (length s.clients))) [
  | inl full ↦ rw (full, if◌then◌else◌) at h
  | inr room ↦ opened_by (rw (room, if◌then◌else◌) at h)
]
  where
    new : ConnectedClient
    new = record {
      subscriptions = [];
      trader = none;
      is_authenticated = false;
      is_open = true;
      ip = ip;
    }

    opened_by :
        HasRights k a (record s {
          client_counter = suc s.client_counter;
          clients = insert (suc s.client_counter) new s.clients;
        })
        → HasRights k a s
    opened_by (e, found, yes', trader) =
        let stored = sym (lookup-insert (suc s.client_counter) k new s.clients) ∙ found in
        (e, ground (arith, stored, yes'), yes', trader)

-- The client and the address of a verification.
abbrev client_of : ℕ → Event → ℕ
client_of k (verifies id address v) = id
client_of k _ = k

abbrev address_of : ℕ → Event → ℕ
address_of a (verifies id address v) = address
address_of a _ = a

verified-HasRights :
    (id address : ℕ) (v : Verification) (c : ConnectedClient) (s : Server) (k a : ℕ)
    → HasRights k a (verified id address v c s).0
    → HasRights k a s ⊎ (verifies id address v ≡ verifies k a (answered true))
verified-HasRights id address threw c s k a h = inl h
verified-HasRights id address (answered false) c s k a h = inl h
verified-HasRights id address (answered true) c s k a (e, found, yes', trader) =
    let d : ConnectedClient = record c { is_authenticated = true; trader = some address } in
    let stored = sym (lookup-insert id k d s.clients) ∙ found in
    elim (Bool-cases (k == id)) [
      | inl hit ↦
          let same : k ≡ id = (==_iff k id).0 hit in
          let owner : address ≡ a = ground (arith, stored, hit, trader) in
          inr (ap (λ (x : ℕ × ℕ). verifies x.0 x.1 (answered true)) (ground (arith, same, owner)))
      | inr miss ↦ inl (e, ground (arith, stored, miss), yes', trader)
    ]

resume-HasRights :
    (id address : ℕ) (v : Verification) (s : Server) (k a : ℕ)
    → HasRights k a (resume id address v s).0
    → HasRights k a s ⊎ (verifies id address v ≡ verifies k a (answered true))
unfolding resume
resume-HasRights id address v s k a h = elim (Option-cases (lookup id s.clients)) [
  | inl gone ↦ inl (rw (gone, resume) at h)
  | inr (c, l) ↦ verified-HasRights id address v c s k a (rw (l, resume) at h)
]

asked_for :
    (id address : ℕ) (v : Verification) (s : Server) (k a : ℕ)
    → is_verifying id address s.verifying ≡ true
    → HasRights k a s ⊎ (verifies id address v ≡ verifies k a (answered true))
    → HasRights k a s
      ⊎ ((verifies id address v ≡ verifies k a (answered true))
          × (is_verifying k a s.verifying ≡ true))
asked_for id address v s k a asked (inl had) = inl had
asked_for id address v s k a asked (inr e) =
    inr (e, ap (λ x. is_verifying (client_of k x) (address_of a x) s.verifying) (sym e) ∙ asked)

-- A client becomes authenticated as a trader only by a signature that `verifyMessage` has confirmed
-- for that address: after any event of a sound server, a client with the rights of a trader had
-- them before, or the event is that confirmation, of a verification that this client has asked for.
pub rights_need_signature :
    (text : Text) (e : Event) (s : Server) (k a : ℕ)
    → IsServing s
    → HasRights k a (handle text e s).0
    → HasRights k a s ⊎ ((e ≡ verifies k a (answered true)) × (is_verifying k a s.verifying ≡ true))
unfolding on_message after_verify handle_close socket_closing stop
rights_need_signature text (connects ip) s k a v h = inl (connection-HasRights ip s k a h)
rights_need_signature text (closing id) s k a v h = elim (Option-cases (lookup id s.clients)) [
  | inl gone ↦ inl (rw (gone, socket_closing) at h)
  | inr (c, l) ↦
      let d : ConnectedClient = record c { is_open = false } in
      inl (
        Keeps-HasRights id c s (record s { clients = insert id d s.clients }) k a l
          (inr (d, record { authenticated = refl; trader = refl }, refl))
          (rw (l, socket_closing) at h))
]
rights_need_signature text stops s k a v (d, found, yes', trader) = absurd (ground (arith, found))
rights_need_signature text (closes id) s k a v (d, found, yes', trader) =
    inl (d, ground (arith, sym (lookup-erase id k s.clients v.distinct) ∙ found), yes', trader)
rights_need_signature text (receives m id size msg) s k a v h =
    elim (Option-cases (lookup id s.clients)) [
      | inl gone ↦ inl (rw (gone, on_message) at h)
      | inr (c, l) ↦ inl (
          Keeps-HasRights id c s (limited text m id c size msg s).0 k a l
            (limited-Keeps text m id c size msg s) (rw (l, on_message) at h))
    ]
rights_need_signature text (verifies id address b) s k a v h =
    elim (Bool-cases (is_verifying id address s.verifying)) [
      | inl asked ↦ asked_for id address b s k a asked (
          resume-HasRights id address b
            (record s { verifying = drop_verifying id address s.verifying }) k a
            (rw (asked, if◌then◌else◌) at h))
      | inr unknown' ↦ inl (rw (unknown', if◌then◌else◌) at h)
    ]
rights_need_signature text (cleans now) s k a v h = inl h
