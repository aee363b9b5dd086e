-- ===== src/Server/Service.antt =====
-- The WebSocket server over any run of events.
use sur_protocol.Common.{
  refl, ℕ, suc, true, false, Bool-cases, ◌≡◌, sym, subst, ap, if◌then◌else◌, ◌∙◌, inl, inr, List,
  [], ◌∷◌, Option, none, some, Option-cases, arith, leb, ltb, length, nat_eq, if-elim, ==_iff,
}
use sur_protocol.Common.Dict.{
  lookup, insert, Distinct, lookup-insert, lookup-erase, insert-Distinct, erase-Distinct,
  length-insert, length-erase,
}
use sur_protocol.Server.RateLimiter.{RateLimiter, check, clean_up}
use sur_protocol.Server.Messages.{Text, ClientMessage}
use sur_protocol.Server.Sessions.{
  ConnectedClient, Server, Sent, handle_connection, handle_close, socket_closing, stop,
  Verification, threw, answered, verified, after_verify, resume, is_verifying, drop_verifying,
}
use sur_protocol.Server.Orders.{Moment, dispatch, limited, on_message}
use sur_protocol.Server.Soundness.{
  IsServing, Change, Change-refl, handle_message-Change, set_client-Change,
}

-- What happens to a server. A verification ends when `verifyMessage` has settled.
pub data Event : Type 0 where
  connects : (ip : ℕ) → Event
  closing closes : (id : ℕ) → Event
  receives : Moment → (id size : ℕ) → Option ClientMessage → Event
  verifies : (id address : ℕ) → Verification → Event
  cleans : (now : ℕ) → Event
  stops : Event

abbrev pub handle : Text → Event → Server → Server × Sent
handle text (connects ip) s = (handle_connection ip s, [])
handle text (closing id) s = (socket_closing id s, [])
handle text (closes id) s = (handle_close id s, [])
handle text (receives m id size msg) s = on_message text m id size msg s
handle text (verifies id address v) s = after_verify id address v s
handle text (cleans now) s = (record s { rate_limiter = clean_up now s.rate_limiter }, [])
handle text stops s = (stop s, [])

abbrev pub serve : Text → List Event → Server → Server
serve text [] s = s
serve text (v ∷ vs) s = serve text vs (handle text v s).0

dispatch-Change :
    (text : Text) (m : Moment) (id : ℕ) (c : ConnectedClient) (size : ℕ)
    (msg : Option ClientMessage) (s : Server)
    → Change id s (dispatch text m id c size msg s).0
dispatch-Change text m id c size none s =
    if-elim (λ (x : Server × Sent). Change id s x.0) (ltb 65536 size) _ _ (Change-refl id s)
      (Change-refl id s)
dispatch-Change text m id c size (some k) s =
    if-elim (λ (x : Server × Sent). Change id s x.0) (ltb 65536 size) _ _ (Change-refl id s)
      (handle_message-Change text m id c k s)

-- The rate limiter is not read by the others.
Change-limiter :
    (id : ℕ) (l : RateLimiter) (s s' : Server)
    → Change id (record s { rate_limiter = l }) s'
    → Change id s s'
Change-limiter id l s s' h = record {
  clients = h.clients;
  counter = h.counter;
  limit = h.limit;
  pending = h.pending;
  batches = h.batches;
  orderly = h.orderly;
}

pub limited-Change :
    (text : Text) (m : Moment) (id : ℕ) (c : ConnectedClient) (size : ℕ)
    (msg : Option ClientMessage) (s : Server)
    → Change id s (limited text m id c size msg s).0
limited-Change text m id c size msg s =
    let l = (check id m.now s.rate_limiter).0 in
    let s' : Server = record s { rate_limiter = l } in
    Change-limiter id l s (limited text m id c size msg s).0 (
      if-elim (λ (x : Server × Sent). Change id s' x.0) (check id m.now s.rate_limiter).1 _ _
        (dispatch-Change text m id c size msg s') (Change-refl id s'))

pub verified-Change :
    (id address : ℕ) (v : Verification) (c : ConnectedClient) (s : Server)
    → Change id s (verified id address v c s).0
verified-Change id address threw c s = Change-refl id s
verified-Change id address (answered false) c s = Change-refl id s
verified-Change id address (answered true) c s =
    set_client-Change id (record c { is_authenticated = true; trader = some address }) s

-- A change by a message of a client that is connected keeps the server sound.
Change-IsServing :
    (id : ℕ) (c : ConnectedClient) (s s' : Server)
    → lookup id s.clients ≡ some c
    → Change id s s'
    → IsServing s
    → IsServing s'
Change-IsServing id c s s' e h v = elim h.clients [
  | inl same ↦ record {
    capacity = ground (arith, same, h.limit, v.capacity);
    distinct = subst Distinct (sym same) v.distinct;
    numbered = λ k lt. ap (lookup k) same ∙ v.numbered k (ground (arith, h.counter, lt));
    orderly = h.orderly v.orderly;
  }
  | inr (d, set) ↦ record {
    capacity = ground (arith, set, h.limit, v.capacity, length-insert id d s.clients, e);
    distinct = subst Distinct (sym set) (insert-Distinct id d s.clients v.distinct);
    numbered = λ k lt.
        ap (lookup k) set
        ∙ ground
            (arith, lookup-insert id k d s.clients, v.numbered k, h.counter, lt, e, ==_iff k id);
    orderly = h.orderly v.orderly;
  }
]

on_message-IsServing :
    (text : Text) (m : Moment) (id size : ℕ) (msg : Option ClientMessage) (s : Server)
    → IsServing s
    → IsServing (on_message text m id size msg s).0
unfolding on_message
on_message-IsServing text m id size msg s v = elim (Option-cases (lookup id s.clients)) [
  | inl gone ↦ rw (gone, on_message) v
  | inr (c, e) ↦
      rw (e, on_message)
        (Change-IsServing id c s (limited text m id c size msg s).0 e
          (limited-Change text m id c size msg s) v)
]

resume-IsServing :
    (id address : ℕ) (a : Verification) (s : Server)
    → IsServing s
    → IsServing (resume id address a s).0
unfolding resume
resume-IsServing id address a s v = elim (Option-cases (lookup id s.clients)) [
  | inl gone ↦ rw (gone, resume) v
  | inr (c, e) ↦
      rw (e, resume)
        (Change-IsServing id c s (verified id address a c s).0 e (verified-Change id address a c s)
          v)
]

after_verify-IsServing :
    (id address : ℕ) (a : Verification) (s : Server)
    → IsServing s
    → IsServing (after_verify id address a s).0
unfolding after_verify
after_verify-IsServing id address a s v =
    let s' : Server = record s { verifying = drop_verifying id address s.verifying } in
    if-elim (λ (x : Server × Sent). IsServing x.0) (is_verifying id address s.verifying) _ _
      (resume-IsServing id address a s' (record {
        capacity = v.capacity;
        distinct = v.distinct;
        numbered = v.numbered;
        orderly = v.orderly;
      }))
      v

handle_connection-IsServing :
    (ip : ℕ) (s : Server) → IsServing s → IsServing (handle_connection ip s)
unfolding handle_connection
handle_connection-IsServing ip s v = elim (Bool-cases (leb s.max_connections (length s.clients))) [
  | inl full ↦ rw (full, if◌then◌else◌) v
  | inr room ↦
      let n = suc s.client_counter in
      let c : ConnectedClient = record {
        subscriptions = [];
        trader = none;
        is_authenticated = false;
        is_open = true;
        ip = ip;
      } in
      rw (room, if◌then◌else◌)
        (record {
          capacity = ground (arith, room, length-insert n c s.clients);
          distinct = insert-Distinct n c s.clients v.distinct;
          numbered =
              λ k lt. ground (arith, lookup-insert n k c s.clients, v.numbered k, ==_iff k n);
          orderly = v.orderly;
        })
]

handle_close-IsServing : (id : ℕ) (s : Server) → IsServing s → IsServing (handle_close id s)
unfolding handle_close
handle_close-IsServing id s v = record {
  capacity = ground (arith, v.capacity, length-erase id s.clients);
  distinct = erase-Distinct id s.clients v.distinct;
  numbered = λ k lt. ground (arith, lookup-erase id k s.clients v.distinct, v.numbered k lt);
  orderly = v.orderly;
}

socket_closing-IsServing : (id : ℕ) (s : Server) → IsServing s → IsServing (socket_closing id s)
unfolding socket_closing
socket_closing-IsServing id s v = elim (Option-cases (lookup id s.clients)) [
  | inl gone ↦ rw (gone, socket_closing) v
  | inr (c, e) ↦
      let d : ConnectedClient = record c { is_open = false } in
      rw (e, socket_closing)
        (Change-IsServing id c s (record s { clients = insert id d s.clients }) e
          (set_client-Change id d s) v)
]

stop-IsServing : (s : Server) → IsServing s → IsServing (stop s)
unfolding stop
stop-IsServing s v = record {
  capacity = omega arith;
  distinct = tt;
  numbered = λ k lt. refl;
  orderly = v.orderly;
}

handle-IsServing :
    (text : Text) (e : Event) (s : Server) → IsServing s → IsServing (handle text e s).0
handle-IsServing text (connects ip) s v = handle_connection-IsServing ip s v
handle-IsServing text (closing id) s v = socket_closing-IsServing id s v
handle-IsServing text stops s v = stop-IsServing s v
handle-IsServing text (closes id) s v = handle_close-IsServing id s v
handle-IsServing text (receives m id size msg) s v = on_message-IsServing text m id size msg s v
handle-IsServing text (verifies id address a) s v = after_verify-IsServing id address a s v
handle-IsServing text (cleans now) s v = record {
  capacity = v.capacity;
  distinct = v.distinct;
  numbered = v.numbered;
  orderly = v.orderly;
}

-- Over any events a sound server stays sound: no more clients are connected than the limit allows,
-- each under its own number, and in every market the book is valid, with every bid below every ask.
pub serve-IsServing :
    (text : Text) (es : List Event) (s : Server) → IsServing s → IsServing (serve text es s)
serve-IsServing text [] s v = v
serve-IsServing text (e ∷ es) s v =
    serve-IsServing text es (handle text e s).0 (handle-IsServing text e s v)
