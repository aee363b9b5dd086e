-- ===== src/Server/Channels.antt =====
-- The channels of the WebSocket server: who is reached by a broadcast, and what a subscription and
-- its end do.
use sur_protocol.Common.{
  ℕ, true, false, ◌&&◌, Bool-cases, ◌≡◌, refl, ap, ◌∙◌, List, [], ◌∷◌, ◌++◌, Option, none, some,
  arith, if◌then◌else◌, ◌==◌, ==_iff, nat_eq, inl, inr,
}
use sur_protocol.Common.Dict.{Dict, lookup, Distinct}
use sur_protocol.Engine.Matching.{MatchingEngine}
use sur_protocol.Server.Messages.{Text, ServerMessage}
use sur_protocol.Server.Sessions.{
  ConnectedClient, Sent, contains, add, remove, broadcast_to, subscribe_all, unsubscribe_all,
}

-- The messages of a list that go to the client `k`.
abbrev pub sent_to : ℕ → Sent → List ServerMessage
sent_to k [] = []
sent_to k ((id, m) ∷ sent) = if k == id then m ∷ sent_to k sent else sent_to k sent

-- What a client gets of a broadcast: the message if it subscribes to the channel and its socket is
-- open.
abbrev pub delivery : ℕ → ServerMessage → Option ConnectedClient → List ServerMessage
delivery channel m none = []
delivery channel m (some c) = if contains channel c.subscriptions && c.is_open then m ∷ [] else []

broadcast_to-stranger :
    (channel : ℕ) (m : ServerMessage) (k : ℕ) (cs : Dict ℕ ConnectedClient)
    → lookup k cs ≡ none
    → sent_to k (broadcast_to channel m cs) ≡ []
broadcast_to-stranger channel m k [] h = refl
broadcast_to-stranger channel m k ((id, c) ∷ cs) h =
    ground (arith, broadcast_to-stranger channel m k cs)

-- A broadcast to a channel reaches every subscriber whose socket is open, each with one copy of the
-- message, and nobody else, when every client has its own number.
pub sent_to-broadcast_to :
    (channel : ℕ) (m : ServerMessage) (k : ℕ) (cs : Dict ℕ ConnectedClient)
    → Distinct cs
    → sent_to k (broadcast_to channel m cs) ≡ delivery channel m (lookup k cs)
sent_to-broadcast_to channel m k [] d = refl
sent_to-broadcast_to channel m k ((id, c) ∷ cs) d =
    ground (
      arith,
      sent_to-broadcast_to channel m k cs,
      broadcast_to-stranger channel m k cs,
      ==_iff k id,
    )

-- The channels of `ys` without those of a list.
remove_all : List ℕ → List ℕ → List ℕ
remove_all [] ys = ys
remove_all (x ∷ xs) ys = remove_all xs (remove x ys)

remove-++ : (x : ℕ) (ys zs : List ℕ) → remove x (ys ++ zs) ≡ remove x ys ++ remove x zs
remove-++ x [] zs = refl
remove-++ x (y ∷ ys) zs = ground (arith, remove-++ x ys zs)

remove_all-++ :
    (xs ys zs : List ℕ) → remove_all xs (ys ++ zs) ≡ remove_all xs ys ++ remove_all xs zs
unfolding remove_all
remove_all-++ [] ys zs = refl
remove_all-++ (x ∷ xs) ys zs =
    ap (remove_all xs) (remove-++ x ys zs) ∙ remove_all-++ xs (remove x ys) (remove x zs)

remove_all-empty : (xs : List ℕ) → remove_all xs [] ≡ []
unfolding remove_all
remove_all-empty [] = refl
remove_all-empty (x ∷ xs) = remove_all-empty xs

remove_all-listed : (xs : List ℕ) (y : ℕ) → contains y xs ≡ true → remove_all xs (y ∷ []) ≡ []
unfolding remove_all
remove_all-listed [] y h = absurd (ground arith)
remove_all-listed (x ∷ xs) y h =
    ground (arith, h, remove_all-listed xs y, remove_all-empty xs, ==_iff x y, ==_iff y x)

append_empty : (ys : List ℕ) → ys ++ [] ≡ ys
append_empty [] = refl
append_empty (y ∷ ys) = ap (λ (zs : List ℕ). y ∷ zs) (append_empty ys)

remove_all-add :
    (xs : List ℕ) (y : ℕ) (ys : List ℕ)
    → contains y xs ≡ true
    → remove_all xs (add y ys) ≡ remove_all xs ys
remove_all-add xs y ys h = elim (Bool-cases (contains y ys)) [
  | inl there ↦ rw (there, if◌then◌else◌) refl
  | inr new ↦
      rw (new, if◌then◌else◌)
        (remove_all-++ xs ys (y ∷ [])
          ∙ ground (arith, remove_all-listed xs y h, append_empty (remove_all xs ys)))
]

add_all : List ℕ → List ℕ → List ℕ
add_all [] ys = ys
add_all (x ∷ xs) ys = add_all xs (add x ys)

remove_all-add_all :
    (xs cs ys : List ℕ)
    → ((y : ℕ) → contains y cs ≡ true → contains y xs ≡ true)
    → remove_all xs (add_all cs ys) ≡ remove_all xs ys
unfolding add_all
remove_all-add_all xs [] ys h = refl
remove_all-add_all xs (x ∷ cs) ys h =
    remove_all-add_all xs cs (add x ys) (λ y e. h y (ground (arith, e)))
    ∙ remove_all-add xs x ys (h x (ground (arith, ==_iff x x)))

remove-absent : (x : ℕ) (ys : List ℕ) → contains x ys ≡ false → remove x ys ≡ ys
remove-absent x [] h = refl
remove-absent x (y ∷ ys) h = ground (arith, h, remove-absent x ys)

remove_all-absent :
    (xs ys : List ℕ)
    → ((x : ℕ) → contains x xs ≡ true → contains x ys ≡ false)
    → remove_all xs ys ≡ ys
unfolding remove_all
remove_all-absent [] ys h = refl
remove_all-absent (x ∷ xs) ys h =
    rw (remove-absent x ys (h x (ground (arith, ==_iff x x))))
      (remove_all-absent xs ys (λ y e. h y (ground (arith, e))))

set_subscriptions : List ℕ → ConnectedClient → ConnectedClient
set_subscriptions ys c = record c { subscriptions = ys }

subscribe_all-add_all :
    (text : Text) (now id : ℕ) (g : Dict ℕ MatchingEngine) (cs : List ℕ) (c : ConnectedClient)
    → (subscribe_all text now id g cs c).0 ≡ set_subscriptions (add_all cs c.subscriptions) c
unfolding add_all set_subscriptions
subscribe_all-add_all text now id g [] c = refl
subscribe_all-add_all text now id g (x ∷ cs) c =
    subscribe_all-add_all text now id g cs (set_subscriptions (add x c.subscriptions) c)

unsubscribe_all-remove_all :
    (cs : List ℕ) (c : ConnectedClient)
    → unsubscribe_all cs c ≡ set_subscriptions (remove_all cs c.subscriptions) c
unfolding remove_all set_subscriptions
unsubscribe_all-remove_all [] c = refl
unsubscribe_all-remove_all (x ∷ cs) c =
    unsubscribe_all-remove_all cs (set_subscriptions (remove x c.subscriptions) c)

-- Subscribing to channels and then unsubscribing from the same channels leaves the client as it
-- was, when it subscribed to none of them before.
pub unsubscribe_all-subscribe_all :
    (text : Text) (now id : ℕ) (g : Dict ℕ MatchingEngine) (cs : List ℕ) (c : ConnectedClient)
    → ((x : ℕ) → contains x cs ≡ true → contains x c.subscriptions ≡ false)
    → unsubscribe_all cs (subscribe_all text now id g cs c).0 ≡ c
unfolding set_subscriptions
unsubscribe_all-subscribe_all text now id g cs c h =
    let old = c.subscriptions in
    ap (unsubscribe_all cs) (subscribe_all-add_all text now id g cs c)
    ∙ unsubscribe_all-remove_all cs (set_subscriptions (add_all cs old) c)
    ∙ ap (λ (ys : List ℕ). set_subscriptions ys c)
        (remove_all-add_all cs cs old (λ y e. e) ∙ remove_all-absent cs old h)
