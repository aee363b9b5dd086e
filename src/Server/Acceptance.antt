-- ===== src/Server/Acceptance.antt =====
-- Which requests `handleSubmitOrder` passes on to an engine.
use sur_protocol.Common.{
  sym, ◌↔◌, ℕ, ◌/◌, ℤ, pos, pos_part, ◌<ℤ◌, ◌≤ℤ◌, true, false, not, ◌≡◌, ◌⊎◌, refl, inl, inr,
  Option-cases, Option, none, some, arith, leb_ℤ, nat_eq, ==_iff, ap, ◌∙◌, if-split, subst,
}
use sur_protocol.Common.Dict.{Dict, lookup}
use sur_protocol.Types.{Side}
use sur_protocol.Engine.Matching.{MatchingEngine, OrderParams}
use sur_protocol.Server.Messages.{Text, SubmitOrderRequest}
use sur_protocol.Server.Requests.{
  Numbers, parse_numbers, is_mismatch, is_expired, order_params, Request, bad, good, find_market,
  check_numbers, check_side, check_request,
}

-- A request that is well formed, of the trader of the client, not expired, for a known market; and
-- the order and the engine that it becomes.
pub record IsAcceptable (text : Text) (now : ℕ) (known : Option ℕ) (r : SubmitOrderRequest)
    (engines : Dict ℕ MatchingEngine) (p : OrderParams) (g : MatchingEngine) : Type 0 where
  pub owner : (t : ℕ) → known ≡ some t → r.trader ≡ t
  pub address : text.is_address r.trader ≡ true
  pub market_form : text.is_market_id r.market_id ≡ true
  pub signature_form : text.is_signature r.signature ≡ true
  pub side : r.side ≡ some p.side
  pub price : text.big_int r.price ≡ some p.price
  pub size : text.big_int r.size ≡ some (pos p.size)
  pub positive : pos 0 <ℤ pos p.size
  pub nonce : text.big_int r.nonce ≡ some p.nonce
  pub expiry : text.big_int r.expiry ≡ some p.expiry
  pub current : (p.expiry ≤ℤ pos 0) ⊎ (pos (now / 1000) ≤ℤ p.expiry)
  pub market : lookup r.market_id engines ≡ some g
  pub trader : p.trader ≡ r.trader
  pub market_id : p.market_id ≡ r.market_id
  pub order_type : p.order_type ≡ r.order_type
  pub time_in_force : p.time_in_force ≡ r.time_in_force
  pub signature : p.signature ≡ r.signature
  pub hidden : p.hidden ≡ r.hidden

abbrev Accepts : Text → ℕ → Option ℕ → SubmitOrderRequest → Dict ℕ MatchingEngine → Request → Type 0
Accepts text now trader r engines (bad why) = Unit
Accepts text now trader r engines (good p g) = IsAcceptable text now trader r engines p g

parse_numbers-some :
    (text : Text) (r : SubmitOrderRequest) (n : Numbers)
    → parse_numbers text r ≡ some n
    → (text.big_int r.price ≡ some n.price)
      × (text.big_int r.size ≡ some n.size)
      × (text.big_int r.nonce ≡ some n.nonce)
      × (text.big_int r.expiry ≡ some n.expiry)
parse_numbers-some text r n e = ground (arith, e)

positive_size :
    (z : ℤ) → leb_ℤ z (pos 0) ≡ false → (z ≡ pos (pos_part z)) × (pos 0 <ℤ pos (pos_part z))
positive_size z h = ground (arith, h)

not_expired : (now : ℕ) (e : ℤ) → is_expired now e ≡ false → (e ≤ℤ pos 0) ⊎ (pos (now / 1000) ≤ℤ e)
not_expired now e h = ground (arith, h)

own_trader :
    (known : Option ℕ) (trader t : ℕ)
    → is_mismatch known trader ≡ false
    → known ≡ some t
    → trader ≡ t
own_trader known trader t h e = ground (arith, h, e, ==_iff trader t)

find_market-Accepts :
    (text : Text) (now : ℕ) (known : Option ℕ) (r : SubmitOrderRequest) (side : Side) (n : Numbers)
    (m : Dict ℕ MatchingEngine)
    → is_mismatch known r.trader ≡ false
    → text.is_address r.trader ≡ true
    → text.is_market_id r.market_id ≡ true
    → r.side ≡ some side
    → text.is_signature r.signature ≡ true
    → parse_numbers text r ≡ some n
    → leb_ℤ n.size (pos 0) ≡ false
    → is_expired now n.expiry ≡ false
    → Accepts text now known r m (find_market r side n m)
find_market-Accepts text now known r side n m own adr mkt sd sig nums size exp =
    elim (Option-cases (lookup r.market_id m)) [
      | inl gone ↦ rw (gone, find_market) tt
      | inr (g, l) ↦
          let k = parse_numbers-some text r n nums in
          let z = positive_size n.size size in
          rw (l, find_market)
            (record {
              owner = λ t e. own_trader known r.trader t own e;
              address = adr;
              market_form = mkt;
              signature_form = sig;
              side = sd;
              price = k.0;
              size = k.1 ∙ ap some z.0;
              positive = z.1;
              nonce = k.2;
              expiry = k.3;
              current = not_expired now n.expiry exp;
              market = l;
              trader = refl;
              market_id = refl;
              order_type = refl;
              time_in_force = refl;
              signature = refl;
              hidden = refl;
            })
    ]

check_numbers-Accepts :
    (text : Text) (now : ℕ) (known : Option ℕ) (r : SubmitOrderRequest) (side : Side)
    (n : Option Numbers) (m : Dict ℕ MatchingEngine)
    → is_mismatch known r.trader ≡ false
    → text.is_address r.trader ≡ true
    → text.is_market_id r.market_id ≡ true
    → r.side ≡ some side
    → text.is_signature r.signature ≡ true
    → parse_numbers text r ≡ n
    → Accepts text now known r m (check_numbers now r side n m)
check_numbers-Accepts text now known r side none m own adr mkt sd sig nums = tt
check_numbers-Accepts text now known r side (some n) m own adr mkt sd sig nums =
    if-split (Accepts text now known r m) (leb_ℤ n.size (pos 0)) _ _ (λ _. tt)
      (λ size.
        if-split (Accepts text now known r m) (is_expired now n.expiry) _ _ (λ _. tt)
          (λ exp. find_market-Accepts text now known r side n m own adr mkt sd sig nums size exp))

check_side-Accepts :
    (text : Text) (now : ℕ) (known : Option ℕ) (r : SubmitOrderRequest) (side : Option Side)
    (m : Dict ℕ MatchingEngine)
    → is_mismatch known r.trader ≡ false
    → text.is_address r.trader ≡ true
    → text.is_market_id r.market_id ≡ true
    → r.side ≡ side
    → Accepts text now known r m (check_side text now r side m)
check_side-Accepts text now known r none m own adr mkt sd = tt
check_side-Accepts text now known r (some side) m own adr mkt sd =
    if-split (Accepts text now known r m) (not (text.is_signature r.signature)) _ _ (λ _. tt)
      (λ sig.
        check_numbers-Accepts text now known r side (parse_numbers text r) m own adr mkt sd
          (ground (arith, sig)) refl)

check_request-Accepts :
    (text : Text) (now : ℕ) (known : Option ℕ) (r : SubmitOrderRequest) (m : Dict ℕ MatchingEngine)
    → Accepts text now known r m (check_request text now known r m)
unfolding check_request
check_request-Accepts text now known r m =
    if-split (Accepts text now known r m) (is_mismatch known r.trader) _ _ (λ _. tt)
      (λ own.
        if-split (Accepts text now known r m) (not (text.is_address r.trader)) _ _ (λ _. tt)
          (λ adr.
            if-split (Accepts text now known r m) (not (text.is_market_id r.market_id)) _ _
              (λ _. tt)
              (λ mkt.
                check_side-Accepts text now known r r.side m own (ground (arith, adr))
                  (ground (arith, mkt)) refl)))

same_trader :
    (known : Option ℕ) (trader : ℕ)
    → ((t : ℕ) → known ≡ some t → trader ≡ t)
    → is_mismatch known trader ≡ false
same_trader none trader h = refl
same_trader (some t) trader h = ground (arith, h t refl, ==_iff trader t)

still_current :
    (now : ℕ) (e : ℤ) → (e ≤ℤ pos 0) ⊎ (pos (now / 1000) ≤ℤ e) → is_expired now e ≡ false
still_current now e h = ground (arith, h)

parsed :
    (text : Text) (r : SubmitOrderRequest) (n : Numbers)
    → text.big_int r.price ≡ some n.price
    → text.big_int r.size ≡ some n.size
    → text.big_int r.nonce ≡ some n.nonce
    → text.big_int r.expiry ≡ some n.expiry
    → parse_numbers text r ≡ some n
parsed text r n p z o e = rw (p, z, o, e) refl

acceptable_passes :
    (text : Text) (now : ℕ) (known : Option ℕ) (r : SubmitOrderRequest) (m : Dict ℕ MatchingEngine)
    (p : OrderParams) (g : MatchingEngine)
    → IsAcceptable text now known r m p g
    → check_request text now known r m ≡ good p g
unfolding check_request
acceptable_passes text now known r m p g h =
    let n : Numbers = record {
      price = p.price;
      size = pos p.size;
      nonce = p.nonce;
      expiry = p.expiry;
    } in
    let positive : leb_ℤ (pos p.size) (pos 0) ≡ false = ground (arith, h.positive) in
    let fields : order_params r p.side n ≡ p =
      rw
        (
          sym h.trader,
          sym h.market_id,
          sym h.order_type,
          sym h.time_in_force,
          sym h.signature,
          sym h.hidden,
        )
        refl in
    rw (same_trader known r.trader h.owner, h.address, h.market_form, h.side, h.signature_form)
      (rw (parsed text r n h.price h.size h.nonce h.expiry, check_numbers)
        (rw (positive, still_current now p.expiry h.current) (rw (h.market, find_market) refl)))
    ∙ ap (λ (q : OrderParams). good q g) fields

accepted-IsAcceptable :
    (text : Text) (now : ℕ) (known : Option ℕ) (r : SubmitOrderRequest) (m : Dict ℕ MatchingEngine)
    (p : OrderParams) (g : MatchingEngine)
    → check_request text now known r m ≡ good p g
    → IsAcceptable text now known r m p g
accepted-IsAcceptable text now known r m p g e =
    subst (Accepts text now known r m) e (check_request-Accepts text now known r m)

-- A request passes the checks as an order just when it is well formed, for the trader that the
-- client is authenticated as, of positive size, not expired and for a known market. The order has
-- the fields of the request, and it goes to the engine of its market.
pub check_request_lem :
    (text : Text) (now : ℕ) (known : Option ℕ) (r : SubmitOrderRequest) (m : Dict ℕ MatchingEngine)
    (p : OrderParams) (g : MatchingEngine)
    → (check_request text now known r m ≡ good p g) ↔ IsAcceptable text now known r m p g
check_request_lem text now known r m p g =
    (accepted-IsAcceptable text now known r m p g, acceptable_passes text now known r m p g)
