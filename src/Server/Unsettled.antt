-- ===== src/Server/Unsettled.antt =====
-- The settlement pipeline behind the WebSocket server, and a new server.
use sur_protocol.Common.{
  ◌≡◌, refl, ◌∙◌, List, [], ◌∷◌, Option-cases, inl, inr, arith, if-elim, leb, length, nat_eq, ℕ,
}
use sur_protocol.Common.Dict.{Dict, lookup, insert}
use sur_protocol.Types.{MarketConfig}
use sur_protocol.Engine.Matching
use sur_protocol.Engine.Matching.{MatchingEngine}
use sur_protocol.Engine.Book
use sur_protocol.Settlement.Pipeline.{SettlementPipeline}
use sur_protocol.Server.Messages.{Text}
use sur_protocol.Server.Sessions.{
  Server, init, engines_of, handle_connection, handle_close, socket_closing, stop, after_verify,
  resume, is_verifying, drop_verifying, Verification, Sent,
}
use sur_protocol.Server.Orders.{on_message}
use sur_protocol.Server.Soundness.{IsOrderly, AllOrderly, AllOrderly-insert, IsServing}
use sur_protocol.Server.Service.{
  Event, connects, closing, stops, closes, receives, verifies, cleans, handle, serve,
  limited-Change, verified-Change,
}

resume-pending :
    (id address : ℕ) (a : Verification) (s : Server)
    → (resume id address a s).0.pipeline.pending_trades ≡ s.pipeline.pending_trades
unfolding resume
resume-pending id address a s = elim (Option-cases (lookup id s.clients)) [
  | inl gone ↦ rw (gone, resume) refl
  | inr (c, l) ↦ rw (l, resume) (verified-Change id address a c s).pending
]

handle-pending :
    (text : Text) (e : Event) (s : Server)
    → (handle text e s).0.pipeline.pending_trades ≡ s.pipeline.pending_trades
unfolding on_message after_verify handle_connection handle_close socket_closing stop
handle-pending text (connects ip) s =
    if-elim (λ (x : Server). x.pipeline.pending_trades ≡ s.pipeline.pending_trades)
      (leb s.max_connections (length s.clients)) _ _ refl refl
handle-pending text (closing id) s = elim (Option-cases (lookup id s.clients)) [
  | inl gone ↦ rw (gone, socket_closing) refl
  | inr (c, l) ↦ rw (l, socket_closing) refl
]
handle-pending text stops s = refl
handle-pending text (closes id) s = refl
handle-pending text (receives m id size msg) s = elim (Option-cases (lookup id s.clients)) [
  | inl gone ↦ rw (gone, on_message) refl
  | inr (c, l) ↦ rw (l, on_message) (limited-Change text m id c size msg s).pending
]
handle-pending text (verifies id address a) s =
    if-elim (λ (x : Server × Sent). x.0.pipeline.pending_trades ≡ s.pipeline.pending_trades)
      (is_verifying id address s.verifying) _ _
      (resume-pending id address a (record s { verifying = drop_verifying id address s.verifying }))
      refl
handle-pending text (cleans now) s = refl

-- Whatever clients send, the trades that wait for settlement stay as they are: no trade of the
-- server is queued.
pub serve-pending :
    (text : Text) (es : List Event) (s : Server)
    → (serve text es s).pipeline.pending_trades ≡ s.pipeline.pending_trades
serve-pending text [] s = refl
serve-pending text (e ∷ es) s = serve-pending text es (handle text e s).0 ∙ handle-pending text e s

new_market : (c : MarketConfig) → IsOrderly (Matching.init c)
unfolding Matching.init Book.init
new_market c = record {
  valid = record {
    bids = record { distinct = tt; sound = tt };
    asks = record { distinct = tt; sound = tt };
  };
  uncrossed = tt;
}

engines_of-AllOrderly :
    (cs : List MarketConfig) (m : Dict ℕ MatchingEngine)
    → AllOrderly m
    → AllOrderly (engines_of cs m)
engines_of-AllOrderly [] m a = a
engines_of-AllOrderly (c ∷ cs) m a =
    engines_of-AllOrderly cs (insert c.id (Matching.init c) m)
      (AllOrderly-insert c.id (Matching.init c) m (new_market c) a)

-- A new server is sound, with whatever markets.
pub init-IsServing :
    (cs : List MarketConfig) (p : SettlementPipeline) (max_connections max_messages : ℕ)
    → IsServing (init cs p max_connections max_messages)
unfolding init
init-IsServing cs p max_connections max_messages = record {
  capacity = omega arith;
  distinct = tt;
  numbered = λ k lt. refl;
  orderly = engines_of-AllOrderly cs [] tt;
}
