-- ===== src/FundingBot/Limits.antt =====
-- What the funding bot keeps of its readings. "Keep last N snapshots per market" is what the comment
-- of the source says; the code counts the snapshots of all markets together.
use sur_protocol.Common.{
  ℕ, zero, suc, ◌*◌, ◌-◌, ◌≤◌, min, ◌≡◌, refl, sym, ap, ◌∙◌, List, [], ◌∷◌, ◌++◌, Option, none,
  some, arith, if◌then◌else◌, Bool-cases, inl, inr, if-elim, if-split, ltb, length, length-append,
  length-drop, take, take-drop, slice_last,
}
use mathlib.Core.List.{append-nil, append_assoc}
use sur_protocol.Common.Doubles.{Double}
use sur_protocol.Settlement.Retry.{retry_with_backoff}
use sur_protocol.FundingBot.{
  MarketData, FundingSnapshot, FundingStats, FundingReceipt, Replies, is_due_at, take_snapshot,
  trim, store_snapshot, count_application, receipt_of, apply_funding, handle_data, handle_market,
  handle_markets, cycle,
}

-- `kept` is the end of `all`, of at most `cap` elements, and all of it where it has no more.
abbrev pub Newest {ℓ} : {A : Type ℓ} → ℕ → List A → List A → Type ℓ
Newest {A = A} cap all kept =
    (dropped : List A) × (dropped ++ kept ≡ all) × (length kept ≡ min cap (length all))

Newest-refl {ℓ} : {A : Type ℓ} (cap : ℕ) (xs : List A) → length xs ≤ cap → Newest cap xs xs
Newest-refl cap xs le = ([], refl, ground (arith, le))

Newest-trans {ℓ} :
    {A : Type ℓ} (cap : ℕ) (all new kept last : List A)
    → Newest cap all kept
    → Newest cap (kept ++ new) last
    → Newest cap (all ++ new) last
Newest-trans cap all new kept last (d, e, n) (d', e', n') = (
  d ++ d',
  append_assoc d d' last
      ∙ ap (λ xs. d ++ xs) e'
      ∙ sym (append_assoc d kept new)
      ∙ ap (λ xs. xs ++ new) e,
  ground (arith, n, n', length-append kept new, length-append all new),
)

slice_last-Newest {ℓ} :
    {A : Type ℓ} (n : ℕ) (xs : List A) → 1 ≤ n → n ≤ length xs → Newest n xs (slice_last n xs)
slice_last-Newest zero xs h le = absurd (ground (arith, h))
slice_last-Newest (suc n) xs h le = (
  take (length xs - suc n) xs,
  sym (take-drop (length xs - suc n) xs),
  ground (arith, le, length-drop (length xs - suc n) xs),
)

module _ {F : Type 0} ⦃d : Double F⦄ where
  -- The snapshot of a market that is read and active.
  abbrev pub reading_of : (name now : ℕ) → Option MarketData → List (FundingSnapshot F)
  reading_of name now none = []
  reading_of name now (some m) = if m.active then take_snapshot name now m ∷ [] else []

  -- The snapshots that a cycle takes, in the order of the markets.
  abbrev pub snapshots : List ℕ → (ℕ → ℕ) → (ℕ → Replies) → List (FundingSnapshot F)
  snapshots [] now replies = []
  snapshots (name ∷ names) now replies =
      reading_of name (now name) (retry_with_backoff (replies name).read 2 500).result
      ++ snapshots names now replies

  trim-Newest :
      (markets : ℕ) (h : List (FundingSnapshot F))
      → 1 ≤ markets
      → Newest (100 * markets) h (trim markets h)
  trim-Newest markets h one =
      if-split (Newest (100 * markets) h) (ltb (100 * markets) (length h)) _ _
        (λ over. slice_last-Newest (100 * markets) h (omega (arith, one)) (ground (arith, over)))
        (λ within. Newest-refl (100 * markets) h (ground (arith, within)))

  count_application-history :
      (r : Option FundingReceipt) (s : FundingStats F) → (count_application r s).history ≡ s.history
  count_application-history none s = refl
  count_application-history (some r) s =
      if-elim (λ (x : FundingStats F). x.history ≡ s.history) r.succeeded _ _ refl refl

  stored-history :
      (markets name now : ℕ) (replies : Replies) (m : MarketData) (s : FundingStats F)
      → (if is_due_at now m
          then apply_funding replies (store_snapshot markets (take_snapshot name now m) s)
          else store_snapshot markets (take_snapshot name now m) s).history
        ≡ trim markets (s.history ++ take_snapshot name now m ∷ [])
  unfolding apply_funding
  stored-history markets name now replies m s =
      if-elim
        (λ (x : FundingStats F).
          x.history ≡ trim markets (s.history ++ take_snapshot name now m ∷ []))
        (is_due_at now m) _ _
        (count_application-history
          (receipt_of replies (retry_with_backoff replies.write 2 1000).result)
          (store_snapshot markets (take_snapshot name now m) s))
        refl

  handle_data-Newest :
      (markets name now : ℕ) (replies : Replies) (o : Option MarketData) (s : FundingStats F)
      → 1 ≤ markets
      → length s.history ≤ 100 * markets
      → Newest
          (100 * markets)
          (s.history ++ reading_of name now o)
          (handle_data markets name now replies o s).history
  handle_data-Newest markets name now replies none s one h =
      rw (append-nil s.history) (Newest-refl (100 * markets) s.history h)
  handle_data-Newest markets name now replies (some m) s one h = elim (Bool-cases m.active) [
    | inl on ↦
        rw (on, handle_data)
          (rw (stored-history markets name now replies m s)
            (trim-Newest markets (s.history ++ take_snapshot name now m ∷ []) one))
    | inr off ↦
        rw (off, handle_data) (rw (append-nil s.history) (Newest-refl (100 * markets) s.history h))
  ]

  Newest-le :
      (cap : ℕ) (all kept : List (FundingSnapshot F)) → Newest cap all kept → length kept ≤ cap
  Newest-le cap all kept (dropped, e, n) = ground (arith, n)

  handle_markets-Newest :
      (markets : ℕ) (names : List ℕ) (now : ℕ → ℕ) (replies : ℕ → Replies) (s : FundingStats F)
      → 1 ≤ markets
      → length s.history ≤ 100 * markets
      → Newest
          (100 * markets)
          (s.history ++ snapshots names now replies)
          (handle_markets markets names now replies s).history
  unfolding handle_market
  handle_markets-Newest markets [] now replies s one h =
      rw (append-nil s.history) (Newest-refl (100 * markets) s.history h)
  handle_markets-Newest markets (name ∷ names) now replies s one h =
      let o = (retry_with_backoff (replies name).read 2 500).result in
      let s' = handle_market markets name (now name) (replies name) s in
      let seen : List (FundingSnapshot F) = reading_of name (now name) o in
      let first = handle_data-Newest markets name (now name) (replies name) o s one h in
      rw (sym (append_assoc s.history seen (snapshots names now replies))) (
        Newest-trans (100 * markets) (s.history ++ seen) (snapshots names now replies) s'.history
          (handle_markets markets names now replies s').history first
          (handle_markets-Newest markets names now replies s' one
            (Newest-le (100 * markets) (s.history ++ seen) s'.history first)))

  -- A cycle over markets, from a history of at most a hundred snapshots times the number of
  -- markets, adds the snapshots of the markets that are read and active, in their order, and keeps
  -- the newest of all together: all of them while they are at most a hundred times the number of
  -- markets, and exactly that many where they are more. The number is one for all markets together,
  -- not one for each.
  pub cycle_keeps_Newest :
      (names : List ℕ) (now : ℕ → ℕ) (replies : ℕ → Replies) (s : FundingStats F)
      → length s.history ≤ 100 * length names
      → Newest
          (100 * length names)
          (s.history ++ snapshots names now replies)
          (cycle names now replies s).history
  unfolding cycle
  cycle_keeps_Newest [] now replies s h = rw (append-nil s.history) (Newest-refl 0 s.history h)
  cycle_keeps_Newest (name ∷ names) now replies s h =
      handle_markets-Newest (length (name ∷ names)) (name ∷ names) now replies s (omega arith) h
