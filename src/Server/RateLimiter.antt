-- ===== src/Server/RateLimiter.antt =====
-- `RateLimiter` of api/src/ws/server.ts. Keys are numbered; times are in milliseconds.
use sur_protocol.Common.{
  ℕ, suc, ◌+◌, ◌-◌, ◌≤◌, Bool, true, false, Bool-cases, ◌≡◌, List, [], ◌∷◌, Option, none, some,
  arith, inl, inr, if◌then◌else◌, leb, ltb, ◌==◌, ==_iff, nat_eq, All, ap, ◌∙◌,
}
use sur_protocol.Common.Dict.{Dict, lookup, insert, lookup-insert}

pub record Window : Type 0 where
  pub count : ℕ
  pub reset_at : ℕ

pub record RateLimiter : Type 0 where
  pub windows : Dict ℕ Window
  pub max_per_window : ℕ
  pub window_ms : ℕ

-- A new window for a key.
abbrev open_window : ℕ → ℕ → RateLimiter → RateLimiter
open_window key now l = record l {
  windows = insert key (record { count = 1; reset_at = now + l.window_ms }) l.windows;
}

abbrev check_window : ℕ → ℕ → RateLimiter → Option Window → RateLimiter × Bool
check_window key now l none = (open_window key now l, true)
check_window key now l (some w) =
    if ltb w.reset_at now
    then (open_window key now l, true)
    else if leb l.max_per_window w.count
    then (l, false)
    else (record l { windows = insert key (record w { count = suc w.count }) l.windows }, true)

unfoldable pub check : ℕ → ℕ → RateLimiter → RateLimiter × Bool
check key now l = check_window key now l (lookup key l.windows)

abbrev drop_stale : ℕ → Dict ℕ Window → Dict ℕ Window
drop_stale now [] = []
drop_stale now ((k, w) ∷ m) =
    if ltb w.reset_at now then drop_stale now m else (k, w) ∷ drop_stale now m

-- The callback of `setInterval`.
unfoldable pub clean_up : ℕ → RateLimiter → RateLimiter
clean_up now l = record l { windows = drop_stale now l.windows }

-- A message under a key, or the clean-up, at a time.
pub data Event : Type 0 where
  message : (key time : ℕ) → Event
  cleaning : (time : ℕ) → Event

abbrev pub time : Event → ℕ
time (message key t) = t
time (cleaning t) = t

-- How many messages of a key there are, and how many of them are let through.
abbrev pub sent : ℕ → List Event → ℕ
sent k [] = 0
sent k (message j t ∷ vs) = (if j == k then 1 else 0) + sent k vs
sent k (cleaning t ∷ vs) = sent k vs

abbrev pub passed : ℕ → List Event → RateLimiter → ℕ
passed k [] l = 0
passed k (message j t ∷ vs) l =
    (if j == k then (if (check j t l).1 then 1 else 0) else 0) + passed k vs (check j t l).0
passed k (cleaning t ∷ vs) l = passed k vs (clean_up t l)

check-other :
    (k j t : ℕ) (l : RateLimiter) (o : Option Window)
    → (j == k) ≡ false
    → (lookup k (check_window j t l o).0.windows ≡ lookup k l.windows)
      × ((check_window j t l o).0.max_per_window ≡ l.max_per_window)
check-other k j t l none ne = ground (
  arith,
  ==_iff j k,
  lookup-insert j k (record { count = 1; reset_at = t + l.window_ms }) l.windows,
)
check-other k j t l (some w) ne = ground (
  arith,
  ==_iff j k,
  lookup-insert j k (record { count = 1; reset_at = t + l.window_ms }) l.windows,
  lookup-insert j k (record w { count = suc w.count }) l.windows,
)

lookup-drop_stale :
    (k t : ℕ) (w : Window) (m : Dict ℕ Window)
    → lookup k m ≡ some w
    → t ≤ w.reset_at
    → lookup k (drop_stale t m) ≡ some w
lookup-drop_stale k t w [] e le = e
lookup-drop_stale k t w ((j, v) ∷ m) e le = ground (arith, lookup-drop_stale k t w m)

abbrev smaller : ℕ → ℕ → ℕ
smaller a b = if leb a b then a else b

-- One message under the key of an open window.
check-full :
    (k t : ℕ) (l : RateLimiter) (w : Window)
    → lookup k l.windows ≡ some w
    → t ≤ w.reset_at
    → leb l.max_per_window w.count ≡ true
    → check k t l ≡ (l, false)
unfolding check
check-full k t l w e le full = ap (check_window k t l) e ∙ ground arith

abbrev counted : ℕ → Window → RateLimiter → RateLimiter
counted k w l = record l { windows = insert k (record w { count = suc w.count }) l.windows }

check-room :
    (k t : ℕ) (l : RateLimiter) (w : Window)
    → lookup k l.windows ≡ some w
    → t ≤ w.reset_at
    → leb l.max_per_window w.count ≡ false
    → check k t l ≡ (counted k w l, true)
unfolding check
check-room k t l w e le room = ap (check_window k t l) e ∙ ground arith

-- In the window that is open for a key, with some messages let through already, exactly the next
-- ones are let through until their number is the limit, whatever the other keys send and whenever
-- stale windows are dropped.
pub passed_lem :
    (k : ℕ) (vs : List Event) (l : RateLimiter) (w : Window)
    → lookup k l.windows ≡ some w
    → All (λ v. time v ≤ w.reset_at) vs
    → passed k vs l ≡ smaller (sent k vs) (l.max_per_window - w.count)
unfolding check clean_up
passed_lem k [] l w e a = ground arith
passed_lem k (cleaning t ∷ vs) l w e a =
    passed_lem k vs (clean_up t l) w (lookup-drop_stale k t w l.windows e a.0) a.1
passed_lem k (message j t ∷ vs) l w e a = elim (Bool-cases (j == k)) [
  | inr other ↦
      let c = check-other k j t l (lookup j l.windows) other in
      let ih =
        passed_lem k vs (check j t l).0 w (c.0 ∙ e) a.1
        ∙ ap (λ n. smaller (sent k vs) (n - w.count)) c.1 in
      rw other (ground (arith, ih))
  | inl hit ↦
      let e' : lookup j l.windows ≡ some w = ground (arith, ==_iff j k, hit, e) in
      elim (Bool-cases (leb l.max_per_window w.count)) [
        | inl full ↦
            rw hit (
              rw (check-full j t l w e' a.0 full) (ground (arith, passed_lem k vs l w e a.1, full)))
        | inr room ↦
            let found : lookup k (counted j w l).windows ≡ some (record w { count = suc w.count }) =
              ground (
                arith,
                lookup-insert j k (record w { count = suc w.count }) l.windows,
                ==_iff j k,
                hit,
              ) in
            rw hit (
              rw (check-room j t l w e' a.0 room) (
                ground (
                  arith,
                  passed_lem k vs (counted j w l) (record w { count = suc w.count }) found a.1,
                  room,
                )))
      ]
]
