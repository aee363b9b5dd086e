-- ===== src/Guardian/Growth.antt =====
-- The log and the requests of the risk guardian while defenses are added.
use sur_protocol.Common.{
  ◌≡◌, refl, sym, ap, ◌∙◌, List, [], ◌∷◌, ◌++◌, Option, none, some, All, All-append, nat_eq,
}
use mathlib.Core.List.{append-nil, append_assoc}
use sur_protocol.Common.Doubles.{Double}
use sur_protocol.Guardian.Defense.{GuardianAction, Defense, Post, Guardian, record_defense}
use sur_protocol.Guardian.Terms.{Holds}

module _ {F : Type 0} ⦃d : Double F⦄ where
  -- What defenses log, and what they send.
  abbrev pub actions_of : List (Defense F) → List (GuardianAction F)
  actions_of [] = []
  actions_of (x ∷ xs) = x.action ∷ actions_of xs

  abbrev pub requests_of : List (Defense F) → List (Post F)
  requests_of [] = []
  requests_of (x ∷ xs) = elim x.request [ none ↦ requests_of xs | some r ↦ r ∷ requests_of xs ]

  -- From one state to another, the log and the requests grow by those of defenses that all
  -- satisfy `P`, and by nothing else.
  pub record Extends (P : Defense F → Type 0) (g g' : Guardian F) : Type 0 where
    pub new : List (Defense F)
    pub logged : g'.action_log ≡ g.action_log ++ actions_of new
    pub sent : g'.posts ≡ g.posts ++ requests_of new
    pub all : All P new

  actions_of-append :
      (xs ys : List (Defense F)) → actions_of (xs ++ ys) ≡ actions_of xs ++ actions_of ys
  actions_of-append [] ys = refl
  actions_of-append (x ∷ xs) ys =
      ap (λ (zs : List (GuardianAction F)). x.action ∷ zs) (actions_of-append xs ys)

  requests_of-append :
      (xs ys : List (Defense F)) → requests_of (xs ++ ys) ≡ requests_of xs ++ requests_of ys
  requests_of-append [] ys = refl
  requests_of-append (x ∷ xs) ys = either x.request (requests_of-append xs ys)
    where
      either :
          (r : Option (Post F))
          → requests_of (xs ++ ys) ≡ requests_of xs ++ requests_of ys
          → (elim r [ none ↦ requests_of (xs ++ ys) | some q ↦ q ∷ requests_of (xs ++ ys) ])
            ≡ (elim r [ none ↦ requests_of xs | some q ↦ q ∷ requests_of xs ]) ++ requests_of ys
      either none e = e
      either (some q) e = ap (λ (zs : List (Post F)). q ∷ zs) e

  pub Extends-refl : (P : Defense F → Type 0) (g : Guardian F) → Extends P g g
  Extends-refl P g = record {
    new = [];
    logged = sym (append-nil g.action_log);
    sent = sym (append-nil g.posts);
    all = tt;
  }

  pub Extends-trans :
      (P : Defense F → Type 0) (l m n : Guardian F) → Extends P l m → Extends P m n → Extends P l n
  Extends-trans P l m n h k = record {
    new = h.new ++ k.new;
    logged =
        k.logged
        ∙ ap (λ (z : List (GuardianAction F)). z ++ actions_of k.new) h.logged
        ∙ append_assoc l.action_log (actions_of h.new) (actions_of k.new)
        ∙ ap (λ (z : List (GuardianAction F)). l.action_log ++ z)
            (sym (actions_of-append h.new k.new));
    sent =
        k.sent
        ∙ ap (λ (z : List (Post F)). z ++ requests_of k.new) h.sent
        ∙ append_assoc l.posts (requests_of h.new) (requests_of k.new)
        ∙ ap (λ (z : List (Post F)). l.posts ++ z) (sym (requests_of-append h.new k.new));
    all = All-append P h.new k.new h.all k.all;
  }

  pub record_defense-Extends :
      (P : Defense F → Type 0) (r : Option (Defense F)) (g : Guardian F)
      → Holds P r
      → Extends P g (record_defense r g)
  record_defense-Extends P none g h = Extends-refl P g
  record_defense-Extends P (some x) g h = record {
    new = x ∷ [];
    logged = refl;
    sent = either x.request;
    all = (h, tt);
  }
    where
      either :
          (r : Option (Post F))
          → (elim r [ none ↦ g.posts | some q ↦ g.posts ++ q ∷ [] ])
            ≡ g.posts ++ (elim r [ none ↦ [] | some q ↦ q ∷ [] ])
      either none = sym (append-nil g.posts)
      either (some q) = refl
