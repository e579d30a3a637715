-- ===== src/Router/Picks.antt =====
-- The order of the rules: `pick_outbound` of src/route/router.cpp.
use cppbox.Prelude.{
  Bool, true, false, List, [], ◌∷◌, ◌++◌, ◌≡◌, refl, ap, ◌∙◌, ◌⊎◌, inl, inr, ℕ, All, ok,
  if◌then◌else◌, ◌>>=◌, >>=-eq-ok,
}
use cppbox.Address.{AddressText, Destination, Session}
use cppbox.Router.{RouteRuleConfig, Router, match_rule, pick_from, pick_outbound}

module _ (t : AddressText) (router : Router) where
  -- The rule does not match the destination, and its tests throw nothing.
  abbrev pub Passes : Destination → RouteRuleConfig → Type 0
  Passes dst rule = match_rule t router rule dst ≡ ok false

  pick_from-skip :
      (before after : List RouteRuleConfig) (dst : Destination)
      → All (Passes dst) before
      → pick_from t router (before ++ after) dst ≡ pick_from t router after dst
  unfolding pick_from
  pick_from-skip [] after dst h = refl
  pick_from-skip (rule ∷ before) after dst h = rw (h.0, ◌>>=◌) (pick_from-skip before after dst h.1)

  -- The outbound comes from the first rule that matches.
  abbrev pub IsFirst : List RouteRuleConfig → Destination → List ℕ → Type 0
  IsFirst rules dst tag =
      (before : List RouteRuleConfig) × (rule : RouteRuleConfig) × (after : List RouteRuleConfig)
      × (rules ≡ before ++ rule ∷ after)
      × All (Passes dst) before
      × (match_rule t router rule dst ≡ ok true)
      × (tag ≡ rule.outbound)

  -- No rule matches.
  abbrev pub IsFinal : List RouteRuleConfig → Destination → List ℕ → Type 0
  IsFinal rules dst tag = All (Passes dst) rules × (tag ≡ router.config.final_outbound)

  pick_from-cases :
      (rules : List RouteRuleConfig) (dst : Destination) (tag : List ℕ)
      → pick_from t router rules dst ≡ ok tag
      → IsFirst rules dst tag ⊎ IsFinal rules dst tag
  unfolding pick_from
  pick_from-cases [] dst tag h = inr (tt, cc)
  pick_from-cases (rule ∷ rules) dst tag h =
      let (matched, e, k) = >>=-eq-ok (match_rule t router rule dst) _ h in
      go matched (λ j. pick_from-cases rules dst tag j) e k
    where
      go :
          (matched : Bool)
          → (pick_from t router rules dst ≡ ok tag → IsFirst rules dst tag ⊎ IsFinal rules dst tag)
          → match_rule t router rule dst ≡ ok matched
          → (if matched then ok rule.outbound else pick_from t router rules dst) ≡ ok tag
          → IsFirst (rule ∷ rules) dst tag ⊎ IsFinal (rule ∷ rules) dst tag
      go true later e k = inl ([], rule, rules, refl, tt, e, cc)
      go false later e k = elim (later k) [
        | inl found ↦
            let (before, r, after, s, a, m, o) = found in
            inl (rule ∷ before, r, after, ap (◌∷◌ rule) s, (e, a), m, o)
        | inr rest ↦ inr ((e, rest.0), rest.1)
      ]

  -- Where `pick_outbound` returns, the tag is that of the first rule that matches, all rules before
  -- it having been tried and passed, or it is `final` and every rule has passed.
  pub pick_outbound-cases :
      (session : Session) (tag : List ℕ)
      → pick_outbound t router session ≡ ok tag
      → IsFirst router.config.rules session.destination tag
        ⊎ IsFinal router.config.rules session.destination tag
  unfolding pick_outbound
  pick_outbound-cases session tag h = pick_from-cases router.config.rules session.destination tag h

  -- When the rules before a rule pass and it matches, `pick_outbound` returns its outbound, even if
  -- a test of a later rule would throw.
  pub pick_outbound-first :
      (before after : List RouteRuleConfig) (rule : RouteRuleConfig) (session : Session)
      → router.config.rules ≡ before ++ rule ∷ after
      → All (Passes session.destination) before
      → match_rule t router rule session.destination ≡ ok true
      → pick_outbound t router session ≡ ok rule.outbound
  unfolding pick_outbound pick_from
  pick_outbound-first before after rule session r h m =
      ap (λ rules. pick_from t router rules session.destination) r
      ∙ pick_from-skip before (rule ∷ after) session.destination h
      ∙ found
    where
      found : pick_from t router (rule ∷ after) session.destination ≡ ok rule.outbound
      found = rw (m, ◌>>=◌) refl
