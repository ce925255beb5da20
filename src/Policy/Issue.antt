-- ===== src/Policy/Issue.antt =====
-- `verify_token` accepts what `generate_token` issues.
use kalyx_mao_engine.Base.{
  ℕ, ◌+◌, ◌≤◌, String, false, ◌≡◌, refl, ap, ◌∙◌, Option, none, some, [], ◌∷◌, arith, ltb, eq_refl,
  str_append, starts_with-append, is_empty-append, take_chars, has_dot, split_dots,
  split_dots-whole, split_dots-append,
}
use kalyx_mao_engine.Entities.{
  ActionProposal, Organisation, PolicyDecision, AuthorizationTokenClaims,
}
use kalyx_mao_engine.Policy.Rules.{is_paused}
use kalyx_mao_engine.Policy.Engine.{
  Library, PolicyEngine, Draw, valid, decision_differs, verify, sign, to_b64, claims_of,
  verify_token, generate_token,
}

module _ (lib : Library) (engine : PolicyEngine) (d : Draw) (p : ActionProposal)
    (org : Organisation) where
  abbrev pub claims : String
  claims = to_b64 lib (claims_of lib engine d p org)

  abbrev pub rounded : AuthorizationTokenClaims
  rounded = record (claims_of lib engine d p org) {
    issued_at = lib.round3 d.now;
    expires_at = lib.round3 (d.now + engine.token_ttl);
  }

  abbrev pub head : String
  head = str_append "AUTH-" (take_chars 8 p.id)

  split-generate_token :
      has_dot head ≡ false
      → has_dot claims ≡ false
      → has_dot (sign lib engine claims) ≡ false
      → split_dots (generate_token lib engine d p org) ≡ head ∷ claims ∷ sign lib engine claims ∷ []
  unfolding generate_token
  split-generate_token h c s =
      split_dots-append head _ h
      ∙ ap (λ l. head ∷ l)
          (split_dots-append claims _ c ∙ ap (λ l. claims ∷ l) (split_dots-whole _ s))

  -- If the claims are read back as they were written, and neither the first characters of the proposal's
  -- id nor the encoded claims nor the signature hold a dot, then `verify_token` accepts the issued
  -- token for its proposal, organisation and decision, until it expires, unless the organisation is
  -- paused.
  pub verify_token-generate_token :
      (now : ℕ) (decision : Option PolicyDecision)
      → lib.decode_claims claims ≡ some rounded
      → has_dot head ≡ false
      → has_dot claims ≡ false
      → has_dot (sign lib engine claims) ≡ false
      → is_paused org.state ≡ false
      → decision_differs decision (claims_of lib engine d p org) ≡ false
      → now ≤ lib.round3 (d.now + engine.token_ttl)
      → verify_token lib engine now (generate_token lib engine d p org) p org decision ≡ valid
  unfolding verify_token generate_token sign verify
  verify_token-generate_token now decision decodes h c s running same unexpired = simp (
    is_empty-append head _ (is_empty-append "AUTH-" _ refl),
    running,
    split-generate_token h c s,
    starts_with-append,
    eq_refl,
    decodes,
    decided decision,
    same,
    fresh,
  )
    where
      -- the rounding does not touch the decision's id
      decided :
          (o : Option PolicyDecision)
          → decision_differs o rounded ≡ decision_differs o (claims_of lib engine d p org)
      decided none = refl
      decided (some x) = refl

      fresh : ltb (lib.round3 (d.now + engine.token_ttl)) now ≡ false
      fresh = ground (arith, unexpired)
