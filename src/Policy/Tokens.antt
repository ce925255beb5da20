-- ===== src/Policy/Tokens.antt =====
-- What a token that `verify_token` accepts is bound to.
use kalyx_mao_engine.Base.{
  ℕ, ◌≤◌, String, true, false, ◌≡◌, refl, Option, some, List, [], ◌∷◌, arith, eq_iff, starts_with,
  is_empty, split_dots, Bool-cases, Option-cases, inl, inr,
}
use kalyx_mao_engine.Entities.{
  ActionProposal, Organisation, PolicyDecision, AuthorizationTokenClaims,
}
use kalyx_mao_engine.Policy.Rules.{is_paused}
use kalyx_mao_engine.Policy.Engine.{
  Library, PolicyEngine, valid, decision_differs, content_hash, get_policy_version_hash, verify,
  check_claims, check_parts, verify_token,
}

module _ (lib : Library) (engine : PolicyEngine) (now : ℕ) where
  -- The claims of a token, and what they are bound to.
  pub record IsBound (p : ActionProposal) (org : Organisation) (decision : Option PolicyDecision)
      (c : AuthorizationTokenClaims) : Type 0 where
    pub unexpired : now ≤ c.expires_at
    pub same_org : c.org_id ≡ org.id
    pub same_proposal : c.proposal_id ≡ p.id
    pub same_content : c.proposal_content_hash ≡ content_hash lib p
    pub same_decision : decision_differs decision c ≡ false
    pub same_policy : c.policy_version_hash ≡ get_policy_version_hash lib engine

  -- A token in the accepted form.
  pub record Accepted (p : ActionProposal) (org : Organisation) (decision : Option PolicyDecision)
      (parts : List String) : Type 0 where
    pub head : String
    pub claims : String
    pub signature : String
    pub decoded : AuthorizationTokenClaims
    pub shape : parts ≡ head ∷ claims ∷ signature ∷ []
    pub prefix : starts_with head "AUTH-" ≡ true
    pub signed : verify lib engine claims signature ≡ true
    pub readable : lib.decode_claims claims ≡ some decoded
    pub bound : IsBound p org decision decoded

  check_claims-valid :
      (p : ActionProposal) (org : Organisation) (decision : Option PolicyDecision)
      (c : AuthorizationTokenClaims)
      → check_claims lib engine now p org decision (some c) ≡ valid
      → IsBound p org decision c
  check_claims-valid p org decision c h = ground (
    arith,
    h,
    eq_iff c.org_id org.id,
    eq_iff c.proposal_id p.id,
    eq_iff c.proposal_content_hash (content_hash lib p),
    eq_iff c.policy_version_hash (get_policy_version_hash lib engine),
  )

  check_parts-valid :
      (p : ActionProposal) (org : Organisation) (decision : Option PolicyDecision)
      (parts : List String)
      → check_parts lib engine now p org decision parts ≡ valid
      → Accepted p org decision parts
  check_parts-valid p org decision [] h = cc
  check_parts-valid p org decision (a ∷ []) h = cc
  check_parts-valid p org decision (a ∷ b ∷ []) h = cc
  check_parts-valid p org decision (a ∷ b ∷ c ∷ d ∷ l) h = cc
  check_parts-valid p org decision (a ∷ b ∷ c ∷ []) h = elim (Bool-cases (starts_with a "AUTH-")) [
    | inr other ↦ cc (simp other at h)
    | inl prefix ↦ elim (Bool-cases (verify lib engine b c)) [
      | inr other ↦ cc (simp (prefix, other) at h)
      | inl signed ↦ elim (Option-cases (lib.decode_claims b)) [
        | inl unread ↦ cc (simp (prefix, signed, unread) at h)
        | inr (claims, readable) ↦ record {
          head = a;
          claims = b;
          signature = c;
          decoded = claims;
          shape = refl;
          prefix = prefix;
          signed = signed;
          readable = readable;
          bound = check_claims-valid p org decision claims (simp (prefix, signed, readable) at h);
        }
      ]
    ]
  ]

  -- A token that is accepted has three parts, the first begins with AUTH-, the third signs the
  -- second, which decodes to claims that have not expired and are bound to the organisation, the
  -- proposal with its content, the decision and the policy; and the organisation is not paused.
  pub verify_token_sound :
      (token : String) (p : ActionProposal) (org : Organisation) (decision : Option PolicyDecision)
      → verify_token lib engine now token p org decision ≡ valid
      → (is_paused org.state ≡ false) × Accepted p org decision (split_dots token)
  unfolding verify_token
  verify_token_sound token p org decision h = elim (Bool-cases (is_empty token)) [
    | inl empty ↦ cc (simp empty at h)
    | inr given ↦ elim (Bool-cases (is_paused org.state)) [
      | inl paused ↦ cc (simp (given, paused) at h)
      | inr running ↦ (
        running,
        check_parts-valid p org decision (split_dots token) (simp (given, running) at h),
      )
    ]
  ]

  -- One token is not accepted for two organisations, or for two proposals of different id or of
  -- different content hash.
  pub verify_token_unique :
      (token : String) (p p' : ActionProposal) (org org' : Organisation)
      (decision decision' : Option PolicyDecision)
      → verify_token lib engine now token p org decision ≡ valid
      → verify_token lib engine now token p' org' decision' ≡ valid
      → (org.id ≡ org'.id) × (p.id ≡ p'.id) × (content_hash lib p ≡ content_hash lib p')
  verify_token_unique token p p' org org' decision decision' h h' =
      let a = (verify_token_sound token p org decision h).1 in
      let b = (verify_token_sound token p' org' decision' h').1 in
      let same : a.claims ≡ b.claims = cc (a.shape, b.shape) in
      let one : a.decoded ≡ b.decoded = cc (a.readable, b.readable, same) in
      (
        cc (a.bound.same_org, b.bound.same_org, one),
        cc (a.bound.same_proposal, b.bound.same_proposal, one),
        cc (a.bound.same_content, b.bound.same_content, one),
      )
