-- ===== src/Orbio/Allowed.antt =====
-- What an allowed purchase is.
use kalyx_mao_engine.Base.{
  ℕ, ◌≤◌, ◌<◌, String, true, false, ◌≡◌, refl, ap, Option, none, some, ◌↔◌, inl, inr, arith,
  contains, eq_iff, is_empty, ltb, Bool-cases,
}
use kalyx_mao_engine.Base.Dict.{lookup}
use kalyx_mao_engine.Orbio.Intents.{OrbioPurchaseIntent, Digests, compute_purchase_intent_hash}
use kalyx_mao_engine.Orbio.Bounds.{
  Limits, PurchaseDenialCode, is_deployed, is_beneficiary_allowed, is_past, bound_denial,
}
use kalyx_mao_engine.Orbio.Policy.{
  Approvals, HumanPurchaseApproval, allow, or_latest, is_issued, is_token, compute_issuance_token,
  approval_denial, decide, confirm, judge, evaluate,
}

abbrev pub NotPast : Option ℕ → ℕ → Type 0
NotPast none now = Unit {0}
NotPast (some deadline) now = now ≤ deadline

-- The bounds that no human approval lifts.
pub record WithinBounds (p : Limits) (i : OrbioPurchaseIntent) (now : ℕ) : Type 0 where
  pub deployed : is_deployed p i ≡ true
  pub beneficiary : is_beneficiary_allowed p i ≡ true
  pub spend : i.usdg_in ≤ p.absolute_usdg_ceiling
  pub at_most_face : i.min_credit_out ≤ i.usdg_in
  pub bounded_slippage : 0 < i.usdg_in → 0 < i.min_credit_out
  pub fills : i.max_fills ≤ p.max_fills
  pub fee : i.max_fee_per_gas ≤ p.max_fee_per_gas
  pub priority_fee : i.max_priority_fee_per_gas ≤ p.max_priority_fee_per_gas
  pub gas : i.gas_limit ≤ p.max_gas_limit
  pub in_time : NotPast i.deadline now

is_past-NotPast : (d : Option ℕ) (now : ℕ) → is_past d now ≡ false → NotPast d now
is_past-NotPast none now h = tt
is_past-NotPast (some d) now h = ground (arith, h)

NotPast-is_past : (d : Option ℕ) (now : ℕ) → NotPast d now → is_past d now ≡ false
NotPast-is_past none now h = refl
NotPast-is_past (some d) now h = ground (arith, h)

bound_denial-WithinBounds :
    (p : Limits) (i : OrbioPurchaseIntent) (now : ℕ)
    → bound_denial p i now ≡ none
    → WithinBounds p i now
unfolding bound_denial
bound_denial-WithinBounds p i now h =
    let time : is_past i.deadline now ≡ false = ground (arith, h) in
    record {
      deployed = ground (arith, h);
      beneficiary = ground (arith, h);
      spend = ground (arith, h);
      at_most_face = ground (arith, h);
      bounded_slippage = λ k. ground (arith, h, k);
      fills = ground (arith, h);
      fee = ground (arith, h);
      priority_fee = ground (arith, h);
      gas = ground (arith, h);
      in_time = is_past-NotPast i.deadline now time;
    }

WithinBounds-bound_denial :
    (p : Limits) (i : OrbioPurchaseIntent) (now : ℕ)
    → WithinBounds p i now
    → bound_denial p i now ≡ none
unfolding bound_denial
WithinBounds-bound_denial p i now w =
    let time = NotPast-is_past i.deadline now w.in_time in
    ground (
      arith, time, w.deployed, w.beneficiary, w.spend, w.at_most_face, w.bounded_slippage, w.fills,
      w.fee, w.priority_fee, w.gas,
    )

is_token-eq :
    (given : Option String) (token : String)
    → is_token given token ≡ true
    → (given ≡ some token) × (is_empty token ≡ false)
is_token-eq none token h = cc
is_token-eq (some t) token h =
    let same : t ≡ token = ground (arith, h, eq_iff t token) in
    let full : is_empty t ≡ false = ground (arith, h) in (ap some same, rw same at full)

is_token_of_eq :
    (given : Option String) (token : String)
    → given ≡ some token
    → is_empty token ≡ false
    → is_token given token ≡ true
is_token_of_eq given token same full = rw same (ground (arith, full, eq_iff token token))

module _ (lib : Digests) (p : Limits) (s : Approvals) (i : OrbioPurchaseIntent) (now : ℕ) where
  -- An approval of this very intent, signed by the policy, registered, not revoked and not expired.
  pub record Confirms (a : HumanPurchaseApproval) : Type 0 where
    pub not_revoked : contains a.approval_id s.revoked ≡ false
    pub signed : a.issuance_token ≡ some (compute_issuance_token lib p a)
    pub not_blank : is_empty (compute_issuance_token lib p a) ≡ false
    pub registered : is_issued (lookup a.approval_id s.issued) ≡ true
    pub unexpired : now ≤ a.expires_at
    pub same_intent : a.intent_hash ≡ compute_purchase_intent_hash lib i
    pub same_tenant : a.tenant_id ≡ i.tenant_id
    pub same_org : a.organisation_id ≡ i.organisation_id

  approval_denial-Confirms :
      (a : HumanPurchaseApproval) → approval_denial lib p s i now a ≡ none → Confirms a
  unfolding approval_denial
  approval_denial-Confirms a h =
      let token = compute_issuance_token lib p a in
      let signed = is_token-eq a.issuance_token token (ground (arith, h)) in
      record {
        not_revoked = ground (arith, h);
        signed = signed.0;
        not_blank = signed.1;
        registered = ground (arith, h);
        unexpired = ground (arith, h);
        same_intent = ground (arith, h, eq_iff a.intent_hash (compute_purchase_intent_hash lib i));
        same_tenant = ground (arith, h, eq_iff a.tenant_id i.tenant_id);
        same_org = ground (arith, h, eq_iff a.organisation_id i.organisation_id);
      }

  Confirms-approval_denial :
      (a : HumanPurchaseApproval) → Confirms a → approval_denial lib p s i now a ≡ none
  unfolding approval_denial
  Confirms-approval_denial a c =
      let token =
        is_token_of_eq a.issuance_token (compute_issuance_token lib p a) c.signed c.not_blank in
      ground (
        arith,
        token,
        c.not_revoked,
        c.registered,
        c.unexpired,
        c.same_intent,
        c.same_tenant,
        c.same_org,
        eq_iff a.intent_hash (compute_purchase_intent_hash lib i),
        eq_iff a.tenant_id i.tenant_id,
        eq_iff a.organisation_id i.organisation_id,
      )

  -- What the policy asks of the approval that it looks at.
  pub record Authorised (given : Option HumanPurchaseApproval) : Type 0 where
    pub within : WithinBounds p i now
    pub confirmed :
        p.autonomous_usdg_ceiling < i.usdg_in
        → (a : HumanPurchaseApproval) × (or_latest given
              (lookup (compute_purchase_intent_hash lib i) s.latest)
            ≡ some a)
          × Confirms a

  decide-allow :
      (code : Option PurchaseDenialCode) → (decide lib p i code).result ≡ allow → code ≡ none
  decide-allow none h = refl
  decide-allow (some code) h = cc

  confirm-Confirms :
      (o : Option HumanPurchaseApproval)
      → (confirm lib p s i now o).result ≡ allow
      → (a : HumanPurchaseApproval) × (o ≡ some a) × Confirms a
  confirm-Confirms none h = cc
  confirm-Confirms (some a) h = (a, refl, approval_denial-Confirms a (decide-allow _ h))

  judge-Authorised :
      (given : Option HumanPurchaseApproval) (code : Option PurchaseDenialCode)
      → bound_denial p i now ≡ code
      → (judge lib p s i given now code).result ≡ allow
      → Authorised given
  judge-Authorised given (some code) bounds h = cc
  judge-Authorised given none bounds h = record {
    within = bound_denial-WithinBounds p i now bounds;
    confirmed = λ above.
        let over : ltb p.autonomous_usdg_ceiling i.usdg_in ≡ true = ground (arith, above) in
        confirm-Confirms _ (simp over at h);
  }

  Authorised-evaluate :
      (given : Option HumanPurchaseApproval)
      → Authorised given
      → (evaluate lib p s i given now).result ≡ allow
  unfolding evaluate
  Authorised-evaluate given h =
      rw (WithinBounds-bound_denial p i now h.within)
        (elim (Bool-cases (ltb p.autonomous_usdg_ceiling i.usdg_in)) [
          | inr below ↦ simp below
          | inl above ↦
              let (a, found, confirms) = h.confirmed (ground (arith, above)) in
              simp (above, found, Confirms-approval_denial a confirms)
        ])

  pub evaluate-Authorised :
      (given : Option HumanPurchaseApproval)
      → ((evaluate lib p s i given now).result ≡ allow) ↔ Authorised given
  unfolding evaluate
  evaluate-Authorised given =
      (judge-Authorised given (bound_denial p i now) refl, Authorised-evaluate given)
