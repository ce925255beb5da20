-- ===== src/Orbio/EarlierApproval.antt =====
-- A revocation by the hash of the intent, when the intent was approved twice.
use kalyx_mao_engine.Base.{
  ℕ, ◌≤◌, String, true, false, ◌≡◌, refl, Option, none, some, arith, contains, str_eq, eq_iff,
  eq_refl, is_empty, if◌then◌else◌,
}
use kalyx_mao_engine.Base.Dict.{Dict, lookup, insert, remove, lookup-insert, lookup-remove}
use kalyx_mao_engine.Orbio.Intents.{OrbioPurchaseIntent, Digests, compute_purchase_intent_hash}
use kalyx_mao_engine.Orbio.Bounds.{Limits}
use kalyx_mao_engine.Orbio.Policy.{
  Approvals, HumanPurchaseApproval, allow, is_issued, compute_issuance_token, approval_for,
  record_approval, issue_human_approval, revoke_latest, revoke_human_approval, evaluate,
}
use kalyx_mao_engine.Orbio.Allowed.{WithinBounds, Confirms, evaluate-Authorised}

-- The second branch does not run where the hash is no id of another approval.
revoke_by_hash :
    (hash : String) (s : Approvals) (a : HumanPurchaseApproval)
    → lookup hash s.latest ≡ some a
    → lookup hash (remove a.approval_id s.issued) ≡ none
    → revoke_human_approval hash s ≡ revoke_latest (some a) hash s
unfolding revoke_human_approval
revoke_by_hash hash s a found gone = rw found (rw gone refl)

-- Two entries are inserted, and the later one is removed.
lookup_removed :
    (first second j : String) (a b : HumanPurchaseApproval) (d : Dict HumanPurchaseApproval)
    → lookup j (remove second (insert second b (insert first a d)))
      ≡ (if str_eq second j then none else if str_eq first j then some a else lookup j d)
lookup_removed first second j a b d = ground (
  arith,
  lookup-remove second j (insert second b (insert first a d)),
  lookup-insert second j b (insert first a d),
  lookup-insert first j a d,
)

module _ (lib : Digests) (p : Limits) (s : Approvals) (i : OrbioPurchaseIntent)
    (first second operator : String) (ttl : Option ℕ) (now later : ℕ) where
  abbrev earlier : HumanPurchaseApproval
  earlier = (issue_human_approval lib p first i operator none ttl now s).0

  abbrev latest : HumanPurchaseApproval
  latest = approval_for lib p second i operator none ttl now

  abbrev approved_twice : Approvals
  approved_twice =
      (issue_human_approval lib p second i operator none ttl now
        (issue_human_approval lib p first i operator none ttl now s).1).1

  -- The hash of the intent is no id of an approval, the ids are two, and the first is not revoked.
  pub record Apart : Type 0 where
    pub two_ids : str_eq second first ≡ false
    pub first_apart : str_eq first (compute_purchase_intent_hash lib i) ≡ false
    pub second_apart : str_eq second (compute_purchase_intent_hash lib i) ≡ false
    pub no_id : lookup (compute_purchase_intent_hash lib i) s.issued ≡ none
    pub fresh : contains first s.revoked ≡ false

  abbrev revoked : Approvals
  revoked = revoke_human_approval (compute_purchase_intent_hash lib i) approved_twice

  abbrev after : Approvals
  after = revoke_latest (some latest) (compute_purchase_intent_hash lib i) approved_twice

  revoked-after : Apart → revoked ≡ after
  unfolding issue_human_approval record_approval approval_for
  revoked-after apart =
      let hash = compute_purchase_intent_hash lib i in
      let gone : lookup hash (remove second (insert second latest (insert first earlier s.issued)))
          ≡ none =
        ground (
          arith,
          lookup_removed first second hash earlier latest s.issued,
          apart.second_apart,
          apart.first_apart,
          apart.no_id,
        ) in
      revoke_by_hash hash approved_twice latest
        (rw (lookup-insert hash hash latest (insert hash earlier s.latest))
          (rw (eq_refl hash) refl))
        gone

  registered : Apart → is_issued (lookup first after.issued) ≡ true
  unfolding issue_human_approval record_approval approval_for
  registered apart =
      rw (lookup_removed first second first earlier latest s.issued)
        (rw apart.two_ids (rw (eq_refl first) refl))

  after-Confirms :
      Apart
      → is_empty (compute_issuance_token lib p earlier) ≡ false
      → later ≤ earlier.expires_at
      → Confirms lib p after i later earlier
  unfolding issue_human_approval record_approval approval_for compute_issuance_token
  after-Confirms apart full time = record {
    not_revoked = ground (arith, apart.two_ids, apart.fresh, eq_iff first second);
    signed = refl;
    not_blank = full;
    registered = registered apart;
    unexpired = time;
    same_intent = refl;
    same_tenant = refl;
    same_org = refl;
  }

  -- An intent that was approved twice and revoked by its hash: the revocation takes the latest
  -- approval only. While the earlier one has not expired and the intent is within the bounds, a
  -- caller that hands it over is still allowed the purchase.
  pub earlier_approval_stays :
      Apart
      → is_empty (compute_issuance_token lib p earlier) ≡ false
      → later ≤ earlier.expires_at
      → WithinBounds p i later
      → (evaluate lib p revoked i (some earlier) later).result ≡ allow
  earlier_approval_stays apart full time within = rw (revoked-after apart) (
      (evaluate-Authorised lib p after i later (some earlier)).1 (record {
        within = within;
        confirmed = λ above. (earlier, refl, after-Confirms apart full time);
      }))
