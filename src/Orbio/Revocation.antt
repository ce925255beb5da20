-- ===== src/Orbio/Revocation.antt =====
-- That a revoked approval stays without effect.
use kalyx_mao_engine.Base.{
  ℕ, ◌<◌, String, Bool, true, false, ◌≡◌, ◌≢◌, refl, Option, none, some, List, [], ◌∷◌, ◌||◌, arith,
  contains, eq_iff, eq_refl,
}
use kalyx_mao_engine.Base.Dict.{Dict, lookup, remove, lookup-insert, lookup-remove}
use kalyx_mao_engine.Orbio.Intents.{OrbioPurchaseIntent, Digests}
use kalyx_mao_engine.Orbio.Bounds.{Limits}
use kalyx_mao_engine.Orbio.Policy.{
  Approvals, HumanPurchaseApproval, allow, is_issued, record_approval, issue_human_approval,
  revoke_latest, revoke_issued, revoke_unknown, revoke_human_approval, evaluate,
}
use kalyx_mao_engine.Orbio.Allowed.{evaluate-Authorised}

-- The calls that write approvals.
pub data ApprovalCall : Type 0 where
  issuing :
      (uuid : String) (intent : OrbioPurchaseIntent) (operator : String) (notes : Option String)
      (ttl : Option ℕ) (now : ℕ)
      → ApprovalCall
  revoking : String → ApprovalCall

abbrev pub is_revoked : String → Approvals → Bool
is_revoked id s = contains id s.revoked

latest-is_revoked :
    (o : Option HumanPurchaseApproval) (key id : String) (s : Approvals)
    → is_revoked id s ≡ true
    → is_revoked id (revoke_latest o key s) ≡ true
latest-is_revoked none key id s h = h
latest-is_revoked (some a) key id s h = ground (arith, h)

issued-is_revoked :
    (o : Option HumanPurchaseApproval) (key id : String) (s : Approvals)
    → is_revoked id s ≡ true
    → is_revoked id (revoke_issued o key s) ≡ true
issued-is_revoked none key id s h = h
issued-is_revoked (some a) key id s h = ground (arith, h)

unknown-is_revoked :
    (b : Bool) (key id : String) (s : Approvals)
    → is_revoked id s ≡ true
    → is_revoked id (revoke_unknown b key s) ≡ true
unknown-is_revoked true key id s h = h
unknown-is_revoked false key id s h = ground (arith, h)

revoke-is_revoked :
    (key id : String) (s : Approvals)
    → is_revoked id s ≡ true
    → is_revoked id (revoke_human_approval key s) ≡ true
unfolding revoke_human_approval
revoke-is_revoked key id s h =
    let s1 = revoke_latest (lookup key s.latest) key s in
    let s2 = revoke_issued (lookup key s1.issued) key s1 in
    unknown-is_revoked (is_issued (lookup key s.latest) || is_issued (lookup key s1.issued)) key id
      s2
      (issued-is_revoked (lookup key s1.issued) key id s1
        (latest-is_revoked (lookup key s.latest) key id s h))

-- The registry of issued approvals is keyed by their ids.
pub record IsKeyed (s : Approvals) : Type 0 where
  pub keyed :
      (id : String) (a : HumanPurchaseApproval) → lookup id s.issued ≡ some a → a.approval_id ≡ id

abbrev pub no_approvals : Approvals
no_approvals = record { latest = []; issued = []; revoked = [] }

no_approvals-IsKeyed : IsKeyed no_approvals
unfolding lookup
no_approvals-IsKeyed = record { keyed = λ id a h. cc h }

keyed-remove :
    (key : String) (d : Dict HumanPurchaseApproval)
    → ((id : String) (a : HumanPurchaseApproval) → lookup id d ≡ some a → a.approval_id ≡ id)
    → (id : String) (a : HumanPurchaseApproval) → lookup id (remove key d) ≡ some a
    → a.approval_id ≡ id
keyed-remove key d keyed id a h = keyed id a (ground (arith, h, lookup-remove key id d))

latest-IsKeyed :
    (o : Option HumanPurchaseApproval) (key : String) (s : Approvals)
    → IsKeyed s
    → IsKeyed (revoke_latest o key s)
latest-IsKeyed none key s k = k
latest-IsKeyed (some a) key s k = record { keyed = keyed-remove a.approval_id s.issued k.keyed }

issued-IsKeyed :
    (o : Option HumanPurchaseApproval) (key : String) (s : Approvals)
    → IsKeyed s
    → IsKeyed (revoke_issued o key s)
issued-IsKeyed none key s k = k
issued-IsKeyed (some a) key s k = record { keyed = keyed-remove key s.issued k.keyed }

unknown-IsKeyed :
    (b : Bool) (key : String) (s : Approvals) → IsKeyed s → IsKeyed (revoke_unknown b key s)
unknown-IsKeyed true key s k = k
unknown-IsKeyed false key s k = record { keyed = k.keyed }

revoke-IsKeyed : (key : String) (s : Approvals) → IsKeyed s → IsKeyed (revoke_human_approval key s)
unfolding revoke_human_approval
revoke-IsKeyed key s k =
    let s1 = revoke_latest (lookup key s.latest) key s in
    let s2 = revoke_issued (lookup key s1.issued) key s1 in
    unknown-IsKeyed (is_issued (lookup key s.latest) || is_issued (lookup key s1.issued)) key s2
      (issued-IsKeyed (lookup key s1.issued) key s1 (latest-IsKeyed (lookup key s.latest) key s k))

record_approval-IsKeyed :
    (a : HumanPurchaseApproval) (s : Approvals) → IsKeyed s → IsKeyed (record_approval a s)
unfolding record_approval
record_approval-IsKeyed a s k = record {
  keyed = λ id b h.
      ground (
        arith,
        h,
        k.keyed id b,
        lookup-insert a.approval_id id a s.issued,
        eq_iff a.approval_id id,
      );
}

-- The id of an approval that is not the hash of an intent with an approval.
revokes_id :
    (o : Option HumanPurchaseApproval) (id : String) (s : Approvals)
    → lookup id s.latest ≡ none
    → lookup id s.issued ≡ o
    → ((a : HumanPurchaseApproval) → o ≡ some a → a.approval_id ≡ id)
    → is_revoked id (revoke_human_approval id s) ≡ true
unfolding revoke_human_approval
revokes_id none id s other found own = rw other (rw found (ground (arith, eq_refl id)))
revokes_id (some a) id s other found own = rw other (rw found (simp (own a refl, eq_refl id)))

module _ (lib : Digests) (p : Limits) where
  abbrev pub run_call : ApprovalCall → Approvals → Approvals
  run_call (issuing uuid i operator notes ttl now) s =
      (issue_human_approval lib p uuid i operator notes ttl now s).1
  run_call (revoking key) s = revoke_human_approval key s

  run_call-IsKeyed : (c : ApprovalCall) (s : Approvals) → IsKeyed s → IsKeyed (run_call c s)
  unfolding issue_human_approval
  run_call-IsKeyed (issuing uuid i operator notes ttl now) s k = record_approval-IsKeyed _ s k
  run_call-IsKeyed (revoking key) s k = revoke-IsKeyed key s k

  unfoldable pub run_calls : List ApprovalCall → Approvals → Approvals
  run_calls [] s = s
  run_calls (c ∷ cs) s = run_calls cs (run_call c s)

  run_call-is_revoked :
      (c : ApprovalCall) (id : String) (s : Approvals)
      → is_revoked id s ≡ true
      → is_revoked id (run_call c s) ≡ true
  unfolding issue_human_approval record_approval
  run_call-is_revoked (issuing uuid i operator notes ttl now) id s h = h
  run_call-is_revoked (revoking key) id s h = revoke-is_revoked key id s h

  run_calls-is_revoked :
      (cs : List ApprovalCall) (id : String) (s : Approvals)
      → is_revoked id s ≡ true
      → is_revoked id (run_calls cs s) ≡ true
  unfolding run_calls
  run_calls-is_revoked [] id s h = h
  run_calls-is_revoked (c ∷ cs) id s h =
      run_calls-is_revoked cs id (run_call c s) (run_call-is_revoked c id s h)

  run_calls-IsKeyed :
      (cs : List ApprovalCall) (s : Approvals) → IsKeyed s → IsKeyed (run_calls cs s)
  unfolding run_calls
  run_calls-IsKeyed [] s k = k
  run_calls-IsKeyed (c ∷ cs) s k = run_calls-IsKeyed cs (run_call c s) (run_call-IsKeyed c s k)

  -- After any calls of `issue_human_approval` and `revoke_human_approval` on a new policy, and the
  -- revocation of an approval by its id, which is not the hash of an approved intent: whatever calls
  -- follow, no purchase above the autonomous ceiling is allowed with that approval, not even when it
  -- is issued again under the same id.
  pub revoked_for_good :
      (before later : List ApprovalCall) (a : HumanPurchaseApproval) (i : OrbioPurchaseIntent)
      (now : ℕ)
      → lookup a.approval_id (run_calls before no_approvals).latest ≡ none
      → p.autonomous_usdg_ceiling < i.usdg_in
      → let s = revoke_human_approval a.approval_id (run_calls before no_approvals) in
        (evaluate lib p (run_calls later s) i (some a) now).result ≢ allow
  revoked_for_good before later a i now other above allowed =
      let was = run_calls before no_approvals in
      let keyed = run_calls-IsKeyed before no_approvals no_approvals-IsKeyed in
      let revoked =
        run_calls-is_revoked later a.approval_id (revoke_human_approval a.approval_id was) (
          revokes_id (lookup a.approval_id was.issued) a.approval_id was other refl
            (keyed.keyed a.approval_id)) in
      let s = run_calls later (revoke_human_approval a.approval_id was) in
      let (b, same, confirms) =
        ((evaluate-Authorised lib p s i now (some a)).0 allowed).confirmed above in
      let not_revoked = confirms.not_revoked in cc (revoked, same, not_revoked)
