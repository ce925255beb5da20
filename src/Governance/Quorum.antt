-- ===== src/Governance/Quorum.antt =====
-- What an accepted quorum of administrators' approvals is.
use kalyx_mao_engine.Base.{
  ℕ, ◌≤◌, String, false, ◌≡◌, refl, none, List, [], ◌∷◌, inl, inr, arith, eq_iff, ltb, length,
  contains, Bool-cases,
}
use kalyx_mao_engine.Base.Dict.{Dict}
use kalyx_mao_engine.Governance.Admin.{
  Primitives, AdminApproval, ApprovalRow, Expected, canonical_string, payload_hash, distinct,
  is_spent, approvers, verify_single_approval, verify_each, check_quorum,
}

abbrev pub All {ℓ} : {A : Type ℓ} → (A → Type 0) → List A → Type 0
All P [] = Unit {0}
All P (x ∷ xs) = P x × All P xs

abbrev pub AllDistinct : List String → Type 0
AllDistinct [] = Unit {0}
AllDistinct (x ∷ xs) = (contains x xs ≡ false) × AllDistinct xs

distinct-le-length : (xs : List String) → distinct xs ≤ length xs
unfolding distinct
distinct-le-length [] = omega arith
distinct-le-length (x ∷ xs) = ground (arith, distinct-le-length xs)

-- `len(set(xs)) == len(xs)` says that nothing stands in the list twice.
pub distinct-AllDistinct : (xs : List String) → length xs ≤ distinct xs → AllDistinct xs
unfolding distinct
distinct-AllDistinct [] h = tt
distinct-AllDistinct (x ∷ xs) h = elim (Bool-cases (contains x xs)) [
  | inl again ↦ absurd (omega (arith, distinct-le-length xs, simp again at h))
  | inr new ↦ (new, distinct-AllDistinct xs (omega (arith, simp new at h)))
]

length-map : (l : List AdminApproval) → length (approvers l) ≡ length l
length-map [] = refl
length-map (a ∷ l) = omega (arith, length-map l)

module _ (lib : Primitives) (secret : String) (rows : Dict ApprovalRow) (e : Expected)
    (now : ℕ) where
  -- An approval that is signed, unexpired, unspent, and for what is expected.
  pub record Genuine (a : AdminApproval) : Type 0 where
    pub same_tenant : a.tenant_id ≡ e.tenant_id
    pub same_action : a.action_type ≡ e.action_type
    pub same_target : a.target_id ≡ e.target_id
    pub unexpired : now ≤ a.expires_at
    pub same_payload : a.payload_hash ≡ payload_hash lib e.payload
    pub signed : a.signature ≡ lib.hmac_sha256 secret (canonical_string lib a)
    pub unspent : is_spent a.approval_id rows ≡ false

  -- Enough approvals, of pairwise different approvers, each of them genuine.
  pub record Quorum (required : ℕ) (approvals : List AdminApproval) : Type 0 where
    pub enough : required ≤ length approvals
    pub different : AllDistinct (approvers approvals)
    pub genuine : All Genuine approvals

  -- An approval is accepted exactly when it is genuine.
  pub verify_single_approval-Genuine :
      (a : AdminApproval) → verify_single_approval lib secret rows e now a ≡ none → Genuine a
  unfolding verify_single_approval
  verify_single_approval-Genuine a h = ground (
    arith,
    h,
    eq_iff a.tenant_id e.tenant_id,
    eq_iff a.action_type e.action_type,
    eq_iff a.target_id e.target_id,
    eq_iff a.payload_hash (payload_hash lib e.payload),
    eq_iff a.signature (lib.hmac_sha256 secret (canonical_string lib a)),
  )

  pub Genuine-verify_single_approval :
      (a : AdminApproval) → Genuine a → verify_single_approval lib secret rows e now a ≡ none
  unfolding verify_single_approval
  Genuine-verify_single_approval a g = ground (
    arith,
    g,
    eq_iff a.tenant_id e.tenant_id,
    eq_iff a.action_type e.action_type,
    eq_iff a.target_id e.target_id,
    eq_iff a.payload_hash (payload_hash lib e.payload),
    eq_iff a.signature (lib.hmac_sha256 secret (canonical_string lib a)),
  )

  verify_each_head :
      (a : AdminApproval) (l : List AdminApproval)
      → verify_each lib secret rows e now (a ∷ l) ≡ none
      → (verify_single_approval lib secret rows e now a ≡ none)
        × (verify_each lib secret rows e now l ≡ none)
  unfolding verify_each
  verify_each_head a l h = ground (arith, h)

  verify_each-All :
      (l : List AdminApproval) → verify_each lib secret rows e now l ≡ none → All Genuine l
  verify_each-All [] h = tt
  verify_each-All (a ∷ l) h =
      let (first, rest) = verify_each_head a l h in
      (verify_single_approval-Genuine a first, verify_each-All l rest)

  -- The checks pass only for a quorum.
  pub check_quorum-Quorum :
      (required : ℕ) (l : List AdminApproval)
      → check_quorum lib secret rows l required e now ≡ none
      → Quorum required l
  unfolding check_quorum
  check_quorum-Quorum required l h = elim (Bool-cases (ltb (length l) required)) [
    | inl few ↦ cc (simp few at h)
    | inr enough ↦ elim (Bool-cases (ltb (distinct (approvers l)) (length l))) [
      | inl twice ↦ cc (simp (enough, twice) at h)
      | inr once ↦ record {
        enough = ground (arith, enough);
        different = distinct-AllDistinct (approvers l) (ground (arith, once, length-map l));
        genuine = verify_each-All l (simp (enough, once) at h);
      }
    ]
  ]
