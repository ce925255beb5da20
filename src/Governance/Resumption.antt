-- ===== src/Governance/Resumption.antt =====
-- What unpauses an organisation.
use kalyx_mao_engine.Base.{
  String, true, false, ◌≡◌, refl, ap, Option, none, some, List, [], ◌∷◌, ◌&&◌, ◌⊎◌, inl, inr, arith,
  eq_iff, str_eq, ltb, if◌then◌else◌, length, Bool-cases,
}
use kalyx_mao_engine.Base.Dict.{Dict}
use kalyx_mao_engine.Base.Table.{find, upsert}
use kalyx_mao_engine.Governance.Admin.{
  Primitives, AdminApproval, ApprovalRow, Rejection, distinct, approvers, verify_and_consume_quorum,
}
use kalyx_mao_engine.Governance.Quorum.{Quorum, check_quorum-Quorum}
use kalyx_mao_engine.Governance.Replay.{accepted_none, is_accepted}
use kalyx_mao_engine.Governance.Breaker.{
  BreakerRow, Store, Refusal, ResumeCall, no_manager, few_approvers, few_records, malformed,
  identity_mismatch, governance_rejected, is_row, is_paused_state, is_paused, state_of, put_row,
  pause, parse_records, same_ids, resume_expected, set_normal, after_quorum, run_quorum,
  resume_parsed, resume,
}

-- The row that is written is the one found under its key, and no other row changes.
put_row-find :
    (tenant org : String) (new : BreakerRow) (rows : List BreakerRow)
    → is_paused_state (state_of (find (is_row tenant org) (put_row new rows))) ≡ (
        if is_row tenant org new
        then is_paused_state new.state
        else is_paused_state (state_of (find (is_row tenant org) rows)))
unfolding put_row upsert find
put_row-find tenant org new [] = ground arith
put_row-find tenant org new (r ∷ rows) = ground (
  arith,
  put_row-find tenant org new rows,
  eq_iff r.tenant_id new.tenant_id,
  eq_iff r.tenant_id tenant,
  eq_iff new.tenant_id tenant,
  eq_iff r.organisation_id new.organisation_id,
  eq_iff r.organisation_id org,
  eq_iff new.organisation_id org,
)

same_ids-eq : (xs ys : List String) → same_ids xs ys ≡ true → xs ≡ ys
unfolding same_ids
same_ids-eq [] [] h = refl
same_ids-eq [] (y ∷ ys) h = cc
same_ids-eq (x ∷ xs) [] h = cc
same_ids-eq (x ∷ xs) (y ∷ ys) h = ground (arith, h, eq_iff x y, same_ids-eq xs ys)

module _ (lib : Primitives) where
  -- What stands behind a resumption that is not refused: a quorum of two for this organisation.
  pub record Authorised (manager : Option String) (c : ResumeCall) (s : Store) : Type 0 where
    pub secret : String
    pub has_manager : manager ≡ some secret
    pub approvals : List AdminApproval
    pub parsed : parse_records c.approvals_data ≡ some approvals
    pub named : approvers approvals ≡ c.approver_ids
    pub quorum :
        Quorum lib secret s.approvals
          (resume_expected c.tenant_id c.organisation_id)
          c.now
          2
          approvals

  -- What `resume` does, in cases: it raises and leaves the tables, its quorum is refused and the
  -- tables are as they were, or a quorum stands behind it and the row is set to normal.
  data ResumeCase (manager : Option String) (c : ResumeCall) (s : Store)
      : Store × Option Refusal → Type 0 where
    refused :
        (s' : Store) (why : Refusal)
        → s'.breakers ≡ s.breakers
        → ResumeCase manager c s (s', some why)
    resumed :
        (s' : Store) (a : Authorised manager c s)
        → s'.breakers ≡ s.breakers
        → ResumeCase manager c s (set_normal c a.approvals s', none)

  run_quorum-Quorum :
      (secret : String) (c : ResumeCall) (l : List AdminApproval) (s : Store)
      → (run_quorum lib secret c l s).1 ≡ none
      → Quorum lib secret s.approvals (resume_expected c.tenant_id c.organisation_id) c.now 2 l
  unfolding verify_and_consume_quorum
  run_quorum-Quorum secret c l s h =
      check_quorum-Quorum lib secret s.approvals _ c.now 2 l
        (accepted_none _ c.now_str l s.approvals (ap is_accepted h))

  after_quorum-ResumeCase :
      (secret : String) (c : ResumeCall) (s : Store) (l : List AdminApproval) (o : Option Rejection)
      (rows : Dict ApprovalRow)
      → parse_records c.approvals_data ≡ some l
      → approvers l ≡ c.approver_ids
      → (o ≡ none
          → Quorum lib secret s.approvals (resume_expected c.tenant_id c.organisation_id) c.now 2 l)
      → ResumeCase (some secret) c s (after_quorum c l (record s { approvals = rows }) o)
  unfolding after_quorum
  after_quorum-ResumeCase secret c s l (some why) rows parsed named quorum =
      refused (record s { approvals = rows }) (governance_rejected why) refl
  after_quorum-ResumeCase secret c s l none rows parsed named quorum =
      resumed (record s { approvals = rows })
        (record {
          secret = secret;
          has_manager = refl;
          approvals = l;
          parsed = parsed;
          named = named;
          quorum = quorum refl;
        })
        refl

  resume_parsed-ResumeCase :
      (secret : String) (c : ResumeCall) (s : Store) (o : Option (List AdminApproval))
      → parse_records c.approvals_data ≡ o
      → ResumeCase (some secret) c s (resume_parsed lib secret c s o)
  unfolding resume_parsed
  resume_parsed-ResumeCase secret c s none parsed = refused s malformed refl
  resume_parsed-ResumeCase secret c s (some l) parsed =
      elim (Bool-cases (same_ids (approvers l) c.approver_ids)) [
        | inr other ↦ rw other (refused s identity_mismatch refl)
        | inl same ↦ rw same (
            after_quorum-ResumeCase secret c s l _ _ parsed (same_ids-eq _ _ same)
              (run_quorum-Quorum secret c l s))
      ]

  resume-ResumeCase :
      (manager : Option String) (c : ResumeCall) (s : Store)
      → ResumeCase manager c s (resume lib manager c s)
  unfolding resume
  resume-ResumeCase none c s = refused s no_manager refl
  resume-ResumeCase (some secret) c s = elim (Bool-cases (ltb (distinct c.approver_ids) 2)) [
    | inl few ↦ rw few (refused s few_approvers refl)
    | inr enough ↦ elim (Bool-cases (ltb (length c.approvals_data) 2)) [
      | inl few ↦ rw enough (rw few (refused s few_records refl))
      | inr many ↦ rw enough (rw many (resume_parsed-ResumeCase secret c s _ refl))
    ]
  ]

-- A pause stops the organisation that it names, and changes nothing for any other tenant or
-- organisation.
pub pause-is_paused :
    (s : Store) (t o operator reason uuid now_str tenant org : String)
    → is_paused (pause s t o operator reason uuid now_str).0 tenant org
      ≡ (if str_eq t tenant && str_eq o org then true else is_paused s tenant org)
unfolding pause is_paused
pause-is_paused s t o operator reason uuid now_str tenant org = put_row-find tenant org _ s.breakers

set_normal-is_paused :
    (c : ResumeCall) (l : List AdminApproval) (s : Store) (tenant org : String)
    → is_paused (set_normal c l s) tenant org ≡ (
        if str_eq c.tenant_id tenant && str_eq c.organisation_id org
        then false
        else is_paused s tenant org)
unfolding set_normal is_paused
set_normal-is_paused c l s tenant org = put_row-find tenant org _ s.breakers

same_breakers :
    (s s' : Store) (tenant org : String)
    → s'.breakers ≡ s.breakers
    → is_paused s' tenant org ≡ is_paused s tenant org
unfolding is_paused
same_breakers s s' tenant org e =
    ap (λ b. is_paused_state (state_of (find (is_row tenant org) b))) e

-- The operations of the breaker as calls, made in turn.
pub data Call : Type 0 where
  pausing : (tenant org operator reason uuid now_str : String) → Call
  resuming : ResumeCall → Call

module _ (lib : Primitives) (manager : Option String) where
  unfoldable pub run_one : Call → Store → Store
  run_one (pausing tenant org operator reason uuid now_str) s =
      (pause s tenant org operator reason uuid now_str).0
  run_one (resuming c) s = (resume lib manager c s).0

  unfoldable pub run_calls : List Call → Store → Store
  run_calls [] s = s
  run_calls (c ∷ cs) s = run_calls cs (run_one c s)

  -- The call resumes this organisation with a quorum behind it.
  abbrev pub Authorises : Call → Store → String → String → Type 0
  Authorises (pausing t o operator reason uuid now_str) s tenant org = ⊥
  Authorises (resuming c) s tenant org =
      (c.tenant_id ≡ tenant) × (c.organisation_id ≡ org) × Authorised lib manager c s

  -- One of the calls does, in the state in which it is made.
  abbrev pub AuthorisedIn : List Call → Store → String → String → Type 0
  AuthorisedIn [] s tenant org = ⊥
  AuthorisedIn (c ∷ cs) s tenant org =
      Authorises c s tenant org ⊎ AuthorisedIn cs (run_one c s) tenant org

  resumed_by :
      (c : ResumeCall) (s : Store) (tenant org : String) (r : Store × Option Refusal)
      → ResumeCase lib manager c s r
      → is_paused s tenant org ≡ true
      → is_paused r.0 tenant org ≡ false
      → Authorises (resuming c) s tenant org
  resumed_by c s tenant org _ (refused s' why e) h h' = cc (same_breakers s s' tenant org e)
  resumed_by c s tenant org _ (resumed s' a e) h h' =
      elim (Bool-cases (str_eq c.tenant_id tenant && str_eq c.organisation_id org)) [
        | inl same ↦ (
          ground (arith, same, eq_iff c.tenant_id tenant),
          ground (arith, same, eq_iff c.organisation_id org),
          a,
        )
        | inr other ↦ cc (
          simp other at (set_normal-is_paused c a.approvals s' tenant org),
          same_breakers s s' tenant org e,
        )
      ]

  one_call :
      (c : Call) (s : Store) (tenant org : String)
      → is_paused s tenant org ≡ true
      → is_paused (run_one c s) tenant org ≡ false
      → Authorises c s tenant org
  unfolding run_one
  one_call (pausing t o operator reason uuid now_str) s tenant org h h' =
      ground (arith, h, h', pause-is_paused s t o operator reason uuid now_str tenant org)
  one_call (resuming c) s tenant org h h' =
      resumed_by c s tenant org _ (resume-ResumeCase lib manager c s) h h'

  -- After any pauses and resumptions, made in any order for any organisations: if an organisation
  -- that was paused runs again, one of the calls resumed it with a quorum of at least two approvals
  -- of different approvers, each genuine, unexpired and unspent when that call was made.
  pub is_paused_until :
      (cs : List Call) (s : Store) (tenant org : String)
      → is_paused s tenant org ≡ true
      → is_paused (run_calls cs s) tenant org ≡ false
      → AuthorisedIn cs s tenant org
  unfolding run_calls
  is_paused_until [] s tenant org h h' = cc
  is_paused_until (c ∷ cs) s tenant org h h' =
      elim (Bool-cases (is_paused (run_one c s) tenant org)) [
        | inl still ↦ inr (is_paused_until cs (run_one c s) tenant org still h')
        | inr now ↦ inl (one_call c s tenant org h now)
      ]
