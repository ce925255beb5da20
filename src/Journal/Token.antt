-- ===== src/Journal/Token.antt =====
-- `AuthorizationTokenJournal` (src/security/token_consumption.py): the table
-- `authorization_token_consumptions`, whose primary key is the nonce. The insertion is the
-- synchronisation: it fails on a nonce that stands in the table.
use kalyx_mao_engine.Base.{
  ℕ, suc, ◌≤◌, String, ◌≡◌, refl, true, false, Bool, List, [], ◌∷◌, ◌&&◌, arith, str_eq, eq_iff,
  is_empty, any, if◌then◌else◌,
}
use kalyx_mao_engine.Base.Outcome.{
  Result, ok, err, ◌>>◌, raise_if, missing_argument, token_already_consumed,
}

pub record Consumption : Type 0 where
  pub nonce : String
  pub org_id : String
  pub proposal_id : String
  pub proposal_content_hash : String
  pub decision_id : String
  pub policy_version_hash : String
  pub token_fingerprint : String
  pub consumed_at : ℕ

abbrev pub Consumptions : Type 0
Consumptions = List Consumption

abbrev pub is_consumed : String → Consumptions → Bool
is_consumed nonce = any (λ c. str_eq nonce c.nonce)

unfoldable pub consume : Consumption → Consumptions → Result Consumptions
consume c rows = do
  raise_if (is_empty c.nonce) missing_argument
  raise_if (is_consumed c.nonce rows) token_already_consumed
  ok (c ∷ rows)

-- How many of the calls, made in turn, return for this nonce; a call that raises writes nothing.
abbrev next : Consumptions → Result Consumptions → Consumptions
next rows (ok rows') = rows'
next rows (err x) = rows

abbrev is_ok : Result Consumptions → Bool
is_ok (ok rows) = true
is_ok (err x) = false

unfoldable pub uses : String → Consumptions → List Consumption → ℕ
uses nonce rows [] = 0
uses nonce rows (c ∷ cs) =
    let later = uses nonce (next rows (consume c rows)) cs in
    if str_eq nonce c.nonce && is_ok (consume c rows) then suc later else later

uses_of_consumed :
    (nonce : String) (rows : Consumptions) (cs : List Consumption)
    → is_consumed nonce rows ≡ true
    → uses nonce rows cs ≡ 0
unfolding uses consume
uses_of_consumed nonce rows [] h = refl
uses_of_consumed nonce rows (c ∷ cs) h = ground (
  arith,
  h,
  eq_iff nonce c.nonce,
  uses_of_consumed nonce rows cs h,
  uses_of_consumed nonce (c ∷ rows) cs,
)

-- Of any calls of `consume`, in any order and by any callers, at most one returns for a nonce.
pub consume_once :
    (nonce : String) (rows : Consumptions) (cs : List Consumption) → uses nonce rows cs ≤ 1
unfolding uses consume
consume_once nonce rows [] = omega arith
consume_once nonce rows (c ∷ cs) = ground (
  arith,
  eq_iff nonce c.nonce,
  consume_once nonce rows cs,
  consume_once nonce (c ∷ rows) cs,
  uses_of_consumed nonce (c ∷ rows) cs,
)
