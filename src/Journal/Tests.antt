-- ===== src/Journal/Tests.antt =====
-- The two journals at concrete inputs.
use kalyx_mao_engine.Base.{◌≤◌, String, ◌≡◌, ◌≢◌, refl, none, some, List, [], ◌∷◌}
use kalyx_mao_engine.Base.Dict.{insert, lookup}
use kalyx_mao_engine.Base.Outcome.{ok, err, token_already_consumed}
use kalyx_mao_engine.Journal.Token.{Consumption, consume, uses, consume_once}
use kalyx_mao_engine.Journal.Idempotency.{
  Journal, JournalRow, begin, succeed, failed, success_row, fail,
}
use kalyx_mao_engine.Journal.Finality.{
  JournalCall, beginning, failing, succeeding, run, never_begun_again,
}

abbrev row : String → Consumption
row nonce = record {
  nonce = nonce;
  org_id = "org";
  proposal_id = "prop";
  proposal_content_hash = "hash";
  decision_id = "dec";
  policy_version_hash = "version";
  token_fingerprint = "print";
  consumed_at = 0;
}

consume_twice : consume (row "a") (row "a" ∷ []) ≡ err token_already_consumed
unfolding consume
consume_twice = refl

uses_of_three : uses "a" [] (row "a" ∷ row "b" ∷ row "a" ∷ []) ≡ 1
unfolding uses consume
uses_of_three = refl

consume_once_example : uses "a" [] (row "a" ∷ row "b" ∷ row "a" ∷ []) ≤ 1
consume_once_example = consume_once "a" [] (row "a" ∷ row "b" ∷ row "a" ∷ [])

abbrev closed : JournalRow → Journal
closed r = insert "op" r []

abbrev broken : JournalRow
broken = record { fingerprint = "f"; state = failed; receipt_id = none }

succeed_returns : succeed "op" "f" "r" (closed broken) ≡ ok (closed (success_row "f" "r"))
unfolding succeed insert lookup
succeed_returns = refl

-- A failure reported late, another key, and a second success under the same content.
abbrev later : List JournalCall
later =
    failing "op" "f" ∷ beginning "other" "f" ∷ succeeding "op" "f" "r2" ∷ beginning "op" "g" ∷ []

never_begun_again_example : (begin "op" "f" (run later (closed (success_row "f" "r")))).0 ≢ ok none
never_begun_again_example =
    never_begun_again "op" "f" "r" "f" (closed broken) (closed (success_row "f" "r")) later
      succeed_returns

second_receipt : (begin "op" "f" (run later (closed (success_row "f" "r")))).0 ≡ ok (some "r2")
unfolding run begin succeed fail insert lookup
second_receipt = refl
