-- ===== src/Journal/Idempotency.antt =====
-- `SQLiteIdempotencyJournal` (src/security/idempotency.py): the table `idempotency_operations`,
-- whose primary key is the operation key. The columns `created_at` and `updated_at`, which no
-- method reads, are left out.
use kalyx_mao_engine.Base.{
  String, ◌≡◌, false, Option, none, some, ◌||◌, arith, str_eq, eq_iff, eq_refl, is_empty,
  Bool-cases, inl, inr, Option-cases, ap, if◌then◌else◌,
}
use kalyx_mao_engine.Base.Dict.{Dict, lookup, insert, lookup-insert}
use kalyx_mao_engine.Base.Outcome.{
  Result, ok, err, missing_argument, idempotency_conflict, idempotency_in_progress,
}

pub data JournalState : Type 0 where
  started succeeded failed : JournalState

pub record JournalRow : Type 0 where
  pub fingerprint : String
  pub state : JournalState
  pub receipt_id : Option String

abbrev pub Journal : Type 0
Journal = Dict JournalRow

abbrev pub new_row : String → JournalRow
new_row fingerprint = record { fingerprint = fingerprint; state = started; receipt_id = none }

-- After the insertion met the primary key.
abbrev pub resolve : JournalState → Option String → Result (Option String)
resolve succeeded receipt = ok receipt
resolve started receipt = err idempotency_in_progress
resolve failed receipt = ok none

abbrev pub begin_on :
    Option JournalRow → String → String → Journal → Result (Option String) × Journal
begin_on none key fingerprint j = (ok none, insert key (new_row fingerprint) j)
begin_on (some row) key fingerprint j =
    if str_eq row.fingerprint fingerprint
    then (resolve row.state row.receipt_id, j)
    else (err idempotency_conflict, j)

-- `begin` returns the id of an earlier receipt, or `none`: the caller is to do the work.
unfoldable pub begin : String → String → Journal → Result (Option String) × Journal
begin key fingerprint j =
    if is_empty key || is_empty fingerprint
    then (err missing_argument, j)
    else begin_on (lookup key j) key fingerprint j

abbrev pub succeed_on : Option JournalRow → String → String → String → Journal → Result Journal
succeed_on none key fingerprint receipt j = err idempotency_conflict
succeed_on (some row) key fingerprint receipt j =
    if str_eq row.fingerprint fingerprint
    then ok (insert key (record row { state = succeeded; receipt_id = some receipt }) j)
    else err idempotency_conflict

unfoldable pub succeed : String → String → String → Journal → Result Journal
succeed key fingerprint receipt j =
    if is_empty receipt
    then err missing_argument
    else succeed_on (lookup key j) key fingerprint receipt j

abbrev pub fail_row : JournalState → String → JournalRow → Journal → Journal
fail_row succeeded key row j = j
fail_row _ key row j = insert key (record row { state = failed }) j

abbrev pub fail_on : Option JournalRow → String → String → Journal → Result Journal
fail_on none key fingerprint j = err idempotency_conflict
fail_on (some row) key fingerprint j =
    if str_eq row.fingerprint fingerprint
    then ok (fail_row row.state key row j)
    else err idempotency_conflict

unfoldable pub fail : String → String → Journal → Result Journal
fail key fingerprint j = fail_on (lookup key j) key fingerprint j

-- `begin` on a key whose row is known.
begin_found :
    (key fingerprint : String) (j : Journal) (o : Option JournalRow)
    → is_empty key ≡ false
    → is_empty fingerprint ≡ false
    → lookup key j ≡ o
    → begin key fingerprint j ≡ begin_on o key fingerprint j
unfolding begin
begin_found key fingerprint j o k f found = simp (k, f, found)

-- Whoever begins a new key owns it: until the owner reports, each further `begin` with the key
-- raises, `IdempotencyInProgress` for the same content and `IdempotencyConflict` for other content.
pub begin_exclusive :
    (key fingerprint other : String) (j : Journal)
    → is_empty key ≡ false
    → is_empty fingerprint ≡ false
    → is_empty other ≡ false
    → lookup key j ≡ none
    → ((begin key fingerprint j).0 ≡ ok none)
      × ((begin key other (begin key fingerprint j).1).0
          ≡ err
              (if str_eq fingerprint other then idempotency_in_progress else idempotency_conflict))
begin_exclusive key fingerprint other j k f o new =
    let owned = begin_found key fingerprint j none k f new in
    (
      ap (λ (r : Result (Option String) × Journal). r.0) owned,
      rw owned (
          rw
            (begin_found key other (insert key (new_row fingerprint) j) (some (new_row fingerprint))
              k o (simp (lookup-insert, eq_refl)))
            (elim (Bool-cases (str_eq fingerprint other)) [
              | inl same ↦ simp same
              | inr differs ↦ simp differs
            ])),
    )

abbrev pub success_row : String → String → JournalRow
success_row fingerprint receipt = record {
  fingerprint = fingerprint;
  state = succeeded;
  receipt_id = some receipt;
}

pub lookup-succeed :
    (key fingerprint receipt : String) (j : Journal) {done : Journal}
    → succeed key fingerprint receipt j ≡ ok done
    → lookup key done ≡ some (success_row fingerprint receipt)
unfolding succeed
lookup-succeed key fingerprint receipt j {done} h = elim (Option-cases (lookup key j)) [
  | inl unknown ↦ ground (arith, unknown, h)
  | inr (row, found) ↦ ground (
    arith,
    found,
    h,
    eq_refl key,
    eq_iff row.fingerprint fingerprint,
    lookup-insert key key (success_row fingerprint receipt) j,
  )
]

-- What succeeded stays so, with its receipt: neither `fail`, nor `begin` with any content, changes
-- the journal, and `begin` with its content returns the receipt.
pub success_is_final :
    (key fingerprint receipt other : String) (j : Journal) {done : Journal}
    → is_empty key ≡ false
    → is_empty fingerprint ≡ false
    → succeed key fingerprint receipt j ≡ ok done
    → (begin key fingerprint done ≡ (ok (some receipt), done))
      × ((begin key other done).1 ≡ done)
      × ((after : Journal) → fail key other done ≡ ok after → after ≡ done)
unfolding begin fail
success_is_final key fingerprint receipt other j k f h =
    let found = lookup-succeed key fingerprint receipt j h in
    (simp (k, f, found, eq_refl), ground (arith, found), λ after. ground (arith, found))
