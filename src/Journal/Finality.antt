-- ===== src/Journal/Finality.antt =====
-- The idempotency journal over any calls of its methods.
use kalyx_mao_engine.Base.{
  String, Bool, true, false, ◌≡◌, ◌≢◌, refl, Option, none, some, List, [], ◌∷◌, arith, str_eq,
  eq_iff, is_empty, ◌||◌, Bool-cases, inl, inr,
}
use kalyx_mao_engine.Base.Dict.{lookup, insert, lookup-insert}
use kalyx_mao_engine.Base.Outcome.{Result, ok, err}
use kalyx_mao_engine.Journal.Idempotency.{
  Journal, JournalRow, JournalState, started, succeeded, failed, new_row, resolve, begin, begin_on,
  succeed, succeed_on, fail, fail_on, fail_row, lookup-succeed,
}

pub data JournalCall : Type 0 where
  beginning failing : (key fingerprint : String) → JournalCall
  succeeding : (key fingerprint receipt : String) → JournalCall

-- A call that raises leaves the table as it was.
abbrev written : Journal → Result Journal → Journal
written j (ok done) = done
written j (err e) = j

abbrev pub apply : JournalCall → Journal → Journal
apply (beginning key fingerprint) j = (begin key fingerprint j).1
apply (failing key fingerprint) j = written j (fail key fingerprint j)
apply (succeeding key fingerprint receipt) j = written j (succeed key fingerprint receipt j)

unfoldable pub run : List JournalCall → Journal → Journal
run [] j = j
run (c ∷ cs) j = run cs (apply c j)

abbrev is_done : JournalState → Option String → Bool
is_done succeeded (some receipt) = true
is_done succeeded none = false
is_done started receipt = false
is_done failed receipt = false

-- The row has succeeded, with a receipt.
abbrev has_succeeded : Option JournalRow → Bool
has_succeeded none = false
has_succeeded (some row) = is_done row.state row.receipt_id

-- A row may be written where it has succeeded, or under another key.
insert-has_succeeded :
    (k key : String) (row : JournalRow) (j : Journal)
    → (k ≡ key → is_done row.state row.receipt_id ≡ true)
    → has_succeeded (lookup key j) ≡ true
    → has_succeeded (lookup key (insert k row j)) ≡ true
insert-has_succeeded k key row j allowed h = elim (Bool-cases (str_eq k key)) [
  | inl same ↦
      let eq : k ≡ key = ground (arith, same, eq_iff k key) in
      rw (lookup-insert k key row j) (rw same (allowed eq))
  | inr other ↦ rw (lookup-insert k key row j) (rw other h)
]

module _ (k key : String) (j : Journal) (done : has_succeeded (lookup key j) ≡ true) where
  at_key : (o : Option JournalRow) → k ≡ key → lookup k j ≡ o → has_succeeded o ≡ true
  at_key o eq found =
      let here : has_succeeded (lookup k j) ≡ true = rw eq done in (rw found at here)

  begin_on-has_succeeded :
      (o : Option JournalRow) (f : String)
      → lookup k j ≡ o
      → has_succeeded (lookup key (begin_on o k f j).1) ≡ true
  begin_on-has_succeeded none f new =
      insert-has_succeeded k key (new_row f) j (λ eq. at_key none eq new) done
  begin_on-has_succeeded (some row) f found = elim (Bool-cases (str_eq row.fingerprint f)) [
    | inl same ↦ rw same done
    | inr other ↦ rw other done
  ]

  succeed_on-has_succeeded :
      (o : Option JournalRow) (f r : String)
      → has_succeeded (lookup key (written j (succeed_on o k f r j))) ≡ true
  succeed_on-has_succeeded none f r = done
  succeed_on-has_succeeded (some row) f r = elim (Bool-cases (str_eq row.fingerprint f)) [
    | inl same ↦ rw same (insert-has_succeeded k key _ j (λ eq. refl) done)
    | inr other ↦ rw other done
  ]

  fail_row-has_succeeded :
      (s : JournalState) (row : JournalRow)
      → row.state ≡ s
      → lookup k j ≡ some row
      → has_succeeded (lookup key (fail_row s k row j)) ≡ true
  fail_row-has_succeeded succeeded row state found = done
  fail_row-has_succeeded started row state found =
      insert-has_succeeded k key _ j (λ eq. rw state at (at_key (some row) eq found)) done
  fail_row-has_succeeded failed row state found =
      insert-has_succeeded k key _ j (λ eq. rw state at (at_key (some row) eq found)) done

  fail_on-has_succeeded :
      (o : Option JournalRow) (f : String)
      → lookup k j ≡ o
      → has_succeeded (lookup key (written j (fail_on o k f j))) ≡ true
  fail_on-has_succeeded none f found = done
  fail_on-has_succeeded (some row) f found = elim (Bool-cases (str_eq row.fingerprint f)) [
    | inl same ↦ rw same (fail_row-has_succeeded row.state row refl found)
    | inr other ↦ rw other done
  ]

begin-has_succeeded :
    (k f key : String) (j : Journal)
    → has_succeeded (lookup key j) ≡ true
    → has_succeeded (lookup key (begin k f j).1) ≡ true
unfolding begin
begin-has_succeeded k f key j done = elim (Bool-cases (is_empty k || is_empty f)) [
  | inl missing ↦ rw missing done
  | inr given ↦ rw given (begin_on-has_succeeded k key j done (lookup k j) f refl)
]

succeed-has_succeeded :
    (k f r key : String) (j : Journal)
    → has_succeeded (lookup key j) ≡ true
    → has_succeeded (lookup key (written j (succeed k f r j))) ≡ true
unfolding succeed
succeed-has_succeeded k f r key j done = elim (Bool-cases (is_empty r)) [
  | inl missing ↦ rw missing done
  | inr given ↦ rw given (succeed_on-has_succeeded k key j done (lookup k j) f r)
]

apply-has_succeeded :
    (c : JournalCall) (key : String) (j : Journal)
    → has_succeeded (lookup key j) ≡ true
    → has_succeeded (lookup key (apply c j)) ≡ true
unfolding fail
apply-has_succeeded (beginning k f) key j done = begin-has_succeeded k f key j done
apply-has_succeeded (failing k f) key j done =
    fail_on-has_succeeded k key j done (lookup k j) f refl
apply-has_succeeded (succeeding k f r) key j done = succeed-has_succeeded k f r key j done

run-has_succeeded :
    (cs : List JournalCall) (key : String) (j : Journal)
    → has_succeeded (lookup key j) ≡ true
    → has_succeeded (lookup key (run cs j)) ≡ true
unfolding run
run-has_succeeded [] key j done = done
run-has_succeeded (c ∷ cs) key j done =
    run-has_succeeded cs key (apply c j) (apply-has_succeeded c key j done)

resolve-refuses :
    (s : JournalState) (receipt : Option String)
    → is_done s receipt ≡ true
    → resolve s receipt ≢ ok none
resolve-refuses succeeded (some receipt) done returned = cc
resolve-refuses succeeded none done returned = cc
resolve-refuses started receipt done returned = cc
resolve-refuses failed receipt done returned = cc

begin_on-refuses :
    (o : Option JournalRow) (key fingerprint : String) (j : Journal)
    → has_succeeded o ≡ true
    → (begin_on o key fingerprint j).0 ≢ ok none
begin_on-refuses none key fingerprint j done returned = cc
begin_on-refuses (some row) key fingerprint j done returned =
    elim (Bool-cases (str_eq row.fingerprint fingerprint)) [
      | inl same ↦ resolve-refuses row.state row.receipt_id done (rw same at returned)
      | inr other ↦ cc (rw other at returned)
    ]

-- Once `succeed` has returned for a key, no later `begin` of the key, with any fingerprint and
-- whatever calls of `begin`, `succeed` and `fail` come between, returns None: no caller is told to do
-- the work again.
pub never_begun_again :
    (key fingerprint receipt other : String) (j done : Journal) (cs : List JournalCall)
    → succeed key fingerprint receipt j ≡ ok done
    → (begin key other (run cs done)).0 ≢ ok none
unfolding begin
never_begun_again key fingerprint receipt other j done cs h returned =
    let kept =
      run-has_succeeded cs key done (rw (lookup-succeed key fingerprint receipt j h) refl) in
    elim (Bool-cases (is_empty key || is_empty other)) [
      | inl missing ↦ cc (rw missing at returned)
      | inr given ↦
          begin_on-refuses (lookup key (run cs done)) key other (run cs done) kept
            (rw given at returned)
    ]
