-- ===== src/Base/Table.antt =====
-- SQL tables as lists of rows: a statement's WHERE clause is a test on a row.
use mathlib.Core.Path.{◌≡◌, refl}
use mathlib.Core.Bool.{Bool, true, false}
use mathlib.Core.Logic.{inl, inr}
use mathlib.Core.Option.{Option, none, some}
use mathlib.Core.List.{List, [], ◌∷◌}
use native.Mathlib.Omega.{arith}
use kalyx_mao_engine.Base.Tests.{if◌then◌else◌, Bool-cases}
use kalyx_mao_engine.Base.Lists.{any}

module _ {ℓ} {A : Type ℓ} where
  -- `SELECT … WHERE test` and `fetchone`
  unfoldable pub find : (A → Bool) → List A → Option A
  find test [] = none
  find test (r ∷ rows) = if test r then some r else find test rows

  -- `SELECT … WHERE test` and `fetchall`
  unfoldable pub select : (A → Bool) → List A → List A
  select test [] = []
  select test (r ∷ rows) = let rest = select test rows in if test r then r ∷ rest else rest

  -- `UPDATE … SET change WHERE test`
  unfoldable pub update : (A → Bool) → (A → A) → List A → List A
  update test change [] = []
  update test change (r ∷ rows) = (if test r then change r else r) ∷ update test change rows

  -- `INSERT … ON CONFLICT DO UPDATE SET change`, where `test` says which row has the new row's key
  unfoldable pub upsert : (A → Bool) → A → (A → A) → List A → List A
  upsert test new change [] = new ∷ []
  upsert test new change (r ∷ rows) =
      let rest = upsert test new change rows in if test r then change r ∷ rows else r ∷ rest

  -- The row that stands under the key after an upsert.
  abbrev pub upserted : A → (A → A) → Option A → A
  upserted new change none = new
  upserted new change (some r) = change r

  module _ (test : A → Bool) (new : A) (change : A → A) where
    pub find-upsert :
        test new ≡ true
        → ((r : A) → test r ≡ true → test (change r) ≡ true)
        → (rows : List A)
        → find test (upsert test new change rows) ≡ some (upserted new change (find test rows))
    unfolding find upsert
    find-upsert fits keeps [] = ground (arith, fits)
    find-upsert fits keeps (r ∷ rows) = ground (arith, keeps r, find-upsert fits keeps rows)

    -- A row under another key is found as before.
    pub find-upsert-other :
        (other : A → Bool)
        → other new ≡ false
        → ((r : A) → test r ≡ true → other r ≡ false)
        → ((r : A) → test r ≡ true → other (change r) ≡ false)
        → (rows : List A) → find other (upsert test new change rows) ≡ find other rows
    unfolding find upsert
    find-upsert-other other apart before after [] = ground (arith, apart)
    find-upsert-other other apart before after (r ∷ rows) =
        ground (arith, before r, after r, find-upsert-other other apart before after rows)

  module _ (test : A → Bool) (change : A → A) where
    -- What a test finds after an update whose change it does not see.
    pub find-update :
        (other : A → Bool)
        → ((r : A) → other (change r) ≡ other r)
        → (rows : List A)
        → find other (update test change rows)
          ≡ elim (find other rows) [ none ↦ none | some r ↦ some (if test r then change r else r) ]
    unfolding find update
    find-update other blind [] = refl
    find-update other blind (r ∷ rows) = ground (arith, blind r, find-update other blind rows)

  -- What a test sees of the rows after an update, row by row.
  pub any-update :
      (p q test : A → Bool) (change : A → A)
      → ((r : A) → test r ≡ true → p (change r) ≡ q r)
      → ((r : A) → test r ≡ false → p r ≡ q r)
      → (rows : List A) → any p (update test change rows) ≡ any q rows
  unfolding update
  any-update p q test change changed kept [] = refl
  any-update p q test change changed kept (r ∷ rows) =
      ground (arith, changed r, kept r, any-update p q test change changed kept rows)

  pub any-false : (rows : List A) → any (λ r. false) rows ≡ false
  any-false [] = refl
  any-false (r ∷ rows) = any-false rows

  pub find-any :
      (p : A → Bool) (rows : List A) → any p rows ≡ true → (r : A) × (find p rows ≡ some r)
  unfolding find
  find-any p [] h = cc
  find-any p (r ∷ rows) h = elim (Bool-cases (p r)) [
    | inl here ↦ (r, simp here)
    | inr other ↦ simp other (find-any p rows (simp other at h))
  ]

  pub find-test : (p : A → Bool) (rows : List A) (r : A) → find p rows ≡ some r → p r ≡ true
  unfolding find
  find-test p [] r h = cc
  find-test p (x ∷ rows) r h = ground (arith, h, find-test p rows r)

  pub any-congr :
      (p q : A → Bool) → ((r : A) → p r ≡ q r) → (rows : List A) → any p rows ≡ any q rows
  any-congr p q same [] = refl
  any-congr p q same (r ∷ rows) = ground (arith, same r, any-congr p q same rows)

  pub any_mono :
      (p q : A → Bool)
      → ((r : A) → p r ≡ true → q r ≡ true)
      → (rows : List A) → any p rows ≡ true
      → any q rows ≡ true
  any_mono p q weaker [] h = cc
  any_mono p q weaker (r ∷ rows) h = ground (arith, h, weaker r, any_mono p q weaker rows)
