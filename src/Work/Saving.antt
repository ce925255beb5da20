-- ===== src/Work/Saving.antt =====
-- What is read after a save, and what a receipt says.
use kalyx_mao_engine.Base.{
  String, Bool, true, false, ◌≡◌, refl, ◌∙◌, ap, Option, none, some, List, ◌&&◌, inl, inr, arith,
  str_eq, eq_iff, eq_refl, if◌then◌else◌, Bool-cases,
}
use kalyx_mao_engine.Base.Table.{find, upserted, find-upsert, find-upsert-other}
use kalyx_mao_engine.Work.Repository.{Scoped, is_key, save_row, get_row, held_by}

-- What a save leaves under the key.
abbrev pub merged {ℓ} : {A : Type ℓ} → (A → A → A) → A → Option A → A
merged merge new none = new
merged merge new (some old) = merge new old

module _ {ℓ} {A : Type ℓ} (key : A → String) (merge : A → A → A)
    (keeps : (new old : A) → key (merge new old) ≡ key old) where
  held-upserted :
      (tenant org : String) (new : A) (found : Option (Scoped A))
      → (upserted
          (record { tenant_id = tenant; organisation_id = org; held = new })
          (λ r. record r { held = merge new r.held })
          found).held
        ≡ merged merge new (held_by found)
  held-upserted tenant org new none = refl
  held-upserted tenant org new (some r) = refl

  held_by-some : (o : Option (Scoped A)) (r : Scoped A) → o ≡ some r → held_by o ≡ some r.held
  held_by-some o r h = ap held_by h

  read_own :
      (tenant org : String) (new : A) (rows : List (Scoped A))
      → get_row key tenant org (key new) (save_row key merge tenant org new rows)
        ≡ some (merged merge new (get_row key tenant org (key new) rows))
  unfolding get_row save_row
  read_own tenant org new rows =
      let row : Scoped A = record { tenant_id = tenant; organisation_id = org; held = new } in
      let test : Scoped A → Bool = is_key key tenant org (key new) in
      held_by-some _ _ (
        find-upsert test row (λ r. record r { held = merge new r.held })
          (simp (eq_refl tenant, eq_refl org, eq_refl (key new))) (λ r h. simp (keeps new r.held) h)
          rows)
      ∙ ap some (held-upserted tenant org new (find test rows))

  read_other :
      (tenant org : String) (new : A) (t o i : String) (rows : List (Scoped A))
      → (str_eq tenant t && str_eq org o && str_eq (key new) i) ≡ false
      → get_row key t o i (save_row key merge tenant org new rows) ≡ get_row key t o i rows
  unfolding get_row save_row
  read_other tenant org new t o i rows apart =
      let row : Scoped A = record { tenant_id = tenant; organisation_id = org; held = new } in
      ap held_by (
        find-upsert-other (is_key key tenant org (key new)) row
          (λ r. record r { held = merge new r.held }) (is_key key t o i) apart (λ r h. not_both r h)
          (λ r h. simp (keeps new r.held) (not_both r h)) rows)
    where
      not_both :
          (r : Scoped A) → is_key key tenant org (key new) r ≡ true → is_key key t o i r ≡ false
      not_both r h = ground (
        arith,
        h,
        apart,
        eq_iff r.tenant_id tenant,
        eq_iff r.organisation_id org,
        eq_iff (key r.held) (key new),
      )

  -- A save is read back in its own scope and under its own key, merged with what stood there; what
  -- is read in another scope or under another key does not change.
  pub get_row-save_row :
      (tenant org : String) (new : A) (t o i : String) (rows : List (Scoped A))
      → get_row key t o i (save_row key merge tenant org new rows) ≡ (
          if str_eq tenant t && str_eq org o && str_eq (key new) i
          then some (merged merge new (get_row key tenant org (key new) rows))
          else get_row key t o i rows)
  get_row-save_row tenant org new t o i rows =
      elim (Bool-cases (str_eq tenant t && str_eq org o && str_eq (key new) i)) [
        | inr other ↦ rw other (read_other tenant org new t o i rows other)
        | inl same ↦
            let et : tenant ≡ t = ground (arith, same, eq_iff tenant t) in
            let eo : org ≡ o = ground (arith, same, eq_iff org o) in
            let ei : key new ≡ i = ground (arith, same, eq_iff (key new) i) in
            rw same (rw (← et) (rw (← eo) (rw (← ei) (read_own tenant org new rows))))
      ]
