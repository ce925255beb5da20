-- ===== src/SqlLedger/Conservation.antt =====
-- What `verify_conservation` of the SQL ledger finds out.
use kalyx_mao_engine.Base.{
  String, false, ◌≡◌, refl, ◌∙◌, List, [], ◌∷◌, ◌||◌, not, contains, arith, str_eq, eq_iff, eq_refl,
  if◌then◌else◌, inl, inr, Bool-cases,
}
use kalyx_mao_engine.Base.Int.{ℤ, pos, ◌+ℤ◌, ◌-ℤ◌, eqb_ℤ, parts, int_laws, +ℤ_parts, -ℤ_parts}
use kalyx_mao_engine.Ledger.{system_mint}
use kalyx_mao_engine.SqlLedger.{
  Rows, sum_to, sum_from, add_account, accounts, sum_over, verify_conservation,
}

-- No account is listed twice.
abbrev Distinct : List String → Type 0
Distinct [] = Unit {0}
Distinct (a ∷ l) = (contains a l ≡ false) × Distinct l

add_account-Distinct : (a : String) (l : List String) → Distinct l → Distinct (add_account a l)
add_account-Distinct a l d = elim (Bool-cases (str_eq a system_mint || contains a l)) [
  | inl listed ↦ rw listed d
  | inr new ↦ rw new (ground (arith, new), d)
]

accounts-Distinct : (rows : Rows) → Distinct (accounts rows)
unfolding accounts
accounts-Distinct [] = tt
accounts-Distinct (e ∷ es) =
    add_account-Distinct e.from_account _
      (add_account-Distinct e.to_account (accounts es) (accounts-Distinct es))

sum_over-zero : (l : List String) → sum_over (λ a. pos 0) l ≡ pos 0
unfolding sum_over
sum_over-zero [] = refl
sum_over-zero (a ∷ l) = omega (int_laws, parts (sum_over-zero l))

sum_over-add :
    (f g : String → ℤ) (l : List String)
    → sum_over (λ a. f a +ℤ g a) l ≡ sum_over f l +ℤ sum_over g l
unfolding sum_over
sum_over-add f g [] = omega int_laws
sum_over-add f g (a ∷ l) = omega (int_laws, parts (sum_over-add f g l))

sum_over-sub :
    (f g : String → ℤ) (l : List String)
    → sum_over (λ a. f a -ℤ g a) l ≡ sum_over f l -ℤ sum_over g l
unfolding sum_over
sum_over-sub f g [] = omega int_laws
sum_over-sub f g (a ∷ l) = omega (int_laws, parts (sum_over-sub f g l))

-- An amount that goes to one account counts once, if the account is listed.
sum_over-at :
    (t : String) (n : ℤ) (l : List String)
    → Distinct l
    → sum_over (λ a. if str_eq t a then n else pos 0) l ≡ (if contains t l then n else pos 0)
unfolding sum_over
sum_over-at t n [] d = refl
sum_over-at t n (a ∷ l) (new, d) = elim (Bool-cases (str_eq t a)) [
  | inl here ↦
      let same : t ≡ a = ground (arith, here, eq_iff t a) in
      let gone : contains t l ≡ false = rw same new in
      let rest : sum_over (λ b. if str_eq t b then n else pos 0) l ≡ pos 0 =
        sum_over-at t n l d ∙ simp gone in
      rw here (omega (int_laws, parts rest))
  | inr other ↦ rw other (omega (int_laws, parts (sum_over-at t n l d)))
]

-- The amounts that come to the listed accounts, and those that leave them.
in_sum : List String → Rows → ℤ
in_sum l [] = pos 0
in_sum l (e ∷ es) = (if contains e.to_account l then e.amount else pos 0) +ℤ in_sum l es

out_sum : List String → Rows → ℤ
out_sum l [] = pos 0
out_sum l (e ∷ es) = (if contains e.from_account l then e.amount else pos 0) +ℤ out_sum l es

sum_over-sum_to :
    (l : List String) (rows : Rows) → Distinct l → sum_over (λ a. sum_to a rows) l ≡ in_sum l rows
unfolding sum_to in_sum
sum_over-sum_to l [] d = sum_over-zero l
sum_over-sum_to l (e ∷ es) d =
    sum_over-add (λ a. if str_eq e.to_account a then e.amount else pos 0) (λ a. sum_to a es) l
    ∙ omega
        (int_laws, parts (sum_over-at e.to_account e.amount l d), parts (sum_over-sum_to l es d))

sum_over-sum_from :
    (l : List String) (rows : Rows)
    → Distinct l
    → sum_over (λ a. sum_from a rows) l ≡ out_sum l rows
unfolding sum_from out_sum
sum_over-sum_from l [] d = sum_over-zero l
sum_over-sum_from l (e ∷ es) d =
    sum_over-add (λ a. if str_eq e.from_account a then e.amount else pos 0) (λ a. sum_from a es) l
    ∙ omega (
      int_laws,
      parts (sum_over-at e.from_account e.amount l d),
      parts (sum_over-sum_from l es d),
    )

-- The accounts of the rows are listed, the mint's is not.
abbrev IsListed : List String → String → Type 0
IsListed l a = contains a l ≡ not (str_eq a system_mint)

abbrev Covers : List String → Rows → Type 0
Covers l [] = Unit {0}
Covers l (e ∷ es) = IsListed l e.from_account × IsListed l e.to_account × Covers l es

add_account-IsListed :
    (a : String) (l : List String) → contains system_mint l ≡ false → IsListed (add_account a l) a
add_account-IsListed a l h = elim (Bool-cases (str_eq a system_mint)) [
  | inl mint ↦ let same : a ≡ system_mint = ground (arith, mint, eq_iff a system_mint) in rw same h
  | inr other ↦ elim (Bool-cases (contains a l)) [
    | inl listed ↦ simp (other, listed)
    | inr new ↦ simp (other, new, eq_refl a)
  ]
]

add_account-keeps : (a b : String) (l : List String) → IsListed l b → IsListed (add_account a l) b
add_account-keeps a b l h = ground (arith, h, eq_iff b a)

add_account-unminted :
    (a : String) (l : List String)
    → contains system_mint l ≡ false
    → contains system_mint (add_account a l) ≡ false
add_account-unminted a l h = ground (arith, h, eq_iff a system_mint, eq_iff system_mint a)

add_account-Covers :
    (a : String) (l : List String) (rows : Rows) → Covers l rows → Covers (add_account a l) rows
add_account-Covers a l [] c = tt
add_account-Covers a l (e ∷ es) (f, t, c) = (
  add_account-keeps a e.from_account l f,
  add_account-keeps a e.to_account l t,
  add_account-Covers a l es c,
)

accounts-unminted : (rows : Rows) → contains system_mint (accounts rows) ≡ false
unfolding accounts
accounts-unminted [] = refl
accounts-unminted (e ∷ es) =
    add_account-unminted e.from_account (add_account e.to_account (accounts es))
      (add_account-unminted e.to_account (accounts es) (accounts-unminted es))

accounts-Covers : (rows : Rows) → Covers (accounts rows) rows
unfolding accounts
accounts-Covers [] = tt
accounts-Covers (e ∷ es) =
    let inner = add_account e.to_account (accounts es) in
    let free = accounts-unminted es in
    (
      add_account-IsListed e.from_account inner
          (add_account-unminted e.to_account (accounts es) free),
      add_account-keeps e.from_account e.to_account inner
          (add_account-IsListed e.to_account (accounts es) free),
      add_account-Covers e.from_account inner es
          (add_account-Covers e.to_account (accounts es) es (accounts-Covers es)),
    )

-- What comes in and what goes out are the same amounts.
in_out :
    (l : List String) (rows : Rows)
    → Covers l rows
    → in_sum l rows +ℤ sum_to system_mint rows ≡ out_sum l rows +ℤ sum_from system_mint rows
unfolding in_sum out_sum sum_to sum_from
in_out l [] c = refl
in_out l (e ∷ es) (from, to, c) = rw from (
    rw to (elim (Bool-cases (str_eq e.from_account system_mint)) [
      | inl a ↦ elim (Bool-cases (str_eq e.to_account system_mint)) [
        | inl b ↦ rw a (rw b (omega (int_laws, parts (in_out l es c))))
        | inr b ↦ rw a (rw b (omega (int_laws, parts (in_out l es c))))
      ]
      | inr a ↦ elim (Bool-cases (str_eq e.to_account system_mint)) [
        | inl b ↦ rw a (rw b (omega (int_laws, parts (in_out l es c))))
        | inr b ↦ rw a (rw b (omega (int_laws, parts (in_out l es c))))
      ]
    ]))

eqb-moved : (a b t m : ℤ) → a +ℤ t ≡ b +ℤ m → eqb_ℤ (a -ℤ b) m ≡ eqb_ℤ t (pos 0)
eqb-moved a b t m h = ground (arith, -ℤ_parts a b, +ℤ_parts a t, +ℤ_parts b m, parts h)

-- On every table `verify_conservation` returns True exactly when the amounts that were paid to the
-- mint's account, in transfers or deposits, add up to nothing: it never fails over other rows.
pub verify_conservation-eq :
    (rows : Rows) → verify_conservation rows ≡ eqb_ℤ (sum_to system_mint rows) (pos 0)
unfolding verify_conservation
verify_conservation-eq rows =
    let l = accounts rows in
    let d = accounts-Distinct rows in
    let net : sum_over (λ a. sum_to a rows -ℤ sum_from a rows) l ≡ in_sum l rows -ℤ out_sum l rows =
      sum_over-sub (λ a. sum_to a rows) (λ a. sum_from a rows) l
      ∙ omega (int_laws, parts (sum_over-sum_to l rows d), parts (sum_over-sum_from l rows d)) in
    let same = in_out l rows (accounts-Covers rows) in
    rw net (
      eqb-moved (in_sum l rows) (out_sum l rows) (sum_to system_mint rows)
        (sum_from system_mint rows) same)
