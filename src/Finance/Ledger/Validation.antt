-- ===== src/Finance/Ledger/Validation.antt =====
-- What `validateLedgerBalance` accepts: a transaction that has entries, with equal debits and credits.
use rydalux_app.Prelude.{
  ℕ, ◌+◌, ◌<◌, ◌≡◌, ◌≢◌, ◌⊎◌, refl, true, false, some, List, [], ◌∷◌, arith, All, inl, inr,
}
use native.Mathlib.Decide.{ℕ_discrete}
use native.Mathlib.Nat.{add-zero}
use rydalux_app.Prelude.Int.{ℤ, pos, negsuc, pos_part, ◌+ℤ◌}
use rydalux_app.Money.Column.{DecimalText, column_limit, read_column, read_column-pos}
use rydalux_app.Service.{ok, succeeded}
use rydalux_app.Finance.State.{TransactionType, LedgerEntry, Db}
use rydalux_app.Finance.Ledger.{
  add_entry, total_entries, validate_ledger_balance, set_totals, entries_of, is_empty,
}

-- An amount of zero or more that fits a column; below zero a column's text is misread.
abbrev pub IsAmount : ℤ → Type 0
IsAmount (pos n) = n < column_limit
IsAmount (negsuc n) = ⊥

abbrev pub HasAmounts : List LedgerEntry → Type 0
HasAmounts = All (λ e. IsAmount e.amount)

abbrev debit_of : TransactionType → ℤ → ℕ
debit_of TransactionType.debit amount = pos_part amount
debit_of TransactionType.credit amount = 0

abbrev credit_of : TransactionType → ℤ → ℕ
credit_of TransactionType.debit amount = 0
credit_of TransactionType.credit amount = pos_part amount

abbrev pub debits : List LedgerEntry → ℕ
debits [] = 0
debits (e ∷ es) = debit_of e.transaction_type e.amount + debits es

abbrev pub credits : List LedgerEntry → ℕ
credits [] = 0
credits (e ∷ es) = credit_of e.transaction_type e.amount + credits es

-- Double entry: there are entries, and the debits equal the credits.
abbrev pub IsBalanced : List LedgerEntry → Type 0
IsBalanced es = (es ≢ []) × (debits es ≡ credits es)

is_empty-ne_nil : (es : List LedgerEntry) → es ≢ [] → is_empty es ≡ false
is_empty-ne_nil [] h = absurd (h refl)
is_empty-ne_nil (e ∷ es) h = refl

is_empty-cases : (es : List LedgerEntry) → (is_empty es ≡ true) ⊎ (es ≢ [])
is_empty-cases [] = inl refl
is_empty-cases (e ∷ es) = inr (λ h. cc)

pub IsBalanced-cases : (es : List LedgerEntry) → IsBalanced es ⊎ (¬ IsBalanced es)
IsBalanced-cases [] = inr (λ b. b.0 refl)
IsBalanced-cases (e ∷ es) = elim (ℕ_discrete (debits (e ∷ es)) (credits (e ∷ es))) [
  | yes same ↦ inl (λ h. cc, same)
  | no differ ↦ inr (λ b. differ b.1)
]

module _ ⦃decimal : DecimalText⦄ where
  read_IsAmount : (z : ℤ) → IsAmount z → read_column z ≡ some z
  read_IsAmount (pos n) h = read_column-pos n h
  read_IsAmount (negsuc n) h = absurd h

  add_entry-IsAmount :
      (t : TransactionType) (z : ℤ) (d c : ℕ)
      → IsAmount z
      → add_entry t z (pos d, pos c) ≡ (pos (d + debit_of t z), pos (c + credit_of t z))
  unfolding ◌+ℤ◌
  add_entry-IsAmount TransactionType.debit (pos n) d c h = ground arith
  add_entry-IsAmount TransactionType.credit (pos n) d c h = ground arith
  add_entry-IsAmount TransactionType.debit (negsuc n) d c h = absurd h
  add_entry-IsAmount TransactionType.credit (negsuc n) d c h = absurd h

  total_entries-sums :
      (es : List LedgerEntry) (d c : ℕ)
      → HasAmounts es
      → total_entries es (pos d, pos c) ≡ some (pos (d + debits es), pos (c + credits es))
  unfolding total_entries
  total_entries-sums [] d c h = rw (add-zero d, add-zero c)
  total_entries-sums (e ∷ es) d c h = ground (
    arith,
    read_IsAmount e.amount h.0,
    add_entry-IsAmount e.transaction_type e.amount d c h.0,
    total_entries-sums es (d + debit_of e.transaction_type e.amount)
        (c + credit_of e.transaction_type e.amount) h.1,
  )

  validate-balanced :
      (i : ℕ) (db : Db)
      → HasAmounts (entries_of i db)
      → IsBalanced (entries_of i db)
      → validate_ledger_balance i db ≡ (
        ok true,
        set_totals i (pos (debits (entries_of i db)), pos (credits (entries_of i db))) db,
      )
  unfolding validate_ledger_balance
  validate-balanced i db h b =
      ground
        (arith, is_empty-ne_nil (entries_of i db) b.0, total_entries-sums (entries_of i db) 0 0 h)

  validate-unbalanced :
      (i : ℕ) (db : Db)
      → HasAmounts (entries_of i db)
      → ¬ IsBalanced (entries_of i db)
      → (succeeded (validate_ledger_balance i db).0 ≡ false)
        × ((validate_ledger_balance i db).1 ≡ db)
  unfolding validate_ledger_balance
  validate-unbalanced i db h b = ground (
    arith,
    total_entries-sums (entries_of i db) 0 0 h,
    is_empty-cases (entries_of i db),
    λ (ne : entries_of i db ≢ []) (e : debits (entries_of i db) ≡ credits (entries_of i db)).
        b (ne, e),
  )

  pub validate_ledger_balance-cases :
      (i : ℕ) (db : Db)
      → HasAmounts (entries_of i db)
      → (IsBalanced (entries_of i db)
          → validate_ledger_balance i db ≡ (
            ok true,
            set_totals i (pos (debits (entries_of i db)), pos (credits (entries_of i db))) db,
          ))
        × (¬ IsBalanced (entries_of i db)
            → (succeeded (validate_ledger_balance i db).0 ≡ false)
              × ((validate_ledger_balance i db).1 ≡ db))
  validate_ledger_balance-cases i db h = (validate-balanced i db h, validate-unbalanced i db h)

  -- On entries whose amounts are zero or more and fit a column, either there are entries and their
  -- debits equal their credits, validation succeeds, and it writes both totals to the transaction and changes nothing
  -- else; or they do not, validation throws, and it changes nothing.
  pub validate_ledger_balance_lem :
      (i : ℕ) (db : Db)
      → HasAmounts (entries_of i db)
      → (IsBalanced (entries_of i db)
          × (validate_ledger_balance i db ≡ (
            ok true,
            set_totals i (pos (debits (entries_of i db)), pos (credits (entries_of i db))) db,
          )))
        ⊎ (¬ IsBalanced (entries_of i db)
            × (succeeded (validate_ledger_balance i db).0 ≡ false)
            × ((validate_ledger_balance i db).1 ≡ db))
  validate_ledger_balance_lem i db h = elim (IsBalanced-cases (entries_of i db)) [
    | inl b ↦ inl (b, validate-balanced i db h b)
    | inr nb ↦ let (throws, keeps) = validate-unbalanced i db h nb in inr (nb, throws, keeps)
  ]
