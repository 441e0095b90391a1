-- ===== src/Finance/Ledger/Mirror.antt =====
-- The entries that `createReversal` writes: those of the original with debit and credit exchanged.
use rydalux_app.Prelude.{
  ℕ, ◌+◌, ◌≡◌, ◌≢◌, ◌⊎◌, ◌↔◌, refl, ap, sym, ◌∙◌, List, [], ◌∷◌, arith, inl, inr, if◌then◌else◌,
  some_and, ◌==◌, Bool, true, false,
}
use rydalux_app.Prelude.Int.{ℤ, pos, neg, ◌+ℤ◌, zero-+ℤ, +ℤ_comm, +ℤ_assoc}
use rydalux_app.Finance.State.{TransactionType, LedgerEntry, Db}
use rydalux_app.Finance.Events.{signed_amount}
use rydalux_app.Finance.Events.Balances.{account_sum, wallet_sum}
use rydalux_app.Finance.Ledger.{entries_of, reversed_entry, reverse_entries, create_entry, opposite}
use rydalux_app.Finance.Ledger.Validation.{HasAmounts, IsBalanced, debits, credits}

-- The reversal's entries, newest first: the original's in turn, with debit and credit exchanged.
abbrev pub mirror : ℕ → List LedgerEntry → ℕ → List LedgerEntry → List LedgerEntry
mirror reversal [] i done = done
mirror reversal (e ∷ es) i done = mirror reversal es (i + 1) (reversed_entry reversal e i ∷ done)

pub entries_of-reverse_entries :
    (r : ℕ) (es : List LedgerEntry) (db : Db)
    → entries_of r (reverse_entries r es db) ≡ mirror r es db.next_id (entries_of r db)
unfolding reverse_entries
entries_of-reverse_entries r [] db = refl
entries_of-reverse_entries r (e ∷ es) db =
    entries_of-reverse_entries r es (create_entry (reversed_entry r e db.next_id) db)
    ∙ ap (mirror r es (db.next_id + 1)) (ground arith)

pub entries_of-reverse_entries_ne :
    (r i : ℕ) (es : List LedgerEntry) (db : Db)
    → r ≢ i
    → entries_of i (reverse_entries r es db) ≡ entries_of i db
unfolding reverse_entries
entries_of-reverse_entries_ne r i [] db ne = refl
entries_of-reverse_entries_ne r i (e ∷ es) db ne =
    entries_of-reverse_entries_ne r i es (create_entry (reversed_entry r e db.next_id) db) ne
    ∙ ground arith

debits-reversed :
    (r i : ℕ) (e : LedgerEntry) (es : List LedgerEntry)
    → debits (reversed_entry r e i ∷ es) + credits [] ≡ credits (e ∷ []) + debits es
debits-reversed r i e es = ground arith

credits-reversed :
    (r i : ℕ) (e : LedgerEntry) (es : List LedgerEntry)
    → credits (reversed_entry r e i ∷ es) + debits [] ≡ debits (e ∷ []) + credits es
credits-reversed r i e es = ground arith

pub debits-mirror :
    (r : ℕ) (es : List LedgerEntry) (i : ℕ) (done : List LedgerEntry)
    → debits (mirror r es i done) ≡ credits es + debits done
debits-mirror r [] i done = omega arith
debits-mirror r (e ∷ es) i done =
    omega
      (arith, debits-mirror r es (i + 1) (reversed_entry r e i ∷ done), debits-reversed r i e done)

pub credits-mirror :
    (r : ℕ) (es : List LedgerEntry) (i : ℕ) (done : List LedgerEntry)
    → credits (mirror r es i done) ≡ debits es + credits done
credits-mirror r [] i done = omega arith
credits-mirror r (e ∷ es) i done =
    omega (
      arith,
      credits-mirror r es (i + 1) (reversed_entry r e i ∷ done),
      credits-reversed r i e done,
    )

pub HasAmounts-mirror :
    (r : ℕ) (es : List LedgerEntry) (i : ℕ) (done : List LedgerEntry)
    → HasAmounts es
    → HasAmounts done
    → HasAmounts (mirror r es i done)
HasAmounts-mirror r [] i done h k = k
HasAmounts-mirror r (e ∷ es) i done h k =
    HasAmounts-mirror r es (i + 1) (reversed_entry r e i ∷ done) h.1 (h.0, k)

mirror-ne_nil :
    (r : ℕ) (es : List LedgerEntry) (i : ℕ) (done : List LedgerEntry)
    → (es ≢ []) ⊎ (done ≢ [])
    → mirror r es i done ≢ []
mirror-ne_nil r [] i done (inl h) = absurd (h refl)
mirror-ne_nil r [] i done (inr h) = h
mirror-ne_nil r (e ∷ es) i done h =
    mirror-ne_nil r es (i + 1) (reversed_entry r e i ∷ done) (inr (λ e. cc))

-- The mirrored entries balance exactly if the original's do.
pub IsBalanced-mirror :
    (r : ℕ) (es : List LedgerEntry) (i : ℕ) → IsBalanced es ↔ IsBalanced (mirror r es i [])
IsBalanced-mirror r es i = (
  λ b. (
    mirror-ne_nil r es i [] (inl b.0),
    omega (arith, b.1, debits-mirror r es i [], credits-mirror r es i []),
  ),
  λ b. (
    λ (e : es ≡ []). b.0 (rw e),
    omega (arith, b.1, debits-mirror r es i [], credits-mirror r es i []),
  ),
)

-- Exchanging debit and credit turns the sign.
signed-opposite :
    (amount : ℤ) (type : TransactionType)
    → signed_amount amount (opposite type) +ℤ signed_amount amount type ≡ pos 0
unfolding ◌+ℤ◌ neg
signed-opposite amount TransactionType.debit = ground arith
signed-opposite amount TransactionType.credit = ground arith

counted-opposite :
    (b : Bool) (amount : ℤ) (type : TransactionType)
    → (if b then signed_amount amount (opposite type) else pos 0)
        +ℤ (if b then signed_amount amount type else pos 0)
      ≡ pos 0
unfolding ◌+ℤ◌
counted-opposite true amount type = signed-opposite amount type
counted-opposite false amount type = refl

-- One entry more on both sides.
sum_step : (m x x' es done : ℤ) → m +ℤ es ≡ x' +ℤ done → x' +ℤ x ≡ pos 0 → m +ℤ (x +ℤ es) ≡ done
sum_step m x x' es done h k =
    ap (λ a. m +ℤ a) (+ℤ_comm x es)
    ∙ sym (+ℤ_assoc m es x)
    ∙ ap (λ a. a +ℤ x) (h ∙ +ℤ_comm x' done)
    ∙ +ℤ_assoc done x' x
    ∙ ap (λ a. done +ℤ a) k
    ∙ +ℤ_comm done (pos 0)
    ∙ zero-+ℤ done

-- On every account, and on every wallet, the mirrored entries undo the original's.
account_sum-mirror :
    (k r : ℕ) (es : List LedgerEntry) (i : ℕ) (done : List LedgerEntry)
    → account_sum k (mirror r es i done) +ℤ account_sum k es ≡ account_sum k done
unfolding account_sum
account_sum-mirror k r [] i done =
    +ℤ_comm (account_sum k done) (pos 0) ∙ zero-+ℤ (account_sum k done)
account_sum-mirror k r (e ∷ es) i done =
    sum_step (account_sum k (mirror r es (i + 1) (reversed_entry r e i ∷ done))) _ _
      (account_sum k es) (account_sum k done)
      (account_sum-mirror k r es (i + 1) (reversed_entry r e i ∷ done))
      (counted-opposite (some_and (λ j. j == k) e.ledger_account_id) e.amount e.transaction_type)

wallet_sum-mirror :
    (k r : ℕ) (es : List LedgerEntry) (i : ℕ) (done : List LedgerEntry)
    → wallet_sum k (mirror r es i done) +ℤ wallet_sum k es ≡ wallet_sum k done
unfolding wallet_sum
wallet_sum-mirror k r [] i done = +ℤ_comm (wallet_sum k done) (pos 0) ∙ zero-+ℤ (wallet_sum k done)
wallet_sum-mirror k r (e ∷ es) i done =
    sum_step (wallet_sum k (mirror r es (i + 1) (reversed_entry r e i ∷ done))) _ _
      (wallet_sum k es) (wallet_sum k done)
      (wallet_sum-mirror k r es (i + 1) (reversed_entry r e i ∷ done))
      (counted-opposite (some_and (λ j. j == k) e.wallet_id) e.amount e.transaction_type)

pub account_sum-undone :
    (k r i : ℕ) (es : List LedgerEntry)
    → account_sum k (mirror r es i []) +ℤ account_sum k es ≡ pos 0
unfolding account_sum
account_sum-undone k r i es = account_sum-mirror k r es i []

pub wallet_sum-undone :
    (k r i : ℕ) (es : List LedgerEntry) → wallet_sum k (mirror r es i []) +ℤ wallet_sum k es ≡ pos 0
unfolding wallet_sum
wallet_sum-undone k r i es = wallet_sum-mirror k r es i []
