-- ===== src/Finance/Events/Abstract.antt =====
-- `recordAccountEvent` seen from outside: a balance for each account code, and the references that
-- are booked.
use rydalux_app.Prelude.{
  ℕ, ◌≡◌, ◌≢◌, refl, sym, ap, ◌∙◌, Bool, true, false, none, some, List, [], ◌∷◌, find, update,
  is_some, holds, All, ◌||◌, if◌then◌else◌, arith, Bool-cases, Option-cases, inl, inr,
}
use rydalux_app.Prelude.Int.{ℤ, pos, ◌+ℤ◌}
use rydalux_app.Finance.State.{
  Account, AccountCode, AccountCode-discrete, Reference, Reference-discrete, Db,
}
use rydalux_app.Finance.Events.Defs.{
  AccountEvent, has_code, has_reference, is_account, add_to_account, signed_amount, new_account,
  ensure_ledger_account, post_account_event, record_account_event,
}
use rydalux_app.Finance.Events.Facts.{
  record_account_event-old, record_account_event-new, record_account_event-transactions,
}
use rydalux_app.Finance.Events.Balances.{balance_or_zero}
use rydalux_app.Finance.Events.Accounts.{
  HasDistinctIds, HasOwnAccounts, ids_below, record_account_event-HasOwnAccounts,
}

pub record Book : Type 0 where
  pub balance : AccountCode → ℤ
  pub is_booked : Reference → Bool

-- What recording an event promises: a new reference moves the balance of its code, an old one
-- nothing.
abbrev pub book_event : AccountEvent → Book → Book
book_event e book = if book.is_booked e.reference then book else record {
  balance = λ c.
      if holds (AccountCode-discrete e.account_code c)
      then book.balance c +ℤ signed_amount e.amount_minor e.transaction_type
      else book.balance c;
  is_booked = λ r. holds (Reference-discrete e.reference r) || book.is_booked r;
}

abbrev pub code_balance : AccountCode → List Account → ℤ
code_balance c accounts = balance_or_zero (find (has_code c) accounts)

abbrev pub book_of : Db → Book
book_of db = record {
  balance = λ c. code_balance c db.accounts;
  is_booked = λ r. is_some (find (has_reference r) db.transactions);
}

update-absent :
    (i : ℕ) (f : Account → Account) (rows : List Account)
    → All (λ b. b.id ≢ i) rows
    → update (is_account i) f rows ≡ rows
update-absent i f [] all = refl
update-absent i f (a ∷ rows) all = ground (arith, update-absent i f rows all.1, all.0)

found_ne :
    (i : ℕ) (c : AccountCode) (rows : List Account) (a : Account)
    → All (λ b. b.id ≢ i) rows
    → find (has_code c) rows ≡ some a
    → a.id ≢ i
found_ne i c [] a all h = absurd (ground arith)
found_ne i c (b ∷ rows) a all h = elim (Bool-cases (has_code c b)) [
  | inl here ↦ λ same. all.0 (ground arith)
  | inr later ↦ found_ne i c rows a all.1 (ground arith)
]

code_of : (c : AccountCode) (a : Account) → has_code c a ≡ true → a.code ≡ c
code_of c a = elim (AccountCode-discrete a.code c) as (λ d. holds d ≡ true → a.code ≡ c) [
  | yes e ↦ λ _. e
  | no _ ↦ λ h. absurd (ground arith)
]

same_code :
    (c k : AccountCode) (a : Account) → a.code ≡ k → has_code c a ≡ holds (AccountCode-discrete k c)
same_code c k a e = ap (λ x. holds (AccountCode-discrete x c)) e

other_code :
    (c k : AccountCode) (a : Account)
    → has_code k a ≡ false
    → has_code c a ≡ true
    → holds (AccountCode-discrete k c) ≡ false
other_code c k a no_ yes_ = elim (AccountCode-discrete k c) as (λ d. holds d ≡ false) [
  | yes e ↦ sym yes_ ∙ ap (λ x. has_code x a) (sym e) ∙ no_
  | no _ ↦ refl
]

-- Moving the account that a code is found at moves the balance of that code, and of no other.
code_balance-update :
    (c k : AccountCode) (x : ℤ) (a : Account) (rows : List Account)
    → HasDistinctIds rows
    → find (has_code k) rows ≡ some a
    → code_balance c (update (is_account a.id) (add_to_account x) rows)
      ≡ (if holds (AccountCode-discrete k c) then code_balance c rows +ℤ x else code_balance c rows)
code_balance-update c k x a [] apart h = absurd (ground arith)
code_balance-update c k x a (b ∷ rows) apart h = elim (Bool-cases (has_code k b)) [
  | inl here ↦ ground (
    arith,
    update-absent b.id (add_to_account x) rows apart.0,
    same_code c k b (code_of k b here),
  )
  | inr later ↦ elim (Bool-cases (has_code c b)) [
    | inl mine ↦ ground (arith, other_code c k b later mine, found_ne b.id k rows a apart.0)
    | inr other ↦
        ground (arith, code_balance-update c k x a rows apart.1, found_ne b.id k rows a apart.0)
  ]
]

-- A new account changes no balance, and is found at its code.
code_balance-new :
    (c : AccountCode) (a : Account) (rows : List Account)
    → find (has_code a.code) rows ≡ none
    → a.balance ≡ pos 0
    → code_balance c (a ∷ rows) ≡ code_balance c rows
code_balance-new c a rows missing zeroed = elim (Bool-cases (has_code c a)) [
  | inl mine ↦ ground (arith, sym (ap (λ x. find (has_code x) rows) (code_of c a mine)) ∙ missing)
  | inr other ↦ ground arith
]

own_code : (a : Account) → has_code a.code a ≡ true
own_code a = elim (AccountCode-discrete a.code a.code) as (λ d. holds d ≡ true) [
  | yes _ ↦ refl
  | no ne ↦ absurd (ne refl)
]

record_account_event-balance :
    (c : AccountCode) (e : AccountEvent) (db : Db)
    → HasOwnAccounts db
    → find (has_reference e.reference) db.transactions ≡ none
    → code_balance c (record_account_event e db).1.accounts ≡ (
        if holds (AccountCode-discrete e.account_code c)
        then code_balance c db.accounts +ℤ signed_amount e.amount_minor e.transaction_type
        else code_balance c db.accounts)
unfolding ensure_ledger_account post_account_event
record_account_event-balance c e db own missing =
    let x = signed_amount e.amount_minor e.transaction_type in
    let step = ap (λ r. code_balance c r.1.accounts) (record_account_event-new e db missing) in
    elim (Option-cases (find (has_code e.account_code) db.accounts)) [
      | inl none_ ↦
          let a = new_account db.next_id e.account_code e.currency in
          ground (
            arith,
            step,
            code_balance-update c e.account_code x a (a ∷ db.accounts)
                (ids_below db.next_id db.accounts own.fresh, own.distinct),
            own_code a,
            code_balance-new c a db.accounts none_,
          )
      | inr (a, found) ↦
          ground
            (arith, step, code_balance-update c e.account_code x a db.accounts own.distinct found)
    ]

is_booked-record_account_event :
    (r : Reference) (e : AccountEvent) (db : Db)
    → find (has_reference e.reference) db.transactions ≡ none
    → is_some (find (has_reference r) (record_account_event e db).1.transactions) ≡ (
        holds (Reference-discrete e.reference r)
        || is_some (find (has_reference r) db.transactions))
is_booked-record_account_event r e db missing =
    let (front, same) = record_account_event-transactions e db missing in
    let t = (record_account_event e db).0 in
    ground (
      arith,
      ap (λ ts. is_some (find (has_reference r) ts)) front,
      ap (λ q. holds (Reference-discrete q r)) same,
    )

-- One event refines its promise.
record_account_event-book_of :
    (e : AccountEvent) (db : Db)
    → HasOwnAccounts db
    → book_of (record_account_event e db).1 ≡ book_event e (book_of db)
record_account_event-book_of e db own =
    elim (Option-cases (find (has_reference e.reference) db.transactions)) [
      | inl missing ↦ rw missing (λ i. record {
        balance = λ c. record_account_event-balance c e db own missing i;
        is_booked = λ r. is_booked-record_account_event r e db missing i;
      })
      | inr (t, found) ↦ rw (record_account_event-old e db t found, found) refl
    ]

abbrev pub record_account_events : List AccountEvent → Db → Db
record_account_events [] db = db
record_account_events (e ∷ es) db = record_account_events es (record_account_event e db).1

abbrev pub book_events : List AccountEvent → Book → Book
book_events [] book = book
book_events (e ∷ es) book = book_events es (book_event e book)

-- From books whose accounts have ids of their own below the next one, recording any events one after
-- the other does to the balances by code and to the booked references just what the abstract book
-- says: the first event of a reference moves the balance of its code by its signed amount, and a
-- later one nothing.
pub record_account_events-book_of :
    (es : List AccountEvent) (db : Db)
    → HasOwnAccounts db
    → book_of (record_account_events es db) ≡ book_events es (book_of db)
record_account_events-book_of [] db own = refl
record_account_events-book_of (e ∷ es) db own =
    record_account_events-book_of es (record_account_event e db).1
      (record_account_event-HasOwnAccounts e db own)
    ∙ ap (book_events es) (record_account_event-book_of e db own)
