-- ===== src/Service.antt =====
-- What the services share: Nest's HTTP exceptions, calls that read and write a store and may throw,
-- and the database client's transactions.
pub mod Keeps
use rydalux_app.Prelude.{
  ⊤, ◌≡◌, ap, arith, true, false, String, Bool, Option, none, some, if◌then◌else◌,
}

-- The exception classes with their messages. Values that a message interpolates are left out of it.
-- `internal` is any other error, which the framework answers with status 500.
pub data Error : Type 0 where
  bad_request unauthorized forbidden not_found conflict internal : String → Error

pub data Result (A : Type 0) : Type 0 where
  ok : A → Result A
  err : Error → Result A

-- `error.message`
abbrev pub message : Error → String
message (bad_request m) = m
message (unauthorized m) = m
message (forbidden m) = m
message (not_found m) = m
message (conflict m) = m
message (internal m) = m

-- What was written before a throw stays written.
abbrev pub Action : Type 0 → Type 0 → Type 0
Action S A = S → Result A × S

module _ {S A : Type 0} where
  abbrev pub pure : A → Action S A
  pure a s = (ok a, s)

  abbrev pub raise : Error → Action S A
  raise e s = (err e, s)

  abbrev pub gets : (S → A) → Action S A
  gets f s = (ok (f s), s)

  abbrev pub or_raise : Option A → Error → Action S A
  or_raise none e s = (err e, s)
  or_raise (some a) e s = (ok a, s)

  -- `prisma.$transaction`: a throw rolls the writes back.
  abbrev pub transaction : Action S A → Action S A
  transaction m s = let (r, s') = m s in elim r [ ok a ↦ (ok a, s') | err e ↦ (err e, s) ]

  -- `try { m } catch (error) { handler }`: what was written before the throw stays.
  abbrev pub attempt : Action S A → (Error → Action S A) → Action S A
  attempt m handler s = let (r, s') = m s in elim r [ ok a ↦ (ok a, s') | err e ↦ handler e s' ]

infixl 5 ◌>>=◌ ◌>>◌
abbrev pub ◌>>=◌ : {S A B : Type 0} → Action S A → (A → Action S B) → Action S B
◌>>=◌ m f s = let (r, s') = m s in elim r [ ok a ↦ f a s' | err e ↦ (err e, s') ]

abbrev pub ◌>>◌ : {S A B : Type 0} → Action S A → Action S B → Action S B
m >> k = m >>= λ _. k

module _ {S : Type 0} where
  abbrev pub raise_if : Bool → Error → Action S ⊤
  raise_if c e s = (if c then err e else ok tt, s)

  abbrev pub modify : (S → S) → Action S ⊤
  modify f s = (ok tt, f s)

-- The result is a value and no exception.
abbrev pub succeeded : {A : Type 0} → Result A → Bool
succeeded (ok _) = true
succeeded (err _) = false

-- A call that returns hands its state on, and one that throws ends the sequence.
pub >>-ok :
    {S A B : Type 0} (m : Action S A) (k : Action S B) (s : S) {a : A} {s' : S}
    → m s ≡ (ok a, s')
    → (m >> k) s ≡ k s'
>>-ok {S} {A} {B} m k s e =
    ap {B = Result B × S} (λ p. elim p.0 [ ok a ↦ k p.1 | err x ↦ (err x, p.1) ]) e

pub >>-err :
    {S A B : Type 0} (m : Action S A) (k : Action S B) (s : S)
    → succeeded (m s).0 ≡ false
    → (succeeded ((m >> k) s).0 ≡ false) × (((m >> k) s).1 ≡ (m s).1)
>>-err m k s e = ground arith

-- A transaction that throws leaves the store as it was.
pub transaction-err :
    {S A : Type 0} (m : Action S A) (s : S)
    → succeeded (m s).0 ≡ false
    → (succeeded (transaction m s).0 ≡ false) × ((transaction m s).1 ≡ s)
transaction-err m s e = ground arith
