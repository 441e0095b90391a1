-- ===== src/Service/Keeps.antt =====
-- Invariants of calls, one rule for each way to build a call; `search` applies them along a block.
use rydalux_app.Prelude.{Bool, true, false, Option, none, some, if◌then◌else◌}
use rydalux_app.Service.{
  Error, Result, ok, err, Action, pure, raise, gets, or_raise, raise_if, modify, transaction,
  attempt, ◌>>=◌,
}

-- The call keeps `P`, whether it returns or throws.
pub record Keeps {S A : Type 0} (P : S → Type 0) (m : Action S A) : Type 0 where
  pub at : (s : S) → P s → P (m s).1

transaction_end :
    {S A : Type 0} (P : S → Type 0) (r : Result A) (s s' : S)
    → P s
    → P s'
    → P (transaction (λ (u : S). (r, s')) s).1
transaction_end P (ok a) s s' h h' = h'
transaction_end P (err e) s s' h h' = h

attempt_end :
    {S A : Type 0} (P : S → Type 0) (handler : Error → Action S A) (r : Result A) (s : S)
    → ((e : Error) → Keeps P (handler e))
    → P s
    → P (attempt (λ (u : S). (r, s)) handler s).1
attempt_end P handler (ok a) s kh h = h
attempt_end P handler (err e) s kh h = (kh e).at s h

bind_end :
    {S A B : Type 0} (P : S → Type 0) (f : A → Action S B) (r : Result A) (s : S)
    → ((a : A) → Keeps P (f a))
    → P s
    → P (((λ (u : S). (r, s)) >>= f) s).1
bind_end P f (ok a) s kf h = (kf a).at s h
bind_end P f (err e) s kf h = h

module _ {S A : Type 0} {P : S → Type 0} where
  pub Keeps-pure : (a : A) → Keeps P (pure a)
  Keeps-pure a = record { at = λ s h. h }

  pub Keeps-raise : (e : Error) → Keeps P (raise {A = A} e)
  Keeps-raise e = record { at = λ s h. h }

  pub Keeps-gets : (f : S → A) → Keeps P (gets f)
  Keeps-gets f = record { at = λ s h. h }

  pub Keeps-or_raise : (o : Option A) (e : Error) → Keeps P (or_raise o e)
  Keeps-or_raise none e = record { at = λ s h. h }
  Keeps-or_raise (some a) e = record { at = λ s h. h }

  pub Keeps-if :
      (b : Bool) (m n : Action S A) → Keeps P m → Keeps P n → Keeps P (if b then m else n)
  Keeps-if true m n km kn = km
  Keeps-if false m n km kn = kn

  pub Keeps-transaction : (m : Action S A) → Keeps P m → Keeps P (transaction m)
  Keeps-transaction m km = record {
    at = λ s h. let (r, s') = m s in transaction_end P r s s' h (km.at s h);
  }

  pub Keeps-attempt :
      (m : Action S A) (handler : Error → Action S A)
      → Keeps P m
      → ((e : Error) → Keeps P (handler e))
      → Keeps P (attempt m handler)
  Keeps-attempt m handler km kh = record {
    at = λ s h. let (r, s') = m s in attempt_end P handler r s' kh (km.at s h);
  }

module _ {S : Type 0} {P : S → Type 0} where
  pub Keeps-raise_if : (b : Bool) (e : Error) → Keeps P (raise_if b e)
  Keeps-raise_if b e = record { at = λ s h. h }

  pub Keeps-modify : (f : S → S) → ((s : S) → P s → P (f s)) → Keeps P (modify f)
  Keeps-modify f k = record { at = k }

module _ {S A B : Type 0} {P : S → Type 0} where
  pub Keeps-bind :
      (m : Action S A) (f : A → Action S B)
      → Keeps P m
      → ((a : A) → Keeps P (f a))
      → Keeps P (m >>= f)
  Keeps-bind m f km kf = record {
    at = λ s h. let (r, s') = m s in bind_end P f r s' kf (km.at s h);
  }

pub ruleset keeps_rules = (
  Keeps-pure, Keeps-raise, Keeps-gets, Keeps-or_raise, Keeps-raise_if, Keeps-if, Keeps-transaction,
  Keeps-attempt, Keeps-bind,
)
