-- ===== src/Ezsp/Talk/Trace.antt =====
-- internal/ezsp: which commands a conversation sends, and what its success tells of its parts.
use gzb.Base.{
  ℕ, ◌≡◌, refl, ap, ◌∙◌, Bool, true, false, List, [], ◌∷◌, ◌++◌, ◌==◌, if◌then◌else◌, Bytes, ◌⊎◌,
  inl, inr,
}
use gzb.Base.Result.{Result, ok, err}
use gzb.Cursor.{Reader, new_buf, u8}
use gzb.Ezsp.Talk.{
  Command, Ncp, Failure, Talk, after, handled, ◌>>◌, give, lift, demand, whole, replied, command,
  call, ask, order, refused,
}

abbrev pub as_command : ℕ → Bytes → Command
as_command id params = record { id = id; params = params }

module _ {A B : Type 0} (ncp : Ncp) where
  -- What sends nothing more.
  pub after-quiet :
      (f : A → Talk B)
      → ((a : A) (s : List Command) → (f a ncp s).1 ≡ s)
      → (r : Result Failure A × List Command) → (after f ncp r).1 ≡ r.1
  after-quiet f q (ok a, s) = q a s
  after-quiet f q (err e, s) = refl

  pub after-of_ok :
      (f : A → Talk B) (r : Result Failure A × List Command) {a : A}
      → r.0 ≡ ok a
      → after f ncp r ≡ f a ncp r.1
  after-of_ok f (ok b, s) e = ap (λ (t : Result Failure A). after f ncp (t, s)) e
  after-of_ok f (err x, s) e = cc

  pub after-of_err :
      (f : A → Talk B) (r : Result Failure A × List Command) {x : Failure}
      → r.0 ≡ err x
      → after f ncp r ≡ (err x, r.1)
  after-of_err f (ok b, s) e = cc
  after-of_err f (err y, s) e = ap (λ (t : Result Failure A). after f ncp (t, s)) e

  -- A chain that succeeds has two parts that do.
  pub after-ok :
      (f : A → Talk B) (r : Result Failure A × List Command) {b : B} {out : List Command}
      → after f ncp r ≡ (ok b, out)
      → (a : A) × (r.0 ≡ ok a) × (f a ncp r.1 ≡ (ok b, out))
  after-ok f (ok a, s) e = (a, refl, e)
  after-ok f (err x, s) e = absurd (err_ne x s e)
    where
      err_ne :
          {b : B} {out : List Command} (x : Failure) (s : List Command)
          → ¬ (◌≡◌ {A = Result Failure B × List Command} (err x, s) (ok b, out))
      err_ne x s e = cc

pub handled-ok :
    {A : Type 0} (ncp : Ncp) (h : Failure → Talk A) (r : Result Failure A × List Command) {a : A}
    {out : List Command}
    → handled h ncp r ≡ (ok a, out)
    → (r ≡ (ok a, out)) ⊎ ((e : Failure) × (r.0 ≡ err e) × (h e ncp r.1 ≡ (ok a, out)))
handled-ok ncp h (ok a, s) e = inl e
handled-ok ncp h (err x, s) e = inr (x, refl, e)

pub demand-ok : (c : Bool) (x : Failure) → (if c then ok tt else err x) ≡ ok tt → c ≡ true
demand-ok true x e = refl
demand-ok false x e = cc

module _ (id : ℕ) (params : Bytes) (ncp : Ncp) (sent : List Command) where
  pub call-sent :
      {A : Type 0} (parse : Bytes → Result Failure A)
      → (call id params parse ncp sent).1 ≡ sent ++ as_command id params ∷ []
  unfolding call command
  call-sent parse =
      after-quiet ncp (λ reply. lift (parse reply)) (λ a s. refl)
        (replied (ncp sent (as_command id params)), sent ++ as_command id params ∷ [])

  pub ask-sent :
      {A : Type 0} (read : Reader A)
      → (ask id params read ncp sent).1 ≡ sent ++ as_command id params ∷ []
  unfolding ask
  ask-sent read = call-sent (λ reply. whole (read (new_buf reply)))

  pub order-sent : (order id params ncp sent).1 ≡ sent ++ as_command id params ∷ []
  unfolding order
  order-sent =
      after-quiet ncp (λ status. demand (status == 0) (refused id status)) (λ a s. refl)
        (ask id params u8 ncp sent)
      ∙ ask-sent u8

pub demand-give-sent :
    {B : Type 0} (c : Bool) (x : Failure) (b : B) (ncp : Ncp) (sent : List Command)
    → ((demand c x >> give b) ncp sent).1 ≡ sent
demand-give-sent true x b ncp sent = refl
demand-give-sent false x b ncp sent = refl
