-- ===== src/Ezsp/Talk/Ensures.antt =====
-- internal/ezsp: what a conversation that succeeds has sent and returns, by one rule for each step.
use gzb.Base.{
  ℕ, ◌≡◌, refl, sym, ap, subst, ◌∙◌, Bool, true, false, List, [], ◌∷◌, ◌++◌, append_assoc,
  append-nil, Bytes,
}
use gzb.Base.Result.{Result, ok, err}
use gzb.Cursor.{Reader, new_buf}
use gzb.Ezsp.Talk.{
  Command, Ncp, Failure, Talk, ◌>>=◌, ◌>>◌, lift, demand, give, best_effort, call, ask, order,
  whole,
}
use gzb.Ezsp.Talk.Trace.{as_command, after-ok, call-sent, ask-sent, order-sent}

-- If it succeeds, the value and the commands it has sent are as `R` says.
pub record Ensures {A : Type 0} (ncp : Ncp) (m : Talk A) (R : A → List Command → Type 0)
    : Type 0 where
  pub holds :
      (sent : List Command) (a : A) (out : List Command)
      → m ncp sent ≡ (ok a, out)
      → (cmds : List Command) × (out ≡ sent ++ cmds) × R a cmds

module _ {A B : Type 0} (ncp : Ncp) where
  pub Ensures-bind :
      {P : A → List Command → Type 0} {R : B → List Command → Type 0} (m : Talk A) (f : A → Talk B)
      → Ensures ncp m P
      → ((a : A) (xs : List Command) → P a xs → Ensures ncp (f a) (λ b ys. R b (xs ++ ys)))
      → Ensures ncp (m >>= f) R
  Ensures-bind m f hm hf = record {
    holds = λ sent b out e.
        let (a, got, rest) = after-ok ncp f (m ncp sent) e in
        let (xs, ex, p) = hm.holds sent a ((m ncp sent).1) (ap (λ t. (t, (m ncp sent).1)) got) in
        let (ys, ey, r) = (hf a xs p).holds ((m ncp sent).1) b out rest in
        (xs ++ ys, ey ∙ ap (λ t. t ++ ys) ex ∙ append_assoc sent xs ys, r);
  }

  pub Ensures-lift :
      {R : B → List Command → Type 0} (r : Result Failure A) (f : A → Talk B)
      → ((a : A) → r ≡ ok a → Ensures ncp (f a) R)
      → Ensures ncp (lift r >>= f) R
  Ensures-lift (ok a) f h = record { holds = (h a refl).holds }
  Ensures-lift (err x) f h = record { holds = λ sent b out e. cc }

  -- A single command, and a single command whose error is dropped.
  pub Ensures-call :
      {R : B → List Command → Type 0} (id : ℕ) (params : Bytes) (parse : Bytes → Result Failure A)
      (f : A → Talk B)
      → ((a : A) → Ensures ncp (f a) (λ b ys. R b (as_command id params ∷ ys)))
      → Ensures ncp (call id params parse >>= f) R
  Ensures-call id params parse f h = record {
    holds = λ sent b out e.
        let (a, got, rest) = after-ok ncp f (call id params parse ncp sent) e in
        let (ys, ey, r) = (h a).holds ((call id params parse ncp sent).1) b out rest in
        (
          as_command id params ∷ ys,
          ey
              ∙ ap (λ (t : List Command). t ++ ys) (call-sent id params ncp sent parse)
              ∙ append_assoc sent (as_command id params ∷ []) ys,
          r,
        );
  }

  pub Ensures-ask :
      {R : B → List Command → Type 0} (id : ℕ) (params : Bytes) (read : Reader A) (f : A → Talk B)
      → ((a : A) → Ensures ncp (f a) (λ b ys. R b (as_command id params ∷ ys)))
      → Ensures ncp (ask id params read >>= f) R
  unfolding ask
  Ensures-ask id params read f h =
      Ensures-call id params (λ reply. whole (read (new_buf reply))) f h

  pub Ensures-best_effort_ask :
      {R : B → List Command → Type 0} (d : A) (id : ℕ) (params : Bytes) (read : Reader A)
      (f : A → Talk B)
      → ((a : A) → Ensures ncp (f a) (λ b ys. R b (as_command id params ∷ ys)))
      → Ensures ncp (best_effort d (ask id params read) >>= f) R
  Ensures-best_effort_ask d id params read f h = record {
    holds = λ sent b out e.
        let (a, got, rest) = after-ok ncp f (best_effort d (ask id params read) ncp sent) e in
        let (ys, ey, r) = (h a).holds ((ask id params read ncp sent).1) b out rest in
        (
          as_command id params ∷ ys,
          ey
              ∙ ap (λ (t : List Command). t ++ ys) (ask-sent id params ncp sent read)
              ∙ append_assoc sent (as_command id params ∷ []) ys,
          r,
        );
  }

module _ {B : Type 0} (ncp : Ncp) {R : B → List Command → Type 0} where
  pub Ensures-give : (b : B) → R b [] → Ensures ncp (give b) R
  Ensures-give b r = record {
    holds = λ sent b' out e.
        let same_b : b ≡ b' = cc in
        ([], sym (ap (λ t. t.1) e) ∙ sym (append-nil sent), subst (λ t. R t []) same_b r);
  }

  pub Ensures-demand :
      (c : Bool) (x : Failure) (k : Talk B)
      → (c ≡ true → Ensures ncp k R)
      → Ensures ncp (demand c x >> k) R
  Ensures-demand true x k h = record { holds = (h refl).holds }
  Ensures-demand false x k h = record { holds = λ sent b out e. cc }

  pub Ensures-order :
      (id : ℕ) (params : Bytes) (k : Talk B)
      → Ensures ncp k (λ b ys. R b (as_command id params ∷ ys))
      → Ensures ncp (order id params >> k) R
  Ensures-order id params k h = record {
    holds = λ sent b out e.
        let (a, got, rest) = after-ok ncp (λ _. k) (order id params ncp sent) e in
        let (ys, ey, r) = h.holds ((order id params ncp sent).1) b out rest in
        (
          as_command id params ∷ ys,
          ey
              ∙ ap (λ (t : List Command). t ++ ys) (order-sent id params ncp sent)
              ∙ append_assoc sent (as_command id params ∷ []) ys,
          r,
        );
  }

  pub Ensures-weaken :
      {Q : B → List Command → Type 0} {m : Talk B}
      → Ensures ncp m Q
      → ((b : B) (cmds : List Command) → Q b cmds → R b cmds)
      → Ensures ncp m R
  Ensures-weaken h imp = record {
    holds = λ sent b out e. let (cmds, ec, q) = h.holds sent b out e in (cmds, ec, imp b cmds q);
  }

  -- A part of known commands.
  pub Ensures-part :
      {A : Type 0} (cmds : List Command) (m : Talk A) (k : Talk B)
      → Ensures ncp m (λ _ xs. xs ≡ cmds)
      → Ensures ncp k (λ b ys. R b (cmds ++ ys))
      → Ensures ncp (m >> k) R
  Ensures-part cmds m k hm hk =
      Ensures-bind ncp m (λ _. k) hm
        (λ _ xs e. subst (λ t. Ensures ncp k (λ b ys. R b (t ++ ys))) (sym e) hk)

pub Ensures-last_order :
    (ncp : Ncp) (id : ℕ) (params : Bytes)
    → Ensures ncp (best_effort tt (order id params)) (λ _ cmds. cmds ≡ as_command id params ∷ [])
Ensures-last_order ncp id params = record {
  holds = λ sent b out e.
      (as_command id params ∷ [], sym (ap (λ t. t.1) e) ∙ order-sent id params ncp sent, refl);
}

pub Ensures-last_demand :
    (ncp : Ncp) {R : Unit {0} → List Command → Type 0} (c : Bool) (x : Failure)
    → (c ≡ true → R tt [])
    → Ensures ncp (demand c x) R
Ensures-last_demand ncp true x r = Ensures-give ncp tt (r refl)
Ensures-last_demand ncp false x r = record { holds = λ sent b out e. cc }
