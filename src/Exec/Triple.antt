-- ===== src/Exec/Triple.antt =====
-- What an action ensures, by one rule for each way to build an action. A statement speaks of the
-- tables and of the calls sent to the bank, and the action does not panic.
use ficmart_payment_gateway.Prelude.{
  ℕ, ◌≡◌, refl, subst, Bool, true, false, if◌then◌else◌, Option, none, some, List, ◌∷◌,
}
use ficmart_payment_gateway.Failure.{Error}
use ficmart_payment_gateway.Bank.{BankCall}
use ficmart_payment_gateway.Bank.Retry.{Answer, reply, fault}
use ficmart_payment_gateway.Store.{Db}
use ficmart_payment_gateway.Exec.{
  Result, ok, err, panic, BankClient, Env, Sent, World, Exec, continue, ◌>>=◌, pure, raise, lift,
  gets, write, ask, or_fail, attempt, deref, round_trip, fresh_round_trip, atomically, send,
}
pub use ficmart_payment_gateway.Exec.Ends.{Pred, Ends, Ends-map}
use ficmart_payment_gateway.Exec.Ends.{
  fail_with-ends, caught-ends, fault_ends, wrote-ends, ends_both, settle-ends, answer_ends,
}

pub record Triple (e : Env) {A : Type 0} (P : Pred) (m : Exec A) (Q : A → Pred) (E : Error → Pred)
    : Type 0 where
  pub at : (w : World) → P w.db w.sent → Ends Q E (m e w).0 (m e w).1.db (m e w).1.sent

module _ {e : Env} {A : Type 0} {P : Pred} {Q : A → Pred} {E : Error → Pred} where
  pub Triple-pure : (a : A) → ((d : Db) (s : List Sent) → P d s → Q a d s) → Triple e P (pure a) Q E
  unfolding pure
  Triple-pure a h = record { at = λ w p. h w.db w.sent p }

  pub Triple-if :
      (b : Bool) (m n : Exec A)
      → (b ≡ true → Triple e P m Q E)
      → (b ≡ false → Triple e P n Q E)
      → Triple e P (if b then m else n) Q E
  Triple-if true m n t f = t refl
  Triple-if false m n t f = f refl

  pub Triple-raise :
      (x : Error) → ((d : Db) (s : List Sent) → P d s → E x d s) → Triple e P (raise x) Q E
  unfolding raise
  Triple-raise x h = record { at = λ w p. h w.db w.sent p }

  pub Triple-lift :
      (r : Result A) → ((d : Db) (s : List Sent) → P d s → Ends Q E r d s) → Triple e P (lift r) Q E
  unfolding lift
  Triple-lift r h = record { at = λ w p. h w.db w.sent p }

  pub Triple-gets :
      (f : Env → Db → A)
      → ((d : Db) (s : List Sent) → P d s → Q (f e d) d s)
      → Triple e P (gets f) Q E
  unfolding gets
  Triple-gets f h = record { at = λ w p. h w.db w.sent p }

  pub Triple-ask :
      (f : Env → ℕ → A)
      → ((n : ℕ) (d : Db) (s : List Sent) → P d s → Q (f e n) d s)
      → Triple e P (ask f) Q E
  unfolding ask
  Triple-ask f h = record { at = λ w p. h w.step w.db w.sent p }

  pub Triple-or_fail :
      (f : Error → Error) (m : Exec A)
      → Triple e P m Q (λ x. E (f x))
      → Triple e P (or_fail f m) Q E
  unfolding or_fail
  Triple-or_fail f m t = record { at = λ w p. fail_with-ends Q E f (m e w).0 _ _ (t.at w p) }

  pub Triple-attempt :
      (F : Error → Pred) (m : Exec A) → Triple e P m Q E → Triple e P (attempt m) (Ends Q E) F
  unfolding attempt
  Triple-attempt F m t = record { at = λ w p. caught-ends Q E F (m e w).0 _ _ (t.at w p) }

  pub Triple-deref :
      (o : Option A)
      → ((d : Db) (s : List Sent) → P d s → (a : A) × (o ≡ some a) × Q a d s)
      → Triple e P (deref o) Q E
  unfolding deref
  Triple-deref none h = record { at = λ w p. cc ((h w.db w.sent p).1) }
  Triple-deref (some a) h = record {
    at = λ w p.
        let (b, same, q) = h w.db w.sent p in
        let back : b ≡ a = cc in subst (λ c. Q c w.db w.sent) back q;
  }

  pub Triple-send :
      (c : BankCall) (f : BankClient → ℕ → Answer A)
      → ((a : A) (n : ℕ) (d : Db) (s : List Sent)
          → P d s
          → Q a (e.others n d) (record { call = c; seen = d; at = e.others n d } ∷ s))
      → ((x : Error) (n : ℕ) (d : Db) (s : List Sent)
          → P d s
          → E x (e.others n d) (record { call = c; seen = d; at = e.others n d } ∷ s))
      → Triple e P (send c f) Q E
  unfolding send
  Triple-send c f good bad = record {
    at = λ w p.
        let now = e.others w.step w.db in
        answer_ends Q E (f e.bank w.step) now (record { call = c; seen = w.db; at = now } ∷ w.sent)
          (λ a. good a w.step w.db w.sent p) (λ x. bad x w.step w.db w.sent p);
  }

  -- After an error the tables are those of the beginning.
  pub Triple-atomically :
      (m : Exec A)
      → ((before : Db) → Triple e (λ d s. P d s × (d ≡ before)) m Q (λ x d s. E x before s))
      → Triple e P (atomically m) Q E
  unfolding atomically
  Triple-atomically m t = record {
    at = λ w p. settle-ends Q E w.db (m e w).0 (m e w).1 ((t w.db).at w (p, refl));
  }

  pub Triple-weaken :
      {P' : Pred} {Q' : A → Pred} {E' : Error → Pred} (m : Exec A)
      → ((d : Db) (s : List Sent) → P d s → P' d s)
      → ((a : A) (d : Db) (s : List Sent) → Q' a d s → Q a d s)
      → ((x : Error) (d : Db) (s : List Sent) → E' x d s → E x d s)
      → Triple e P' m Q' E'
      → Triple e P m Q E
  Triple-weaken {Q' = R} {E' = F} m before good bad t = record {
    at = λ w p.
        Ends-map R Q F E (m e w).0 _ _ (λ a. good a _ _) (λ x. bad x _ _)
          (t.at w (before w.db w.sent p));
  }

-- Two claims about one action.
pub Triple-both :
    {e : Env} {A : Type 0} {P P' : Pred} {Q R : A → Pred} {E F : Error → Pred} (m : Exec A)
    → Triple e P m Q E
    → Triple e P' m R F
    → Triple e (λ d s. P d s × P' d s) m (λ a d s. Q a d s × R a d s) (λ x d s. E x d s × F x d s)
Triple-both {e = e} {Q = Q} {R = R} {E = E} {F = F} m t u = record {
  at = λ w p. ends_both Q R E F (m e w).0 _ _ (t.at w p.0) (u.at w p.1);
}

-- A fact that the precondition holds may be used before the action runs.
pub Triple-given :
    {e : Env} {A : Type 0} {P : Pred} {F : Type 0} {Q : A → Pred} {E : Error → Pred} {m : Exec A}
    → (F → Triple e P m Q E)
    → Triple e (λ d s. P d s × F) m Q E
Triple-given t = record { at = λ w p. (t p.1).at w p.0 }

continue-ends :
    {A B : Type 0} (e : Env) (Q : A → Pred) (R : B → Pred) (E : Error → Pred) (f : A → Exec B)
    (r : Result A) (w : World)
    → Ends Q E r w.db w.sent
    → ((a : A) → Triple e (Q a) (f a) R E)
    → Ends R E (continue r f e w).0 (continue r f e w).1.db (continue r f e w).1.sent
continue-ends e Q R E f (ok a) w h t = (t a).at w h
continue-ends e Q R E f (err x) w h t = h
continue-ends e Q R E f panic w h t = h

module _ {e : Env} {A B : Type 0} {P : Pred} {Q : A → Pred} {R : B → Pred} {E : Error → Pred} where
  pub Triple-bind :
      (m : Exec A) (f : A → Exec B)
      → Triple e P m Q E
      → ((a : A) → Triple e (Q a) (f a) R E)
      → Triple e P (m >>= f) R E
  unfolding ◌>>=◌
  Triple-bind m f tm tf = record {
    at = λ w p. continue-ends e Q R E f (m e w).0 (m e w).1 (tm.at w p) tf;
  }

module _ {e : Env} {P : Pred} {Q : Unit {0} → Pred} {E : Error → Pred} where
  pub Triple-write :
      (f : Db → Answer Db)
      → ((d d' : Db) (s : List Sent) → f d ≡ reply d' → P d s → Q tt d' s)
      → ((x : Error) (d : Db) (s : List Sent) → f d ≡ fault x → P d s → E x d s)
      → Triple e P (write f) Q E
  unfolding write
  Triple-write f good bad = record {
    at = λ w p.
        wrote-ends Q E (f w.db) w (λ d' h. good w.db d' w.sent h p) (λ x h. bad x w.db w.sent h p);
  }

  pub Triple-round_trip :
      ((d : Db) (s : List Sent) → P d s → Q tt d s)
      → ((x : Error) (n : ℕ) (d : Db) (s : List Sent) → e.fault n ≡ some x → P d s → E x d s)
      → Triple e P round_trip Q E
  unfolding round_trip
  Triple-round_trip good bad = record {
    at = λ w p.
        fault_ends Q E (e.fault w.step) w.db w.sent (good w.db w.sent p)
          (λ x h. bad x w.step w.db w.sent h p);
  }

  pub Triple-fresh_round_trip :
      ((n : ℕ) (d : Db) (s : List Sent) → P d s → Q tt (e.others n d) s)
      → ((x : Error) (n : ℕ) (d : Db) (s : List Sent)
          → e.fault n ≡ some x
          → P d s
          → E x (e.others n d) s)
      → Triple e P fresh_round_trip Q E
  unfolding fresh_round_trip
  Triple-fresh_round_trip good bad = record {
    at = λ w p.
        fault_ends Q E (e.fault w.step) (e.others w.step w.db) w.sent (good w.step w.db w.sent p)
          (λ x h. bad x w.step w.db w.sent h p);
  }
