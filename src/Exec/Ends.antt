-- ===== src/Exec/Ends.antt =====
-- Claims about the tables and the calls where an action ends.
use ficmart_payment_gateway.Prelude.{◌≡◌, refl, Option, none, some, List}
use ficmart_payment_gateway.Failure.{Error}
use ficmart_payment_gateway.Bank.Retry.{Answer, reply, fault}
use ficmart_payment_gateway.Store.{Db}
use ficmart_payment_gateway.Exec.{
  Result, ok, err, panic, Sent, World, wrote, fail_with, caught, fault_or, settle, from_answer,
}

abbrev pub Pred : Type 1
Pred = Db → List Sent → Type 0

-- The result `r` in the tables `d`, with the calls `s` sent.
abbrev pub Ends : {A : Type 0} → (A → Pred) → (Error → Pred) → Result A → Pred
Ends Q E (ok a) d s = Q a d s
Ends Q E (err x) d s = E x d s
Ends Q E panic d s = ⊥

pub fail_with-ends :
    {A : Type 0} (Q : A → Pred) (E : Error → Pred) (f : Error → Error) (r : Result A) (d : Db)
    (s : List Sent)
    → Ends Q (λ x. E (f x)) r d s
    → Ends Q E (fail_with f r) d s
fail_with-ends Q E f (ok a) d s h = h
fail_with-ends Q E f (err x) d s h = h
fail_with-ends Q E f panic d s h = h

pub caught-ends :
    {A : Type 0} (Q : A → Pred) (E F : Error → Pred) (r : Result A) (d : Db) (s : List Sent)
    → Ends Q E r d s
    → Ends (Ends Q E) F (caught r) d s
caught-ends Q E F (ok a) d s h = h
caught-ends Q E F (err x) d s h = h
caught-ends Q E F panic d s h = h

pub fault_ends :
    (Q : Unit {0} → Pred) (E : Error → Pred) (o : Option Error) (d : Db) (s : List Sent)
    → Q tt d s
    → ((x : Error) → o ≡ some x → E x d s)
    → Ends Q E (fault_or o tt) d s
fault_ends Q E none d s q f = q
fault_ends Q E (some x) d s q f = f x refl

pub wrote-ends :
    (Q : Unit {0} → Pred) (E : Error → Pred) (a : Answer Db) (w : World)
    → ((d : Db) → a ≡ reply d → Q tt d w.sent)
    → ((x : Error) → a ≡ fault x → E x w.db w.sent)
    → Ends Q E (wrote a w).0 (wrote a w).1.db (wrote a w).1.sent
wrote-ends Q E (reply d) w f g = f d refl
wrote-ends Q E (fault x) w f g = g x refl

-- A weaker claim about an end.
pub Ends-map :
    {A : Type 0} (Q R : A → Pred) (E F : Error → Pred) (r : Result A) (d : Db) (s : List Sent)
    → ((a : A) → Q a d s → R a d s)
    → ((x : Error) → E x d s → F x d s)
    → Ends Q E r d s
    → Ends R F r d s
Ends-map Q R E F (ok a) d s f g h = f a h
Ends-map Q R E F (err x) d s f g h = g x h
Ends-map Q R E F panic d s f g h = h

pub ends_both :
    {A : Type 0} (Q R : A → Pred) (E F : Error → Pred) (r : Result A) (d : Db) (s : List Sent)
    → Ends Q E r d s
    → Ends R F r d s
    → Ends (λ a d s. Q a d s × R a d s) (λ x d s. E x d s × F x d s) r d s
ends_both Q R E F (ok a) d s h k = (h, k)
ends_both Q R E F (err x) d s h k = (h, k)
ends_both Q R E F panic d s h k = h

pub settle-ends :
    {A : Type 0} (Q : A → Pred) (E : Error → Pred) (before : Db) (r : Result A) (w : World)
    → Ends Q (λ x d s. E x before s) r w.db w.sent
    → Ends Q E (settle before (r, w)).0 (settle before (r, w)).1.db (settle before (r, w)).1.sent
settle-ends Q E before (ok a) w h = h
settle-ends Q E before (err x) w h = h
settle-ends Q E before panic w h = h

pub answer_ends :
    {A : Type 0} (Q : A → Pred) (E : Error → Pred) (a : Answer A) (d : Db) (s : List Sent)
    → ((v : A) → Q v d s)
    → ((x : Error) → E x d s)
    → Ends Q E (from_answer a) d s
answer_ends Q E (reply v) d s f g = f v
answer_ends Q E (fault x) d s f g = g x
