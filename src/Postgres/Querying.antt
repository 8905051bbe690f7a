-- ===== src/Postgres/Querying.antt =====
-- What WHERE, ORDER BY and LIMIT keep of a list of rows.
use mathlib.Core.List.{Memᴰ}
use mathlib.Core.List.Memᴰ
use ficmart_payment_gateway.Prelude.{
  ℕ, zero, suc, ◌≤◌, ◌≡◌, refl, sym, ◌∙◌, ap, subst, Bool, true, false, ◌⊎◌, inl, inr, List, [],
  ◌∷◌, All, length, arith, if◌then◌else◌,
}
use ficmart_payment_gateway.Postgres.Payments.{where_rows, insert_ordered, order_by, take}

module _ {A : Type 0} (keep : A → Bool) where
  pub where_rows_sound :
      {x : A} (xs : List A) → Memᴰ x (where_rows keep xs) → Memᴰ x xs × (keep x ≡ true)
  unfolding where_rows
  where_rows_sound [] d = absurd (Memᴰ.not-nil d)
  where_rows_sound {x} (y ∷ ys) d = split (λ d. where_rows_sound ys d) (keep y) refl d
    where
      split :
          (Memᴰ x (where_rows keep ys) → Memᴰ x ys × (keep x ≡ true))
          → (b : Bool) → keep y ≡ b
          → Memᴰ x (if b then y ∷ where_rows keep ys else where_rows keep ys)
          → Memᴰ x (y ∷ ys) × (keep x ≡ true)
      split rest true e (Memᴰ.head f) = (Memᴰ.head f, ap keep f ∙ e)
      split rest true e (Memᴰ.tail d) = let h = rest d in (Memᴰ.tail h.0, h.1)
      split rest false e d = let h = rest d in (Memᴰ.tail h.0, h.1)

  pub where_rows_complete :
      {x : A} (xs : List A) → Memᴰ x xs → keep x ≡ true → Memᴰ x (where_rows keep xs)
  unfolding where_rows
  where_rows_complete [] d k = absurd (Memᴰ.not-nil d)
  where_rows_complete {x} (y ∷ ys) d k = split (λ d. where_rows_complete ys d k) (keep y) refl d
    where
      split :
          (Memᴰ x ys → Memᴰ x (where_rows keep ys))
          → (b : Bool) → keep y ≡ b
          → Memᴰ x (y ∷ ys)
          → Memᴰ x (if b then y ∷ where_rows keep ys else where_rows keep ys)
      split rest true e (Memᴰ.head f) = Memᴰ.head f
      split rest true e (Memᴰ.tail d) = Memᴰ.tail (rest d)
      split rest false e (Memᴰ.head f) = let g = ap keep f in ground (arith, e, k, g)
      split rest false e (Memᴰ.tail d) = rest d

module _ {A : Type 0} where
  All-map : {P Q : A → Type 0} (xs : List A) → ((x : A) → P x → Q x) → All P xs → All Q xs
  All-map [] f all = tt
  All-map (x ∷ xs) f all = (f x all.0, All-map xs f all.1)

  All-Mem : (P : A → Type 0) {x : A} (xs : List A) → All P xs → Memᴰ x xs → P x
  All-Mem P [] all d = absurd (Memᴰ.not-nil d)
  All-Mem P (y ∷ ys) all (Memᴰ.head f) = subst P (sym f) all.0
  All-Mem P (y ∷ ys) all (Memᴰ.tail d) = All-Mem P ys all.1 d

  take-All : (P : A → Type 0) (n : ℕ) (xs : List A) → All P xs → All P (take n xs)
  take-All P zero xs all = tt
  take-All P (suc n) [] all = tt
  take-All P (suc n) (y ∷ ys) all = (all.0, take-All P n ys all.1)

  swap : {x p q : A} {qs : List A} → Memᴰ x (p ∷ qs) → Memᴰ x (p ∷ q ∷ qs)
  swap (Memᴰ.head f) = Memᴰ.head f
  swap (Memᴰ.tail d) = Memᴰ.tail (Memᴰ.tail d)

module _ {A : Type 0} (before : A → A → Bool) where
  -- Each row may stand before all that follow it.
  abbrev pub Ordered : List A → Type 0
  Ordered [] = Unit
  Ordered (x ∷ xs) = All (λ (y : A). before x y ≡ true) xs × Ordered xs

  insert_ordered_sound :
      {x : A} (p : A) (qs : List A) → Memᴰ x (insert_ordered before p qs) → Memᴰ x (p ∷ qs)
  unfolding insert_ordered
  insert_ordered_sound p [] d = d
  insert_ordered_sound {x} p (q ∷ qs) d = split (λ d. insert_ordered_sound p qs d) (before p q) d
    where
      split :
          (Memᴰ x (insert_ordered before p qs) → Memᴰ x (p ∷ qs))
          → (b : Bool) → Memᴰ x (if b then p ∷ q ∷ qs else q ∷ insert_ordered before p qs)
          → Memᴰ x (p ∷ q ∷ qs)
      split rest true d = d
      split rest false (Memᴰ.head f) = Memᴰ.tail (Memᴰ.head f)
      split rest false (Memᴰ.tail d) = swap (rest d)

  insert_ordered_complete :
      {x : A} (p : A) (qs : List A) → Memᴰ x (p ∷ qs) → Memᴰ x (insert_ordered before p qs)
  unfolding insert_ordered
  insert_ordered_complete p [] d = d
  insert_ordered_complete {x} p (q ∷ qs) d =
      split (λ d. insert_ordered_complete p qs d) (before p q) d
    where
      split :
          (Memᴰ x (p ∷ qs) → Memᴰ x (insert_ordered before p qs))
          → (b : Bool) → Memᴰ x (p ∷ q ∷ qs)
          → Memᴰ x (if b then p ∷ q ∷ qs else q ∷ insert_ordered before p qs)
      split rest true d = d
      split rest false (Memᴰ.head f) = Memᴰ.tail (rest (Memᴰ.head f))
      split rest false (Memᴰ.tail (Memᴰ.head f)) = Memᴰ.head f
      split rest false (Memᴰ.tail (Memᴰ.tail d)) = Memᴰ.tail (rest (Memᴰ.tail d))

  pub order_by_sound : {x : A} (xs : List A) → Memᴰ x (order_by before xs) → Memᴰ x xs
  unfolding order_by
  order_by_sound [] d = d
  order_by_sound {x} (y ∷ ys) d =
      from (λ d. order_by_sound ys d) (insert_ordered_sound y (order_by before ys) d)
    where
      from :
          (Memᴰ x (order_by before ys) → Memᴰ x ys)
          → Memᴰ x (y ∷ order_by before ys)
          → Memᴰ x (y ∷ ys)
      from rest (Memᴰ.head f) = Memᴰ.head f
      from rest (Memᴰ.tail d) = Memᴰ.tail (rest d)

  pub order_by_complete : {x : A} (xs : List A) → Memᴰ x xs → Memᴰ x (order_by before xs)
  unfolding order_by
  order_by_complete [] d = d
  order_by_complete (y ∷ ys) (Memᴰ.head f) =
      insert_ordered_complete y (order_by before ys) (Memᴰ.head f)
  order_by_complete (y ∷ ys) (Memᴰ.tail d) =
      insert_ordered_complete y (order_by before ys) (Memᴰ.tail (order_by_complete ys d))

  insert_ordered-All :
      (P : A → Type 0) (p : A) (qs : List A) → P p → All P qs → All P (insert_ordered before p qs)
  unfolding insert_ordered
  insert_ordered-All P p [] h all = (h, tt)
  insert_ordered-All P p (q ∷ qs) h all = split (insert_ordered-All P p qs h all.1) (before p q)
    where
      split :
          All P (insert_ordered before p qs)
          → (b : Bool) → All P (if b then p ∷ q ∷ qs else q ∷ insert_ordered before p qs)
      split rest true = (h, all)
      split rest false = (all.0, rest)

  -- The first rows of an ordered list: a row that is left out is not before any that is taken.
  pub take_complete :
      {x : A} (n : ℕ) (xs : List A)
      → Ordered xs
      → Memᴰ x xs
      → Memᴰ x (take n xs)
        ⊎ ((length (take n xs) ≡ n) × All (λ (y : A). before y x ≡ true) (take n xs))
  take_complete zero xs o d = inr (refl, tt)
  take_complete (suc n) [] o d = absurd (Memᴰ.not-nil d)
  take_complete (suc n) (y ∷ ys) o (Memᴰ.head f) = inl (Memᴰ.head f)
  take_complete (suc n) (y ∷ ys) o (Memᴰ.tail d) = elim (take_complete n ys o.1 d) [
    | inl there ↦ inl (Memᴰ.tail there)
    | inr full ↦ inr (ap suc full.0, (All-Mem (λ z. before y z ≡ true) ys o.0 d, full.1))
  ]

  pub take_sound : {x : A} (n : ℕ) (xs : List A) → Memᴰ x (take n xs) → Memᴰ x xs
  take_sound zero xs d = absurd (Memᴰ.not-nil d)
  take_sound (suc n) [] d = d
  take_sound (suc n) (y ∷ ys) (Memᴰ.head f) = Memᴰ.head f
  take_sound (suc n) (y ∷ ys) (Memᴰ.tail d) = Memᴰ.tail (take_sound n ys d)

  pub take-Ordered : (n : ℕ) (xs : List A) → Ordered xs → Ordered (take n xs)
  take-Ordered zero xs o = tt
  take-Ordered (suc n) [] o = tt
  take-Ordered (suc n) (y ∷ ys) o =
      (take-All (λ z. before y z ≡ true) n ys o.0, take-Ordered n ys o.1)

  pub length-take : (n : ℕ) (xs : List A) → length (take n xs) ≤ n
  length-take zero xs = omega arith
  length-take (suc n) [] = omega arith
  length-take (suc n) (y ∷ ys) = let h = length-take n ys in omega (arith, h)

  module _ (total : (x y : A) → before x y ≡ false → before y x ≡ true)
      (trans : (x y z : A) → before x y ≡ true → before y z ≡ true → before x z ≡ true) where
    insert_ordered-Ordered :
        (p : A) (qs : List A) → Ordered qs → Ordered (insert_ordered before p qs)
    unfolding insert_ordered
    insert_ordered-Ordered p [] o = (tt, tt)
    insert_ordered-Ordered p (q ∷ qs) o = split (insert_ordered-Ordered p qs o.1) (before p q) refl
      where
        split :
            Ordered (insert_ordered before p qs)
            → (b : Bool) → before p q ≡ b
            → Ordered (if b then p ∷ q ∷ qs else q ∷ insert_ordered before p qs)
        split rest true e = ((e, All-map qs (λ r. trans p q r e) o.0), o)
        split rest false e =
            (insert_ordered-All (λ r. before q r ≡ true) p qs (total p q e) o.0, rest)

    pub order_by-Ordered : (xs : List A) → Ordered (order_by before xs)
    unfolding order_by
    order_by-Ordered [] = tt
    order_by-Ordered (x ∷ xs) = insert_ordered-Ordered x (order_by before xs) (order_by-Ordered xs)
