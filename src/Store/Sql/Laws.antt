-- ===== src/Store/Sql/Laws.antt =====
-- What the clauses of a query select, and in which order.
use mesthastic_caltopo_bridg.Prelude.{
  ℕ, zero, suc, ◌≡◌, refl, sym, ◌⊎◌, inl, inr, Bool, true, false, ◌&&◌, List, [], ◌∷◌, take, length,
  arith, In, here, there, All, All-In, In-All, Bool-cases, subst, if◌then◌else◌,
}
use mesthastic_caltopo_bridg.Store.Sql.{exists_row, rows_where, insert_by, order_by}

module _ {ℓ} {A : Type ℓ} where
  module _ (test : A → Bool) where
    pub exists_row-false :
        (xs : List A) (a : A) → exists_row test xs ≡ false → In a xs → test a ≡ false
    unfolding exists_row
    exists_row-false [] a h i = elim i [ ]
    exists_row-false (x ∷ xs) a h (here p) = subst (λ y. test y ≡ false) (sym p) (ground arith)
    exists_row-false (x ∷ xs) a h (there i) = exists_row-false xs a (ground arith) i

    pub exists_row-none :
        (xs : List A) → ((a : A) → In a xs → test a ≡ false) → exists_row test xs ≡ false
    unfolding exists_row
    exists_row-none [] h = refl
    exists_row-none (x ∷ xs) h =
        ground (arith, h x (here refl), exists_row-none xs (λ a i. h a (there i)))

    pub In-rows_where : (xs : List A) (a : A) → In a xs → test a ≡ true → In a (rows_where test xs)
    unfolding rows_where
    In-rows_where [] a i h = elim i [ ]
    In-rows_where (x ∷ xs) a (here p) h = rw (subst (λ y. test y ≡ true) p h) (here p)
    In-rows_where (x ∷ xs) a (there i) h = elim (Bool-cases (test x)) [
      | inl p ↦ rw p (there (In-rows_where xs a i h))
      | inr p ↦ rw p (In-rows_where xs a i h)
    ]

    keep_where :
        (x : A) (xs rest : List A) (a : A)
        → (In a rest → In a xs × (test a ≡ true))
        → (b : Bool) → test x ≡ b
        → In a (if b then x ∷ rest else rest)
        → In a (x ∷ xs) × (test a ≡ true)
    keep_where x xs rest a ih true p (here e) = (here e, subst (λ y. test y ≡ true) (sym e) p)
    keep_where x xs rest a ih true p (there i) = let r = ih i in (there r.0, r.1)
    keep_where x xs rest a ih false p i = let r = ih i in (there r.0, r.1)

    pub rows_where-In :
        (xs : List A) (a : A) → In a (rows_where test xs) → In a xs × (test a ≡ true)
    unfolding rows_where
    rows_where-In [] a i = elim i [ ]
    rows_where-In (x ∷ xs) a i =
        keep_where x xs (rows_where test xs) a (rows_where-In xs a) (test x) refl i

  pub take-In : (n : ℕ) (xs : List A) (a : A) → In a (take n xs) → In a xs
  take-In zero xs a i = elim i [ ]
  take-In (suc n) [] a i = elim i [ ]
  take-In (suc n) (x ∷ xs) a (here p) = here p
  take-In (suc n) (x ∷ xs) a (there i) = there (take-In n xs a i)

  module _ (lt : A → A → Bool) where
    -- No later row comes before an earlier one.
    abbrev pub Ordered : List A → Type ℓ
    Ordered [] = Unit
    Ordered (x ∷ xs) = All (λ y. lt y x ≡ false) xs × Ordered xs

    place_insert :
        (x y : A) (ys rest : List A) (a : A)
        → (In a rest → (a ≡ x) ⊎ In a ys)
        → (b : Bool) → In a (if b then x ∷ y ∷ ys else y ∷ rest)
        → (a ≡ x) ⊎ In a (y ∷ ys)
    place_insert x y ys rest a ih true (here p) = inl p
    place_insert x y ys rest a ih true (there i) = inr i
    place_insert x y ys rest a ih false (here p) = inr (here p)
    place_insert x y ys rest a ih false (there i) = elim (ih i) [
      | inl p ↦ inl p
      | inr k ↦ inr (there k)
    ]

    insert_by-In : (x : A) (ys : List A) (a : A) → In a (insert_by lt x ys) → (a ≡ x) ⊎ In a ys
    unfolding insert_by
    insert_by-In x [] a (here p) = inl p
    insert_by-In x [] a (there i) = elim i [ ]
    insert_by-In x (y ∷ ys) a i =
        place_insert x y ys (insert_by lt x ys) a (insert_by-In x ys a) (lt x y) i

    In-insert_by : (x : A) (ys : List A) (a : A) → (a ≡ x) ⊎ In a ys → In a (insert_by lt x ys)
    unfolding insert_by
    In-insert_by x [] a (inl p) = here p
    In-insert_by x [] a (inr i) = elim i [ ]
    In-insert_by x (y ∷ ys) a (inl p) = elim (Bool-cases (lt x y)) [
      | inl e ↦ rw e (here p)
      | inr e ↦ rw e (there (In-insert_by x ys a (inl p)))
    ]
    In-insert_by x (y ∷ ys) a (inr (here p)) = elim (Bool-cases (lt x y)) [
      | inl e ↦ rw e (there (here p))
      | inr e ↦ rw e (here p)
    ]
    In-insert_by x (y ∷ ys) a (inr (there i)) = elim (Bool-cases (lt x y)) [
      | inl e ↦ rw e (there (there i))
      | inr e ↦ rw e (there (In-insert_by x ys a (inr i)))
    ]

    pub order_by-In : (xs : List A) (a : A) → In a (order_by lt xs) → In a xs
    unfolding order_by
    order_by-In [] a i = i
    order_by-In (x ∷ xs) a i = elim (insert_by-In x (order_by lt xs) a i) [
      | inl p ↦ here p
      | inr k ↦ there (order_by-In xs a k)
    ]

    pub In-order_by : (xs : List A) (a : A) → In a xs → In a (order_by lt xs)
    unfolding order_by
    In-order_by [] a i = i
    In-order_by (x ∷ xs) a (here p) = In-insert_by x (order_by lt xs) a (inl p)
    In-order_by (x ∷ xs) a (there i) = In-insert_by x (order_by lt xs) a (inr (In-order_by xs a i))

    pub take-Ordered : (n : ℕ) (xs : List A) → Ordered xs → Ordered (take n xs)
    take-Ordered zero xs h = tt
    take-Ordered (suc n) [] h = tt
    take-Ordered (suc n) (x ∷ xs) h =
        (All-In _ (take n xs) (λ a i. In-All _ xs a h.0 (take-In n xs a i)), take-Ordered n xs h.1)

    module _ (trans : (a b c : A) → lt a b ≡ true → lt b c ≡ true → lt a c ≡ true)
        (irrefl : (a : A) → lt a a ≡ false) where
      insert_by-Ordered : (x : A) (ys : List A) → Ordered ys → Ordered (insert_by lt x ys)
      unfolding insert_by
      insert_by-Ordered x [] h = (tt, tt)
      insert_by-Ordered x (y ∷ ys) h = elim (Bool-cases (lt x y)) [
        | inl e ↦ rw e (
          (
            ground (arith, trans x y x, irrefl x),
            All-In _ ys (λ z i. ground (arith, trans z x y, In-All _ ys z h.0 i)),
          ),
          h,
        )
        | inr e ↦ rw e (
          All-In _ (insert_by lt x ys) (λ z i. elim (insert_by-In x ys z i) [
            | inl p ↦ rw p e
            | inr k ↦ In-All _ ys z h.0 k
          ]),
          insert_by-Ordered x ys h.1,
        )
      ]

      pub order_by-Ordered : (xs : List A) → Ordered (order_by lt xs)
      unfolding order_by
      order_by-Ordered [] = tt
      order_by-Ordered (x ∷ xs) = insert_by-Ordered x (order_by lt xs) (order_by-Ordered xs)

      -- None of the rows passes the test.
      abbrev NoRow : (A → Bool) → List A → Type ℓ
      NoRow test xs = (a : A) → In a xs → test a ≡ false

      -- A row passes the test, and none that does comes before it.
      abbrev FirstRow : (A → Bool) → List A → A → Type ℓ
      FirstRow test xs m =
          In m xs × (test m ≡ true) × ((a : A) → In a xs → test a ≡ true → lt a m ≡ false)

      NoRow-cons :
          (test : A → Bool) (x : A) (xs : List A)
          → test x ≡ false
          → NoRow test xs
          → NoRow test (x ∷ xs)
      NoRow-cons test x xs p h a (here e) = subst (λ y. test y ≡ false) (sym e) p
      NoRow-cons test x xs p h a (there i) = h a i

      first_alone :
          (test : A → Bool) (x : A) (xs : List A)
          → test x ≡ true
          → NoRow test xs
          → (a : A) → In a (x ∷ xs)
          → test a ≡ true
          → lt a x ≡ false
      first_alone test x xs p h a (here e) q = subst (λ y. lt y x ≡ false) (sym e) (irrefl x)
      first_alone test x xs p h a (there i) q = absurd (ground (arith, h a i))

      first_new :
          (test : A → Bool) (x m : A) (xs : List A)
          → lt x m ≡ true
          → FirstRow test xs m
          → (a : A) → In a (x ∷ xs)
          → test a ≡ true
          → lt a x ≡ false
      first_new test x m xs e f a (here p) q = subst (λ y. lt y x ≡ false) (sym p) (irrefl x)
      first_new test x m xs e f a (there i) q = ground (arith, trans a x m, f.2 a i q)

      first_old :
          (test : A → Bool) (x m : A) (xs : List A)
          → (test x ≡ true → lt x m ≡ false)
          → FirstRow test xs m
          → (a : A) → In a (x ∷ xs)
          → test a ≡ true
          → lt a m ≡ false
      first_old test x m xs e f a (here p) q =
          subst (λ y. lt y m ≡ false) (sym p) (e (subst (λ y. test y ≡ true) p q))
      first_old test x m xs e f a (there i) q = f.2 a i q

      -- Of the rows that pass a test, if there is one, some row has none before it.
      pub first_where :
          (test : A → Bool) (xs : List A) → NoRow test xs ⊎ ((m : A) × FirstRow test xs m)
      first_where test [] = inl (λ a i. elim i [ ])
      first_where test (x ∷ xs) = choose (first_where test xs)
        where
          choose :
              NoRow test xs ⊎ ((m : A) × FirstRow test xs m)
              → NoRow test (x ∷ xs) ⊎ ((m : A) × FirstRow test (x ∷ xs) m)
          choose (inl none) = elim (Bool-cases (test x)) [
            | inl p ↦ inr (x, (here refl, p, first_alone test x xs p none))
            | inr p ↦ inl (NoRow-cons test x xs p none)
          ]
          choose (inr (m, f)) = elim (Bool-cases (test x && lt x m)) [
            | inl p ↦ inr (x, (here refl, ground arith, first_new test x m xs (ground arith) f))
            | inr p ↦ inr (m, (there f.0, f.1, first_old test x m xs (λ q. ground arith) f))
          ]

  module _ (lt : A → A → Bool) where
    length-insert_by : (x : A) (ys : List A) → length (insert_by lt x ys) ≡ suc (length ys)
    unfolding insert_by
    length-insert_by x [] = refl
    length-insert_by x (y ∷ ys) = ground (arith, length-insert_by x ys)

    pub length-order_by : (xs : List A) → length (order_by lt xs) ≡ length xs
    unfolding order_by
    length-order_by [] = refl
    length-order_by (x ∷ xs) =
        omega (arith, length-insert_by x (order_by lt xs), length-order_by xs)
