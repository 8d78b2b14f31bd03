-- ===== src/Table.antt =====
-- The hash tables of the database, as lists in the order of insertion (the order of `HASH_ITER`).
-- An entry is an object with an address, which `malloc` gave it and by which a timeslot knows it.
pub mod Safety
use des_aodv.Common.{
  ℕ, ◌≡◌, refl, ap, Bool, true, false, Option, none, some, List, [], ◌∷◌, ◌++◌, ◌==◌, if◌then◌else◌,
  arith, Option-cases, is_some, Bool-cases, inl, inr,
}

module _ {ℓ} {A : Type ℓ} where
  -- `HASH_FIND`
  abbrev pub find : (A → Bool) → List A → Option A
  find p [] = none
  find p (x ∷ xs) = if p x then some x else find p xs

  -- `HASH_DEL`
  abbrev pub remove : (A → Bool) → List A → List A
  remove p [] = []
  remove p (x ∷ xs) = if p x then xs else x ∷ remove p xs

  -- an assignment through the pointer that `HASH_FIND` gave
  abbrev pub modify : (A → Bool) → (A → A) → List A → List A
  modify p f [] = []
  modify p f (x ∷ xs) = if p x then f x ∷ xs else x ∷ modify p f xs

  -- `HASH_ADD_KEYPTR`
  abbrev pub add : A → List A → List A
  add x xs = xs ++ (x ∷ [])

  -- What is found passes the test.
  pub find_holds : (p : A → Bool) (xs : List A) (x : A) → find p xs ≡ some x → p x ≡ true
  find_holds p [] x h = absurd (cc)
  find_holds p (y ∷ xs) x h = ground (arith, find_holds p xs x)

  pub find-add :
      (p : A → Bool) (x : A) (xs : List A)
      → find p (add x xs)
        ≡ (if is_some (find p xs) then find p xs else if p x then some x else none)
  find-add p x [] = ground arith
  find-add p x (y ∷ xs) = ground (arith, find-add p x xs)

  -- An assignment that keeps the key keeps what is found by the key.
  pub find-modify_self :
      (p : A → Bool) (f : A → A) (xs : List A) (x : A)
      → ((y : A) → p (f y) ≡ p y)
      → find p xs ≡ some x
      → find p (modify p f xs) ≡ some (f x)
  find-modify_self p f [] x same h = absurd (cc)
  find-modify_self p f (y ∷ xs) x same h = ground (arith, same y, find-modify_self p f xs x same)

  -- An assignment to an entry that the other test does not hold for.
  pub find-modify_other :
      (p q : A → Bool) (f : A → A) (xs : List A)
      → ((y : A) → q (f y) ≡ q y)
      → ((y : A) → p y ≡ true → q y ≡ false)
      → find q (modify p f xs) ≡ find q xs
  find-modify_other p q f [] same apart = refl
  find-modify_other p q f (y ∷ xs) same apart =
      ground (arith, same y, apart y, find-modify_other p q f xs same apart)

  -- An assignment that changes nothing the second time.
  pub modify_twice :
      (p : A → Bool) (f : A → A) (xs : List A)
      → ((y : A) → p (f y) ≡ p y)
      → ((y : A) → f (f y) ≡ f y)
      → modify p f (modify p f xs) ≡ modify p f xs
  modify_twice p f [] same again = refl
  modify_twice p f (y ∷ xs) same again = elim (Bool-cases (p y)) [
    | inl here ↦ rw (here, same y, here, again y) refl
    | inr there ↦ rw (there, there) (ap (λ l. y ∷ l) (modify_twice p f xs same again))
  ]

  pub is_some-find-modify :
      (p q : A → Bool) (f : A → A) (xs : List A)
      → ((y : A) → q (f y) ≡ q y)
      → is_some (find q (modify p f xs)) ≡ is_some (find q xs)
  is_some-find-modify p q f [] same = refl
  is_some-find-modify p q f (y ∷ xs) same =
      ground (arith, same y, is_some-find-modify p q f xs same)

  -- Removing entries makes none appear.
  pub find-remove-none :
      (p q : A → Bool) (xs : List A) → find p xs ≡ none → find p (remove q xs) ≡ none
  find-remove-none p q [] h = refl
  find-remove-none p q (y ∷ xs) h = ground (arith, find-remove-none p q xs)

  pub is_some-find-remove :
      (p q : A → Bool) (xs : List A)
      → is_some (find q xs) ≡ false
      → is_some (find q (remove p xs)) ≡ false
  is_some-find-remove p q [] h = refl
  is_some-find-remove p q (y ∷ xs) h = ground (arith, is_some-find-remove p q xs)

  module _ (self : A → ℕ) where
    -- what an address points to
    abbrev pub at_address : ℕ → A → Bool
    at_address o x = self x == o

    -- No two entries share an address.
    abbrev pub Apart : List A → Type 0
    Apart [] = Unit {0}
    Apart (x ∷ xs) = (is_some (find (at_address (self x)) xs) ≡ false) × Apart xs

    pub find-remove :
        (o q : ℕ) (xs : List A)
        → Apart xs
        → is_some (find (at_address q) (remove (at_address o) xs))
          ≡ (if o == q then false else is_some (find (at_address q) xs))
    find-remove o q [] a = ground arith
    find-remove o q (x ∷ xs) a = ground (arith, find-remove o q xs a.1)

    pub remove-Apart : (o : ℕ) (xs : List A) → Apart xs → Apart (remove (at_address o) xs)
    remove-Apart o [] a = tt
    remove-Apart o (x ∷ xs) a = ground (arith, remove-Apart o xs a.1, find-remove o (self x) xs a.1)

    -- Whichever entry is removed, the others stay apart.
    pub remove_any-Apart : (p : A → Bool) (xs : List A) → Apart xs → Apart (remove p xs)
    remove_any-Apart p [] a = tt
    remove_any-Apart p (x ∷ xs) a =
        ground (arith, remove_any-Apart p xs a.1, is_some-find-remove p (at_address (self x)) xs)

    pub add-Apart :
        (x : A) (xs : List A)
        → is_some (find (at_address (self x)) xs) ≡ false
        → Apart xs
        → Apart (add x xs)
    add-Apart x [] n a = ground arith
    add-Apart x (y ∷ xs) n a = ground (arith, add-Apart x xs, find-add (at_address (self y)) x xs)

    pub modify-Apart :
        (p : A → Bool) (f : A → A) (xs : List A)
        → ((y : A) → self (f y) ≡ self y)
        → Apart xs
        → Apart (modify p f xs)
    modify-Apart p f [] same a = tt
    modify-Apart p f (y ∷ xs) same a = ground (
      arith,
      same y,
      modify-Apart p f xs same a.1,
      is_some-find-modify p (at_address (self y)) f xs (λ x. ap (λ n. n == self y) (same x)),
    )

    -- Removing another entry does not change what is found.
    pub find-remove_ne :
        (p : A → Bool) (o : ℕ) (xs : List A) (x : A)
        → find p xs ≡ some x
        → (self x == o) ≡ false
        → find p (remove (at_address o) xs) ≡ some x
    find-remove_ne p o [] x h n = absurd (cc)
    find-remove_ne p o (y ∷ xs) x h n = ground (arith, find-remove_ne p o xs x)

    -- What is found is an entry.
    pub find-at_address :
        (p : A → Bool) (xs : List A) (x : A)
        → find p xs ≡ some x
        → is_some (find (at_address (self x)) xs) ≡ true
    find-at_address p [] x h = absurd (cc)
    find-at_address p (y ∷ xs) x h = ground (arith, find-at_address p xs x)
