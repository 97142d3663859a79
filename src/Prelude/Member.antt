-- ===== src/Prelude/Member.antt =====
-- Membership as data, and how the list operations carry it.
use mathlib.Core.List.{Memᴰ, Permᴰ}
use tf2_archipelago.Prelude.{
  ◌≡◌, refl, ap, subst, ◌⊎◌, inl, inr, some, Bool, true, List, [], ◌∷◌, ◌++◌, map, arith, first,
  length, ℕ, zero, suc, ◌∙◌, take, drop, false, keep, if◌then◌else◌, last_where, Bool-cases,
  Option-cases,
}

module _ {ℓ} {A : Type ℓ} where
  pub not_Memᴰ-nil : (a : A) → Memᴰ a [] → ⊥
  not_Memᴰ-nil a h = elim h [ ]

  pub Memᴰ-append_left : (a : A) (xs ys : List A) → Memᴰ a xs → Memᴰ a (xs ++ ys)
  Memᴰ-append_left a [] ys h = elim h [ ]
  Memᴰ-append_left a (x ∷ xs) ys (Memᴰ.head e) = Memᴰ.head e
  Memᴰ-append_left a (x ∷ xs) ys (Memᴰ.tail h) = Memᴰ.tail (Memᴰ-append_left a xs ys h)

  pub Memᴰ-append_right : (a : A) (xs ys : List A) → Memᴰ a ys → Memᴰ a (xs ++ ys)
  Memᴰ-append_right a [] ys h = h
  Memᴰ-append_right a (x ∷ xs) ys h = Memᴰ.tail (Memᴰ-append_right a xs ys h)

  pub Memᴰ-append : (a : A) (xs ys : List A) → Memᴰ a (xs ++ ys) → Memᴰ a xs ⊎ Memᴰ a ys
  Memᴰ-append a [] ys h = inr h
  Memᴰ-append a (x ∷ xs) ys (Memᴰ.head e) = inl (Memᴰ.head e)
  Memᴰ-append a (x ∷ xs) ys (Memᴰ.tail h) = elim (Memᴰ-append a xs ys h) [
    | inl l ↦ inl (Memᴰ.tail l)
    | inr r ↦ inr r
  ]

  pub Memᴰ-map {κ} :
      {B : Type κ} (f : A → B) (a : A) (xs : List A) → Memᴰ a xs → Memᴰ (f a) (map f xs)
  Memᴰ-map f a [] h = elim h [ ]
  Memᴰ-map f a (x ∷ xs) (Memᴰ.head e) = Memᴰ.head (ap f e)
  Memᴰ-map f a (x ∷ xs) (Memᴰ.tail h) = Memᴰ.tail (Memᴰ-map f a xs h)

  pub Memᴰ-map_back {κ} :
      {B : Type κ} (f : A → B) (b : B) (xs : List A)
      → Memᴰ b (map f xs)
      → (a : A) × Memᴰ a xs × (b ≡ f a)
  Memᴰ-map_back f b [] h = elim h [ ]
  Memᴰ-map_back f b (x ∷ xs) (Memᴰ.head e) = (x, Memᴰ.head refl, e)
  Memᴰ-map_back f b (x ∷ xs) (Memᴰ.tail h) =
      let (a, i, e) = Memᴰ-map_back f b xs h in (a, Memᴰ.tail i, e)

  -- What a search finds is in the list and passes the test.
  pub last_where-Memᴰ :
      (p : A → Bool) (a : A) (xs : List A) → last_where p xs ≡ some a → Memᴰ a xs × (p a ≡ true)
  last_where-Memᴰ p a [] h = cc
  last_where-Memᴰ p a (x ∷ xs) h = elim (Option-cases (last_where p xs)) [
    | inl e ↦ elim (Bool-cases (p x)) [
      | inl px ↦ let same : a ≡ x = ground arith in (Memᴰ.head same, rw same px)
      | inr px ↦ ground arith
    ]
    | inr (y, e) ↦
        let same : y ≡ a = ground arith in
        let (i, q) = last_where-Memᴰ p y xs e in
        (Memᴰ.tail (subst (λ z. Memᴰ z xs) same i), subst (λ z. p z ≡ true) same q)
  ]

  -- A search for what is there finds something.
  pub last_where_found :
      (p : A → Bool) (a : A) (xs : List A)
      → Memᴰ a xs
      → p a ≡ true
      → (b : A) × (last_where p xs ≡ some b)
  last_where_found p a [] h t = elim h [ ]
  last_where_found p a (x ∷ xs) (Memᴰ.head e) t = elim (Option-cases (last_where p xs)) [
    | inl n ↦ (x, rw (n, ← e, t))
    | inr (y, s) ↦ (y, rw s)
  ]
  last_where_found p a (x ∷ xs) (Memᴰ.tail h) t =
      let (b, s) = last_where_found p a xs h t in (b, rw s)

  Memᴰ-if :
      (b : Bool) (a x : A) (xs : List A)
      → Memᴰ a (if b then x ∷ xs else xs)
      → ((b ≡ true) × (a ≡ x)) ⊎ Memᴰ a xs
  Memᴰ-if true a x xs (Memᴰ.head s) = inl (refl, s)
  Memᴰ-if true a x xs (Memᴰ.tail i) = inr i
  Memᴰ-if false a x xs i = inr i

  pub Memᴰ-keep :
      (p : A → Bool) (a : A) (xs : List A) → Memᴰ a (keep p xs) → Memᴰ a xs × (p a ≡ true)
  Memᴰ-keep p a [] h = elim h [ ]
  Memᴰ-keep p a (x ∷ xs) h = elim (Memᴰ-if (p x) a x (keep p xs) h) [
    | inl (e, s) ↦ (Memᴰ.head s, rw s e)
    | inr i ↦ let (j, q) = Memᴰ-keep p a xs i in (Memᴰ.tail j, q)
  ]

  pub Memᴰ-keep_back :
      (p : A → Bool) (a : A) (xs : List A) → Memᴰ a xs → p a ≡ true → Memᴰ a (keep p xs)
  Memᴰ-keep_back p a [] h t = elim h [ ]
  Memᴰ-keep_back p a (x ∷ xs) (Memᴰ.head e) t = rw (subst (λ z. p z ≡ true) e t) (Memᴰ.head e)
  Memᴰ-keep_back p a (x ∷ xs) (Memᴰ.tail h) t = elim (Bool-cases (p x)) [
    | inl e ↦ rw e (Memᴰ.tail (Memᴰ-keep_back p a xs h t))
    | inr e ↦ rw e (Memᴰ-keep_back p a xs h t)
  ]

  pub Memᴰ-Permᴰ : (a : A) {xs ys : List A} → Permᴰ xs ys → Memᴰ a xs → Memᴰ a ys
  Memᴰ-Permᴰ a Permᴰ.nil h = h
  Memᴰ-Permᴰ a (Permᴰ.cons e p) (Memᴰ.head s) = Memᴰ.head (s ∙ e)
  Memᴰ-Permᴰ a (Permᴰ.cons e p) (Memᴰ.tail h) = Memᴰ.tail (Memᴰ-Permᴰ a p h)
  Memᴰ-Permᴰ a (Permᴰ.swap e f) (Memᴰ.head s) = Memᴰ.tail (Memᴰ.head (s ∙ e))
  Memᴰ-Permᴰ a (Permᴰ.swap e f) (Memᴰ.tail (Memᴰ.head s)) = Memᴰ.head (s ∙ f)
  Memᴰ-Permᴰ a (Permᴰ.swap e f) (Memᴰ.tail (Memᴰ.tail h)) = Memᴰ.tail (Memᴰ.tail h)
  Memᴰ-Permᴰ a (Permᴰ.trans p q) h = Memᴰ-Permᴰ a q (Memᴰ-Permᴰ a p h)

  pub Memᴰ-take : (n : ℕ) (a : A) (xs : List A) → Memᴰ a (take n xs) → Memᴰ a xs
  Memᴰ-take zero a xs h = elim h [ ]
  Memᴰ-take (suc n) a [] h = elim h [ ]
  Memᴰ-take (suc n) a (x ∷ xs) (Memᴰ.head e) = Memᴰ.head e
  Memᴰ-take (suc n) a (x ∷ xs) (Memᴰ.tail h) = Memᴰ.tail (Memᴰ-take n a xs h)

  pub Memᴰ-drop : (n : ℕ) (a : A) (xs : List A) → Memᴰ a (drop n xs) → Memᴰ a xs
  Memᴰ-drop zero a xs h = h
  Memᴰ-drop (suc n) a [] h = elim h [ ]
  Memᴰ-drop (suc n) a (x ∷ xs) h = Memᴰ.tail (Memᴰ-drop n a xs h)

  pub length-Permᴰ : {xs ys : List A} → Permᴰ xs ys → length xs ≡ length ys
  length-Permᴰ Permᴰ.nil = refl
  length-Permᴰ (Permᴰ.cons e p) = ap suc (length-Permᴰ p)
  length-Permᴰ (Permᴰ.swap e f) = refl
  length-Permᴰ (Permᴰ.trans p q) = length-Permᴰ p ∙ length-Permᴰ q

  -- A loop that returns at the first element that passes finds one, when one is there.
  pub first_found :
      (p : A → Bool) (a : A) (xs : List A)
      → Memᴰ a xs
      → p a ≡ true
      → (b : A) × (first p xs ≡ some b)
  first_found p a [] h t = elim h [ ]
  first_found p a (x ∷ xs) (Memᴰ.head e) t = (x, rw (subst (λ z. p z ≡ true) e t) refl)
  first_found p a (x ∷ xs) (Memᴰ.tail h) t = elim (Bool-cases (p x)) [
    | inl e ↦ (x, rw e refl)
    | inr e ↦ let (b, s) = first_found p a xs h t in (b, rw e s)
  ]
