-- ===== src/Feed/Ring.antt =====
-- The laws that both rings rest on: what a list is that drops its oldest entries past a capacity, and
-- what the entries past a number are when they are numbered in order.
use tf2_archipelago.Prelude.{
  ℕ, zero, suc, ◌+◌, ◌-◌, ◌≤◌, ◌≡◌, refl, sym, ap, ◌∙◌, true, false, List, [], ◌∷◌, ◌++◌, arith,
  ltb, length, drop, keep,
}
use tf2_archipelago.Prelude.Laws.{length-append, length-drop}

module _ {ℓ} {A : Type ℓ} where
  -- The newest entries, `capacity` of them at most.
  abbrev pub newest : ℕ → List A → List A
  newest capacity xs = drop (length xs - capacity) xs

  drop-append : (k : ℕ) (xs ys : List A) → k ≤ length xs → drop k xs ++ ys ≡ drop k (xs ++ ys)
  drop-append zero xs ys h = refl
  drop-append (suc k) [] ys h = absurd (omega arith)
  drop-append (suc k) (x ∷ xs) ys h = drop-append k xs ys (omega arith)

  drop_nil : (n : ℕ) → drop {A = A} n [] ≡ []
  drop_nil zero = refl
  drop_nil (suc n) = refl

  drop-drop : (m k : ℕ) (xs : List A) → drop m (drop k xs) ≡ drop (k + m) xs
  drop-drop m zero xs = ap (λ n. drop n xs) (omega arith)
  drop-drop m (suc k) [] = drop_nil m ∙ sym (drop_nil (suc k + m))
  drop-drop m (suc k) (x ∷ xs) =
      let e : suc (k + m) ≡ suc k + m = omega arith in
      drop-drop m k xs ∙ ap (λ n. drop n (x ∷ xs)) e

  pub newest_nil : (capacity : ℕ) → newest capacity [] ≡ []
  newest_nil capacity = drop_nil (0 - capacity)

  -- A ring that drops its oldest entries after each append holds what dropping them once would leave.
  pub newest-append :
      (capacity : ℕ) (xs ys : List A)
      → newest capacity (newest capacity xs ++ ys) ≡ newest capacity (xs ++ ys)
  newest-append capacity xs ys =
      let k = length xs - capacity in
      let p : drop k xs ++ ys ≡ drop k (xs ++ ys) = drop-append k xs ys (omega arith) in
      let q : length (drop k (xs ++ ys)) ≡ length (xs ++ ys) - k = length-drop k (xs ++ ys) in
      let r : k + (length (xs ++ ys) - k - capacity) ≡ length (xs ++ ys) - capacity =
        omega (arith, length-append xs ys) in
      ap (λ z. newest capacity z) p
      ∙ ap (λ n. drop (n - capacity) (drop k (xs ++ ys))) q
      ∙ drop-drop (length (xs ++ ys) - k - capacity) k (xs ++ ys)
      ∙ ap (λ n. drop n (xs ++ ys)) r

  pub length-newest : (capacity : ℕ) (xs : List A) → length (newest capacity xs) ≤ capacity
  length-newest capacity xs = omega (arith, length-drop (length xs - capacity) xs)

module _ {ℓ ℓ'} {A : Type ℓ} {B : Type ℓ'} (mk : ℕ → A → B) where
  -- Entries numbered from `n` on.
  abbrev pub numbered : ℕ → List A → List B
  numbered n [] = []
  numbered n (x ∷ xs) = mk n x ∷ numbered (suc n) xs

  pub length-numbered : (n : ℕ) (xs : List A) → length (numbered n xs) ≡ length xs
  length-numbered n [] = refl
  length-numbered n (x ∷ xs) = ap suc (length-numbered (suc n) xs)

  pub numbered-append :
      (n : ℕ) (xs ys : List A)
      → numbered n (xs ++ ys) ≡ numbered n xs ++ numbered (length xs + n) ys
  numbered-append n [] ys = ap (λ m. numbered m ys) (omega arith)
  numbered-append n (x ∷ xs) ys =
      ap (λ z. mk n x ∷ z)
        (numbered-append (suc n) xs ys
          ∙ ap (λ m. numbered (suc n) xs ++ numbered m ys) (omega arith))

  pub drop-numbered :
      (k n : ℕ) (xs : List A) → drop k (numbered n xs) ≡ numbered (k + n) (drop k xs)
  drop-numbered zero n xs = ap (λ m. numbered m xs) (omega arith)
  drop-numbered (suc k) n [] = refl
  drop-numbered (suc k) n (x ∷ xs) =
      drop-numbered k (suc n) xs ∙ ap (λ m. numbered m (drop k xs)) (omega arith)

  module _ (seq : B → ℕ) (seq-mk : (n : ℕ) (x : A) → seq (mk n x) ≡ n) where
    -- Entries that are all past a number are all kept.
    keep-numbered_all :
        (since n : ℕ) (xs : List A)
        → suc since ≤ n
        → keep (λ b. ltb since (seq b)) (numbered n xs) ≡ numbered n xs
    keep-numbered_all since n [] h = refl
    keep-numbered_all since n (x ∷ xs) h =
        let t : ltb since (seq (mk n x)) ≡ true = ground (arith, seq-mk n x) in
        rw t (ap (λ z. mk n x ∷ z) (keep-numbered_all since (suc n) xs (omega arith)))

    -- Of entries numbered from `suc n` on, those past `n + k` are all but the first `k`.
    pub keep-numbered :
        (k n : ℕ) (xs : List A)
        → keep (λ b. ltb (k + n) (seq b)) (numbered (suc n) xs) ≡ drop k (numbered (suc n) xs)
    keep-numbered zero n xs =
        ap (λ m. keep (λ b. ltb m (seq b)) (numbered (suc n) xs)) (omega arith)
        ∙ keep-numbered_all n (suc n) xs (omega arith)
    keep-numbered (suc k) n [] = refl
    keep-numbered (suc k) n (x ∷ xs) =
        let t : ltb (suc k + n) (seq (mk (suc n) x)) ≡ false = ground (arith, seq-mk (suc n) x) in
        let e : k + suc n ≡ suc k + n = omega arith in
        rw t (
          ap (λ m. keep (λ b. ltb m (seq b)) (numbered (suc (suc n)) xs)) (sym e)
          ∙ keep-numbered k (suc n) xs)

    -- What a reader at `since` gets from a ring that holds the newest of entries numbered from 1: all
    -- that came after it, if no more than the capacity did.
    pub keep-newest :
        (capacity since : ℕ) (xs : List A)
        → length xs ≤ since + capacity
        → keep (λ b. ltb since (seq b)) (newest capacity (numbered 1 xs))
          ≡ drop since (numbered 1 xs)
    keep-newest capacity since xs h =
        let j = length xs - capacity in
        let all = numbered 1 xs in
        let k = since - j in
        let e : newest capacity all ≡ drop j all =
          ap (λ n. drop (n - capacity) all) (length-numbered 1 xs) in
        let f : drop j all ≡ numbered (suc j) (drop j xs) =
          drop-numbered j 1 xs ∙ ap (λ n. numbered n (drop j xs)) (omega arith) in
        let s : since ≡ k + j = omega arith in
        let t : k + j ≡ since = omega arith in
        ap (λ z. keep (λ b. ltb since (seq b)) z) (e ∙ f)
        ∙ ap (λ m. keep (λ b. ltb m (seq b)) (numbered (suc j) (drop j xs))) s
        ∙ keep-numbered k j (drop j xs)
        ∙ ap (λ z. drop k z) (sym f)
        ∙ drop-drop k j all
        ∙ ap (λ n. drop n all) (omega arith)
