-- ===== src/StaticArray/Laws.antt =====
-- The constructor that fills a static array, and `operator[]`.
use octiron.Base.{
  ℕ, zero, suc, ◌+◌, ◌<◌, ◌≤◌, ◌≡◌, ◌∙◌, ◌≢◌, refl, ap, some, List, [], ◌∷◌, arith, done, get_elem?,
  set, length, length-set, ◌>>=◌,
}
use octiron.StaticArray.{fill_rest, filled, defined, element_at, set_element}

module _ {ℓ} {A : Type ℓ} where
  get_elem?-set : (xs : List A) (i : ℕ) (v : A) → i < length xs → get_elem? (set xs i v) i ≡ some v
  get_elem?-set [] i v h = absurd (omega (arith, h))
  get_elem?-set (x ∷ xs) zero v h = refl
  get_elem?-set (x ∷ xs) (suc i) v h = get_elem?-set xs i v (omega (arith, h))

  get_elem?-set_apart :
      (xs : List A) (i j : ℕ) (v : A) → i ≢ j → get_elem? (set xs i v) j ≡ get_elem? xs j
  get_elem?-set_apart [] i j v ne = refl
  get_elem?-set_apart (x ∷ xs) zero zero v ne = absurd (ne refl)
  get_elem?-set_apart (x ∷ xs) zero (suc j) v ne = refl
  get_elem?-set_apart (x ∷ xs) (suc i) zero v ne = refl
  get_elem?-set_apart (x ∷ xs) (suc i) (suc j) v ne =
      get_elem?-set_apart xs i j v λ e. ne (ap suc e)

  -- The rounds from `i` on leave the elements before `i` as they are.
  fill_rest-before :
      (rounds i j : ℕ) (val : A) (xs : List A)
      → j < i
      → get_elem? (fill_rest rounds i val xs) j ≡ get_elem? xs j
  unfolding fill_rest
  fill_rest-before zero i j val xs h = refl
  fill_rest-before (suc rounds) i j val xs h =
      fill_rest-before rounds (suc i) j val (set xs i val) (omega (arith, h))
      ∙ get_elem?-set_apart xs i j val (omega (arith, h))

  -- The element at `i + j` after at least `j + 1` rounds from `i` on.
  fill_rest-get_elem :
      (rounds i j : ℕ) (val : A) (xs : List A)
      → j < rounds
      → i + rounds ≤ length xs
      → get_elem? (fill_rest rounds i val xs) (i + j) ≡ some val
  unfolding fill_rest
  fill_rest-get_elem zero i j val xs h l = absurd (omega (arith, h))
  fill_rest-get_elem (suc rounds) i zero val xs h l =
      fill_rest-before rounds (suc i) (i + 0) val (set xs i val) (omega arith)
      ∙ ap (get_elem? (set xs i val)) (omega arith)
      ∙ get_elem?-set xs i val (omega (arith, l))
  fill_rest-get_elem (suc rounds) i (suc j) val xs h l =
      ap (get_elem? (fill_rest rounds (suc i) val (set xs i val))) (omega arith)
      ∙ fill_rest-get_elem rounds (suc i) j val (set xs i val) (omega (arith, h))
          (omega (arith, l, length-set xs i val))

  -- The constructor leaves the value at each index, whatever the storage of `n` elements held before.
  filled-element_at :
      (n i : ℕ) (val : A) (xs : List A)
      → length xs ≡ n
      → i < n
      → element_at (filled n val xs) i ≡ done val
  unfolding filled element_at
  filled-element_at n i val xs l h =
      ap (element_at (filled n val xs)) (omega arith)
      ∙ ap defined (fill_rest-get_elem n 0 i val xs h (omega (arith, l)))

  get_elem?-length : (xs : List A) (i : ℕ) → i < length xs → (y : A) × (get_elem? xs i ≡ some y)
  get_elem?-length [] i h = absurd (omega (arith, h))
  get_elem?-length (x ∷ xs) zero h = (x, refl)
  get_elem?-length (x ∷ xs) (suc i) h = get_elem?-length xs i (omega (arith, h))

  -- An index of the array is written and read back, and the other elements stay.
  set_element-element_at :
      (xs : List A) (i : ℕ) (v : A)
      → i < length xs
      → (ys : List A) × (set_element xs i v ≡ done ys)
        × (element_at ys i ≡ done v)
        × ((j : ℕ) → i ≢ j → element_at ys j ≡ element_at xs j)
  unfolding element_at set_element
  set_element-element_at xs i v h = (
    set xs i v,
    ap (λ o. defined o >>= λ y. done (set xs i v)) (get_elem?-length xs i h).1,
    ap defined (get_elem?-set xs i v h),
    λ j ne. ap defined (get_elem?-set_apart xs i j v ne),
  )
