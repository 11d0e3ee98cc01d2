-- ===== src/ResultType.antt =====
-- kernel/include/types/result.h: a value or an error, in a union with a tag. Reading the member of the
-- union that was not written last is undefined.
use octiron.Base.{Bool, true, false, not, ◌≡◌, ◌⊎◌, inl, inr, refl, Run, done, fault}
use octiron.Errors.{Error}

-- The member of `m_u` that was written last.
data Member (A : Type 0) : Type 0 where
  m_value : A → Member A
  m_err : Error → Member A

record Result (A : Type 0) : Type 0 where
  pub m_some : Bool
  pub m_u : Member A

module _ {A : Type 0} where
  unfoldable make_some : A → Result A
  make_some value = record { m_some = true; m_u = Member.m_value value }

  unfoldable make_err : Error → Result A
  make_err err = record { m_some = false; m_u = Member.m_err err }

  unfoldable result_is_some : Result A → Bool
  result_is_some r = r.m_some

  unfoldable result_is_err : Result A → Bool
  result_is_err r = not r.m_some

  read_value : Member A → Run A
  read_value (Member.m_value value) = done value
  read_value (Member.m_err err) = fault

  read_err : Member A → Run Error
  read_err (Member.m_value value) = fault
  read_err (Member.m_err err) = done err

  -- `some()`.
  unfoldable some_of : Result A → Run A
  unfolding read_value
  some_of r = read_value r.m_u

  -- `err()`.
  unfoldable error_of : Result A → Run Error
  unfolding read_err
  error_of r = read_err r.m_u

  -- The results that the two makers make.
  data IsResult : Result A → Type 0 where
    made_some : (value : A) → IsResult (make_some value)
    made_err : (err : Error) → IsResult (make_err err)

  -- On a result that a maker made, the test tells which of the two reads is defined.
  IsResult-read :
      (r : Result A)
      → IsResult r
      → (result_is_some r ≡ true × (value : A) × (some_of r ≡ done value))
        ⊎ (result_is_err r ≡ true × (err : Error) × (error_of r ≡ done err))
  unfolding make_some make_err result_is_some result_is_err read_value read_err some_of error_of
  IsResult-read r (made_some value) = inl (refl, value, refl)
  IsResult-read r (made_err err) = inr (refl, err, refl)
