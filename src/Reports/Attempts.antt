-- ===== src/Reports/Attempts.antt =====
-- Results of saving a report.
use swat4stats.Base.{◌≡◌, refl, Option, none, some}

-- The errors: the tag is taken (`GameAlreadySavedError`), a text that no table knows (`KeyError`,
-- `ValueError`), a column that must not be NULL (`IntegrityError`), an empty name, and more
-- providers than one behind a lookup.
pub data Error : Type 0 where
  already_saved : Error
  key_error : Error
  missing_value : Error
  empty_name : Error
  multiple_providers : Error

pub data Attempt (A : Type 0) : Type 0 where
  made : A → Attempt A
  failed : Error → Attempt A

infixl 5 ◌>>=◌
unfoldable pub ◌>>=◌ : {A B : Type 0} → Attempt A → (A → Attempt B) → Attempt B
failed error >>= next = failed error
made x >>= next = next x

-- `d[k]`
abbrev pub found_at : {A : Type 0} → Option A → Attempt A
found_at none = failed key_error
found_at (some a) = made a

-- Chains: the parts of one that succeeds, how one goes on, and how it ends.
module _ {A B : Type 0} where
  pub bind-made :
      (attempt : Attempt A) (next : A → Attempt B) {b : B}
      → (attempt >>= next) ≡ made b
      → (x : A) × (attempt ≡ made x) × (next x ≡ made b)
  unfolding ◌>>=◌
  bind-made (failed error) next h = cc
  bind-made (made x) next h = (x, refl, h)

  pub bind-from :
      (attempt : Attempt A) (next : A → Attempt B) {x : A}
      → attempt ≡ made x
      → (attempt >>= next) ≡ next x
  unfolding ◌>>=◌
  bind-from attempt next e = rw e refl

  pub bind-failed :
      (attempt : Attempt A) (next : A → Attempt B) {error : Error}
      → attempt ≡ failed error
      → (attempt >>= next) ≡ failed error
  unfolding ◌>>=◌
  bind-failed attempt next e = rw e refl

pub made-injective : {A : Type 0} (x y : A) → made x ≡ made y → x ≡ y
made-injective x y h = cc
