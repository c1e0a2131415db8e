-- ===== src/Names/Force.antt =====
-- `force_valid_name` and `force_name` (apps/tracker/utils/misc.py). The hexadecimal SHA-1 digest
-- of an address is a parameter: `hexdigest` is `hashlib.sha1(…).hexdigest()` of its decimal form.
use swat4stats.Base.{ℕ, ◌≢◌, Bool, [], ◌∷◌, take, drop}
use swat4stats.Base.Text.{Text}
use swat4stats.Names.{force_clean_name}

module _ (hexdigest : ℕ → Text) where
  unfoldable pub force_valid_name : Text → ℕ → Text
  force_valid_name [] ip = b'_' ∷ take 8 (drop 8 (hexdigest ip))
  force_valid_name (c ∷ s) ip = c ∷ s

  module _ (is_word : ℕ → Bool) where
    unfoldable pub force_name : Text → ℕ → Text
    force_name name ip = force_valid_name (force_clean_name is_word name) ip

    force_valid_name-ne-nil : (s : Text) (ip : ℕ) → force_valid_name s ip ≢ []
    unfolding force_valid_name
    force_valid_name-ne-nil [] ip = cc
    force_valid_name-ne-nil (c ∷ s) ip = cc

    -- The empty name is refused by the alias manager: no forced name is empty.
    pub force_name-ne-nil : (name : Text) (ip : ℕ) → force_name name ip ≢ []
    unfolding force_name
    force_name-ne-nil name ip = force_valid_name-ne-nil (force_clean_name is_word name) ip
