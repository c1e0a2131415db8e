-- ===== src/Base/Eq.antt =====
-- Equality of keys as an interface.
use swat4stats.Base.Tests.{◌==◌, ==_iff, ==_refl}
use swat4stats.Base.Text.{Text, text_eq, text_eq_refl, eq_of_text_eq}
use Prim.Native.Nat.{ℕ}
use mathlib.Core.Path.{◌≡◌, refl, ap}
use mathlib.Core.Bool.{Bool, true, false}
use mathlib.Core.Option.{Option, none, some}

pub record Eq {ℓ} (A : Type ℓ) : Type ℓ where
  pub same : A → A → Bool
  pub same_refl : (a : A) → same a a ≡ true
  pub same_sound : (a b : A) → same a b ≡ true → a ≡ b

instance abbrev pub nat_eq : Eq ℕ
nat_eq = record { same = ◌==◌; same_refl = ==_refl; same_sound = λ a b e. (==_iff a b).0 e }

instance abbrev pub codes_eq : Eq Text
codes_eq = record { same = text_eq; same_refl = text_eq_refl; same_sound = eq_of_text_eq }

module _ {ℓ} {A : Type ℓ} ⦃e : Eq A⦄ where
  abbrev pub same_option : Option A → Option A → Bool
  same_option none none = true
  same_option none (some b) = false
  same_option (some a) none = false
  same_option (some a) (some b) = e.same a b

  pub same_option_refl : (o : Option A) → same_option o o ≡ true
  same_option_refl none = refl
  same_option_refl (some a) = e.same_refl a

  pub same_option_sound : (o p : Option A) → same_option o p ≡ true → o ≡ p
  same_option_sound none none h = refl
  same_option_sound none (some b) h = cc
  same_option_sound (some a) none h = cc
  same_option_sound (some a) (some b) h = ap some (e.same_sound a b h)

  instance abbrev pub option_eq : Eq (Option A)
  option_eq = record {
    same = same_option;
    same_refl = same_option_refl;
    same_sound = same_option_sound;
  }
