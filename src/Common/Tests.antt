-- ===== src/Common/Tests.antt =====
-- Boolean tests on the native numbers and on texts, the conditional, and the interface `Eq`.
use Prim.Native.Nat.{ℕ, ◌≤◌, ◌<◌, compare, Ordering}
use Prim.Native.String.{String}
use text.Mathlib.Text.{◌==◌ as text_eq}
use text.Mathlib.TextEquality.{eq_iff}
use mathlib.Core.Path.{◌≡◌, refl, sym, ap, ◌∙◌}
use mathlib.Core.Logic.{◌↔◌, ◌⊎◌, inl, inr}
use mathlib.Core.Bool.{Bool, true, false}
use mathlib.Core.Option.{Option, none, some}
use native.Mathlib.Omega.{arith}

abbrev pub ltb : ℕ → ℕ → Bool
ltb a b = elim (compare a b) [ Ordering.lt ↦ true | _ ↦ false ]

abbrev pub leb : ℕ → ℕ → Bool
leb a b = elim (compare a b) [ Ordering.gt ↦ false | _ ↦ true ]

abbrev pub nat_eq : ℕ → ℕ → Bool
nat_eq a b = elim (compare a b) [ Ordering.eq ↦ true | _ ↦ false ]

infix 1 if◌then◌else◌
abbrev pub if◌then◌else◌ {ℓ} : {A : Type ℓ} → Bool → A → A → A
if true then x else y = x
if false then x else y = y

pub nat_eq_iff : (a b : ℕ) → (nat_eq a b ≡ true) ↔ (a ≡ b)
nat_eq_iff a b = ground arith

pub leb→le : (a b : ℕ) → leb a b ≡ true → a ≤ b
leb→le a b h = ground arith

pub ltb→lt : (a b : ℕ) → ltb a b ≡ true → a < b
ltb→lt a b h = ground arith

-- A type whose values the program compares with `===`.
pub record Eq {ℓ} (T : Type ℓ) : Type ℓ where
  pub is_same : T → T → Bool
  pub is_same_iff : (x y : T) → (is_same x y ≡ true) ↔ (x ≡ y)

instance abbrev pub String_eq : Eq String
String_eq = record { is_same = text_eq; is_same_iff = eq_iff }

instance abbrev pub ℕ_eq : Eq ℕ
ℕ_eq = record { is_same = nat_eq; is_same_iff = nat_eq_iff }

-- The operator `===` of the program.
infix 50 ◌==◌
abbrev pub ◌==◌ {ℓ} : {T : Type ℓ} ⦃on : Eq T⦄ → T → T → Bool
◌==◌ ⦃on⦄ = on.is_same

-- `a === b` where either may be `null`.
abbrev pub option_beq {ℓ} : {A : Type ℓ} ⦃e : Eq A⦄ → Option A → Option A → Bool
option_beq none none = true
option_beq none (some b) = false
option_beq (some a) none = false
option_beq (some a) (some b) = a == b

pub eq_of_option_beq {ℓ} :
    {A : Type ℓ} ⦃e : Eq A⦄ → (x y : Option A) → option_beq x y ≡ true → x ≡ y
eq_of_option_beq ⦃e⦄ none none h = refl
eq_of_option_beq ⦃e⦄ none (some b) h = cc
eq_of_option_beq ⦃e⦄ (some a) none h = cc
eq_of_option_beq ⦃e⦄ (some a) (some b) h = ap some ((e.is_same_iff a b).0 h)

pub option_beq_of_eq {ℓ} :
    {A : Type ℓ} ⦃e : Eq A⦄ → (x y : Option A) → x ≡ y → option_beq x y ≡ true
option_beq_of_eq ⦃e⦄ none none h = refl
option_beq_of_eq ⦃e⦄ none (some b) h = cc
option_beq_of_eq ⦃e⦄ (some a) none h = cc
option_beq_of_eq ⦃e⦄ (some a) (some b) h = (e.is_same_iff a b).1 cc

-- To split on a computed value and keep the equation.
pub Bool-cases : (b : Bool) → (b ≡ true) ⊎ (b ≡ false)
Bool-cases true = inl refl
Bool-cases false = inr refl

pub Option-cases {ℓ} : {A : Type ℓ} (o : Option A) → (o ≡ none) ⊎ ((a : A) × (o ≡ some a))
Option-cases none = inl refl
Option-cases (some a) = inr (a, refl)

-- Equality on an enumeration, by the numbers of its constructors.
module _ {ℓ} {A : Type ℓ} (tag : A → ℕ) (of_tag : ℕ → A)
    (of_tag-tag : (a : A) → of_tag (tag a) ≡ a) where
  tag-injective : (a b : A) → tag a ≡ tag b → a ≡ b
  tag-injective a b h = sym (of_tag-tag a) ∙ ap of_tag h ∙ of_tag-tag b

  pub tag_eq_iff : (a b : A) → (nat_eq (tag a) (tag b) ≡ true) ↔ (a ≡ b)
  tag_eq_iff a b =
      (λ h. tag-injective a b ((nat_eq_iff _ _).0 h), λ h. (nat_eq_iff _ _).1 (ap tag h))

  abbrev pub tag_eq : Eq A
  tag_eq = record { is_same = λ a b. nat_eq (tag a) (tag b); is_same_iff = tag_eq_iff }
