-- ===== src/Maps.antt =====
-- `HashMap` of Rust as the list of its entries, which the maps of rust/src/persistence hold.
pub mod Laws
use text.Mathlib.Text.{◌==◌ as text_eq}
use text.Mathlib.TextEquality.{eq_iff}
use tco_calculator.Prelude.{
  ℕ, Bool, not, ◌&&◌, true, ◌≡◌, ◌↔◌, ap, String, Option, none, some, List, [], ◌∷◌, filter,
  if◌then◌else◌, is_some, ◌==◌, arith,
}

-- the keys of a map, with the test of their equality
pub record Key (K : Type 0) : Type 0 where
  pub same : K → K → Bool
  pub same_iff : (a b : K) → (same a b ≡ true) ↔ (a ≡ b)

pub same_number : (a b : ℕ) → ((a == b) ≡ true) ↔ (a ≡ b)
same_number a b = (λ h. ground arith, λ h. ground arith)

instance abbrev pub number_key : Key ℕ
number_key = record { same = λ a b. a == b; same_iff = same_number }

instance abbrev pub text_key : Key String
text_key = record { same = λ a b. text_eq a b; same_iff = λ a b. eq_iff a b }

abbrev pub same_pair : String × ℕ → String × ℕ → Bool
same_pair (owner, id) (owner', id') = text_eq owner owner' && (id == id')

pub same_pair_sound : (a b : String × ℕ) → same_pair a b ≡ true → a ≡ b
same_pair_sound (owner, id) (owner', id') h =
    let e : owner ≡ owner' = (eq_iff owner owner').0 (ground arith) in
    let i : id ≡ id' = ground arith in cc

pub same_pair_self : (a b : String × ℕ) → a ≡ b → same_pair a b ≡ true
same_pair_self (owner, id) (owner', id') h =
    let e = (eq_iff owner owner').1 (ap (λ p. p.0) h) in
    let i : id ≡ id' = ap (λ p. p.1) h in ground arith

instance abbrev pub pair_key : Key (String × ℕ)
pair_key = record { same = same_pair; same_iff = λ a b. (same_pair_sound a b, same_pair_self a b) }

module _ {ℓ} {K : Type 0} {V : Type ℓ} ⦃key : Key K⦄ where
  unfoldable pub get_key : K → List (K × V) → Option V
  get_key k [] = none
  get_key k (entry ∷ entries) = if key.same entry.0 k then some entry.1 else get_key k entries

  unfoldable pub contains_key : K → List (K × V) → Bool
  unfolding get_key
  contains_key k entries = is_some (get_key k entries)

  unfoldable pub remove_key : K → List (K × V) → List (K × V)
  unfolding filter
  remove_key k entries = filter (λ entry. not (key.same entry.0 k)) entries

  unfoldable pub insert_key : K → V → List (K × V) → List (K × V)
  unfolding remove_key
  insert_key k v entries = (k, v) ∷ remove_key k entries
