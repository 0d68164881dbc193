-- ===== src/Prelude/Results.antt =====
-- `Result` of Rust, its `?` as a bind, and `Option::ok_or`.
use mathlib.Core.Path.{◌≡◌, refl, subst}
use mathlib.Core.Bool.{Bool, true, false}
use mathlib.Core.List.{List, [], ◌∷◌, Memᴰ}
use tco_calculator.Prelude.Tests.{if◌then◌else◌, map_or}
use mathlib.Core.Option.{Option, none, some}

pub data Result {ℓ κ} (E : Type ℓ) (A : Type κ) : Type (ℓ ⊔ κ) where
  ok : A → Result E A
  err : E → Result E A

module _ {ℓ} {E : Type ℓ} where
  -- `let a = m?;`, and `m?;`
  infixl 5 ◌>>=◌ ◌>>◌
  abbrev pub ◌>>=◌ {κ μ} : {A : Type κ} {B : Type μ} → Result E A → (A → Result E B) → Result E B
  err failure >>= rest = err failure
  ok value >>= rest = rest value

  -- `if b { return Err(e) }`
  abbrev pub fail_if : Bool → E → Result E (Unit {0})
  fail_if true e = err e
  fail_if false e = ok tt

  abbrev pub ◌>>◌ {μ} : {B : Type μ} → Result E (Unit {0}) → Result E B → Result E B
  checked >> rest = checked >>= (λ passed. rest)

  abbrev pub ok_or {κ} : {A : Type κ} → Option A → E → Result E A
  ok_or none e = err e
  ok_or (some a) e = ok a

  -- `Iterator::try_fold`
  unfoldable pub try_fold {κ μ} :
      {A : Type κ} {S : Type μ} → (S → A → Result E S) → S → List A → Result E S
  try_fold f s [] = ok s
  try_fold f s (x ∷ xs) = f s x >>= λ s'. try_fold f s' xs

  -- `let a = m?;` in a method of `&mut self`: an error leaves the state `s` that the method has made.
  abbrev pub attempt {κ μ ν} :
      {A : Type κ} {B : Type μ} {S : Type ν}
      → Result E A
      → S
      → (A → Result E B × S)
      → Result E B × S
  attempt (err e) s f = (err e, s)
  attempt (ok a) s f = f a

  pub attempt-eq-ok {κ μ ν} :
      {A : Type κ} {B : Type μ} {S : Type ν} (m : Result E A) (s : S) (f : A → Result E B × S)
      {b : B} {s' : S}
      → attempt m s f ≡ (ok b, s')
      → (a : A) × (m ≡ ok a) × (f a ≡ (ok b, s'))
  attempt-eq-ok (ok a) s f h = (a, refl, h)
  attempt-eq-ok (err e) s f h = absurd cc

  -- What holds of the state at an error, and of the state that the rest leaves, holds of the whole.
  pub attempt-leaves {κ μ ν ο} :
      {A : Type κ} {B : Type μ} {S : Type ν} (P : S → Type ο) (m : Result E A) (s : S)
      (f : A → Result E B × S)
      → P s
      → ((a : A) → m ≡ ok a → P (f a).1)
      → P (attempt m s f).1
  attempt-leaves P (err e) s f p k = p
  attempt-leaves P (ok a) s f p k = k a refl

-- A result that, if it is there, has a property.
pub data Ensures {ℓ κ ν} {E : Type ℓ} {A : Type κ} (P : A → Type ν)
    : Result E A → Type (ℓ ⊔ κ ⊔ ν) where
  done : {a : A} → P a → Ensures P (ok a)
  failed : {e : E} → Ensures P (err e)

module _ {ℓ} {E : Type ℓ} where
  pub Ensures-eq-ok {κ ν} :
      {A : Type κ} {P : A → Type ν} {m : Result E A} {a : A} → Ensures P m → m ≡ ok a → P a
  Ensures-eq-ok {P} (done p) h = subst P (cc) p
  Ensures-eq-ok failed h = cc

  pub ok_or-eq-ok {κ} : {A : Type κ} {a : A} (e : E) (o : Option A) → ok_or o e ≡ ok a → o ≡ some a
  ok_or-eq-ok e none h = absurd cc
  ok_or-eq-ok e (some b) h = cc

  pub bind-eq-ok {κ μ} :
      {A : Type κ} {B : Type μ} (m : Result E A) (f : A → Result E B) {b : B}
      → (m >>= f) ≡ ok b
      → (a : A) × (m ≡ ok a) × (f a ≡ ok b)
  bind-eq-ok (ok a) f h = (a, refl, h)
  bind-eq-ok (err e) f h = absurd cc

  pub fail_if-eq-ok : (e : E) (b : Bool) → fail_if b e ≡ ok tt → b ≡ false
  fail_if-eq-ok e true h = absurd cc
  fail_if-eq-ok e false h = refl

  pub Ensures-bind {κ μ ν ο} :
      {A : Type κ} {B : Type μ} {Q : A → Type ν} {P : B → Type ο} {m : Result E A}
      {f : A → Result E B}
      → Ensures Q m
      → ((a : A) → Q a → Ensures P (f a))
      → Ensures P (m >>= f)
  Ensures-bind (done q) k = k _ q
  Ensures-bind failed k = failed

  -- a step of which nothing is used
  pub Ensures-then {κ μ ο} :
      {A : Type κ} {B : Type μ} {P : B → Type ο} (m : Result E A) {f : A → Result E B}
      → ((a : A) → m ≡ ok a → Ensures P (f a))
      → Ensures P (m >>= f)
  Ensures-then (ok a) k = k a refl
  Ensures-then (err e) k = failed

  pub Ensures-if {κ ν} :
      {A : Type κ} {P : A → Type ν} (b : Bool) {x y : Result E A}
      → (b ≡ true → Ensures P x)
      → (b ≡ false → Ensures P y)
      → Ensures P (if b then x else y)
  Ensures-if true k l = k refl
  Ensures-if false k l = l refl

  pub Ensures-map_or {κ μ ν} :
      {A : Type κ} {B : Type μ} {P : B → Type ν} (o : Option A) {x : Result E B}
      {f : A → Result E B}
      → (o ≡ none → Ensures P x)
      → ((a : A) → o ≡ some a → Ensures P (f a))
      → Ensures P (map_or o x f)
  Ensures-map_or none k l = k refl
  Ensures-map_or (some a) k l = l a refl

  pub Ensures-try_fold {κ μ ν} :
      {A : Type κ} {S : Type μ} {P : S → Type ν} (f : S → A → Result E S) (s : S) (xs : List A)
      → ((s : S) (x : A) → Memᴰ x xs → P s → Ensures P (f s x))
      → P s
      → Ensures P (try_fold f s xs)
  unfolding try_fold
  Ensures-try_fold f s [] step p = done p
  Ensures-try_fold f s (x ∷ xs) step p =
      Ensures-bind (step s x (Memᴰ.head refl) p)
        (λ s' p'. Ensures-try_fold f s' xs (λ t y m. step t y (Memᴰ.tail m)) p')
