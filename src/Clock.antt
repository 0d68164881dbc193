-- ===== src/Clock.antt =====
-- `time::OffsetDateTime` as the services of rust/src/persistence use it. It is a type of another
-- library, and a parameter of the model.
use tco_calculator.Prelude.{ℕ, Bool, true, ◌≡◌, String, Option, some}

pub record Times (T : Type 0) : Type 0 where
  -- `OffsetDateTime::parse(value, &Rfc3339)` and `format(&Rfc3339)`
  pub parse : String → Option T
  pub format : T → Option String
  -- `+ Duration::seconds(n)`, and `checked_add` of it
  pub plus : T → ℕ → T
  pub checked_plus : T → ℕ → Option T
  -- `later >= earlier`
  pub reached : T → T → Bool

-- What is relied on: the instants are ordered, a formatted instant is read back, and a positive
-- number of seconds leads to a later instant.
pub record IsTimes {T : Type 0} (times : Times T) : Type 0 where
  pub reached_trans :
      (a b c : T) → times.reached b a ≡ true → times.reached c b ≡ true → times.reached c a ≡ true
  pub parse-format :
      (t : T) (text : String) → times.format t ≡ some text → times.parse text ≡ some t
