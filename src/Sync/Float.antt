-- ===== src/Sync/Float.antt =====
-- What the sync engine does with an f64: modification times and clock offsets, in milliseconds.
use krymux.Base.{ℕ, Bool, Option}
use krymux.Base.Json.{Json}

-- `of_nat` is `as f64` on a u64, `to_nat` is `as u64`, and `max` is `f64::max`. `to_json` is the
-- number that `json!` makes, `as_f64` what serde_json reads back.
pub record Float (W : Type 0) : Type 0 where
  pub nought : W
  pub one : W
  pub gt : W → W → Bool
  pub eq : W → W → Bool
  pub add : W → W → W
  pub sub : W → W → W
  pub max : W → W → W
  pub of_nat : ℕ → W
  pub to_nat : W → ℕ
  pub to_json : W → Json
  pub as_f64 : Json → Option W
