-- ===== src/Runtime.antt =====
-- The services of the JavaScript engine that have no short definition: JSON text and the case
-- mapping of Unicode. They are arguments of the definitions that use them.
use april_profile_kilo.Base.{Option, Text}
use april_profile_kilo.Value.{Value}

pub record Runtime : Type 0 where
  -- `JSON.parse`, `none` where it throws
  pub parse : Text → Option Value
  -- `JSON.stringify(v)` and `JSON.stringify(v, null, 2)`
  pub compact : Value → Text
  pub pretty : Value → Text
  -- `toLowerCase()`
  pub to_lower : Text → Text
