-- ===== src/Recipe.antt =====
-- The parts of a recipe that the transaction and the installation marker are bound to.
use chrono_nextos.Prelude.{List}
use chrono_nextos.Prelude.Text.{Text}

-- `identifier`, `version`, `digest`, the templates of `commit` and the ids of the rules.
pub record Recipe : Type 0 where
  pub identifier : Text
  pub version : Text
  pub digest : Text
  pub commit : List Text
  pub rule_ids : List Text
