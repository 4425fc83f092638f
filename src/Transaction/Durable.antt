-- ===== src/Transaction/Durable.antt =====
-- Recoveries after a commit that has returned.
use chrono_nextos.Prelude.{ℕ, ◌≡◌, Bool, true, List, leb}
use chrono_nextos.Prelude.Text.{Text}
use chrono_nextos.Fault.{ok}
use chrono_nextos.Json.{is_hex_text}
use chrono_nextos.Recipe.{Recipe}
use chrono_nextos.Journal.{Journal}
use chrono_nextos.Marker.Encode.{MarkedPlan}
use chrono_nextos.Disk.{Disk, Area}
use chrono_nextos.Transaction.{Payload}
use chrono_nextos.Transaction.Invariant.{Setting}
use chrono_nextos.Transaction.Commit.{this}

-- The seal of a payload is a digest in 64 hexadecimal digits, over at least one object.
abbrev pub SealsDigest : Payload → Type 0
SealsDigest payload =
    (ps : List Text) (a : Area) (found : Text × ℕ)
    → payload.seal ps a ≡ ok found
    → (is_hex_text 64 found.0 ≡ true) × (leb 1 found.1 ≡ true)

module _ (portable_path_key : Text → Text) (d0 : Disk) (recipe : Recipe) (payload : Payload)
    (plan : MarkedPlan) (transaction_id : Text) (completed : ℕ) where
  abbrev T : Setting
  T = this d0 recipe payload plan transaction_id completed
