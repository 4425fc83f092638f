-- ===== src/Marker/Encode.antt =====
-- The document that `_write_install_marker` stores.
use chrono_nextos.Prelude.{ℕ, List, Option, none, some, map}
use chrono_nextos.Prelude.Text.{Text}
use chrono_nextos.Json.{Value, null, num, str, arr, obj, end, entry, list_value}
use chrono_nextos.Recipe.{Recipe}
use chrono_nextos.Journal.{format_version}
use chrono_nextos.Marker.{nxextract_version}

-- The parts of a selected item and of a plan that the marker records.
pub record MarkedItem : Type 0 where
  pub rule_id : Text
  pub destination : Text
  pub size : ℕ

pub record MarkedPlan : Type 0 where
  pub abi : Text
  pub source_kind : Text
  pub package_id : Option Text
  pub fingerprint : Text
  pub commit_paths : List Text
  pub items : List MarkedItem

abbrev pub optional_text : Option Text → Value
optional_text none = null
optional_text (some s) = str s

unfoldable pub item_value : MarkedItem → Value
item_value item = obj (
    entry "rule" (str item.rule_id)
      (entry "destination" (str item.destination) (entry "size" (num item.size) end)))

unfoldable pub marker_value : Recipe → MarkedPlan → Text → ℕ → Text → ℕ → Value
unfolding item_value
marker_value recipe plan transaction_id completed payload_seal payload_objects = obj (
    entry "format" (num format_version) (
      entry "nxextract_version" (str nxextract_version) (
        entry "recipe_id" (str recipe.identifier) (
          entry "recipe_version" (str recipe.version) (
            entry "recipe_digest" (str recipe.digest) (
              entry "abi" (str plan.abi) (
                entry "source_kind" (str plan.source_kind) (
                  entry "package_id" (optional_text plan.package_id) (
                    entry "plan_fingerprint" (str plan.fingerprint) (
                      entry "transaction_id" (str transaction_id) (
                        entry "completed" (num completed) (
                          entry "commit" (arr (list_value (map str plan.commit_paths))) (
                            entry "payload_seal" (str payload_seal) (
                              entry "payload_objects" (num payload_objects) (
                                entry "items" (arr (list_value (map item_value plan.items)))
                                  end)))))))))))))))
