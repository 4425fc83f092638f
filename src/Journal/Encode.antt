-- ===== src/Journal/Encode.antt =====
-- The document that `commit_stage` builds and `_journal_write` stores.
use chrono_nextos.Prelude.{map}
use chrono_nextos.Json.{Value, bool, num, str, arr, obj, end, entry, list_value}
use chrono_nextos.Recipe.{Recipe}
use chrono_nextos.Journal.{
  Journal, PathRecord, phase_name, format_version, transaction_format_version,
}

-- One of `path_records`.
unfoldable pub record_value : PathRecord → Value
record_value item = obj (
    entry "path" (str item.path)
      (entry "had_live" (bool item.had_live) (entry "phase" (str (phase_name item.phase)) end)))

unfoldable pub journal_value : Recipe → Journal → Value
unfolding record_value
journal_value recipe journal = obj (
    entry "format" (num format_version) (
      entry "transaction_format" (num transaction_format_version) (
        entry "transaction_id" (str journal.transaction_id) (
          entry "recipe_id" (str recipe.identifier) (
            entry "recipe_digest" (str recipe.digest) (
              entry "abi" (str journal.abi) (
                entry "published" (bool journal.published)
                  (entry "paths" (arr (list_value (map record_value journal.paths))) end))))))))
