-- ===== src/Tests/Selections.antt =====
-- The selection of a payload, on a small package.
use chrono_nextos.Prelude.{
  ◌≤◌, arith, ℕ, ◌≡◌, refl, sym, ap, ◌∙◌, true, none, some, List, [], ◌∷◌, All, inl, inr,
}
use chrono_nextos.Prelude.Text.{Text, text_eq, codes, contains, split, starts_with, ends_in, join}
use chrono_nextos.Fault.{Result, ok, err, plan_error, ok-injective}
use chrono_nextos.Json.{Value, is_abi_text, is_hex_text}
use chrono_nextos.Recipe.{Recipe}
use chrono_nextos.Paths.{validate_relative_path, has_unsafe_char, is_special_part, ends_unportably}
use chrono_nextos.Templates.{
  template_value, keys_overlap, expand_commit_paths, under_any_commit, validate_template_fields,
  paths_overlap,
}
use chrono_nextos.Marker.{is_package, marker_matches_recipe}
use chrono_nextos.Candidates.{normalize_hash_list, normalize_crc_list, parse_magic}
use chrono_nextos.Candidates.Checks.{Member, validate_member_candidate}
use chrono_nextos.Validation.Rule.{validate_rules}
use chrono_nextos.Validation.{is_identifier, is_extension, is_mode, decimal}
use chrono_nextos.Specs.{validate_validation, validate_output_check, check_number, replace_abi}
use chrono_nextos.Validation.Input.{fields_of}
use chrono_nextos.Validation.Document.{load_recipe}
use chrono_nextos.Selection.{Archive, CandidateGroup, SourceItem, Plan, base_name}
use chrono_nextos.Selection.Glob.{member_matches, fnmatch_case}
use chrono_nextos.Selection.Build.{
  Print, build_plan_for, resolve_plan, abi_order, attempts, is_failure,
}
use chrono_nextos.Selection.Planned.{IsPlan, build_plan_for-IsPlan}
use chrono_nextos.Selection.Resolution.{
  IsResolution, Built, Tolerable, resolve_plan-IsResolution, resolve_plan-Returns,
}
use chrono_nextos.Marker.Matches.{apk_set, companion}
use chrono_nextos.Selection.Marked.{IsGroup, marked_plan, marker_matches_recipe-resolve_plan}
use chrono_nextos.Marker.Encode.{marker_value}
use chrono_nextos.Tests.Inputs.{same_key, hex_32, hex_64}
use chrono_nextos.Tests.Recipes.{a_rule, a_document}

abbrev pub a_member : Member
a_member = record {
  file_size = 3;
  crc = 7;
  magic_read = ok (1 ∷ 2 ∷ 3 ∷ []);
  header_read = ok (1 ∷ 2 ∷ 3 ∷ []);
  digest_read = ok (1 ∷ 2 ∷ 3 ∷ []);
  manifest_read = ok (1 ∷ 2 ∷ 3 ∷ []);
}

abbrev pub an_archive : Archive
an_archive = record {
  object = 1;
  path = codes "/game/a.apk";
  kind = codes "apk";
  split = [];
  label = codes "a.apk";
  members =
      (codes "lib/x86/other.so", a_member) ∷ (codes "lib/arm64-v8a/libgame.so", a_member) ∷ [];
  bytes = 9 ∷ [];
}

abbrev a_group : CandidateGroup
a_group = record {
  label = codes "a";
  archives = an_archive ∷ [];
  loose = [];
  package_name = some (codes "org.game");
  source_kind = codes "apk-set";
}

abbrev crc : List ℕ → ℕ
crc bytes = 7

abbrev sha : List ℕ → Text
sha bytes = hex_64

abbrev fingerprint_of : List Print → Text
fingerprint_of prints = hex_64

abbrev an_item : SourceItem
an_item = record {
  rule_id = codes "lib";
  destination = codes "lib/libgame.so";
  size = 3;
  crc = some 7;
  source_name = codes "lib/arm64-v8a/libgame.so";
}

abbrev the_plan : Plan
the_plan = record {
  group = a_group;
  abi = codes "arm64-v8a";
  items = an_item ∷ [];
  commit_paths = codes "lib" ∷ codes "data/arm64-v8a" ∷ [];
  fingerprint = hex_64;
}

abbrev a_commit : List Text
a_commit = codes "lib" ∷ codes "data/{abi}" ∷ []

abbrev arm : Text
arm = codes "arm64-v8a"

builds :
    build_plan_for same_key same_key same_key crc sha fingerprint_of a_commit
      (a_rule ∷ [])
      a_group
      arm
    ≡ ok the_plan
unfolding build_plan_for text_eq contains split starts_with ends_in join has_unsafe_char
    is_special_part ends_unportably validate_relative_path template_value keys_overlap
    expand_commit_paths under_any_commit normalize_hash_list normalize_crc_list parse_magic
    validate_member_candidate fnmatch_case base_name member_matches
builds = refl

misses :
    build_plan_for same_key same_key same_key crc sha fingerprint_of a_commit
      (a_rule ∷ [])
      a_group
      (codes "x86")
    ≡ err plan_error
unfolding build_plan_for text_eq contains split starts_with ends_in join has_unsafe_char
    is_special_part ends_unportably validate_relative_path template_value keys_overlap
    expand_commit_paths under_any_commit normalize_hash_list normalize_crc_list parse_magic
    validate_member_candidate fnmatch_case base_name member_matches
misses = refl

accepts_rules : validate_rules same_key [] (a_rule ∷ []) ≡ ok (codes "lib" ∷ [])
unfolding validate_rules text_eq contains split starts_with ends_in join has_unsafe_char
    is_special_part ends_unportably validate_relative_path validate_template_fields is_identifier
    is_mode normalize_hash_list normalize_crc_list parse_magic validate_validation check_number
    replace_abi
accepts_rules = refl

build_plan_for-IsPlan_example :
    IsPlan same_key fingerprint_of (codes "lib" ∷ []) a_commit a_group arm the_plan
build_plan_for-IsPlan_example =
    build_plan_for-IsPlan same_key same_key same_key crc sha fingerprint_of (codes "lib" ∷ [])
      a_commit [] (a_rule ∷ []) a_group arm accepts_rules builds

-- The first group has no payload for the ABI, and the second one has.
abbrev no_group : CandidateGroup
no_group = record {
  label = codes "b";
  archives = [];
  loose = [];
  package_name = none;
  source_kind = codes "companion";
}

misses_too :
    build_plan_for same_key same_key same_key crc sha fingerprint_of a_commit
      (a_rule ∷ [])
      no_group
      arm
    ≡ err plan_error
unfolding build_plan_for text_eq contains split starts_with ends_in join has_unsafe_char
    is_special_part ends_unportably validate_relative_path template_value keys_overlap
    expand_commit_paths under_any_commit normalize_hash_list normalize_crc_list parse_magic
    validate_member_candidate fnmatch_case base_name member_matches
misses_too = refl

resolves :
    resolve_plan same_key same_key same_key crc sha fingerprint_of a_commit
      (a_rule ∷ [])
      (no_group ∷ a_group ∷ [])
      (arm ∷ [])
    ≡ ok the_plan
unfolding resolve_plan text_eq contains split starts_with ends_in join has_unsafe_char
    is_special_part ends_unportably validate_relative_path template_value keys_overlap
    expand_commit_paths under_any_commit normalize_hash_list normalize_crc_list parse_magic
    validate_member_candidate fnmatch_case base_name member_matches
resolves = refl

resolve_plan-IsResolution_example :
    IsResolution same_key same_key same_key crc sha fingerprint_of a_commit
      (a_rule ∷ [])
      (no_group ∷ a_group ∷ [])
      (arm ∷ [])
      the_plan
resolve_plan-IsResolution_example =
    resolve_plan-IsResolution same_key same_key same_key crc sha fingerprint_of a_commit
      (a_rule ∷ []) (no_group ∷ a_group ∷ []) (arm ∷ []) resolves

abbrev the_attempts : List (CandidateGroup × Text)
the_attempts = attempts (no_group ∷ a_group ∷ []) (arm ∷ [])

tolerable :
    All
      (Tolerable same_key same_key same_key crc sha fingerprint_of a_commit (a_rule ∷ []))
      the_attempts
unfolding is_failure
tolerable = (inr (plan_error, misses_too, refl), (inl (the_plan, builds), tt))

built :
    Built same_key same_key same_key crc sha fingerprint_of a_commit
      (a_rule ∷ [])
      the_attempts
      the_plan
built = ((a_group, arm), inr (inl refl), builds)

abbrev try_one : CandidateGroup × Text → Result Plan
try_one (group, abi) =
    build_plan_for same_key same_key same_key crc sha fingerprint_of a_commit (a_rule ∷ []) group
      abi

one_print :
    (other : Plan)
    → Built same_key same_key same_key crc sha fingerprint_of a_commit
        (a_rule ∷ [])
        the_attempts
        other
    → other.fingerprint ≡ the_plan.fingerprint
one_print other (a, inl e, made) = let g = sym made ∙ ap (try_one) e ∙ misses_too in cc
one_print other (a, inr (inl e), made) =
    ap Plan.fingerprint (ok-injective (sym made ∙ ap (try_one) e ∙ builds))
one_print other (a, inr (inr i), made) = absurd (i tt)

resolve_plan-Returns_example :
    (chosen : Plan) × (resolve_plan same_key same_key same_key crc sha fingerprint_of a_commit
        (a_rule ∷ [])
        (no_group ∷ a_group ∷ [])
        (arm ∷ [])
      ≡ ok chosen)
    × IsResolution same_key same_key same_key crc sha fingerprint_of a_commit
        (a_rule ∷ [])
        (no_group ∷ a_group ∷ [])
        (arm ∷ [])
        chosen
resolve_plan-Returns_example =
    resolve_plan-Returns same_key same_key same_key crc sha fingerprint_of a_commit (a_rule ∷ [])
      (no_group ∷ a_group ∷ []) (arm ∷ []) the_plan tolerable built one_print

abbrev loaded_recipe : Recipe
loaded_recipe = record {
  identifier = codes "game";
  version = codes "3";
  digest = hex_64;
  commit = a_commit;
  rule_ids = codes "lib" ∷ [];
}

abbrev digest_of : Value → Text
digest_of value = hex_64

loads : load_recipe same_key digest_of (a_document (codes "data/{abi}")) ≡ ok loaded_recipe
unfolding load_recipe text_eq contains split starts_with ends_in join has_unsafe_char
    is_special_part ends_unportably validate_relative_path validate_template_fields keys_overlap
    paths_overlap is_identifier is_extension is_mode decimal is_abi_text check_number
    normalize_hash_list normalize_crc_list parse_magic validate_validation validate_output_check
loads = refl

orders : abi_order (codes "x86_64") (fields_of (a_document (codes "data/{abi}"))) ≡ ok (arm ∷ [])
unfolding abi_order text_eq
orders = refl

printable_ok : All (λ character. 32 ≤ character) (codes "org.game")
printable_ok = (
  omega arith,
  (
    omega arith,
    (omega arith, (omega arith, (omega arith, (omega arith, (omega arith, (omega arith, tt)))))),
  ),
)

known_groups : All IsGroup (no_group ∷ a_group ∷ [])
unfolding text_eq is_package
known_groups = (
  record { kind_known = companion; package_ok = tt },
  (record { kind_known = apk_set; package_ok = ((λ e. cc), omega arith, printable_ok) }, tt),
)

hex_prints : (prints : List Print) → is_hex_text 64 (fingerprint_of prints) ≡ true
unfolding is_hex_text
hex_prints prints = refl

hex_id : is_hex_text 32 hex_32 ≡ true
unfolding is_hex_text
hex_id = refl

hex_seal : is_hex_text 64 hex_64 ≡ true
unfolding is_hex_text
hex_seal = refl

marker_matches_recipe-resolve_plan_example :
    marker_matches_recipe same_key
      (marker_value loaded_recipe (marked_plan the_plan) hex_32 5 hex_64 2)
      loaded_recipe
    ≡ ok true
marker_matches_recipe-resolve_plan_example =
    marker_matches_recipe-resolve_plan same_key same_key same_key crc sha fingerprint_of digest_of
      (a_document (codes "data/{abi}")) (codes "x86_64") loaded_recipe (no_group ∷ a_group ∷ [])
      hex_32 hex_64 5 2 hex_prints known_groups loads orders resolves hex_id hex_seal refl
