-- ===== src/Tests/Repository.antt =====
-- The recipe of this repository, extractor.json.
use chrono_nextos.Prelude.{◌≡◌, refl, true}
use chrono_nextos.Prelude.Text.{text_eq, codes, contains, split, starts_with, ends_in, join}
use chrono_nextos.Json.{Value, bool, num, str, arr, obj, nil, cons, end, entry, is_abi_text}
use chrono_nextos.Paths.{validate_relative_path, has_unsafe_char, is_special_part, ends_unportably}
use chrono_nextos.Templates.{validate_template_fields, keys_overlap, paths_overlap}
use chrono_nextos.Candidates.{normalize_hash_list, normalize_crc_list, parse_magic}
use chrono_nextos.Marker.{is_ok}
use chrono_nextos.Specs.{validate_validation, validate_output_check, check_number, machine_known}
use chrono_nextos.Validation.{is_identifier, is_extension, is_mode, decimal, is_package_name}
use chrono_nextos.Validation.Document.{validate}
use chrono_nextos.Tests.Inputs.{same_key}

abbrev schema_part : Value
schema_part = (num 1)

abbrev id_part : Value
id_part = (str (codes "chrono-nextos"))

abbrev version_part : Value
version_part = (str (codes "2.x-universal-2"))

abbrev title_part : Value
title_part = (str (codes "CHRONO TRIGGER"))

abbrev abi_order_part : Value
abi_order_part = (arr (cons (str (codes "arm64-v8a")) nil))

abbrev input_part : Value
input_part =
    (obj (
      entry "search_dirs" (arr (cons (str (codes "gamedata")) (cons (str (codes ".")) nil))) (
        entry "prefer_first_nonempty" (bool true) (
          entry "sniff_all_in_primary" (bool true) (
            entry "max_files" (num 64) (
              entry "max_bundle_apks" (num 64) (
                entry "max_member_bytes" (num 3221225472)
                  (entry "max_bundle_bytes" (num 6442450944) end))))))))

abbrev extract_part : Value
extract_part =
    (arr (
      cons
        (obj (
          entry "id" (str (codes "android-cocos-assets")) (
            entry "source"
              (obj (
                entry "kind" (str (codes "entries")) (
                  entry "patterns"
                    (arr (
                      cons (str (codes "assets/*.dat")) (
                        cons (str (codes "assets/resources.bin")) (
                          cons (str (codes "assets/build_date.txt")) (
                            cons (str (codes "assets/Shaders/*.vsh"))
                              (cons (str (codes "assets/Shaders/*.fsh")) nil))))))
                    (entry "strip_prefix" (str (codes "assets/")) end))))
              (entry "destination" (str (codes "assets")) (
                entry "validate"
                  (obj (
                    entry "type" (str (codes "tree")) (
                      entry "min_files" (num 8) (
                        entry "max_files" (num 96) (
                          entry "min_bytes" (num 300000000) (
                            entry "max_bytes" (num 1600000000) (
                              entry "required_paths"
                                (arr (
                                  cons (str (codes "resources.bin")) (
                                    cons (str (codes "001.dat"))
                                      (cons (str (codes "Shaders/example_Simple.vsh")) nil))))
                                end)))))))
                  end)))))
        (cons
          (obj (
            entry "id" (str (codes "android-engine-library")) (
              entry "source"
                (obj (
                  entry "kind" (str (codes "entry"))
                    (entry "patterns" (arr (cons (str (codes "lib/{abi}/libchrono.so")) nil)) end)))
                (entry "destination" (str (codes "libchrono.so")) (
                  entry "validate"
                    (obj (
                      entry "type" (str (codes "file")) (
                        entry "elf_machine" (str (codes "{abi}"))
                          (entry "min_size" (num 6000000) (entry "max_size" (num 48000000) end)))))
                    end)))))
          (cons
            (obj (
              entry "id" (str (codes "android-libcxx")) (
                entry "source"
                  (obj (
                    entry "kind" (str (codes "entry")) (
                      entry "patterns" (arr (cons (str (codes "lib/{abi}/libc++_shared.so")) nil))
                        end)))
                  (entry "destination" (str (codes "libc++_shared.so")) (
                    entry "validate"
                      (obj (
                        entry "type" (str (codes "file")) (
                          entry "elf_machine" (str (codes "{abi}"))
                            (entry "min_size" (num 400000) (entry "max_size" (num 8000000) end)))))
                      end)))))
            (cons
              (obj (
                entry "id" (str (codes "android-asset-cipher")) (
                  entry "source"
                    (obj (
                      entry "kind" (str (codes "entry")) (
                        entry "patterns" (arr (cons (str (codes "lib/{abi}/libencrypt.so")) nil))
                          end)))
                    (entry "destination" (str (codes "libencrypt.so")) (
                      entry "validate"
                        (obj (
                          entry "type" (str (codes "file")) (
                            entry "elf_machine" (str (codes "{abi}"))
                              (entry "min_size" (num 1024) (entry "max_size" (num 262144) end)))))
                        end)))))
              nil)))))

abbrev hooks_part : Value
hooks_part = (arr nil)

abbrev validate_part : Value
validate_part =
    (arr (
      cons
        (obj (
          entry "path" (str (codes "libchrono.so")) (
            entry "type" (str (codes "file")) (
              entry "elf_machine" (str (codes "arm64-v8a"))
                (entry "min_size" (num 6000000) (entry "max_size" (num 48000000) end))))))
        (cons
          (obj (
            entry "path" (str (codes "libc++_shared.so")) (
              entry "type" (str (codes "file")) (
                entry "elf_machine" (str (codes "arm64-v8a"))
                  (entry "min_size" (num 400000) (entry "max_size" (num 8000000) end))))))
          (cons
            (obj (
              entry "path" (str (codes "assets/resources.bin")) (
                entry "type" (str (codes "file"))
                  (entry "min_size" (num 200000000) (entry "max_size" (num 1200000000) end)))))
            (cons
              (obj (
                entry "path" (str (codes "assets/001.dat")) (
                  entry "type" (str (codes "file"))
                    (entry "min_size" (num 1000000) (entry "max_size" (num 200000000) end)))))
              (cons
                (obj (
                  entry "path" (str (codes "assets/Shaders/example_Simple.vsh")) (
                    entry "type" (str (codes "file"))
                      (entry "min_size" (num 100) (entry "max_size" (num 8192) end)))))
                nil))))))

abbrev commit_part : Value
commit_part =
    (arr (
      cons (str (codes "assets")) (
        cons (str (codes "libchrono.so"))
          (cons (str (codes "libc++_shared.so")) (cons (str (codes "libencrypt.so")) nil)))))

abbrev marker_part : Value
marker_part = (str (codes ".nxextract-chrono.json"))

abbrev space_part : Value
space_part = (obj (entry "safety_bytes" (num 268435456) end))

abbrev log_part : Value
log_part = (str (codes "nxextract.log"))

abbrev ui_success_seconds_part : Value
ui_success_seconds_part = (num 1)

abbrev ui_error_seconds_part : Value
ui_error_seconds_part = (num 8)

abbrev the_recipe : Value
the_recipe = obj (
    entry "schema" schema_part (
      entry "id" id_part (
        entry "version" version_part (
          entry "title" title_part (
            entry "abi_order" abi_order_part (
              entry "input" input_part (
                entry "extract" extract_part (
                  entry "hooks" hooks_part (
                    entry "validate" validate_part (
                      entry "commit" commit_part (
                        entry "marker" marker_part (
                          entry "space" space_part (
                            entry "log" log_part (
                              entry "ui_success_seconds" ui_success_seconds_part
                                (entry "ui_error_seconds" ui_error_seconds_part end)))))))))))))))

accepts_repository : is_ok (validate same_key the_recipe) ≡ true
unfolding validate text_eq contains split starts_with ends_in join has_unsafe_char is_special_part
    ends_unportably validate_relative_path validate_template_fields keys_overlap paths_overlap
    is_identifier is_extension is_mode decimal is_package_name is_abi_text check_number
    normalize_hash_list normalize_crc_list parse_magic validate_validation validate_output_check
    machine_known
accepts_repository = refl
