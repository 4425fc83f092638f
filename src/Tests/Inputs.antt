-- ===== src/Tests/Inputs.antt =====
-- One commit path with an earlier live object and a staged one, its recipe and its plan.
use chrono_nextos.Prelude.{
  ℕ, ◌≡◌, refl, ap, sym, ◌∙◌, Bool, true, false, Option, none, some, [], ◌∷◌, leb, ltb,
  if◌then◌else◌, All, inl, inr,
}
use mathlib.Core.Path.{subst}
use chrono_nextos.Prelude.Text.{
  Text, text_eq, text_eq_iff, codes, contains, split, starts_with, ends_in, join,
}
use chrono_nextos.Json.{is_hex_text, is_abi_text}
use chrono_nextos.Paths.{validate_relative_path, has_unsafe_char, is_special_part, ends_unportably}
use chrono_nextos.Templates.{expand_commit_paths, template_value, under_any_commit}
use chrono_nextos.Marker.{is_package}
use chrono_nextos.Fault.{Fault, Result, ok, err, validation_error, ok-injective, is_nx_error}
use chrono_nextos.Recipe.{Recipe}
use chrono_nextos.Marker.Encode.{MarkedPlan}
use chrono_nextos.Disk.{regular, Object, lookup, Disk, absent, real, safe_kind}
use chrono_nextos.Transaction.{Payload}
use chrono_nextos.Transaction.Recovery.{catches}
use chrono_nextos.Transaction.Invariant.{Setting, IsItem, IsPayload}
use chrono_nextos.Transaction.Commit.{this, IsReady}
use chrono_nextos.Transaction.Seal.{SealTells}
use chrono_nextos.Transaction.Planned.{IsPlanned}
use chrono_nextos.Transaction.Durable.{SealsDigest}
use chrono_nextos.Marker.Matches.{IsMarkable, bundle}

abbrev pub same_key : Text → Text
same_key s = s

abbrev pub folder : Text
folder = codes "data"

abbrev pub hex_32 : Text
hex_32 = codes "0123456789abcdef0123456789abcdef"

abbrev pub hex_64 : Text
hex_64 = codes "0123456789abcdef0123456789abcdef0123456789abcdef0123456789abcdef"

abbrev pub a_recipe : Recipe
a_recipe = record {
  identifier = codes "game";
  version = codes "1";
  digest = hex_64;
  commit = folder ∷ [];
  rule_ids = codes "rule" ∷ [];
}

abbrev pub a_plan : MarkedPlan
a_plan = record {
  abi = codes "arm64-v8a";
  source_kind = codes "bundle";
  package_id = none;
  fingerprint = hex_64;
  commit_paths = folder ∷ [];
  items = record { rule_id = codes "rule"; destination = codes "data/a"; size = 3 } ∷ [];
}

abbrev pub other_64 : Text
other_64 = codes "0123456789abcdef0123456789abcdef0123456789abcdef0123456789abcde0"

abbrev pub file : ℕ → Object
file n = record { kind = regular; has_files = true; metadata = n; bytes = 5 }

-- A digest of the metadata of one object, which does not read its bytes.
abbrev stamp : ℕ → Text
stamp n = if ltb 1 n then hex_64 else other_64

abbrev seal_object : Option Object → Result (Text × ℕ)
seal_object none = err validation_error
seal_object (some o) = ok (stamp o.metadata, 1)

abbrev check_object : Option Object → Result (Unit {0})
check_object none = err validation_error
check_object (some o) = ok tt

abbrev pub a_payload : Payload
a_payload = record {
  check_outputs = λ abi live. check_object (lookup folder live);
  seal = λ ps live. seal_object (lookup folder live);
}

abbrev pub a_disk : Disk
a_disk = record {
  live = (folder, file 1) ∷ [];
  stage = (folder, file 2) ∷ [];
  backup = [];
  stage_root = real;
  backup_root = absent;
  live_blocked = λ _. false;
  stage_blocked = λ _. false;
  backup_blocked = λ _. false;
  journal = none;
  marker = none;
}

abbrev pub a_setting : Setting
a_setting = this a_disk a_recipe a_payload a_plan hex_32 7

file-IsPayload : (n : ℕ) → IsPayload (some (file n))
file-IsPayload n x e = ap (λ o. kind_ok o) (sym e)
  where
    kind_ok : Option Object → Result Bool
    kind_ok none = ok true
    kind_ok (some o) = safe_kind o.kind

pub a_setting-items_ok : All (IsItem a_setting a_payload) a_setting.items
unfolding lookup text_eq validate_relative_path has_unsafe_char contains is_special_part
    ends_unportably split starts_with ends_in join
a_setting-items_ok = (
  record {
    current = refl;
    valid = refl;
    had = refl;
    staged = λ e. cc;
    member = inl refl;
    payload_old = file-IsPayload 1;
    payload_new = file-IsPayload 2;
  },
  tt,
)

pub a_disk-IsReady : IsReady a_disk a_recipe a_payload a_plan hex_32 7
a_disk-IsReady = record {
  frame = record {
    stage_ready = refl;
    backup_ready = λ e. cc;
    open_live = λ p i. refl;
    open_stage = λ p i. refl;
    open_backup = λ p i. refl;
    marker_ok = λ marker e same. cc;
  };
  no_backup = refl;
  no_journal = refl;
  items_ok = a_setting-items_ok;
  distinct = (λ i. i tt, tt);
}

-- The earlier object and the staged one have different times, so that no mixture of them has the seal
-- of the staged one.
pub a_payload-SealTells : SealTells a_setting a_payload
unfolding lookup text_eq
a_payload-SealTells a b found mixed all_new ha hb p (inr i) = absurd (i tt)
a_payload-SealTells a b found mixed all_new ha hb p (inl e) = rw e (elim (mixed folder (inl refl)) [
  | inl gone ↦ let no_way = rw gone at ha in cc
  | inr (inl old) ↦
      let one : ok (other_64, 1) ≡ ok found = sym (ap seal_object old) ∙ ha in
      let two : ok (hex_64, 1) ≡ ok found = sym (ap seal_object (all_new folder (inl refl))) ∙ hb in
      let same : (other_64, 1) ≡ (hex_64, 1) = ok-injective (one ∙ sym two) in absurd (differ same)
  | inr (inr new) ↦ new
])
  where
    one_digest : Text × ℕ
    one_digest = (other_64, 1)

    differ : one_digest ≡ (hex_64, 1) → ⊥
    differ h = let same = (text_eq_iff other_64 hex_64).1 (ap (λ x. x.0) h) in cc

pub a_payload-SealsDigest : SealsDigest a_payload
unfolding is_hex_text
a_payload-SealsDigest ps a found h = of_object (lookup folder a) h
  where
    stamped : (b : Bool) → is_hex_text 64 (if b then hex_64 else other_64) ≡ true
    stamped true = refl
    stamped false = refl

    of_object :
        (x : Option Object)
        → seal_object x ≡ ok found
        → (is_hex_text 64 found.0 ≡ true) × (leb 1 found.1 ≡ true)
    of_object none h = cc
    of_object (some o) h =
        subst (λ f. (is_hex_text 64 f.0 ≡ true) × (leb 1 f.1 ≡ true)) (ok-injective h)
          (stamped (ltb 1 o.metadata), refl)

caught_check :
    (x : Option Object) (e : Fault)
    → check_object x ≡ err e
    → catches same_key a_recipe a_payload e ≡ true
unfolding is_nx_error
caught_check none e h = rw (← error h) refl
  where
    error : check_object none ≡ err e → validation_error ≡ e
    error h = cc
caught_check (some o) e h = cc

caught_seal :
    (x : Option Object) (e : Fault)
    → seal_object x ≡ err e
    → catches same_key a_recipe a_payload e ≡ true
unfolding is_nx_error
caught_seal none e h = rw (← error h) refl
  where
    error : seal_object none ≡ err e → validation_error ≡ e
    error h = cc
caught_seal (some o) e h = cc

pub expanded : expand_commit_paths same_key a_recipe.commit a_plan.abi ≡ ok a_plan.commit_paths
unfolding expand_commit_paths template_value text_eq validate_relative_path has_unsafe_char contains
    is_special_part ends_unportably split starts_with ends_in join
expanded = refl

pub hex_32-ok : is_hex_text 32 hex_32 ≡ true
unfolding is_hex_text
hex_32-ok = refl

pub hex_64-ok : is_hex_text 64 hex_64 ≡ true
unfolding is_hex_text
hex_64-ok = refl

pub abi-ok : is_abi_text a_plan.abi ≡ true
unfolding is_abi_text
abi-ok = refl

pub a_plan-IsPlanned : IsPlanned same_key a_setting a_payload
a_plan-IsPlanned = record {
  expanded = expanded;
  valid_id = hex_32-ok;
  valid_abi = abi-ok;
  items_ok = a_setting-items_ok;
  planned_paths = refl;
  tells = a_payload-SealTells;
  caught = λ abi live e h. caught_check (lookup folder live) e h;
  seal_caught = λ ps live e h. caught_seal (lookup folder live) e h;
}

pub a_plan-IsMarkable : IsMarkable same_key a_recipe a_plan
unfolding is_package text_eq validate_relative_path has_unsafe_char contains is_special_part
    ends_unportably split starts_with ends_in join under_any_commit
a_plan-IsMarkable = record {
  valid_abi = abi-ok;
  expanded = expanded;
  fingerprinted = hex_64-ok;
  kind_known = bundle;
  package_ok = tt;
  items_ok = (record { rule = refl; safe = refl; below = refl }, tt);
  apart = (tt, tt);
}
