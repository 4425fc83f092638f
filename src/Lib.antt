-- ===== src/Lib.antt =====
-- NXExtract, the installer of game data in nxextract/nxextract.py: how it puts a validated payload in
-- place of an earlier one, and how it recovers after an interruption.
--
-- The program validates a recipe, selects source files by their content, extracts them into a stage
-- inside the game's workspace, and then commits the stage: each commit path of the recipe is moved
-- from the game directory to a backup and from the stage to the game directory, under a journal. A
-- marker publishes the result. At its next start the program reads the journal and the marker, and
-- keeps the new payload or brings back the old one. Modelled are this transaction, the documents and
-- texts it stands on, the reader of Android manifests, the validation of a recipe, and the selection of
-- a payload for it:
--
--   Fault        the exception classes, stable_error_code, and results
--   Json         JSON values and _json_no_duplicates
--   Paths        validate_relative_path, safe_zip_name, safe_join (Paths.Parts: what a component is)
--   Templates    validate_template_fields, template_value, paths_overlap, _expand_commit_paths,
--                _under_any_commit
--   Recipe       the fields of class Recipe that a transaction is bound to
--   Journal      _validate_transaction_journal, and the document of commit_stage (Journal.Encode)
--   Marker       marker_matches_recipe, and the document of _write_install_marker (Marker.Encode)
--   Disk         the file system, the actions on it and their failures; Disk.Runs is the program
--                logic for them, Disk.Areas what a lookup finds after a move
--   Transaction  commit_stage, rollback_transaction, recover_transaction,
--                _finalize_published_transaction, marker_payload_seal_valid, discard_path
--                (Transaction.CommitStage: the commit; Recovery: the recovery)
--   Manifest     AndroidStringPool and parse_android_manifest (Manifest.Bytes: the fields of struct,
--                _decode_length8, _decode_length16 and the decoders)
--   Candidates   validate_member_candidate, validate_loose_candidate, _size_valid, validate_summary,
--                parse_magic, normalize_hash_list, normalize_crc_list, _elf_machine_from_header
--                (Candidates.Checks: the checks; the parent has the fields that they read)
--   Specs        Recipe._validate_validation and Recipe._validate_output_check
--   Validation   Recipe._validate and its parts (Validation.Input: _validate_input_config and
--                _validate_container_contract; Rule: _validate_rule; Hooks: hooks and checks;
--                Document: the whole and Recipe.__init__)
--   Selection    the selection of a payload (Selection.Glob: fnmatch; Members: the candidates;
--                Choose: _choose_one and _choose_many; Build: build_plan_for, resolve_plan and
--                Recipe.abi_order)
--   Archives     Archive._open over the entries of a ZIP file (Archives.Opened: what its members are)
--   Installed    payload_metadata_seal over the tree of the game directory (Installed.Stream: what the
--                digest is fed with; Objects: what the walk finds; Sealed: what the seal tells)
--   Tests        the theorems applied to a small payload and to small documents
--
-- A text is the list of its code points. A disk has three places, the game directory, the stage and
-- the backup, each of which has at most one object at a commit path; what is below a commit path is
-- one value. Transaction.Invariant says where the objects of a transaction may be. A function of the
-- program that touches the disk is an action on a disk and a list of events: each durable operation
-- (a rename, an atomic write, a removal, an fsync) is carried out, raises before or after its effect,
-- or is the last one before the process ends, before or after its effect. A list that runs out means
-- that every further operation succeeds. Loops are structural recursion over the commit paths, so no
-- fuel is needed. The loop over the chunks of an Android manifest has as much fuel as the document
-- has bytes, and one turn more, since each chunk has at least eight bytes. The digits of a number have
-- the number itself as fuel, and one turn more.
--
-- Parameters: portable_path_key (unicodedata and casefold), casefold and lower; the record Payload with
-- validate_recipe_outputs and payload_metadata_seal; plain_manifest, for xml.etree; crc32 and sha256;
-- utf8, the encoding of a path; the digests of a plan and of a document, which are sha256_bytes of
-- canonical_json. The theorems on recovery ask that the validation of outputs raises only what
-- recover_transaction catches, that the seal raises only what marker_payload_seal_valid catches, which
-- a file of before 1970 makes false, and that no mixture of earlier and staged objects has the seal of
-- the staged ones, unless it is them: the seal reads names, kinds, sizes and times, and no bytes; how
-- far payload_metadata_seal itself goes is said in Installed.
--
-- Left out: the logger; messages of exceptions; the progress display, but that its update may raise;
-- the partial removal of a tree, which is one operation here; the cache of sources, in which nothing
-- is kept that a transaction reads. Not modelled: the discovery of inputs, zipfile,
-- the extraction, the validation of the outputs, the user interface and the command line of
-- nxextract/nxextract.py, and the game port itself, which is C.
pub mod Archives
pub mod Candidates
pub mod Disk
pub mod Fault
pub mod Installed
pub mod Journal
pub mod Json
pub mod Manifest
pub mod Marker
pub mod Paths
pub mod Prelude
pub mod Recipe
pub mod Selection
pub mod Specs
pub mod Templates
pub mod Tests
pub mod Transaction
pub mod Validation
