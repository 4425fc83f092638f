-- ===== src/Installed/Sealed.antt =====
-- What the seal of a payload tells: `payload_metadata_seal` of nxextract/nxextract.py against the
-- description of what is installed.
use chrono_nextos.Prelude.{
  ℕ, ◌≡◌, refl, sym, ap, ◌∙◌, not, Option, some, List, [], In, Option-cases, inl, inr,
}
use chrono_nextos.Prelude.Text.{Text}
use chrono_nextos.Fault.{Result, ok, err, validation_error, refuse, ok-injective, ◌>>=◌, >>=-eq-ok}
use chrono_nextos.Selection.{sorted}
use chrono_nextos.Selection.Order.{In-sorted, sorted-In}
use chrono_nextos.Installed.{
  Node, Entries, regular_file, directory, symbolic_link, special_object, SealedObject, walk,
  commit_objects, path_le, payload_objects, check_objects, digest_input, payload_metadata_seal,
}
use chrono_nextos.Installed.Stream.{digest_input-injective}
use chrono_nextos.Installed.Gathered.{Below, child, deeper, object_of, gather-In, In-gather}
use chrono_nextos.Installed.Objects.{Below-In, In-Found}

-- What a game directory has at the commit paths and below them.
pub data IsInstalled (at : Text → Option Node) (commits : List Text) : Text → Node → Type 0 where
  root :
      (commit : Text) (node : Node)
      → In commit commits
      → at commit ≡ some node
      → IsInstalled at commits commit node
  inside :
      (commit : Text) (node : Node) (path : Text) (found : Node)
      → In commit commits
      → at commit ≡ some node
      → Below commit node path found
      → IsInstalled at commits path found

-- An object stands for something that is installed.
abbrev pub Stands : (Text → Option Node) → List Text → SealedObject → Type 0
Stands at commits o =
    (path : Text) × (found : Node) × IsInstalled at commits path found
    × (object_of path found ≡ some o)

module _ (portable_path_key : Text → Text) where
  commit_objects-root :
      (commit : Text) (node : Node) {own : List SealedObject}
      → commit_objects portable_path_key commit (some node) ≡ ok own
      → (o : SealedObject) × (object_of commit node ≡ some o) × In o own
  unfolding commit_objects
  commit_objects-root commit (regular_file private_ size mtime) h =
      let (_, _, h1) = >>=-eq-ok (refuse (not private_) validation_error) _ h in
      (_, refl, rw (← ok-injective h1) (inl refl))
  commit_objects-root commit (directory entries) h =
      let (below, _, h1) = >>=-eq-ok (walk portable_path_key commit (directory entries)) _ h in
      (_, refl, rw (← ok-injective h1) (inl refl))
  commit_objects-root commit symbolic_link h = cc
  commit_objects-root commit special_object h = cc

  commit_directory-Below :
      (commit : Text) (entries : Entries) (path : Text) (found : Node) {own : List SealedObject}
      → Below commit (directory entries) path found
      → commit_objects portable_path_key commit (some (directory entries)) ≡ ok own
      → (o : SealedObject) × (object_of path found ≡ some o) × In o own
  unfolding commit_objects
  commit_directory-Below commit entries path found b h =
      let (below, walked, h1) = >>=-eq-ok (walk portable_path_key commit (directory entries)) _ h in
      let (o, e, i) = Below-In portable_path_key commit (directory entries) path found b walked in
      (o, e, rw (← ok-injective h1) (inr i))

  commit_objects-Below :
      (commit : Text) (node : Node) (path : Text) (found : Node) {own : List SealedObject}
      → Below commit node path found
      → commit_objects portable_path_key commit (some node) ≡ ok own
      → (o : SealedObject) × (object_of path found ≡ some o) × In o own
  commit_objects-Below commit _ path found (child {entries = entries} n) h =
      commit_directory-Below commit entries path found (child n) h
  commit_objects-Below commit _ path found (deeper {entries = entries} n b) h =
      commit_directory-Below commit entries path found (deeper n b) h

  -- Whatever is installed has been sealed, as a file or as a directory.
  IsInstalled-In :
      (at : Text → Option Node) (commits : List Text) (path : Text) (found : Node)
      {objects : List SealedObject}
      → payload_objects portable_path_key at commits ≡ ok objects
      → IsInstalled at commits path found
      → (o : SealedObject) × (object_of path found ≡ some o) × In o objects
  unfolding payload_objects
  IsInstalled-In at commits _ _ h (root commit node i e) =
      let (own, here, within) = gather-In _ commits commit h i in
      let (o, same, j) =
        commit_objects-root commit node
          (ap (commit_objects portable_path_key commit) (sym e) ∙ here) in
      (o, same, within o j)
  IsInstalled-In at commits _ _ h (inside commit node path found i e b) =
      let (own, here, within) = gather-In _ commits commit h i in
      let (o, same, j) =
        commit_objects-Below commit node path found b
          (ap (commit_objects portable_path_key commit) (sym e) ∙ here) in
      (o, same, within o j)

  -- What has been sealed is installed.
  commit-Stands :
      (at : Text → Option Node) (commits : List Text) (commit : Text) (node : Node)
      (o : SealedObject) {own : List SealedObject}
      → In commit commits
      → at commit ≡ some node
      → commit_objects portable_path_key commit (some node) ≡ ok own
      → In o own
      → Stands at commits o
  unfolding commit_objects
  commit-Stands at commits commit (regular_file private_ size mtime) o i e h j =
      let (_, _, h1) = >>=-eq-ok (refuse (not private_) validation_error) _ h in
      elim (rw (← ok-injective h1) at j) [
        | inl same ↦
            (commit, regular_file private_ size mtime, root commit _ i e, ap some (sym same))
        | inr k ↦ absurd (k tt)
      ]
  commit-Stands at commits commit (directory entries) o i e h j =
      let (below, walked, h1) = >>=-eq-ok (walk portable_path_key commit (directory entries)) _ h in
      elim (rw (← ok-injective h1) at j) [
        | inl same ↦ (commit, directory entries, root commit _ i e, ap some (sym same))
        | inr k ↦
            let (path, found, b, same) =
              In-Found portable_path_key commit (directory entries) o walked k in
            (path, found, inside commit (directory entries) path found i e b, same)
      ]
  commit-Stands at commits commit symbolic_link o i e h j = cc
  commit-Stands at commits commit special_object o i e h j = cc

  In-Stands :
      (at : Text → Option Node) (commits : List Text) (o : SealedObject)
      {objects : List SealedObject}
      → payload_objects portable_path_key at commits ≡ ok objects
      → In o objects
      → Stands at commits o
  unfolding payload_objects commit_objects
  In-Stands at commits o h i =
      let (commit, own, ic, made, j) = In-gather _ commits o h i in
      elim (Option-cases (at commit)) [
        | inr (node, e) ↦
            commit-Stands at commits commit node o ic e
              (ap (commit_objects portable_path_key commit) (sym e) ∙ made) j
        | inl e ↦
            let g : err validation_error ≡ ok own =
              ap (commit_objects portable_path_key commit) (sym e) ∙ made in
            cc
      ]

  module _ (utf8 : Text → List ℕ) (utf8_injective : (s t : Text) → utf8 s ≡ utf8 t → s ≡ t)
      (sha256 : List ℕ → Text) where
    -- What the digest of a game directory is fed with.
    abbrev pub input_of : (Text → Option Node) → List Text → Result (List ℕ)
    input_of at commits =
        payload_objects portable_path_key at (sorted (path_le portable_path_key) commits)
        >>= digest_input utf8

    sealed_of :
        (at : Text → Option Node) (commits : List Text) {seal : Text} {count : ℕ}
        → payload_metadata_seal utf8 portable_path_key sha256 at commits ≡ ok (seal, count)
        → (objects : List SealedObject) × (input : List ℕ) × (payload_objects portable_path_key at
              (sorted (path_le portable_path_key) commits)
            ≡ ok objects)
          × (digest_input utf8 objects ≡ ok input)
          × (input_of at commits ≡ ok input)
          × (sha256 input ≡ seal)
    unfolding payload_metadata_seal
    sealed_of at commits h =
        let (objects, ho, h1) =
          >>=-eq-ok
            (payload_objects portable_path_key at (sorted (path_le portable_path_key) commits)) _
            h in
        let (_, _, h2) = >>=-eq-ok (check_objects portable_path_key [] objects) _ h1 in
        let (input, hi, h3) = >>=-eq-ok (digest_input utf8 objects) _ h2 in
        (objects, input, ho, hi, rw ho hi, ap (λ r. r.0) (ok-injective h3))

    IsInstalled-sorted :
        (at : Text → Option Node) (commits : List Text) (path : Text) (found : Node)
        → IsInstalled at commits path found
        → IsInstalled at (sorted (path_le portable_path_key) commits) path found
    IsInstalled-sorted at commits _ _ (root commit node i e) =
        root commit node (sorted-In (path_le portable_path_key) commit commits i) e
    IsInstalled-sorted at commits _ _ (inside commit node path found i e b) =
        inside commit node path found (sorted-In (path_le portable_path_key) commit commits i) e b

    sorted-IsInstalled :
        (at : Text → Option Node) (commits : List Text) (path : Text) (found : Node)
        → IsInstalled at (sorted (path_le portable_path_key) commits) path found
        → IsInstalled at commits path found
    sorted-IsInstalled at commits _ _ (root commit node i e) =
        root commit node (In-sorted (path_le portable_path_key) commit commits i) e
    sorted-IsInstalled at commits _ _ (inside commit node path found i e b) =
        inside commit node path found (In-sorted (path_le portable_path_key) commit commits i) e b

    -- Two game directories with one seal, where the encoding of paths takes no two paths for one and the
    -- digest does not collide on what the two directories feed it with: whatever the first has at a commit path or below it is a file or a directory, and
    -- the second has one of the same kind at the same path, a file with the same size and time.
    pub payload_metadata_seal-IsInstalled :
        (before after : Text → Option Node) (commits : List Text) (seal : Text) (count other : ℕ)
        (path : Text) (found : Node)
        → ((x y : List ℕ)
            → input_of before commits ≡ ok x
            → input_of after commits ≡ ok y
            → sha256 x ≡ sha256 y
            → x ≡ y)
        → payload_metadata_seal utf8 portable_path_key sha256 before commits ≡ ok (seal, count)
        → payload_metadata_seal utf8 portable_path_key sha256 after commits ≡ ok (seal, other)
        → IsInstalled before commits path found
        → (o : SealedObject) × (object_of path found ≡ some o) × Stands after commits o
    payload_metadata_seal-IsInstalled before after commits seal count other path found tells h k i =
        let (as_, x, ha, hx, ix, sx) = sealed_of before commits h in
        let (bs, y, hb, hy, iy, sy) = sealed_of after commits k in
        let inputs = tells x y ix iy (sx ∙ sym sy) in
        let objects =
          digest_input-injective utf8 utf8_injective as_ bs hx (hy ∙ ap ok (sym inputs)) in
        let (o, e, j) =
          IsInstalled-In before (sorted (path_le portable_path_key) commits) path found ha
            (IsInstalled-sorted before commits path found i) in
        let (other_path, there, s, same) =
          In-Stands after (sorted (path_le portable_path_key) commits) o hb (rw (← objects) j) in
        (o, e, (other_path, there, sorted-IsInstalled after commits other_path there s, same))
