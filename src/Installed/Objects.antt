-- ===== src/Installed/Objects.antt =====
-- The objects that the walk of `payload_metadata_seal` finds are those below a commit path.
use chrono_nextos.Prelude.{
  ◌≡◌, ◌⊎◌, refl, sym, ap, ap₂, ◌∙◌, some, List, ◌++◌, In, In-append_left, In-append_right,
  In-append_inv, inl, inr,
}
use chrono_nextos.Prelude.Text.{Text}
use chrono_nextos.Fault.{ok, ok-injective, >>=-eq-ok}
use chrono_nextos.Selection.{sorted}
use chrono_nextos.Selection.Order.{In-sorted, sorted-In}
use chrono_nextos.Installed.{
  Node, regular_file, directory, symbolic_link, special_object, Entries, no_entry, named,
  SealedObject, child_path, Visit, gather, directory_object, file_object, visit_le, walk_visits,
  walk, visits_of,
}
use chrono_nextos.Installed.Gathered.{
  first, later, child, deeper, Named, Below, object_of, gather-In, In-gather, own_object,
  own_object_some, own_object_inv,
}

module _ (portable_path_key : Text → Text) where
  abbrev visit : Text → Text → Node → Visit
  visit current name node = record {
    name = name;
    node = node;
    below = walk portable_path_key (child_path current name) node;
  }

  Named-In :
      (current : Text) {name : Text} {node : Node} {entries : Entries}
      → Named name node entries
      → In (visit current name node) (visits_of portable_path_key current entries)
  unfolding walk
  Named-In current first = inl refl
  Named-In current (later n) = inr (Named-In current n)

  In-Named :
      (current : Text) (entries : Entries) (v : Visit)
      → In v (visits_of portable_path_key current entries)
      → (name : Text) × (node : Node) × Named name node entries × (v ≡ visit current name node)
  unfolding walk
  In-Named current no_entry v i = absurd (i tt)
  In-Named current (named name node entries) v (inl e) = (name, node, first, e)
  In-Named current (named name node entries) v (inr j) =
      let (other, found, n, e) = In-Named current entries v j in (other, found, later n, e)

  -- What the walk of a directory has gathered, in three parts.
  record IsWalk (current : Text) (entries : Entries) (objects : List SealedObject) : Type 0 where
    directories : List SealedObject
    files : List SealedObject
    deep : List SealedObject
    directories_of :
        gather
          (λ v. directory_object current v.name v.node)
          (sorted (visit_le portable_path_key) (visits_of portable_path_key current entries))
        ≡ ok directories
    files_of :
        gather
          (λ v. file_object current v.name v.node)
          (sorted (visit_le portable_path_key) (visits_of portable_path_key current entries))
        ≡ ok files
    deep_of :
        gather Visit.below
          (sorted (visit_le portable_path_key) (visits_of portable_path_key current entries))
        ≡ ok deep
    all_of : directories ++ (files ++ deep) ≡ objects

  walk-IsWalk :
      (current : Text) (entries : Entries) {objects : List SealedObject}
      → walk portable_path_key current (directory entries) ≡ ok objects
      → IsWalk current entries objects
  unfolding walk walk_visits
  walk-IsWalk current entries h =
      let visits =
        sorted (visit_le portable_path_key) (visits_of portable_path_key current entries) in
      let (ds, hd, h1) =
        >>=-eq-ok
          (gather (λ v. directory_object current v.name v.node)
            (sorted (visit_le portable_path_key) (visits_of portable_path_key current entries)))
          _ h in
      let (fs, hf, h2) =
        >>=-eq-ok
          (gather (λ v. file_object current v.name v.node)
            (sorted (visit_le portable_path_key) (visits_of portable_path_key current entries)))
          _ h1 in
      let (deep, hb, h3) =
        >>=-eq-ok
          (gather Visit.below
            (sorted (visit_le portable_path_key) (visits_of portable_path_key current entries)))
          _ h2 in
      record {
        directories = ds;
        files = fs;
        deep = deep;
        directories_of = hd;
        files_of = hf;
        deep_of = hb;
        all_of = ok-injective h3;
      }

  -- Whatever is below a directory is gathered: it is a file or a directory.
  pub Below-In :
      (current : Text) (node : Node) (path : Text) (found : Node) {objects : List SealedObject}
      → Below current node path found
      → walk portable_path_key current node ≡ ok objects
      → (o : SealedObject) × (object_of path found ≡ some o) × In o objects
  Below-In current _ _ found (child {name = name} {entries = entries} n) h =
      let w = walk-IsWalk current entries h in
      let i =
        sorted-In (visit_le portable_path_key) (visit current name found) _ (Named-In current n) in
      let (own_d, hd, within_d) = gather-In _ _ (visit current name found) w.directories_of i in
      let (own_f, hf, within_f) = gather-In _ _ (visit current name found) w.files_of i in
      let (o, e) = own_object_some current name found hd hf in
      (
        o,
        e,
        rw (← w.all_of) (elim (own_object current name found o hd hf e) [
          | inl j ↦ In-append_left o w.directories (w.files ++ w.deep) (within_d o j)
          | inr j ↦
              In-append_right o w.directories (w.files ++ w.deep)
                (In-append_left o w.files w.deep (within_f o j))
        ]),
      )
  Below-In current _ path found (deeper {name = name} {node = node} {entries = entries} n b) h =
      let w = walk-IsWalk current entries h in
      let i =
        sorted-In (visit_le portable_path_key) (visit current name node) _ (Named-In current n) in
      let (own, hb, within) = gather-In Visit.below _ (visit current name node) w.deep_of i in
      let (o, e, j) = Below-In (child_path current name) node path found b hb in
      (
        o,
        e,
        rw (← w.all_of) (
            In-append_right o w.directories (w.files ++ w.deep)
              (In-append_right o w.files w.deep (within o j))),
      )

  -- A gathered object stands for something below the directory.
  abbrev pub Found : Text → Node → SealedObject → Type 0
  Found current node o =
      (path : Text) × (found : Node) × Below current node path found
      × (object_of path found ≡ some o)

  Found-deeper :
      (current name : Text) (node : Node) (entries : Entries) (o : SealedObject)
      → Named name node entries
      → Found (child_path current name) node o
      → Found current (directory entries) o
  Found-deeper current name node entries o n (path, found, b, e) = (path, found, deeper n b, e)

  Found-own :
      (current : Text) (entries : Entries) (v : Visit) (o : SealedObject)
      {ds fs : List SealedObject}
      → In v (visits_of portable_path_key current entries)
      → directory_object current v.name v.node ≡ ok ds
      → file_object current v.name v.node ≡ ok fs
      → In o ds ⊎ In o fs
      → Found current (directory entries) o
  Found-own current entries v o i hd hf j =
      let (name, node, n, e) = In-Named current entries v i in
      let names : v.name ≡ name = ap Visit.name e in
      let nodes : v.node ≡ node = ap Visit.node e in
      let own = own_object_inv current v.name v.node o hd hf j in
      (
        child_path current name,
        node,
        child n,
        ap₂ (λ a b. object_of (child_path current a) b) (sym names) (sym nodes) ∙ own,
      )

  mutual
    unfolding walk

    pub In-Found :
        (current : Text) (node : Node) (o : SealedObject) {objects : List SealedObject}
        → walk portable_path_key current node ≡ ok objects
        → In o objects
        → Found current node o
    In-Found current (directory entries) o h i =
        let w = walk-IsWalk current entries h in
        let visits = visits_of portable_path_key current entries in
        let le = visit_le portable_path_key in
        elim (In-append_inv o w.directories (w.files ++ w.deep) (rw (← w.all_of) at i)) [
          | inl j ↦
              let (v, ds, iv, hd, jd) = In-gather _ (sorted le visits) o w.directories_of j in
              let (fs, hf, _) = gather-In _ (sorted le visits) v w.files_of iv in
              Found-own current entries v o (In-sorted le v visits iv) hd hf (inl jd)
          | inr k ↦ elim (In-append_inv o w.files w.deep k) [
            | inl j ↦
                let (v, fs, iv, hf, jf) = In-gather _ (sorted le visits) o w.files_of j in
                let (ds, hd, _) = gather-In _ (sorted le visits) v w.directories_of iv in
                Found-own current entries v o (In-sorted le v visits iv) hd hf (inr jf)
            | inr j ↦
                let (v, own, iv, hb, jo) = In-gather Visit.below (sorted le visits) o w.deep_of j in
                let (name, node, n, f) =
                  visit-Found current entries v o (In-sorted le v visits iv) hb jo in
                Found-deeper current name node entries o n f
          ]
        ]
    In-Found current (regular_file private_ size mtime) o h i =
        absurd ((rw (← ok-injective h) at i) tt)
    In-Found current symbolic_link o h i = absurd ((rw (← ok-injective h) at i) tt)
    In-Found current special_object o h i = absurd ((rw (← ok-injective h) at i) tt)

    visit-Found :
        (current : Text) (entries : Entries) (v : Visit) (o : SealedObject)
        {own : List SealedObject}
        → In v (visits_of portable_path_key current entries)
        → v.below ≡ ok own
        → In o own
        → (name : Text) × (node : Node) × Named name node entries
          × Found (child_path current name) node o
    visit-Found current no_entry v o i h j = absurd (i tt)
    visit-Found current (named name node entries) v o (inl e) h j = (
      name,
      node,
      first,
      In-Found (child_path current name) node o (sym (ap Visit.below e) ∙ h) j,
    )
    visit-Found current (named name node entries) v o (inr i) h j =
        let (other, found, n, f) = visit-Found current entries v o i h j in
        (other, found, later n, f)
