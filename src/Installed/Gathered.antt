-- ===== src/Installed/Gathered.antt =====
-- What is below a directory, and what the loops of `payload_metadata_seal` gather of it.
use chrono_nextos.Prelude.{
  ◌≡◌, ◌⊎◌, refl, ap, ◌∙◌, not, Option, none, some, List, [], ◌∷◌, In, In-append_left,
  In-append_right, In-append_inv, inl, inr,
}
use chrono_nextos.Prelude.Text.{Text}
use chrono_nextos.Fault.{Result, ok, validation_error, refuse, ok-injective, >>=-eq-ok}
use chrono_nextos.Installed.{
  Node, regular_file, directory, symbolic_link, special_object, Entries, named, SealedObject,
  sealed_file, sealed_directory, child_path, gather, directory_object, file_object,
}

-- A name of a directory with its object.
pub data Named : Text → Node → Entries → Type 0 where
  first :
      {name : Text} {node : Node} {entries : Entries} → Named name node (named name node entries)
  later :
      {name other : Text} {node another : Node} {entries : Entries}
      → Named name node entries
      → Named name node (named other another entries)

-- What a directory has below it: its names, and what they have below them.
pub data Below : Text → Node → Text → Node → Type 0 where
  child :
      {current name : Text} {node : Node} {entries : Entries}
      → Named name node entries
      → Below current (directory entries) (child_path current name) node
  deeper :
      {current name path : Text} {node found : Node} {entries : Entries}
      → Named name node entries
      → Below (child_path current name) node path found
      → Below current (directory entries) path found

-- How a file or a directory at a path is sealed.
abbrev pub object_of : Text → Node → Option SealedObject
object_of path (regular_file private_ size mtime) = some (sealed_file path size mtime)
object_of path (directory entries) = some (sealed_directory path)
object_of path symbolic_link = none
object_of path special_object = none

-- What a loop has gathered is what its turns have added.
module _ {ℓ} {A : Type ℓ} (turn : A → Result (List SealedObject)) where
  pub gather-In :
      (as_ : List A) (a : A) {objects : List SealedObject}
      → gather turn as_ ≡ ok objects
      → In a as_
      → (own : List SealedObject) × (turn a ≡ ok own)
        × ((o : SealedObject) → In o own → In o objects)
  unfolding gather
  gather-In [] a h i = absurd (i tt)
  gather-In (b ∷ as_) a h i =
      let (own, here, h1) = >>=-eq-ok (turn b) _ h in
      let (more, rest, h2) = >>=-eq-ok (gather turn as_) _ h1 in
      elim i [
        | inl e ↦
            (own, ap turn e ∙ here, λ o j. rw (← ok-injective h2) (In-append_left o own more j))
        | inr j ↦
            let (own_a, is, within) = gather-In as_ a rest j in
            (own_a, is, λ o k. rw (← ok-injective h2) (In-append_right o own more (within o k)))
      ]

  pub In-gather :
      (as_ : List A) (o : SealedObject) {objects : List SealedObject}
      → gather turn as_ ≡ ok objects
      → In o objects
      → (a : A) × (own : List SealedObject) × In a as_ × (turn a ≡ ok own) × In o own
  unfolding gather
  In-gather [] o h i = absurd ((rw (← ok-injective h) at i) tt)
  In-gather (b ∷ as_) o h i =
      let (own, here, h1) = >>=-eq-ok (turn b) _ h in
      let (more, rest, h2) = >>=-eq-ok (gather turn as_) _ h1 in
      elim (In-append_inv o own more (rw (← ok-injective h2) at i)) [
        | inl j ↦ (b, own, inl refl, here, j)
        | inr j ↦ let (a, own_a, k, is, l) = In-gather as_ o rest j in (a, own_a, inr k, is, l)
      ]

-- What the two loops add for one name.
pub own_object :
    (current name : Text) (node : Node) (o : SealedObject) {ds fs : List SealedObject}
    → directory_object current name node ≡ ok ds
    → file_object current name node ≡ ok fs
    → object_of (child_path current name) node ≡ some o
    → In o ds ⊎ In o fs
unfolding directory_object file_object
own_object current name (directory entries) o hd hf e = inl (rw (← ok-injective hd) (inl cc))
own_object current name (regular_file private_ size mtime) o hd hf e =
    let (_, _, h1) = >>=-eq-ok (refuse (not private_) validation_error) _ hf in
    inr (rw (← ok-injective h1) (inl cc))
own_object current name symbolic_link o hd hf e = cc
own_object current name special_object o hd hf e = cc

pub own_object_some :
    (current name : Text) (node : Node) {ds fs : List SealedObject}
    → directory_object current name node ≡ ok ds
    → file_object current name node ≡ ok fs
    → (o : SealedObject) × (object_of (child_path current name) node ≡ some o)
unfolding directory_object file_object
own_object_some current name (directory entries) hd hf = (_, refl)
own_object_some current name (regular_file private_ size mtime) hd hf = (_, refl)
own_object_some current name symbolic_link hd hf = cc
own_object_some current name special_object hd hf = cc

pub own_object_inv :
    (current name : Text) (node : Node) (o : SealedObject) {ds fs : List SealedObject}
    → directory_object current name node ≡ ok ds
    → file_object current name node ≡ ok fs
    → In o ds ⊎ In o fs
    → object_of (child_path current name) node ≡ some o
unfolding directory_object file_object
own_object_inv current name (directory entries) o hd hf (inl i) =
    elim (rw (← ok-injective hd) at i) [ inl e ↦ cc | inr j ↦ absurd (j tt) ]
own_object_inv current name (directory entries) o hd hf (inr i) =
    absurd ((rw (← ok-injective hf) at i) tt)
own_object_inv current name (regular_file private_ size mtime) o hd hf (inl i) =
    absurd ((rw (← ok-injective hd) at i) tt)
own_object_inv current name (regular_file private_ size mtime) o hd hf (inr i) =
    let (_, _, h1) = >>=-eq-ok (refuse (not private_) validation_error) _ hf in
    elim (rw (← ok-injective h1) at i) [ inl e ↦ cc | inr j ↦ absurd (j tt) ]
own_object_inv current name symbolic_link o hd hf i = cc
own_object_inv current name special_object o hd hf i = cc
