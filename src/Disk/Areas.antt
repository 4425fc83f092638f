-- ===== src/Disk/Areas.antt =====
-- What a lookup finds after an object is moved.
use chrono_nextos.Prelude.{◌≡◌, refl, false, Option, none, some, [], ◌∷◌, arith, if◌then◌else◌}
use chrono_nextos.Prelude.Text.{Text, text_eq, text_eq_iff, text_eq_refl}
use chrono_nextos.Disk.{
  Object, Area, in_game, in_stage, in_backup, Disk, lookup, without, put, move,
}

pub lookup-without :
    (p q : Text) (a : Area) → lookup q (without p a) ≡ (if text_eq p q then none else lookup q a)
unfolding lookup without
lookup-without p q [] = ground arith
lookup-without p q ((r, o) ∷ a) =
    ground (arith, lookup-without p q a, text_eq_iff r p, text_eq_iff r q, text_eq_iff p q)

pub lookup-put :
    (p q : Text) (o : Option Object) (a : Area)
    → lookup q (put p o a) ≡ (if text_eq p q then o else lookup q a)
lookup-put p q none a = lookup-without p q a
lookup-put p q (some o) a = unfold lookup in ground (arith, lookup-without p q a)

pub lookup-put_self : (p : Text) (o : Option Object) (a : Area) → lookup p (put p o a) ≡ o
lookup-put_self p o a = rw (lookup-put, text_eq_refl p)

pub lookup-without_self : (p : Text) (a : Area) → lookup p (without p a) ≡ none
lookup-without_self p a = rw (lookup-without, text_eq_refl p)

-- An area where nothing is found is empty.
pub empty_of_lookup : (a : Area) → ((p : Text) → lookup p a ≡ none) → a ≡ []
unfolding lookup
empty_of_lookup [] h = refl
empty_of_lookup ((r, o) ∷ a) h = let e = h r in ground (arith, text_eq_refl r)

-- Away from the path that is moved, every place is as it was.
abbrev pub Same : Text → Disk → Disk → Type 0
Same q d d' =
    (lookup q d'.live ≡ lookup q d.live)
    × (lookup q d'.stage ≡ lookup q d.stage)
    × (lookup q d'.backup ≡ lookup q d.backup)

module _ (p q : Text) (d : Disk) (apart : text_eq p q ≡ false) where
  put_other : (o : Option Object) (a : Area) → lookup q (put p o a) ≡ lookup q a
  put_other o a = rw (lookup-put, apart)

  without_other : (a : Area) → lookup q (without p a) ≡ lookup q a
  without_other a = rw (lookup-without, apart)

  pub game-backup_other : Same q d (move in_game in_backup p d)
  game-backup_other = (without_other d.live, refl, put_other (lookup p d.live) d.backup)

  pub backup-game_other : Same q d (move in_backup in_game p d)
  backup-game_other = (put_other (lookup p d.backup) d.live, refl, without_other d.backup)

  pub stage-game_other : Same q d (move in_stage in_game p d)
  stage-game_other = (put_other (lookup p d.stage) d.live, without_other d.stage, refl)

  pub game-stage_other : Same q d (move in_game in_stage p d)
  game-stage_other = (without_other d.live, put_other (lookup p d.live) d.stage, refl)
