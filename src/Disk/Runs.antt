-- ===== src/Disk/Runs.antt =====
-- A program logic for actions on the disk: what holds after an action that returns, after one that
-- raises, and where the process ends in it.
use chrono_nextos.Prelude.{◌≡◌, refl, Bool, true, false, List, [], ◌∷◌, arith, if◌then◌else◌}
use chrono_nextos.Fault.{Fault, Result, ok, err}
use chrono_nextos.Disk.{
  Disk, World, Event, go, refused, unsynced, cut_before, cut_after, Outcome, done, raised, cut, M,
  continue, ◌>>=◌, pure, raise, lift, reads, modify, durable, catch, require, happen_next,
  handle_outcome,
}

-- `quiet` says that no operation fails and the power stays on; `Final` is what holds of the disk
-- when the process ends.
module _ (quiet : Bool) (Final : Disk → Type 0) where
  abbrev pub Quiet : World → Type 0
  Quiet w = quiet ≡ true → w.events ≡ []

  abbrev pub Ends {ℓ} :
      {A : Type ℓ} → (A → Disk → Type 0) → (Disk → Type 0) → Outcome A → World → Type 0
  Ends Q R (done a) w = Quiet w × Q a w.disk
  Ends Q R (raised e) w = Quiet w × R w.disk
  Ends Q R cut w = (quiet ≡ false) × Final w.disk

  pub record Runs {ℓ} {A : Type ℓ} (P : Disk → Type 0) (m : M A) (Q : A → Disk → Type 0)
      (R : Disk → Type 0) : Type 0 where
    pub at : (w : World) → Quiet w → P w.disk → Ends Q R (m w).0 (m w).1

  module _ {ℓ} {A : Type ℓ} (P : Disk → Type 0) (Q : A → Disk → Type 0) (R : Disk → Type 0) where
    pub Runs-pure : (a : A) → ((d : Disk) → P d → Q a d) → Runs P (pure a) Q R
    unfolding pure
    Runs-pure a h = record { at = λ w q p. (q, h w.disk p) }

    pub Runs-raise : (e : Fault) → ((d : Disk) → P d → R d) → Runs P (raise e) Q R
    unfolding raise
    Runs-raise e h = record { at = λ w q p. (q, h w.disk p) }

    pub Runs-reads : (f : Disk → A) → ((d : Disk) → P d → Q (f d) d) → Runs P (reads f) Q R
    unfolding reads
    Runs-reads f h = record { at = λ w q p. (q, h w.disk p) }

    pub Runs-lift :
        (r : Result A)
        → ((a : A) → r ≡ ok a → (d : Disk) → P d → Q a d)
        → ((e : Fault) → r ≡ err e → (d : Disk) → P d → R d)
        → Runs P (lift r) Q R
    unfolding lift
    Runs-lift (ok a) h k = record { at = λ w q p. (q, h a refl w.disk p) }
    Runs-lift (err e) h k = record { at = λ w q p. (q, k e refl w.disk p) }

    pub Runs-if :
        (b : Bool) (m n : M A)
        → (b ≡ true → Runs P m Q R)
        → (b ≡ false → Runs P n Q R)
        → Runs P (if b then m else n) Q R
    Runs-if true m n h k = h refl
    Runs-if false m n h k = k refl

    -- A weaker condition before, stronger ones after.
    pub Runs-weaken :
        (P' : Disk → Type 0) (Q' : A → Disk → Type 0) (R' : Disk → Type 0) (m : M A)
        → ((d : Disk) → P d → P' d)
        → ((a : A) (d : Disk) → Q' a d → Q a d)
        → ((d : Disk) → R' d → R d)
        → Runs P' m Q' R'
        → Runs P m Q R
    Runs-weaken P' Q' R' m hp hq hr r = record {
      at = λ w q p. weaken (m w).0 (m w).1 (r.at w q (hp w.disk p));
    }
      where
        weaken : (o : Outcome A) (w : World) → Ends Q' R' o w → Ends Q R o w
        weaken (done a) w (q, h) = (q, hq a w.disk h)
        weaken (raised e) w (q, h) = (q, hr w.disk h)
        weaken cut w h = h

    pub Runs-catch :
        (R' : Disk → Type 0) (m : M A) (handler : Fault → M A)
        → Runs P m Q R'
        → ((e : Fault) → Runs R' (handler e) Q R)
        → Runs P (catch m handler) Q R
    unfolding catch
    Runs-catch R' m handler r h = record { at = λ w q p. handled (m w).0 (m w).1 (r.at w q p) }
      where
        handled :
            (o : Outcome A) (w : World)
            → Ends Q R' o w
            → Ends Q R (handle_outcome o w handler).0 (handle_outcome o w handler).1
        handled (done a) w e = e
        handled (raised x) w (q, e) = (h x).at w q e
        handled cut w e = e

  module _ (P : Disk → Type 0) (Q : Unit {0} → Disk → Type 0) (R : Disk → Type 0) where
    pub Runs-require :
        (b : Bool) (e : Fault)
        → ((d : Disk) → P d → b ≡ true → Q tt d)
        → ((d : Disk) → P d → b ≡ false → R d)
        → Runs P (require b e) Q R
    unfolding pure raise
    Runs-require true e h k = record { at = λ w q p. (q, h w.disk p refl) }
    Runs-require false e h k = record { at = λ w q p. (q, k w.disk p refl) }

    pub Runs-modify : (f : Disk → Disk) → ((d : Disk) → P d → Q tt (f d)) → Runs P (modify f) Q R
    unfolding modify
    Runs-modify f h = record { at = λ w q p. (q, h w.disk p) }

    -- A durable operation fails, or is the last one, only where it is not quiet; before or after
    -- its effect.
    pub Runs-durable :
        (f : Disk → Disk)
        → ((d : Disk) → P d → Q tt (f d))
        → ((d : Disk) → quiet ≡ false → P d → R d × R (f d))
        → ((d : Disk) → quiet ≡ false → P d → Final d × Final (f d))
        → Runs P (durable f) Q R
    unfolding durable
    Runs-durable f h k l = record { at = λ w q p. next w.events w.disk q p }
      where
        loud :
            {event : Event} {rest : List Event} → (quiet ≡ true → event ∷ rest ≡ []) → quiet ≡ false
        loud q = ground arith

        next :
            (events : List Event) (d : Disk)
            → (quiet ≡ true → events ≡ [])
            → P d
            → Ends Q R (happen_next events f d).0 (happen_next events f d).1
        next [] d q p = (λ _. refl, h d p)
        next (go ∷ rest) d q p = (λ t. cc (loud q), h d p)
        next (refused e ∷ rest) d q p = (λ t. cc (loud q), (k d (loud q) p).0)
        next (unsynced e ∷ rest) d q p = (λ t. cc (loud q), (k d (loud q) p).1)
        next (cut_before ∷ rest) d q p = (loud q, (l d (loud q) p).0)
        next (cut_after ∷ rest) d q p = (loud q, (l d (loud q) p).1)

  pub Runs-bind {ℓ κ} :
      {A : Type ℓ} {B : Type κ} (P : Disk → Type 0) (Q' : A → Disk → Type 0) (Q : B → Disk → Type 0)
      (R : Disk → Type 0) (m : M A) (f : A → M B)
      → Runs P m Q' R
      → ((a : A) → Runs (Q' a) (f a) Q R)
      → Runs P (m >>= f) Q R
  unfolding ◌>>=◌
  Runs-bind P Q' Q R m f r k = record { at = λ w q p. next (m w).0 (m w).1 (r.at w q p) }
    where
      next :
          (o : Outcome _) (w : World)
          → Ends Q' R o w
          → Ends Q R (continue o w f).0 (continue o w f).1
      next (done a) w (q, h) = (k a).at w q h
      next (raised e) w h = h
      next cut w h = h
