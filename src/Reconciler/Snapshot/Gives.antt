-- ===== src/Reconciler/Snapshot/Gives.antt =====
-- internal/reconciler/reconciler.go: rules for what `Snapshot` gives where it returns no error, one
-- for each way in which its loops are built.
use envy.Common.{◌≡◌, refl, ap, subst, Bool, true, false, if◌then◌else◌}
use envy.Model.{Err}
use envy.Reconciler.Effects.{Res, ok, failed}
use envy.Reconciler.Snapshot.{bind}

-- What is returned without an error satisfies `P`.
pub record Gives {A : Type 0} (P : A → Type 0) (r : Res A) : Type 0 where
  pub at : (a : A) → r ≡ ok a → P a

value : {A : Type 0} → A → Res A → A
value d (ok a) = a
value d (failed e) = d

pub Gives-ok : {A : Type 0} (P : A → Type 0) (a : A) → P a → Gives P (ok a)
unfolding value
Gives-ok P a h = record { at = λ b e. subst P (ap (value a) e) h }

pub Gives-failed : {A : Type 0} (P : A → Type 0) (e : Err) → Gives P (failed e)
Gives-failed P e = record { at = λ b q. cc }

pub Gives-bind :
    {A B : Type 0} (P : A → Type 0) (Q : B → Type 0) (r : Res A) (f : A → Res B)
    → Gives P r
    → ((a : A) → r ≡ ok a → P a → Gives Q (f a))
    → Gives Q (bind r f)
Gives-bind P Q (ok a) f g k = k a refl (g.at a refl)
Gives-bind P Q (failed e) f g k = Gives-failed Q e

pub Gives-if :
    {A : Type 0} (P : A → Type 0) (b : Bool) (r s : Res A)
    → (b ≡ true → Gives P r)
    → (b ≡ false → Gives P s)
    → Gives P (if b then r else s)
Gives-if P true r s g h = g refl
Gives-if P false r s g h = h refl
