-- ===== src/Base/Maps.antt =====
-- Maps from names, as functions.
use mathlib.Core.Path.{◌≡◌, refl}
use mathlib.Core.Bool.{false}
use mathlib.Core.Option.{Option, none, some}
use gocaml.Base.Tests.{if◌then◌else◌}
use gocaml.Base.Codes.{Text, text_eq, text_eq_refl}

abbrev pub put : {A : Type 0} → Text → A → (Text → Option A) → Text → Option A
put k a m q = if text_eq k q then some a else m q

abbrev pub remove : {A : Type 0} → Text → (Text → Option A) → Text → Option A
remove k m q = if text_eq k q then none else m q

pub put_same : {A : Type 0} (k : Text) (a : A) (m : Text → Option A) → put k a m k ≡ some a
put_same k a m = rw (text_eq_refl k) refl

pub put_other :
    {A : Type 0} (k n : Text) (a : A) (m : Text → Option A)
    → text_eq k n ≡ false
    → put k a m n ≡ m n
put_other k n a m e = rw e refl
