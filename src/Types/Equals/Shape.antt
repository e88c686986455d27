-- ===== src/Types/Equals/Shape.antt =====
-- What `Equals` compares: the shape of a type, with links kept and free variables told apart only
-- when they are generic, by their IDs.
use gocaml.Base.{
  ℕ, zero, suc, ◌≡◌, ◌≢◌, refl, ap, Bool, true, false, not, ◌&&◌, Option, none, some, ◌==◌, ==_iff,
  Bool-cases, inl, inr, if◌then◌else◌,
}
use gocaml.Types.{
  Ty, Tys, unit, bool, int, float, string, fun, tuple, array, option, var, nil, cons, Store,
  is_generic,
}
use gocaml.Types.Bounded.{All, AtRef, Within, InUse}
use gocaml.Types.Equals.{
  Compare, and_then, same_length, equals_all, equals_tuple, equals_fun, equals_var, equals,
}

mutual
  pub data Shape : Type 0 where
    base : Ty → Shape
    fun_shape : Shape → Shapes → Shape
    tuple_shape : Shapes → Shape
    array_shape option_shape : Shape → Shape
    link : Shape → Shape
    bound : ℕ → Shape
    unbound : Shape

  pub data Shapes : Type 0 where
    no_shape : Shapes
    shapes : Shape → Shapes → Shapes

unfoldable pub shape_all : (Ty → Shape) → Tys → Shapes
shape_all g nil = no_shape
shape_all g (cons t ts) = shapes (g t) (shape_all g ts)

unfoldable pub shape_var : (Ty → Shape) → Store → ℕ → Option Ty → Shape
shape_var g s p none = if is_generic s p then bound (s.cell p).id else unbound
shape_var g s p (some t) = link (g t)

-- The shape to depth `n`.
unfoldable pub shape : ℕ → Store → Ty → Shape
unfolding shape_all shape_var
shape zero s t = base t
shape (suc n) s (fun r ps) = fun_shape (shape n s r) (shape_all (shape n s) ps)
shape (suc n) s (tuple ts) = tuple_shape (shape_all (shape n s) ts)
shape (suc n) s (array t) = array_shape (shape n s t)
shape (suc n) s (option t) = option_shape (shape n s t)
shape (suc n) s (var p) = shape_var (shape n s) s p (s.cell p).ref
shape (suc n) s t = base t

-- A comparison's answer is whether two things are equal.
abbrev pub Tells : {A : Type 0} → A → A → Option Bool → Type 0
Tells a b none = ⊥
Tells a b (some true) = a ≡ b
Tells a b (some false) = a ≢ b

Tells-fun :
    (a b : Shape) (us vs : Shapes) (o k : Option Bool)
    → Tells a b o
    → Tells us vs k
    → Tells (fun_shape a us) (fun_shape b vs) (and_then o k)
Tells-fun a b us vs none k h g = h
Tells-fun a b us vs (some false) k h g = λ e. h (cc)
Tells-fun a b us vs (some true) none h g = g
Tells-fun a b us vs (some true) (some true) h g = cc
Tells-fun a b us vs (some true) (some false) h g = λ e. g (cc)

Tells-cons :
    (a b : Shape) (us vs : Shapes) (o k : Option Bool)
    → Tells a b o
    → Tells us vs k
    → Tells (shapes a us) (shapes b vs) (and_then o k)
Tells-cons a b us vs none k h g = h
Tells-cons a b us vs (some false) k h g = λ e. h (cc)
Tells-cons a b us vs (some true) none h g = g
Tells-cons a b us vs (some true) (some true) h g = cc
Tells-cons a b us vs (some true) (some false) h g = λ e. g (cc)

Tells-map :
    {A B : Type 0} (g : A → B) (a b : A) (o : Option Bool)
    → (g a ≡ g b → a ≡ b)
    → Tells a b o
    → Tells (g a) (g b) o
Tells-map g a b none inj h = h
Tells-map g a b (some true) inj h = ap g h
Tells-map g a b (some false) inj h = λ e. h (inj e)

bound-Tells : (a b : ℕ) (same : Bool) → (a == b) ≡ same → Tells (bound a) (bound b) (some same)
bound-Tells a b true e = ap bound ((==_iff a b).0 e)
bound-Tells a b false e = λ h. cc (e, (==_iff a b).1 (cc))

free-Tells :
    (g g' : Bool) (a b : ℕ)
    → Tells
        (if g then bound a else unbound)
        (if g' then bound b else unbound)
        (some (if g && g' then a == b else not g && not g'))
free-Tells true true a b = bound-Tells a b _ refl
free-Tells true false a b = λ e. cc
free-Tells false true a b = λ e. cc
free-Tells false false a b = refl

abbrev is_link : Shape → Bool
is_link (link t) = true
is_link t = false

abbrev is_var_shape : Shape → Bool
is_var_shape (link t) = true
is_var_shape (bound id) = true
is_var_shape unbound = true
is_var_shape t = false

free-is_link : (b : Bool) (id : ℕ) → is_link (if b then bound id else unbound) ≡ false
free-is_link true id = refl
free-is_link false id = refl

free-is_var_shape : (b : Bool) (id : ℕ) → is_var_shape (if b then bound id else unbound) ≡ true
free-is_var_shape true id = refl
free-is_var_shape false id = refl

shape_var-is_var_shape :
    (g : Ty → Shape) (s : Store) (p : ℕ) (o : Option Ty) → is_var_shape (shape_var g s p o) ≡ true
unfolding shape_var
shape_var-is_var_shape g s p none = free-is_var_shape (is_generic s p) (s.cell p).id
shape_var-is_var_shape g s p (some t) = refl

module _ (s : Store) where
  abbrev Ends : ℕ → Ty → Type 0
  Ends n t = Within (InUse s) n s t

  abbrev Comparer : ℕ → Compare → Type 0
  Comparer n rec = (l r : Ty) → Ends n l → Ends n r → Tells (shape n s l) (shape n s r) (rec l r)

  abbrev compare_all : Compare → Tys → Tys → Option Bool
  compare_all rec ls rs = if not (same_length ls rs) then some false else equals_all rec ls rs

  All-Tells :
      (n : ℕ) (rec : Compare)
      → Comparer n rec
      → (ls rs : Tys) → All (Ends n) ls
      → All (Ends n) rs
      → Tells (shape_all (shape n s) ls) (shape_all (shape n s) rs) (compare_all rec ls rs)
  unfolding shape_all equals_all
  All-Tells n rec h nil nil a b = refl
  All-Tells n rec h nil (cons r rs) a b = λ e. cc
  All-Tells n rec h (cons l ls) nil a b = λ e. cc
  All-Tells n rec h (cons l ls) (cons r rs) a b =
      let rest = All-Tells n rec h ls rs a.1 b.1 in
      elim (Bool-cases (same_length ls rs)) [
        | inl same ↦
            rw same (
              Tells-cons _ _ _ _ (rec l r) (equals_all rec ls rs) (h l r a.0 b.0) (rw same at rest))
        | inr other ↦ rw other (λ e. (rw other at rest) (cc))
      ]

  var-Tells :
      (n : ℕ) (rec : Compare)
      → Comparer n rec
      → (p q : ℕ) (o o' : Option Ty) → AtRef (Ends n) o
      → AtRef (Ends n) o'
      → Tells
          (shape_var (shape n s) s p o)
          (shape_var (shape n s) s q o')
          (equals_var rec s p q o o')
  unfolding shape_var equals_var
  var-Tells n rec h p q none none a b =
      free-Tells (is_generic s p) (is_generic s q) (s.cell p).id (s.cell q).id
  var-Tells n rec h p q none (some r) a b =
      λ e. cc (ap is_link e, free-is_link (is_generic s p) (s.cell p).id)
  var-Tells n rec h p q (some l) none a b =
      λ e. cc (ap is_link e, free-is_link (is_generic s q) (s.cell q).id)
  var-Tells n rec h p q (some l) (some r) a b =
      Tells-map link (shape n s l) (shape n s r) (rec l r) (λ e. cc) (h l r a b)

  -- On types that end under the store, the comparison ends, and tells whether their shapes are
  -- equal.
  pub equals-Tells : (n : ℕ) → Comparer n (equals n s)
  unfolding equals shape equals_tuple equals_fun
  equals-Tells zero l r h g = h
  equals-Tells (suc n) (tuple ls) (tuple rs) h g =
      Tells-map tuple_shape _ _ (compare_all (equals n s) ls rs) (λ e. cc)
        (All-Tells n (equals n s) (equals-Tells n) ls rs h g)
  equals-Tells (suc n) (array l) (array r) h g =
      Tells-map array_shape _ _ (equals n s l r) (λ e. cc) (equals-Tells n l r h g)
  equals-Tells (suc n) (option l) (option r) h g =
      Tells-map option_shape _ _ (equals n s l r) (λ e. cc) (equals-Tells n l r h g)
  equals-Tells (suc n) (fun l ls) (fun r rs) h g =
      Tells-fun _ _ _ _ (equals n s l r) (compare_all (equals n s) ls rs)
        (equals-Tells n l r h.0 g.0) (All-Tells n (equals n s) (equals-Tells n) ls rs h.1 g.1)
  equals-Tells (suc n) (var p) (var q) h g =
      var-Tells n (equals n s) (equals-Tells n) p q (s.cell p).ref (s.cell q).ref h.1 g.1
  equals-Tells (suc n) unit unit h g = refl
  equals-Tells (suc n) bool bool h g = refl
  equals-Tells (suc n) int int h g = refl
  equals-Tells (suc n) float float h g = refl
  equals-Tells (suc n) string string h g = refl
  equals-Tells (suc n) (var p) r h g =
      λ e. cc (ap is_var_shape e, shape_var-is_var_shape (shape n s) s p (s.cell p).ref)
  equals-Tells (suc n) l (var q) h g =
      λ e. cc (ap is_var_shape e, shape_var-is_var_shape (shape n s) s q (s.cell q).ref)
  equals-Tells (suc n) l r h g = λ e. cc
