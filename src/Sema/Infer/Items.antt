-- ===== src/Sema/Infer/Items.antt =====
-- sema/infer.go: the nodes of a tree and its binders, and the runs that deal with them.
use gocaml.Base.{
  ◌≡◌, refl, sym, ap, subst, ◌∙◌, ◌⊎◌, inl, inr, ℕ, Bool-cases, Option, none, some, List, [], ◌∷◌,
  ◌++◌, Text, text_eq, put, put_same,
}
use gocaml.Types.{Ty, Store}
use gocaml.Ast.{
  Symbol, Expr, Exprs, MaybeExpr, Params, unit_lit, bool_lit, int_lit, float_lit, string_lit, unary,
  binary, if_expr, let_expr, var_ref, let_rec, apply, let_tuple, array_make, array_size, array_get,
  array_put, match_expr, some_expr, none_expr, array_lit, func_type, tuple_type, ctor_type, typed,
  type_decl, external_decl, nil, cons, absent, present, no_params, param,
}
use gocaml.Ast as Ast
use gocaml.Sema.Unify.{Outcome, ok, err, panic, no_fuel}
use gocaml.Sema.Generic.{Generalizer, Instantiation}
use gocaml.Sema.NodeToType.{Converted, NodeTypeConv, node_to_type, refuses, gives}
use gocaml.Sema.NodeToType as NodeToType
use gocaml.Sema.Infer.{
  Inferer, Inference, out, panics, fails, infers, M, follow, ◌>>=◌, pure, declare, noted,
  from_outcome, from_converted, from_generalized, new_type_var, instantiated,
}

-- A node that is to have a type, or a name that is to be declared.
pub data Item : Type 0 where
  node : Expr → Item
  name : Text → Item

abbrev pub Has : Expr → List (Expr × Ty) → Type 0
Has e [] = ⊥
Has e ((n, t) ∷ rest) = (n ≡ e) ⊎ Has e rest

abbrev pub Holds : Inferer → Item → Type 0
Holds s (node e) = Has e s.inferred
Holds s (name x) = (t : Ty) × (s.decl_table x ≡ some t)

abbrev pub Covers : Inferer → List Item → Type 0
Covers s [] = Unit {0}
Covers s (i ∷ is) = Holds s i × Covers s is

abbrev pub names_of : List Symbol → List Item
names_of [] = []
names_of (x ∷ xs) = name x.name ∷ names_of xs

abbrev pub names_of_params : Params → List Item
names_of_params no_params = []
names_of_params (param x ty ps) = name x.name ∷ names_of_params ps

-- The nodes of a tree but for the whole, and its binders.
unfoldable mutual
  pub inner : Expr → List Item
  inner (unary op tok e) = inner e ++ node e ∷ []
  inner (binary op l r) = (inner l ++ node l ∷ []) ++ (inner r ++ node r ∷ [])
  inner (if_expr tok c a b) =
      (inner c ++ node c ∷ []) ++ ((inner a ++ node a ∷ []) ++ (inner b ++ node b ∷ []))
  inner (let_expr tok x ty bound body) =
      (inner bound ++ node bound ∷ []) ++ (name x.name ∷ (inner body ++ node body ∷ []))
  inner (let_rec tok f ps ret body rest) =
      names_of_params ps
      ++ (name f.name ∷ ((inner body ++ node body ∷ []) ++ (inner rest ++ node rest ∷ [])))
  inner (apply f xs) = inner_all xs ++ (inner f ++ node f ∷ [])
  inner (Ast.tuple xs) = inner_all xs
  inner (let_tuple tok xs ty bound body) =
      (inner bound ++ node bound ∷ []) ++ (names_of xs ++ (inner body ++ node body ∷ []))
  inner (array_make tok n e) = (inner n ++ node n ∷ []) ++ (inner e ++ node e ∷ [])
  inner (array_size tok a) = inner a ++ node a ∷ []
  inner (array_get a i) = (inner a ++ node a ∷ []) ++ (inner i ++ node i ∷ [])
  inner (array_put a i e) =
      (inner i ++ node i ∷ []) ++ ((inner e ++ node e ∷ []) ++ (inner a ++ node a ∷ []))
  inner (array_lit l r xs) = inner_all xs
  inner (some_expr tok e) = inner e ++ node e ∷ []
  inner (match_expr tok e x a b last) =
      (inner e ++ node e ∷ [])
      ++ (name x.name ∷ ((inner a ++ node a ∷ []) ++ (inner b ++ node b ∷ [])))
  inner (typed e ty) = inner e ++ node e ∷ []
  inner e = []

  pub inner_all : Exprs → List Item
  inner_all nil = []
  inner_all (cons e es) = (inner e ++ node e ∷ []) ++ inner_all es

unfoldable pub Grows : Inferer → Inferer → Type 0
Grows s s' = (i : Item) → Holds s i → Holds s' i

pub Covers-Grows : (s s' : Inferer) (is : List Item) → Grows s s' → Covers s is → Covers s' is
unfolding Grows
Covers-Grows s s' [] g c = tt
Covers-Grows s s' (i ∷ is) g (h, c) = (g i h, Covers-Grows s s' is g c)

pub Covers-append :
    (s : Inferer) (is js : List Item) → Covers s is → Covers s js → Covers s (is ++ js)
Covers-append s [] js c d = d
Covers-append s (i ∷ is) js (h, c) d = (h, Covers-append s is js c d)

-- A run that succeeds keeps what holds, and makes the items hold.
unfoldable pub Adds : {A : Type 0} → M A → List Item → Type 0
Adds {A = A} m is =
    (s : Inferer) (a : A) (s' : Inferer) → m s ≡ infers a s' → Grows s s' × Covers s' is

abbrev pub state_or : {A : Type 0} → Inferer → Inference A → Inferer
state_or d (infers a s) = s
state_or d r = d

pub follow-inv :
    {A B : Type 0} (r : Inference A) (f : A → M B) (b : B) (s' : Inferer)
    → follow r f ≡ infers b s'
    → (a : A) × (s1 : Inferer) × (r ≡ infers a s1) × (f a s1 ≡ infers b s')
follow-inv (infers a s1) f b s' e = (a, s1, refl, e)
follow-inv out f b s' e = absurd (cc)
follow-inv panics f b s' e = absurd (cc)
follow-inv (fails w) f b s' e = absurd (cc)

pub bind-Adds :
    {A B : Type 0} (m : M A) (f : A → M B) (is js : List Item)
    → Adds m is
    → ((a : A) → Adds (f a) js)
    → Adds (m >>= f) (is ++ js)
unfolding Adds Grows
bind-Adds m f is js dm df s b s' e =
    let (a, s1, e1, e2) = follow-inv (m s) f b s' e in
    let (g1, c1) = dm s a s1 e1 in
    let (g2, c2) = df a s1 b s' e2 in
    ((λ i h. g2 i (g1 i h)), Covers-append s' is js (Covers-Grows s1 s' is g2 c1) c2)

-- The last step adds nothing.
pub last-Adds :
    {A B : Type 0} (m : M A) (f : A → M B) (is : List Item)
    → Adds m is
    → ((a : A) → Adds (f a) [])
    → Adds (m >>= f) is
unfolding Adds Grows
last-Adds m f is dm df s b s' e =
    let (a, s1, e1, e2) = follow-inv (m s) f b s' e in
    let (g1, c1) = dm s a s1 e1 in
    let (g2, c2) = df a s1 b s' e2 in ((λ i h. g2 i (g1 i h)), Covers-Grows s1 s' is g2 c1)

-- A run that ends in a state where the same holds, and the items.
pub ends-Adds :
    {A : Type 0} (r : Inference A) (a : A) (s s1 s' : Inferer) (is : List Item)
    → infers a s1 ≡ r
    → Grows s s1
    → Covers s1 is
    → (b : A) → r ≡ infers b s'
    → Grows s s' × Covers s' is
ends-Adds r a s s1 s' is e g c b e' =
    subst (λ z. Grows s z × Covers z is) (ap (state_or s) (e ∙ e')) (g, c)

pub pure-Adds : {A : Type 0} (a : A) → Adds (pure a) []
unfolding Adds Grows
pure-Adds a s b s' e = ends-Adds (infers a s) a s s s' [] refl (λ i h. h) tt b e

pub declare-Adds : (x : Text) (t : Ty) → Adds (declare x t) (name x ∷ [])
unfolding Adds Grows
declare-Adds x t s b s' e =
    ends-Adds _ tt s (record s { decl_table = put x t s.decl_table }) s' (name x ∷ []) refl grows
      ((t, put_same x t s.decl_table), tt) b e
  where
    grows : (i : Item) → Holds s i → Holds (record s { decl_table = put x t s.decl_table }) i
    grows (node n) h = h
    grows (name y) (u, h) = elim (Bool-cases (text_eq x y)) [
      | inl same ↦ (t, rw same refl)
      | inr other ↦ (u, rw other h)
    ]

pub declare_again : (x : Text) (t : Ty) → Adds (declare x t) []
unfolding Adds
declare_again x t s b s' e = ((declare-Adds x t s b s' e).0, tt)

pub record-Grows :
    (e : Expr) (t : Ty) (s : Inferer) → Grows s (record s { inferred = (e, t) ∷ s.inferred })
unfolding Grows
record-Grows e t s (node n) h = inr h
record-Grows e t s (name y) h = h

pub record-Adds :
    (e : Expr) (t : Ty)
    → Adds (λ s. infers t (record s { inferred = (e, t) ∷ s.inferred })) (node e ∷ [])
unfolding Adds
record-Adds e t s b s' eq =
    ends-Adds _ t s (record s { inferred = (e, t) ∷ s.inferred }) s' (node e ∷ []) refl
      (record-Grows e t s) (inl refl, tt) b eq

pub noted-Adds :
    (e : Expr) (m : M Ty) (is : List Item) → Adds m is → Adds (noted e m) (is ++ node e ∷ [])
noted-Adds e m is d = bind-Adds m _ is (node e ∷ []) d (λ t. record-Adds e t)

-- A change of the other fields.
pub kept-Adds :
    {A : Type 0} (r : Inference A) (a : A) (s s1 s' : Inferer)
    → infers a s1 ≡ r
    → s.inferred ≡ s1.inferred
    → s.decl_table ≡ s1.decl_table
    → (b : A) → r ≡ infers b s'
    → Grows s s' × Covers s' []
unfolding Grows
kept-Adds r a s s1 s' e same decls b e' = ends-Adds r a s s1 s' [] e grows tt b e'
  where
    grows : (i : Item) → Holds s i → Holds s1 i
    grows (node n) h = subst (Has n) same h
    grows (name x) (t, h) = (t, ap (λ d. d x) (sym decls) ∙ h)

pub panics-Adds : (A : Type 0) (is : List Item) → Adds {A = A} (λ s. panics) is
unfolding Adds
panics-Adds A is s b s' e = absurd (cc)

pub new_type_var-Adds : (level : ℕ) → Adds (new_type_var level) []
unfolding Adds
new_type_var-Adds level s b s' e = kept-Adds (new_type_var level s) _ s _ s' refl refl refl b e

pub from_outcome-Adds : (o : Outcome Store) → Adds (from_outcome o) []
unfolding Adds
from_outcome-Adds (ok st) s b s' e =
    kept-Adds (infers tt (record s { store = st })) tt s (record s { store = st }) s' refl refl refl
      b e
from_outcome-Adds (err w) s b s' e = absurd (cc)
from_outcome-Adds panic s b s' e = absurd (cc)
from_outcome-Adds no_fuel s b s' e = absurd (cc)

pub from_converted-Adds : {A : Type 0} (c : Converted A) → Adds (from_converted c) []
unfolding Adds
from_converted-Adds (gives t st) s b s' e =
    kept-Adds (infers t (record s { store = st })) t s (record s { store = st }) s' refl refl refl b
      e
from_converted-Adds NodeToType.panics s b s' e = absurd (cc)
from_converted-Adds (refuses w) s b s' e = absurd (cc)

pub from_generalized-Adds : (o : Option (Ty × Generalizer)) → Adds (from_generalized o) []
unfolding Adds
from_generalized-Adds none s b s' e = absurd (cc)
from_generalized-Adds (some (t, (bounds, st))) s b s' e =
    kept-Adds (from_generalized (some (t, (bounds, st))) s) t s _ s' refl refl refl b e

pub instantiated-Adds :
    (n : Expr) (t : Ty) (o : Option (Option Instantiation × Store)) → Adds (instantiated n t o) []
unfolding Adds
instantiated-Adds n t none s b s' e = absurd (cc)
instantiated-Adds n t (some (none, st)) s b s' e =
    kept-Adds (instantiated n t (some (none, st)) s) t s _ s' refl refl refl b e
instantiated-Adds n t (some (some inst, st)) s b s' e =
    kept-Adds (instantiated n t (some (some inst, st)) s) inst.to s _ s' refl refl refl b e
