-- ===== src/Sema/NodeToType/Grown.antt =====
-- sema/node_to_type.go: the store only grows, and conversions one behind another.
use gocaml.Base.{
  ℕ, ◌≤◌, ◌<◌, ◌≡◌, ◌⊎◌, inl, inr, refl, ap, ◌∙◌, Bool, true, false, Bool-cases, ==_iff, ◌&&◌, none,
  ℤ, arith, ◌==◌,
}
use gocaml.Types.{Ty, Store, var, allocate}
use gocaml.Types.Bounded.{Within-map, Finite, InUse, Acyclic}
use gocaml.Sema.NodeToType.{Converted, panics, refuses, gives, and_then, map_gives}

-- Only new cells are written, and links still end.
pub record Grown (s s' : Store) : Type 0 where
  pub more : s.next ≤ s'.next
  pub cells : (p : ℕ) → p < s.next → s'.cell p ≡ s.cell p
  pub acyclic : Acyclic s'

pub Grown-none : (s : Store) → Acyclic s → Grown s s
Grown-none s a = record { more = omega arith; cells = λ p lt. refl; acyclic = a }

pub Grown-then : {s s1 s2 : Store} → Grown s s1 → Grown s1 s2 → Grown s s2
Grown-then g h = record {
  more = omega (arith, g.more, h.more);
  cells = λ p lt. h.cells p (omega (arith, lt, g.more)) ∙ g.cells p lt;
  acyclic = h.acyclic;
}

pub Finite-Grown : {s s' : Store} → Grown s s' → (t : Ty) → Finite s t → Finite s' t
Finite-Grown {s = s} {s' = s'} g t (n, h) = (
  n,
  Within-map (InUse s) (InUse s') s s'
      (λ p lt. (omega (arith, lt, g.more), ap (λ v. v.ref) (g.cells p lt))) n n t (omega arith) h,
)

-- A new variable without a link.
pub allocate-Grown :
    (level : ℤ) (s : Store)
    → Acyclic s
    → (let (p, s') = allocate none level 0 s in Grown s s' × Finite s' (var p))
allocate-Grown level s a =
    let s' = (allocate none level 0 s).1 in
    let same : (p : ℕ) → p < s.next → s'.cell p ≡ s.cell p = λ p lt. ground arith in
    let free : (s'.cell s.next).ref ≡ none = ground arith in
    let now : Finite s' (var s.next) = (1, (omega arith, rw free tt)) in
    (
      record {
        more = omega arith;
        cells = same;
        acyclic = record {
          ends = λ p lt. elim (Bool-cases (p == s.next)) [
            | inl hit ↦ rw ((==_iff p s.next).0 hit) now
            | inr miss ↦
                let (n, h) = a.ends p (ground arith) in
                (
                  n,
                  Within-map (InUse s) (InUse s') s s'
                      (λ q u. (omega (arith, u), ap (λ v. v.ref) (same q u))) n n (var p)
                      (omega arith) h,
                )
          ];
          beyond = λ p le. ground (arith, a.beyond p (omega (arith, le)));
        };
      },
      now,
    )

-- Either what is asked for holds and a value is given, or it does not and none is.
abbrev pub given : {A : Type 0} → Converted A → Bool
given panics = false
given (refuses e) = false
given (gives a s) = true

abbrev pub Outcome : {A : Type 0} → Store → Converted A → (Store → A → Type 0) → Bool → Type 0
Outcome s r P ok =
    ((ok ≡ true) × ((a : _) × (s' : Store) × (r ≡ gives a s') × Grown s s' × P s' a))
    ⊎ ((ok ≡ false) × (given r ≡ false))

pub Outcome-then :
    {A B : Type 0} (s : Store) (r : Converted A) (k : A → Store → Converted B)
    (P : Store → A → Type 0) (Q : Store → B → Type 0) (a b : Bool)
    → Outcome s r P a
    → ((x : A) (s1 : Store) → Grown s s1 → P s1 x → Outcome s1 (k x s1) Q b)
    → Outcome s (and_then r k) Q (a && b)
Outcome-then s r k P Q a b (inl (yes', (x, s1, e, g, p))) h = elim (h x s1 g p) [
  | inl (fine, (y, s2, f, g', q)) ↦ rw (yes', e) (inl (fine, (y, s2, f, Grown-then g g', q)))
  | inr (bad, f) ↦ rw (yes', e) (inr (bad, f))
]
Outcome-then s panics k P Q a b (inr (bad, f)) h = rw bad (inr (refl, refl))
Outcome-then s (refuses why) k P Q a b (inr (bad, f)) h = rw bad (inr (refl, refl))
Outcome-then s (gives x s') k P Q a b (inr (bad, f)) h = absurd (cc)

pub Outcome-map :
    {A B : Type 0} (s : Store) (r : Converted A) (f : A → B) (P : Store → A → Type 0)
    (Q : Store → B → Type 0) (a : Bool)
    → Outcome s r P a
    → ((x : A) (s1 : Store) → Grown s s1 → P s1 x → Q s1 (f x))
    → Outcome s (map_gives f r) Q a
Outcome-map s r f P Q a (inl (fine, (x, s1, e, g, p))) h =
    rw e (inl (fine, (f x, s1, refl, g, h x s1 g p)))
Outcome-map s panics f P Q a (inr (bad, e)) h = inr (bad, refl)
Outcome-map s (refuses why) f P Q a (inr (bad, e)) h = inr (bad, refl)
Outcome-map s (gives x s') f P Q a (inr (bad, e)) h = absurd (cc)
