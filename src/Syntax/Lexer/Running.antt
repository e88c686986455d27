-- ===== src/Syntax/Lexer/Running.antt =====
-- The state of a lexer between two state functions, and what the helpers do to it.
use gocaml.Base.{
  ℕ, ◌+◌, ◌≤◌, ◌<◌, ◌≡◌, ◌⊎◌, subst, refl, inl, inr, arith, length, Bool, true, false, List, [],
  ◌∷◌, ◌++◌, if◌then◌else◌, Bool-cases,
}
use gocaml.Token.{Kind, Pos, Token}
use gocaml.Syntax.Lexer.{
  Unicode, Reason, Lexer, emit, emit_illegal, forward_from, advance, eat, consume, eat_while_from,
}

-- Kinds that end the stream.
abbrev pub is_end : Kind → Bool
is_end Kind.eof = true
is_end Kind.illegal = true
is_end _ = false

-- Spans in order, from `lo` up to `hi`, none overlapping the next.
abbrev pub Ordered : ℕ → List Token → ℕ → Type 0
Ordered lo [] hi = lo ≤ hi
Ordered lo (t ∷ ts) hi =
    (lo ≤ t.start.offset) × (t.start.offset ≤ t.end.offset) × Ordered t.end.offset ts hi

abbrev pub Open : List Token → Type 0
Open [] = Unit
Open (t ∷ ts) = (is_end t.kind ≡ false) × Open ts

-- The last token is the only one of its sort: `eof` with no error reported, `illegal` with one.
abbrev pub Closed : List Token → List (Reason × Pos) → Type 0
Closed [] errors = ⊥
Closed (t ∷ []) errors =
    ((t.kind ≡ Kind.eof) × (errors ≡ []))
    ⊎ ((t.kind ≡ Kind.illegal) × ((e : Reason × Pos) × (errors ≡ e ∷ [])))
Closed (t ∷ t' ∷ ts) errors = (is_end t.kind ≡ false) × Closed (t' ∷ ts) errors

-- Each rune is one that `utf8.ValidRune` accepts.
abbrev pub Readable : Unicode → List ℕ → Type 0
Readable u [] = Unit
Readable u (r ∷ rs) = (u.valid_rune r ≡ true) × Readable u rs

pub record Running (u : Unicode) (l : Lexer) : Type 0 where
  pub readable : Readable u l.input
  pub at_eof : l.eof ≡ true → (l.top ≡ 0) × (l.input ≡ [])
  pub spans : Ordered 0 l.tokens l.start.offset
  pub begun : l.start.offset ≤ l.current.offset
  pub open_tokens : Open l.tokens
  pub clean : l.errors ≡ []

pub record Stopped (l : Lexer) : Type 0 where
  pub spans : Ordered 0 l.tokens l.start.offset
  pub closed : Closed l.tokens l.errors

-- Runes still to be eaten.
abbrev pub runes_left : Lexer → ℕ
runes_left l = length l.input + (if l.eof then 0 else 1)

Ordered-snoc :
    (lo mid hi : ℕ) (ts : List Token) (t : Token)
    → Ordered lo ts t.start.offset
    → t.start.offset ≤ t.end.offset
    → t.end.offset ≤ hi
    → Ordered lo (ts ++ t ∷ []) hi
Ordered-snoc lo mid hi [] t h a b = (h, a, b)
Ordered-snoc lo mid hi (x ∷ ts) t h a b = (h.0, h.1, Ordered-snoc _ mid hi ts t h.2 a b)

Open-snoc : (ts : List Token) (t : Token) → Open ts → is_end t.kind ≡ false → Open (ts ++ t ∷ [])
Open-snoc [] t h e = (e, tt)
Open-snoc (x ∷ ts) t h e = (h.0, Open-snoc ts t h.1 e)

Closed-snoc :
    (ts : List Token) (t : Token) (errors : List (Reason × Pos))
    → Open ts
    → Closed (t ∷ []) errors
    → Closed (ts ++ t ∷ []) errors
Closed-snoc [] t errors h c = c
Closed-snoc (x ∷ []) t errors h c = (h.0, c)
Closed-snoc (x ∷ y ∷ ts) t errors h c = (h.0, Closed-snoc (y ∷ ts) t errors h.1 c)

pub emit-Running :
    {u : Unicode} (k : Kind) (l : Lexer) → is_end k ≡ false → Running u l → Running u (emit k l)
unfolding emit
emit-Running k l e r = record {
  readable = r.readable;
  at_eof = r.at_eof;
  spans = Ordered-snoc 0 0 _ l.tokens _ r.spans r.begun (omega arith);
  begun = omega arith;
  open_tokens = Open-snoc l.tokens _ r.open_tokens e;
  clean = r.clean;
}

pub emit-eof-Stopped : {u : Unicode} (l : Lexer) → Running u l → Stopped (emit Kind.eof l)
unfolding emit
emit-eof-Stopped l r = record {
  spans = Ordered-snoc 0 0 _ l.tokens _ r.spans r.begun (omega arith);
  closed = Closed-snoc l.tokens _ l.errors r.open_tokens (inl (refl, r.clean));
}

pub emit_illegal-Stopped :
    {u : Unicode} (why : Reason) (l : Lexer) → Running u l → Stopped (emit_illegal why l)
unfolding emit_illegal
emit_illegal-Stopped why l r = record {
  spans = Ordered-snoc 0 0 _ l.tokens _ r.spans r.begun (omega arith);
  closed = Closed-snoc l.tokens _ _ r.open_tokens (inr (refl, ((why, l.current), rw r.clean)));
}

pub runes_left-emit : (k : Kind) (l : Lexer) → runes_left (emit k l) ≡ runes_left l
unfolding emit
runes_left-emit k l = refl

-- A move of the reader ahead of the current token's start.
moved :
    {u : Unicode} (l : Lexer) (p : Pos) (top : ℕ) (input : List ℕ) (eof : Bool)
    → (eof ≡ true → (top ≡ 0) × (input ≡ []))
    → l.start.offset ≤ p.offset
    → Readable u input
    → Running u l
    → Running u (record l { current = p; top = top; input = input; eof = eof })
moved l p top input eof end ahead valid r = record {
  readable = valid;
  at_eof = end;
  spans = r.spans;
  begun = ahead;
  open_tokens = r.open_tokens;
  clean = r.clean;
}

-- What eating does to the runes that are left.
abbrev pub Eaten : Unicode → Lexer → Lexer → Type 0
Eaten u l l' =
    Running u l' × (runes_left l' ≤ runes_left l) × (l.eof ≡ false → runes_left l' < runes_left l)

Ordered-later : (lo a b : ℕ) (ts : List Token) → Ordered lo ts a → a ≤ b → Ordered lo ts b
Ordered-later lo a b [] h le = omega arith
Ordered-later lo a b (t ∷ ts) h le = (h.0, h.1, Ordered-later _ a b ts h.2 le)

-- The next token starts here.
started : {u : Unicode} (l : Lexer) → Running u l → Running u (record l { start = l.current })
started l r = record {
  readable = r.readable;
  at_eof = r.at_eof;
  spans = Ordered-later 0 _ _ l.tokens r.spans r.begun;
  begun = omega arith;
  open_tokens = r.open_tokens;
  clean = r.clean;
}

skipped :
    {u : Unicode} (b : Bool)
    → b ≡ false
    → (n : ℕ) (l l' : Lexer) → Running u l'
    → runes_left l' < n
    → Running u (if b then l else l') × (runes_left (if b then l else l') < n)
skipped true e n l l' r less = cc
skipped false e n l l' r less = (r, less)

module _ (u : Unicode) where
  advance-ge : (r : ℕ) (p : Pos) → p.offset ≤ (advance u r p).offset
  advance-ge r p = ground arith

  eat-moved :
      (l : Lexer) (input : List ℕ)
      → l.input ≡ input
      → Running u l
      → Eaten u l (forward_from u input (record l { current = advance u l.top l.current }))
  unfolding forward_from
  eat-moved l [] e r = (
    moved l _ 0 l.input true (λ _. (refl, e)) (omega (arith, r.begun, advance-ge l.top l.current))
        r.readable r,
    omega arith,
    λ c. rw c (omega arith),
  )
  eat-moved l (x ∷ rest) e r =
      let (valid, more) = subst (Readable u) e r.readable in
      rw valid (
        moved l _ x rest false (λ c. cc) (omega (arith, r.begun, advance-ge l.top l.current)) more
            r,
        rw e (omega arith),
        λ c. rw (c, e) (omega arith),
      )

  pub eat-Eaten : (l : Lexer) → Running u l → Eaten u l (eat u l)
  unfolding eat
  eat-Eaten l r = eat-moved l l.input refl r

  -- A loop of reads only moves on.
  pub eat_while-Running :
      (p : ℕ → Bool) (input : List ℕ) (l : Lexer)
      → Running u l
      → Running u (eat_while_from u p input l)
        × (runes_left (eat_while_from u p input l) ≤ runes_left l)
  unfolding eat_while_from
  eat_while-Running p [] l r = elim (Bool-cases (p l.top)) [
    | inl go ↦ rw go (let (r', le, _) = eat-Eaten l r in (r', le))
    | inr end ↦ rw end (r, omega arith)
  ]
  eat_while-Running p (x ∷ rest) l r = elim (Bool-cases (p l.top)) [
    | inl go ↦
        let (r', le, _) = eat-Eaten l r in
        let (r'', le') = eat_while-Running p rest (eat u l) r' in rw go (r'', omega arith)
    | inr end ↦ rw end (r, omega arith)
  ]

  pub consume-Running :
      (l : Lexer)
      → l.eof ≡ false
      → Running u l
      → Running u (consume u l) × (runes_left (consume u l) < runes_left l)
  unfolding consume
  consume-Running l e r =
      let (r', _, less) = eat-Eaten l r in
      skipped l.eof e (runes_left l) l _ (started (eat u l) r') (less e)
