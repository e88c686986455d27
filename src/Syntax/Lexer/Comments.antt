-- ===== src/Syntax/Lexer/Comments.antt =====
-- Where a comment and a string literal end.
use gocaml.Base.{
  ℕ, zero, suc, ◌≡◌, refl, sym, subst, ap, ◌∙◌, length, Bool, true, false, none, some, [], ◌∷◌,
  ◌++◌, ◌==◌, if◌then◌else◌, Text,
}
use gocaml.Token.{Kind}
use gocaml.Syntax.Lexer.{Unicode, StateFn, Lexer, Next, forward_from, emit, emit_lex, advance, eat}
use gocaml.Syntax.Lexer.Running.{Readable}
use gocaml.Syntax.Lexer.Operators.{lex_comment}
use gocaml.Syntax.Lexer.Step.{step}

-- The runes that the lexer has before it.
abbrev pub At : Lexer → Text → Type 0
At l [] = (l.eof ≡ true) × (l.top ≡ 0) × (l.input ≡ [])
At l (c ∷ cs) = (l.eof ≡ false) × (l.top ≡ c) × (l.input ≡ cs)

abbrev pub Without : ℕ → Text → Type 0
Without r [] = Unit
Without r (c ∷ cs) = ((c == r) ≡ false) × Without r cs

-- `n` rounds of the loop of `Lex`.
unfoldable pub rounds : Unicode → ℕ → Next → Next
rounds u zero x = x
rounds u (suc n) (none, l) = (none, l)
rounds u (suc n) (some s, l) = rounds u n (step u s l)

if_true : {A : Type 0} (x y : A) {b : Bool} → b ≡ true → (if b then x else y) ≡ x
if_true x y e = rw e refl

if_false : {A : Type 0} (x y : A) {b : Bool} → b ≡ false → (if b then x else y) ≡ y
if_false x y e = rw e refl

module _ (u : Unicode) where
  rounds-last : (n : ℕ) (x : Next) → rounds u (suc n) x ≡ rounds u 1 (rounds u n x)
  unfolding rounds
  rounds-last zero (none, l) = refl
  rounds-last zero (some s, l) = refl
  rounds-last (suc n) (none, l) = refl
  rounds-last (suc n) (some s, l) = rounds-last n (step u s l)

  emit-At : (k : Kind) (l : Lexer) (cs : Text) → At l cs → At (emit k l) cs
  unfolding emit
  emit-At k l [] at = at
  emit-At k l (c ∷ cs) at = at

  -- One rune further, with the same tokens and the same start.
  Further : Lexer → Lexer → Text → Type 0
  Further l l' cs =
      At l' cs × (l'.tokens ≡ l.tokens) × (l'.start ≡ l.start) × (l'.errors ≡ l.errors)

  forward-At :
      (l : Lexer) (cs : Text) → l.input ≡ cs → Readable u cs → Further l (forward_from u cs l) cs
  unfolding forward_from Further
  forward-At l [] e v = ((refl, refl, e), refl, refl, refl)
  forward-At l (c ∷ cs) e (v, vs) = rw v ((refl, refl, refl), refl, refl, refl)

  eat-At : (l : Lexer) (c : ℕ) (cs : Text) → At l (c ∷ cs) → Readable u cs → Further l (eat u l) cs
  unfolding eat Further
  eat-At l c cs (_, _, e) v =
      let moved : Lexer = record l { current = advance u l.top l.current } in
      subst (λ i. Further l (forward_from u i moved) cs) (sym e) (forward-At moved cs e v)

  Further-trans :
      (l l' l'' : Lexer) (cs cs' : Text) → Further l l' cs → Further l' l'' cs' → Further l l'' cs'
  unfolding Further
  Further-trans l l' l'' cs cs' (_, t, s, e) (at, t', s', e') = (at, t' ∙ t, s' ∙ s, e' ∙ e)

  Readable-drop : (before after : Text) → Readable u (before ++ after) → Readable u after
  Readable-drop [] after v = v
  Readable-drop (c ∷ before) after (v, vs) = Readable-drop before after vs

  -- A rune of the body: one round, no token.
  comment-body :
      (l : Lexer) (c : ℕ) (cs : Text)
      → At l (c ∷ cs)
      → (c == b'*') ≡ false
      → step u StateFn.comment l ≡ (some StateFn.comment, eat u l)
  unfolding lex_comment step
  comment-body l c cs (live, at, _) plain =
      if_false _ _ live ∙ if_false _ _ (ap (λ r. r == b'*') at ∙ plain)

  comment-end :
      (l : Lexer) (cs : Text)
      → At l (b'*' ∷ b')' ∷ cs)
      → Readable u (b')' ∷ cs)
      → step u StateFn.comment l ≡ emit_lex Kind.comment (eat u (eat u l))
  unfolding lex_comment step Further
  comment-end l cs (live, at, rest) v =
      let ((live', at', _), _, _, _) = eat-At l b'*' (b')' ∷ cs) (live, at, rest) v in
      if_false _ _ live
      ∙ if_true _ _ (ap (λ r. r == b'*') at)
      ∙ if_false _ _ live'
      ∙ if_true _ _ (ap (λ r. r == b')') at')

  comment-star :
      (l : Lexer) (cs : Text)
      → At l (b'*' ∷ b'*' ∷ cs)
      → Readable u (b'*' ∷ cs)
      → step u StateFn.comment l ≡ (some StateFn.comment, eat u (eat u l))
  unfolding lex_comment step Further
  comment-star l cs (live, at, rest) v =
      let ((live', at', _), _, _, _) = eat-At l b'*' (b'*' ∷ cs) (live, at, rest) v in
      if_false _ _ live
      ∙ if_true _ _ (ap (λ r. r == b'*') at)
      ∙ if_false _ _ live'
      ∙ if_false _ _ (ap (λ r. r == b')') at')

  -- The state after a body without a star, with `rest` still ahead.
  comment-rounds :
      (body rest : Text) (l : Lexer)
      → Without b'*' body
      → At l (body ++ rest)
      → Readable u (body ++ rest)
      → (l' : Lexer) × (rounds u (length body) (some StateFn.comment, l)
          ≡ (some StateFn.comment, l'))
        × Further l l' rest
  unfolding rounds Further
  comment-rounds [] rest l _ at v = (l, refl, (at, refl, refl, refl))
  comment-rounds (c ∷ body) rest l (plain, more) at (v, vs) =
      let one = eat-At l c (body ++ rest) at vs in
      let (l', e, two) = comment-rounds body rest (eat u l) more (one.0) vs in
      (
        l',
        ap (rounds u (length body)) (comment-body l c (body ++ rest) at plain) ∙ e,
        Further-trans l (eat u l) l' (body ++ rest) rest one two,
      )

  -- When `utf8.ValidRune` accepts each rune before the lexer, as it does those that `ReadRune` gives,
  -- a comment whose body has no star ends at the `*)` after it:
  -- after a round for each rune of the body and one more, the lexer is back in `lex` before the
  -- runes that follow, with one COMMENT token more, from where the comment started to where the
  -- next token starts, and no new error.
  pub comment_closes :
      (body rest : Text) (l : Lexer)
      → Without b'*' body
      → At l (body ++ b'*' ∷ b')' ∷ rest)
      → Readable u (body ++ b'*' ∷ b')' ∷ rest)
      → (l' : Lexer) × (rounds u (suc (length body)) (some StateFn.comment, l)
          ≡ (some StateFn.lex, l'))
        × At l' rest
        × (l'.tokens
            ≡ l.tokens ++ (record { kind = Kind.comment; start = l.start; end = l'.start } ∷ []))
        × (l'.errors ≡ l.errors)
  unfolding rounds Further emit
  comment_closes body rest l plain at v =
      let (_, (v1, v2)) = Readable-drop body (b'*' ∷ b')' ∷ rest) v in
      let (m, e, far) = comment-rounds body (b'*' ∷ b')' ∷ rest) l plain at v in
      let star = eat-At m b'*' (b')' ∷ rest) (far.0) (v1, v2) in
      let paren = eat-At (eat u m) b')' rest (star.0) v2 in
      let last : Lexer = eat u (eat u m) in
      let (at', t, s, er) =
        Further-trans l m last (b'*' ∷ b')' ∷ rest) rest far
          (Further-trans m (eat u m) last (b')' ∷ rest) rest star paren) in
      (
        emit Kind.comment last,
        rounds-last (length body) (some StateFn.comment, l)
            ∙ ap (rounds u 1) e
            ∙ comment-end m rest (far.0) (v1, v2),
        emit-At Kind.comment last rest at',
        ap
              (λ ts.
                ts ++ (record { kind = Kind.comment; start = last.start; end = last.current } ∷ []))
              t
            ∙ ap
                (λ p.
                  l.tokens ++ (record { kind = Kind.comment; start = p; end = last.current } ∷ []))
                s,
        er,
      )

  -- When `utf8.ValidRune` accepts each rune before the lexer, as it does those that `ReadRune` gives,
  -- two stars and a parenthesis behind a body without a star do
  -- not end the comment: after a round for each rune of the body and two more, the lexer is still
  -- in the comment, before the runes that follow the parenthesis, and has no new token.
  pub comment_stars :
      (body rest : Text) (l : Lexer)
      → Without b'*' body
      → At l (body ++ b'*' ∷ b'*' ∷ b')' ∷ rest)
      → Readable u (body ++ b'*' ∷ b'*' ∷ b')' ∷ rest)
      → (l' : Lexer) × (rounds u (suc (suc (length body))) (some StateFn.comment, l)
          ≡ (some StateFn.comment, l'))
        × At l' rest
        × (l'.tokens ≡ l.tokens)
        × (l'.errors ≡ l.errors)
  unfolding rounds Further
  comment_stars body rest l plain at v =
      let (_, (v0, (v1, v2))) = Readable-drop body (b'*' ∷ b'*' ∷ b')' ∷ rest) v in
      let (m, e, far) = comment-rounds body (b'*' ∷ b'*' ∷ b')' ∷ rest) l plain at v in
      let star = eat-At m b'*' (b'*' ∷ b')' ∷ rest) (far.0) (v0, (v1, v2)) in
      let star' = eat-At (eat u m) b'*' (b')' ∷ rest) (star.0) (v1, v2) in
      let paren = eat-At (eat u (eat u m)) b')' rest (star'.0) v2 in
      let last : Lexer = eat u (eat u (eat u m)) in
      (
        last,
        rounds-last (suc (length body)) (some StateFn.comment, l)
            ∙ ap (rounds u 1) (
                rounds-last (length body) (some StateFn.comment, l)
                ∙ ap (rounds u 1) e
                ∙ comment-star m (b')' ∷ rest) (far.0) (v0, (v1, v2)))
            ∙ comment-body (eat u (eat u m)) b')' rest (star'.0) refl,
        paren.0,
        paren.1 ∙ star'.1 ∙ star.1 ∙ far.1,
        paren.3 ∙ star'.3 ∙ star.3 ∙ far.3,
      )
