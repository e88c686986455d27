-- ===== src/Syntax/Lexer/Progress.antt =====
-- Every state function stops with a closed stream of tokens, or goes on with fewer runes to read.
use gocaml.Base.{
  ℕ, ◌+◌, ◌*◌, ◌<◌, ◌≡◌, refl, arith, Bool, true, false, none, some, ◌==◌, if◌then◌else◌,
}
use gocaml.Token.{Kind}
use gocaml.Syntax.Lexer.{Unicode, StateFn, Reason, Lexer, Next, emit, emit_lex, stop, eat}
use gocaml.Syntax.Lexer.Words.{lex_string_literal}
use gocaml.Syntax.Lexer.Operators.{
  lex_comment, lex_left_paren, lex_additive_op, lex_mult_op, lex_bar, lex_logical_and, lex_less,
  lex_greater, lex_lbracket,
}
use gocaml.Syntax.Lexer.Running.{
  is_end, Running, Stopped, runes_left, emit-Running, emit_illegal-Stopped, eat-Eaten,
}

-- The state functions that `lex` hands over to are called with a rune at hand.
abbrev pub Called : StateFn → Lexer → Type 0
Called StateFn.lex l = Unit
Called StateFn.comment l = Unit
Called StateFn.string_body l = Unit
Called StateFn.array_create l = Unit
Called _ l = l.eof ≡ false

abbrev pub rank : StateFn → Lexer → ℕ
rank StateFn.lex l = 2 * runes_left l + 1
rank _ l = 2 * runes_left l

unfoldable pub Moved : Unicode → ℕ → Next → Type 0
Moved u n (none, l) = Stopped l
Moved u n (some s, l) = Called s l × Running u l × (rank s l < n)

pub Moved-if :
    (u : Unicode) (n : ℕ) (b : Bool) (x y : Next)
    → Moved u n x
    → Moved u n y
    → Moved u n (if b then x else y)
Moved-if u n true x y h g = h
Moved-if u n false x y h g = g

-- The branches, with the test for the one that needs it.
pub Moved-test :
    (u : Unicode) (n : ℕ) (b : Bool) (x y : Next)
    → (b ≡ true → Moved u n x)
    → (b ≡ false → Moved u n y)
    → Moved u n (if b then x else y)
Moved-test u n true x y h g = h refl
Moved-test u n false x y h g = g refl

pub choice :
    (b : Bool) (j k : Kind)
    → is_end j ≡ false
    → is_end k ≡ false
    → is_end (if b then j else k) ≡ false
choice true j k h g = h
choice false j k h g = g

pub emit_lex-Moved :
    {u : Unicode} (n : ℕ) (k : Kind) (l : Lexer)
    → is_end k ≡ false
    → Running u l
    → 2 * runes_left l + 1 < n
    → Moved u n (emit_lex k l)
unfolding Moved
emit_lex-Moved n k l e r less = (tt, emit-Running k l e r, unfold emit in less)

pub stop-Moved :
    {u : Unicode} (n : ℕ) (why : Reason) (l : Lexer) → Running u l → Moved u n (stop why l)
unfolding Moved
stop-Moved n why l r = emit_illegal-Stopped why l r

module _ (u : Unicode) where
  module _ (l : Lexer) (r : Running u l) (e : l.eof ≡ false) where
    pub emit_one : (k : Kind) → is_end k ≡ false → Moved u (2 * runes_left l) (emit_lex k (eat u l))
    emit_one k ne =
        let (r', _, less) = eat-Eaten u l r in
        emit_lex-Moved _ k (eat u l) ne r' (omega (arith, less e))

    pub emit_two :
        (k : Kind) → is_end k ≡ false → Moved u (2 * runes_left l) (emit_lex k (eat u (eat u l)))
    emit_two k ne =
        let (r', _, less) = eat-Eaten u l r in
        let (r'', le, _) = eat-Eaten u (eat u l) r' in
        emit_lex-Moved _ k (eat u (eat u l)) ne r'' (omega (arith, less e))

    pub stop_one : (why : Reason) → Moved u (2 * runes_left l) (stop why (eat u l))
    stop_one why = stop-Moved (2 * runes_left l) why (eat u l) (eat-Eaten u l r).0

    -- Without a token: a comment or a string goes on.
    pub loop_one :
        (s : StateFn)
        → ((x : Lexer) → Called s x)
        → ((x : Lexer) → rank s x ≡ 2 * runes_left x)
        → Moved u (2 * runes_left l) (some s, eat u l)
    unfolding Moved
    loop_one s called low =
        let (r', _, less) = eat-Eaten u l r in
        (called (eat u l), r', omega (arith, less e, low (eat u l)))

    pub loop_two :
        (s : StateFn)
        → ((x : Lexer) → Called s x)
        → ((x : Lexer) → rank s x ≡ 2 * runes_left x)
        → Moved u (2 * runes_left l) (some s, eat u (eat u l))
    unfolding Moved
    loop_two s called low =
        let (r', _, less) = eat-Eaten u l r in
        let (r'', le, _) = eat-Eaten u (eat u l) r' in
        (called (eat u (eat u l)), r'', omega (arith, less e, low (eat u (eat u l))))

    pub left_paren-Moved : Moved u (2 * runes_left l) (lex_left_paren u l)
    unfolding lex_left_paren
    left_paren-Moved =
        Moved-if u _ _ _ _ (loop_two StateFn.comment (λ x. tt) (λ x. refl)) (emit_one _ refl)

    pub additive_op-Moved : Moved u (2 * runes_left l) (lex_additive_op u l)
    unfolding lex_additive_op
    additive_op-Moved =
        Moved-if u _ ((eat u l).top == b'.') _ _
          (emit_two _ (choice (l.top == b'-') Kind.minus_dot Kind.plus_dot refl refl))
          (Moved-if u _ ((eat u l).top == b'>') _ _
            (Moved-if u _ (l.top == b'-') _ _ (emit_two Kind.minus_greater refl)
              (emit_one _ (choice (l.top == b'-') Kind.minus Kind.plus refl refl)))
            (emit_one _ (choice (l.top == b'-') Kind.minus Kind.plus refl refl)))

    pub mult_op-Moved : Moved u (2 * runes_left l) (lex_mult_op u l)
    unfolding lex_mult_op
    mult_op-Moved =
        Moved-if u _ _ _ _
          (emit_two _ (choice (l.top == b'/') Kind.slash_dot Kind.star_dot refl refl))
          (emit_one _ (choice (l.top == b'/') Kind.slash Kind.star refl refl))

    pub bar-Moved : Moved u (2 * runes_left l) (lex_bar u l)
    unfolding lex_bar
    bar-Moved = Moved-if u _ ((eat u l).top == b'|') _ _ (emit_two Kind.bar_bar refl) (
        Moved-if u _ ((eat u l).top == b']') _ _ (emit_two Kind.bar_rbracket refl)
          (emit_one Kind.bar refl))

    pub logical_and-Moved : Moved u (2 * runes_left l) (lex_logical_and u l)
    unfolding lex_logical_and
    logical_and-Moved = Moved-if u _ _ _ _ (stop_one _) (emit_two _ refl)

    pub less-Moved : Moved u (2 * runes_left l) (lex_less u l)
    unfolding lex_less
    less-Moved = Moved-if u _ ((eat u l).top == b'>') _ _ (emit_two Kind.less_greater refl) (
        Moved-if u _ ((eat u l).top == b'=') _ _ (emit_two Kind.less_equal refl) (
          Moved-if u _ ((eat u l).top == b'-') _ _ (emit_two Kind.less_minus refl)
            (emit_one Kind.less refl)))

    pub greater-Moved : Moved u (2 * runes_left l) (lex_greater u l)
    unfolding lex_greater
    greater-Moved = Moved-if u _ _ _ _ (emit_two _ refl) (emit_one _ refl)

    pub lbracket-Moved : Moved u (2 * runes_left l) (lex_lbracket u l)
    unfolding lex_lbracket
    lbracket-Moved = Moved-if u _ _ _ _ (emit_two _ refl) (emit_one _ refl)

  pub comment-Moved : (l : Lexer) → Running u l → Moved u (2 * runes_left l) (lex_comment u l)
  unfolding lex_comment
  comment-Moved l r =
      Moved-test u _ l.eof _ _ (λ e. stop-Moved _ _ l r)
        (λ e.
          Moved-if u _ _ _ _
            (Moved-if u _ _ _ _ (stop_one l r e _) (
              Moved-if u _ _ _ _ (emit_two l r e _ refl)
                (loop_two l r e StateFn.comment (λ x. tt) (λ x. refl))))
            (loop_one l r e StateFn.comment (λ x. tt) (λ x. refl)))

  pub string_literal-Moved :
      (l : Lexer)
      → Running u l
      → l.eof ≡ false
      → Moved u (2 * runes_left l) (lex_string_literal u l)
  unfolding lex_string_literal
  string_literal-Moved l r e = loop_one l r e StateFn.string_body (λ x. tt) (λ x. refl)
