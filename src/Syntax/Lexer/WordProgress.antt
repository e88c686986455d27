-- ===== src/Syntax/Lexer/WordProgress.antt =====
-- Progress of the state functions for names, numbers and string literals, and of `lex`.
use gocaml.Base.{
  ℕ, suc, ◌+◌, ◌*◌, ◌<◌, ◌≡◌, refl, inl, inr, arith, Bool, true, false, not, none, some, ◌==◌, ◌||◌,
  if◌then◌else◌, Bool-cases, Text, text_eq, codes,
}
use gocaml.Token.{Kind}
use gocaml.Syntax.Lexer.{
  Unicode, StateFn, Lexer, Next, emit_lex, is_digit, is_letter, eat, eat_while,
}
use gocaml.Syntax.Lexer.Words.{
  ident_kind, eat_ident, fraction, exponent, array_method, lexeme, lex_number, lex_array_create,
  lex_ident, lex_string_body,
}
use gocaml.Syntax.Lexer.Running.{
  is_end, Running, Stopped, runes_left, emit_illegal-Stopped, eat-Eaten, eat_while-Running,
}
use gocaml.Syntax.Lexer.Progress.{Moved, Moved-if, Moved-test, emit_lex-Moved, stop-Moved}

-- Running with few enough runes left for a return to `lex`.
abbrev Ahead : Unicode → ℕ → Lexer → Type 0
Ahead u n l = Running u l × (2 * runes_left l + 1 < n)

ident_kind-open : (u : Unicode) (s : Text) → is_end (ident_kind u s) ≡ false
unfolding ident_kind
ident_kind-open u s = ground arith

module _ (u : Unicode) where
  eat-Ahead : (n : ℕ) (l : Lexer) → Ahead u n l → Ahead u n (eat u l)
  eat-Ahead n l (r, less) = let (r', le, _) = eat-Eaten u l r in (r', omega arith)

  eat_while-Ahead : (n : ℕ) (p : ℕ → Bool) (l : Lexer) → Ahead u n l → Ahead u n (eat_while u p l)
  eat_while-Ahead n p l (r, less) =
      let (r', le) = eat_while-Running u p l.input l r in (r', omega arith)

  Ahead-if :
      (n : ℕ) (b : Bool) (l l' : Lexer)
      → Ahead u n l
      → Ahead u n l'
      → Ahead u n (if b then l else l')
  Ahead-if n true l l' h g = h
  Ahead-if n false l l' h g = g

  fraction-Ahead :
      (n : ℕ) (l : Lexer)
      → Ahead u n l
      → Ahead u n (fraction u l).1 × (is_end (fraction u l).0 ≡ false)
  unfolding fraction
  fraction-Ahead n l h = elim (Bool-cases (l.top == b'.')) [
    | inl dot ↦ rw dot (eat_while-Ahead n is_digit (eat u l) (eat-Ahead n l h), refl)
    | inr other ↦ rw other (h, refl)
  ]

  exponent-Moved :
      (n : ℕ) (tok : Kind) (l : Lexer)
      → is_end tok ≡ false
      → Ahead u n l
      → Moved u n (exponent u tok l)
  unfolding exponent
  exponent-Moved n tok l e h =
      let signed =
        Ahead-if n ((eat u l).top == b'+' || (eat u l).top == b'-') _ _
          (eat-Ahead n (eat u l) (eat-Ahead n l h)) (eat-Ahead n l h) in
      Moved-if u n (l.top == b'e' || l.top == b'E') _ _
        (Moved-if u n
          (not (
            is_digit
              (if (eat u l).top == b'+' || (eat u l).top == b'-'
                then eat u (eat u l)
                else eat u l).top))
          _ _ (stop-Moved n _ _ signed.0)
          (let digits = eat_while-Ahead n is_digit _ signed in
            emit_lex-Moved n Kind.float _ refl digits.0 digits.1))
        (emit_lex-Moved n tok l e h.0 h.1)

  first_rune : (l : Lexer) → Running u l → l.eof ≡ false → Ahead u (2 * runes_left l) (eat u l)
  first_rune l r e = let (r', _, less) = eat-Eaten u l r in (r', omega (arith, less e))

  pub number-Moved :
      (l : Lexer) → Running u l → l.eof ≡ false → Moved u (2 * runes_left l) (lex_number u l)
  unfolding lex_number
  number-Moved l r e =
      let digits = eat_while-Ahead _ is_digit (eat u l) (first_rune l r e) in
      let (ahead, open_) = fraction-Ahead _ _ digits in exponent-Moved _ _ _ open_ ahead

  -- What `eatIdent` answers.
  Read : ℕ → Bool × Lexer → Type 0
  Read n (false, l) = Stopped l
  Read n (true, l) = Ahead u n l

  eat_ident-Read :
      (n : ℕ) (l : Lexer)
      → Running u l
      → (is_letter u l.top ≡ true → Ahead u n (eat u l))
      → Read n (eat_ident u l)
  unfolding eat_ident Read
  eat_ident-Read n l r h = elim (Bool-cases (is_letter u l.top)) [
    | inl letter ↦ rw letter (eat_while-Ahead n _ (eat u l) (h letter))
    | inr other ↦ rw other (emit_illegal-Stopped _ l r)
  ]

  -- A state function's result after `eatIdent`.
  Read-Moved :
      (n : ℕ) (read : Bool × Lexer) (k : Lexer → Next)
      → Read n read
      → ((l : Lexer) → Ahead u n l → Moved u n (k l))
      → Moved u n (if read.0 then k read.1 else (none, read.1))
  unfolding Read Moved
  Read-Moved n (false, l) k h next = h
  Read-Moved n (true, l) k h next = next l h

  array_method-Moved : (n : ℕ) (l : Lexer) → Ahead u n l → Moved u n (array_method u l)
  unfolding array_method
  array_method-Moved n l (r, less) =
      Moved-if u n (text_eq (lexeme u l) (codes "Array.make")) _ _
        (emit_lex-Moved n Kind.array_make l refl r less)
        (Moved-if u n (text_eq (lexeme u l) (codes "Array.length")) _ _
          (emit_lex-Moved n Kind.array_length l refl r less) (stop-Moved n _ l r))

  called : {n : ℕ} {l : Lexer} → Ahead u n l → Moved u n (some StateFn.array_create, l)
  unfolding Moved
  called (r, less) = (tt, r, omega arith)

  pub ident-Moved :
      (l : Lexer) → Running u l → l.eof ≡ false → Moved u (2 * runes_left l) (lex_ident u l)
  unfolding lex_ident
  ident-Moved l r e =
      Read-Moved _ (eat_ident u l) _ (eat_ident-Read _ l r (λ letter. first_rune l r e))
        (λ l' (r', less).
          Moved-if u _ (text_eq (lexeme u l') (codes "Array")) _ _ (called (r', less)) (
            emit_lex-Moved _ (ident_kind u (lexeme u l')) l' (ident_kind-open u (lexeme u l')) r'
              less))

  alive : (l : Lexer) (r : ℕ) → Running u l → (l.top == suc r) ≡ true → l.eof ≡ false
  alive l r run e = elim (Bool-cases l.eof) [
    | inl end ↦ absurd (ground (arith, (run.at_eof end).0))
    | inr more ↦ more
  ]

  pub array_create-Moved :
      (l : Lexer) → Running u l → Moved u (2 * runes_left l) (lex_array_create u l)
  unfolding lex_array_create
  array_create-Moved l r = elim (Bool-cases (l.top == b'.')) [
    | inl dot ↦ rw dot (
        let more = first_rune l r (alive l 45 r dot) in
        Read-Moved _ (eat_ident u (eat u l)) _
          (eat_ident-Read _ (eat u l) more.0 (λ letter. eat-Ahead _ (eat u l) more))
          (λ l' ahead. array_method-Moved _ l' ahead))
    | inr other ↦ rw other (stop-Moved _ _ l r)
  ]

  in_string : {n : ℕ} {l : Lexer} → Ahead u n l → Moved u n (some StateFn.string_body, l)
  unfolding Moved
  in_string (r, less) = (tt, r, omega arith)

  -- The rune behind an escape, or the next one, is read whatever it is.
  quoted-Moved :
      (n : ℕ) (l : Lexer)
      → Ahead u n (eat u l)
      → Moved u n (
          if l.top == b'"'
          then emit_lex Kind.string_literal (eat u l)
          else (some StateFn.string_body, eat u l))
  quoted-Moved n l h =
      Moved-if u n (l.top == b'"') _ _ (emit_lex-Moved n Kind.string_literal (eat u l) refl h.0 h.1)
        (in_string h)

  pub string_body-Moved :
      (l : Lexer) → Running u l → Moved u (2 * runes_left l) (lex_string_body u l)
  unfolding lex_string_body
  string_body-Moved l r =
      Moved-test u _ l.eof _ _ (λ e. stop-Moved _ _ l r)
        (λ e.
          let one = first_rune l r e in
          elim (Bool-cases (l.top == b'\\')) [
            | inl escape ↦ rw escape (
                quoted-Moved _ (eat u (eat u l))
                  (eat-Ahead _ (eat u (eat u l)) (eat-Ahead _ (eat u l) one)))
            | inr plain ↦ rw plain (quoted-Moved _ l one)
          ])
