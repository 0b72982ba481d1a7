-- ===== src/Models/TokenOutputStream/Decoding.antt =====
-- What TokenOutputStream of crates/models/src/token_output_stream.rs asks of a tokenizer's decoder, and
-- the account of what the stream handed out.
use decentralized_llm_infere.Base.{
  ℕ, ◌≤◌, ◌<◌, true, ◌≡◌, refl, sym, ap, subst, ◌∙◌, Bool-cases, inl, inr, Option, none, some, List,
  [], ◌∷◌, ◌++◌, length, take, drop, arith, ◌⊎◌, done, ◌==◌,
}
use decentralized_llm_infere.Base.Slices.{
  drop-take_empty, take-append, take-append-drop, drop-take-append,
}
use mathlib.Core.List.{flatten, append-nil}
use decentralized_llm_infere.Models.{Text, text_len, last, Tokenizer}
use decentralized_llm_infere.Models.TokenOutputStream.{
  TokenOutputStream, new, pushed, rest_of, prev_text, emit,
}
use decentralized_llm_infere.Models.TokenOutputStream.Texts.{
  split_at-append, longer, text_len-cons, last-cons, not_longer, last-append, slice_lem,
}

-- The text ends in a character that `next_token` takes for a complete one.
abbrev pub EndsWord : Tokenizer → Text → Type 0
EndsWord tokenizer t = (c : ℕ) × (last t ≡ some c) × (tokenizer.is_alphanumeric c ≡ true)

-- The tokenizer reads every sequence of tokens, and none as no text. Its decoder may drop a space in
-- front of a text, and may need several tokens for one character; but where the tokens `w` go on with
-- the text of `b`, up to a complete character, all that follows adds the same to the text of `w` alone
-- as to the text of the whole.
pub record Decodes (tokenizer : Tokenizer) (text : List ℕ → Text) : Type 0 where
  pub reads : (ts : List ℕ) → tokenizer.decode ts ≡ some (text ts)
  pub nothing : text [] ≡ []
  pub continues :
      (b w more : List ℕ)
      → text_len (text b) < text_len (text (b ++ w))
      → EndsWord tokenizer (text (b ++ w))
      → (t : Text) × (text (w ++ more) ≡ text w ++ t)
        × (text ((b ++ w) ++ more) ≡ text (b ++ w) ++ t)

module _ (tokenizer : Tokenizer) (text : List ℕ → Text) (decodes : Decodes tokenizer text) where
  -- `out` is what was handed out so far. The window of tokens between the marks is empty at the
  -- beginning, and later holds the tokens whose text was handed out last.
  pub record Streams (s : TokenOutputStream) (out : Text) : Type 0 where
    pub ordered : s.prev_index ≤ s.current_index
    pub within : s.current_index ≤ length s.tokens
    pub handed_out : out ≡ text (take s.current_index s.tokens)
    pub window :
        (s.current_index ≡ 0)
        ⊎ ((text_len (text (take s.prev_index (take s.current_index s.tokens)))
              < text_len (text (take s.current_index s.tokens)))
            × EndsWord tokenizer (text (take s.current_index s.tokens)))

  pub new-Streams : Streams new []
  unfolding new
  new-Streams = record {
    ordered = omega arith;
    within = omega arith;
    handed_out = sym decodes.nothing;
    window = inl refl;
  }

  -- What the tokens behind the second mark add.
  pub adds :
      (s : TokenOutputStream) {out : Text} (more : List ℕ)
      → Streams s out
      → (t : Text) × (text (drop s.prev_index (s.tokens ++ more))
          ≡ text (drop s.prev_index (take s.current_index s.tokens)) ++ t)
        × (text (s.tokens ++ more) ≡ out ++ t)
  adds s more v = elim v.window [
    | inl first ↦
        let from : s.prev_index ≡ 0 = omega (arith, v.ordered, first) in
        (
          text (s.tokens ++ more),
          rw (from, first, decodes.nothing) refl,
          rw (v.handed_out, first, decodes.nothing) refl,
        )
    | inr (less, word) ↦
        let us = s.tokens ++ more in
        let b = take s.prev_index (take s.current_index s.tokens) in
        let w = drop s.prev_index (take s.current_index s.tokens) in
        let same = take-append s.current_index s.tokens more v.within in
        let whole = take-append-drop s.prev_index (take s.current_index s.tokens) in
        let (t, e, e') =
          decodes.continues b w (drop s.current_index us)
            (subst (λ x. text_len (text b) < text_len (text x)) (sym whole) less)
            (subst (λ x. EndsWord tokenizer (text x)) (sym whole) word) in
        (
          t,
          ap text (
                sym (drop-take-append s.prev_index s.current_index us v.ordered)
                ∙ ap (λ x. drop s.prev_index x ++ drop s.current_index us) same)
              ∙ e,
          ap text (
                sym (take-append-drop s.current_index us)
                ∙ ap (λ x. x ++ drop s.current_index us) (same ∙ sym whole))
              ∙ e'
              ∙ ap (λ x. text x ++ t) whole
              ∙ ap (λ x. x ++ t) (sym v.handed_out),
        )
  ]

  pub prev_text_lem :
      (s : TokenOutputStream) {out : Text}
      → Streams s out
      → prev_text tokenizer s
        ≡ done (some (text (drop s.prev_index (take s.current_index s.tokens))))
  unfolding prev_text
  prev_text_lem s v = elim (Bool-cases (length s.tokens == 0)) [
    | inl empty ↦
        rw (empty, drop-take_empty s.prev_index s.current_index s.tokens empty, decodes.nothing)
          refl
    | inr more ↦
        rw (
          more,
          slice_lem s.tokens s.prev_index s.current_index v.ordered v.within,
          decodes.reads _,
        )
  ]

  pub EndsWord-append : (p t : Text) → EndsWord tokenizer t → EndsWord tokenizer (p ++ t)
  unfolding last
  EndsWord-append p [] (c, e, word) = absurd (ground (arith, e))
  EndsWord-append p (d ∷ t) (c, e, word) = (c, last-append p d t ∙ e, word)

  pub emit_lem :
      (prev more : Text) (s : TokenOutputStream)
      → (emit tokenizer prev (prev ++ more) s ≡ done (none, s))
        ⊎ ((0 < text_len more)
            × EndsWord tokenizer more
            × (emit tokenizer prev (prev ++ more) s
                ≡ done (
                  some more,
                  record s { prev_index = s.current_index; current_index = length s.tokens },
                )))
  unfolding emit
  emit_lem prev [] s = inl (rw (append-nil prev, not_longer (text_len prev)))
  emit_lem prev (c ∷ more) s =
      let (d, e) = last-cons c more in
      let e' : last (prev ++ c ∷ more) ≡ some d = last-append prev c more ∙ e in
      elim (Bool-cases (tokenizer.is_alphanumeric d)) [
        | inl yes' ↦ inr (
          text_len-cons c more,
          (d, e, yes'),
          rw (longer prev c more, e', yes', split_at-append prev (c ∷ more)),
        )
        | inr no' ↦ inl (rw (longer prev c more, e', no'))
      ]

  pub rest_of_lem :
      (prev more : Text)
      → (o : Option Text) × (rest_of prev (prev ++ more) ≡ done o) × (flatten (pushed o []) ≡ more)
  unfolding rest_of flatten
  rest_of_lem prev [] = (none, rw (append-nil prev, not_longer (text_len prev)), refl)
  rest_of_lem prev (c ∷ more) = (
    some (c ∷ more),
    rw (longer prev c more, split_at-append prev (c ∷ more)),
    append-nil (c ∷ more),
  )
