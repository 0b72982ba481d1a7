-- ===== src/Models/TokenOutputStream/Streaming.antt =====
-- The texts that TokenOutputStream hands out, put together.
use decentralized_llm_infere.Base.{
  ℕ, ◌+◌, ◌≡◌, refl, sym, ap, subst, ◌∙◌, inl, inr, Option, none, some, List, [], ◌∷◌, ◌++◌, length,
  length-append, take, drop, arith, done, ◌>>=◌,
}
use decentralized_llm_infere.Base.Slices.{take-length, take-append}
use mathlib.Core.List.{flatten, append_assoc, append-nil}
use decentralized_llm_infere.Models.{Text, Tokenizer}
use decentralized_llm_infere.Models.TokenOutputStream.{
  TokenOutputStream, new, pushed, emit, next_token, decode_rest, stream,
}
use decentralized_llm_infere.Models.TokenOutputStream.Texts.{
  text_len-append, flatten-pushed, slice_lem,
}
pub use decentralized_llm_infere.Models.TokenOutputStream.Decoding.{
  EndsWord, Decodes, Streams, new-Streams,
}
use decentralized_llm_infere.Models.TokenOutputStream.Decoding.{
  adds, prev_text_lem, EndsWord-append, emit_lem, rest_of_lem,
}

module _ (tokenizer : Tokenizer) (text : List ℕ → Text) (decodes : Decodes tokenizer text) where
  next_token_step :
      (t : ℕ) (s : TokenOutputStream) {out : Text} (more : Text)
      → Streams tokenizer text decodes s out
      → text (drop s.prev_index (s.tokens ++ t ∷ []))
        ≡ text (drop s.prev_index (take s.current_index s.tokens)) ++ more
      → next_token tokenizer t s ≡ (
          emit tokenizer
            (text (drop s.prev_index (take s.current_index s.tokens)))
            (text (drop s.prev_index (take s.current_index s.tokens)) ++ more)
            (record s { tokens = s.tokens ++ t ∷ [] })
          >>= λ r. done (some r.0, r.1))
  unfolding next_token
  next_token_step t s more v split =
      let us = s.tokens ++ t ∷ [] in
      let long : length us ≡ length s.tokens + 1 = length-append s.tokens (t ∷ []) in
      rw (
        prev_text_lem tokenizer text decodes s v,
        slice_lem us s.prev_index (length us) (omega (arith, v.ordered, v.within)) (omega arith),
        take-length us,
        decodes.reads (drop s.prev_index us),
        split,
      )

  -- One token keeps the account of what was handed out.
  pub next_token_lem :
      (t : ℕ) (s : TokenOutputStream) (out : Text)
      → Streams tokenizer text decodes s out
      → (o : Option Text) × (s' : TokenOutputStream) × (next_token tokenizer t s
          ≡ done (some o, s'))
        × (s'.tokens ≡ s.tokens ++ t ∷ [])
        × Streams tokenizer text decodes s' (out ++ flatten (pushed o []))
  unfolding flatten
  next_token_lem t s out v =
      let us = s.tokens ++ t ∷ [] in
      let long : length us ≡ length s.tokens + 1 = length-append s.tokens (t ∷ []) in
      let same = take-append s.current_index s.tokens (t ∷ []) v.within in
      let (more, split, whole) = adds tokenizer text decodes s (t ∷ []) v in
      elim (emit_lem tokenizer text decodes
        (text (drop s.prev_index (take s.current_index s.tokens))) more
        (record s { tokens = us })) [
          | inl e ↦ (
            none,
            record s { tokens = us },
            next_token_step t s more v split ∙ rw e refl,
            refl,
            record {
              ordered = v.ordered;
              within = omega (arith, v.within);
              handed_out = append-nil out ∙ v.handed_out ∙ ap text (sym same);
              window = rw same v.window;
            },
          )
          | inr (some', word, e) ↦
              let all : text (take (length us) us) ≡ out ++ more =
                ap text (take-length us) ∙ whole in
              (
                some more,
                record { tokens = us; prev_index = s.current_index; current_index = length us },
                next_token_step t s more v split ∙ rw e refl,
                refl,
                record {
                  ordered = omega (arith, v.within);
                  within = omega arith;
                  handed_out = ap (λ x. out ++ x) (append-nil more) ∙ sym all;
                  window = inr (
                    rw (all, take-length us, same, sym v.handed_out)
                        (omega (arith, text_len-append out more)),
                    subst (EndsWord tokenizer) (sym all)
                        (EndsWord-append tokenizer text decodes out more word),
                  );
                },
              )
        ]

  pub decode_rest_lem :
      (s : TokenOutputStream) (out : Text)
      → Streams tokenizer text decodes s out
      → (o : Option Text) × (decode_rest tokenizer s ≡ done (some o))
        × (out ++ flatten (pushed o []) ≡ text s.tokens)
  unfolding decode_rest
  decode_rest_lem s out v =
      let prev = text (drop s.prev_index (take s.current_index s.tokens)) in
      let (more, split, whole) = adds tokenizer text decodes s [] v in
      let (o, e, rest) = rest_of_lem tokenizer text decodes prev more in
      let none_more = append-nil s.tokens in
      (
        o,
        rw (
          prev_text_lem tokenizer text decodes s v,
          slice_lem s.tokens s.prev_index (length s.tokens) (omega (arith, v.ordered, v.within))
              (omega arith),
          take-length s.tokens,
          decodes.reads (drop s.prev_index s.tokens),
          ap (λ x. text (drop s.prev_index x)) (sym none_more) ∙ split,
          e,
        ),
        ap (λ x. out ++ x) rest ∙ sym whole ∙ ap text none_more,
      )

  stream_lem :
      (ts : List ℕ) (s : TokenOutputStream) (out : Text)
      → Streams tokenizer text decodes s out
      → (outs : List Text) × (s' : TokenOutputStream) × (stream tokenizer ts s
          ≡ done (some (outs, s')))
        × (s'.tokens ≡ s.tokens ++ ts)
        × Streams tokenizer text decodes s' (out ++ flatten outs)
  unfolding stream flatten
  stream_lem [] s out v = (
    [],
    s,
    refl,
    sym (append-nil s.tokens),
    subst (Streams tokenizer text decodes s) (sym (append-nil out)) v,
  )
  stream_lem (t ∷ ts) s out v =
      let (o, s1, e, held, v1) = next_token_lem t s out v in
      let (outs, s', e', held', v') = stream_lem ts s1 (out ++ flatten (pushed o [])) v1 in
      (
        pushed o outs,
        s',
        rw (e, e'),
        held' ∙ rw held (append_assoc s.tokens (t ∷ []) ts),
        subst (Streams tokenizer text decodes s')
            (append_assoc out (flatten (pushed o [])) (flatten outs)
              ∙ ap (λ x. out ++ x) (flatten-pushed o outs))
            v',
      )

  -- Let the tokenizer read every sequence of tokens, and none as no text; where some tokens go on
  -- with a text, up to an alphanumeric character, let all that follows add the same to the text of
  -- these tokens alone as to the text of the whole. The text of a token may depend on those around
  -- it: a space in front may be dropped, and one character may take several tokens. Then, from a
  -- new stream, no token makes `next_token` fail or panic, and what it hands out for a sequence of
  -- tokens, followed by what `decode_rest` gives at the end, is the text of the sequence: nothing
  -- is lost, repeated or handed out in another order.
  pub stream-decode_rest :
      (ts : List ℕ)
      → (outs : List Text) × (s : TokenOutputStream) × (o : Option Text) × (stream tokenizer ts new
          ≡ done (some (outs, s)))
        × (decode_rest tokenizer s ≡ done (some o))
        × (flatten outs ++ flatten (pushed o []) ≡ text ts)
  unfolding new
  stream-decode_rest ts =
      let (outs, s, e, held, v) = stream_lem ts new [] (new-Streams tokenizer text decodes) in
      let (o, e', whole) = decode_rest_lem s (flatten outs) v in
      (outs, s, o, e, e', whole ∙ ap text held)
