-- ===== src/Tests/Chat.antt =====
-- A small model whose logits are the tokens so far: the theorems on the chats at concrete inputs.
use decentralized_llm_infere.Base.{
  ℕ, ◌+◌, ◌*◌, ◌/◌, ◌≡◌, ◌<◌, ltb, if◌then◌else◌, Bool-cases, inl, inr, refl, ap, true, false,
  Option, none, some, List, [], ◌∷◌, ◌++◌, length, leb, ◌==◌, arith, done, nat_key,
}
use mathlib.Core.List.{flatten, append-nil}
use decentralized_llm_infere.Models.{Text, text_len, ChatCfg, Tokenizer, Floats, Candle, Random}
use decentralized_llm_infere.Models.Sampling.{arg_max, from_cfg, sampling_of}
use decentralized_llm_infere.Models.TokenOutputStream as TokenOutputStream
use decentralized_llm_infere.Models.TokenOutputStream.{
  TokenOutputStream, pushed, stream, decode_rest,
}
use decentralized_llm_infere.Models.TokenOutputStream.Streaming.{
  Decodes, EndsWord, stream-decode_rest,
}
use decentralized_llm_infere.Models.Chat.{Chat}
use decentralized_llm_infere.Models.Chat.Reference.{received}
use decentralized_llm_infere.Models.Llama as Llama
use decentralized_llm_infere.Models.Llama.{LlamaModel}
use decentralized_llm_infere.Models.Llama.Failure.{chat-Open}
use decentralized_llm_infere.Worker.ModelService.{LayersWorker}

abbrev pub floats : Floats ℕ ℕ
floats = record {
  zero = 0;
  add = λ a b. a + b;
  mul = λ a b. a * b;
  div = λ a b. a / b;
  le = leb;
  is_one = λ a. a == 1;
  total_le = leb;
  d_le_zero = λ a. a == 0;
  d_ge_one = λ a. leb 1 a;
  to_f32 = λ a. a;
}

abbrev pub candle : Candle (List ℕ) ℕ ℕ
candle = record {
  from_tokens = some;
  unsqueeze = some;
  squeeze = some;
  seq_len = λ t. some (length t);
  index_row = λ k t. some t;
  contiguous = some;
  to_f32 = some;
  to_vec1 = some;
  from_vec = some;
  div = λ t d. some t;
  softmax_last_dim = some;
}

abbrev pub random : Random ℕ ℕ
random = record {
  seed_from_u64 = λ s. s;
  weighted_index = λ prs r. some (0, r);
  select_nth = λ k prs. [];
}

-- The decoder drops a space in front of a text.
abbrev pub strip : List ℕ → Text
strip [] = []
strip (c ∷ t) = if c == 32 then t else c ∷ t

abbrev pub tokenizer : Tokenizer
tokenizer = record {
  encode = some;
  decode = λ ts. some (strip ts);
  token_to_id = λ t. none;
  get_vocab = λ t. some 7;
  is_alphanumeric = λ c. ltb 64 c;
}

strip-append : (c : ℕ) (t more : List ℕ) → strip ((c ∷ t) ++ more) ≡ strip (c ∷ t) ++ more
strip-append c t more = elim (Bool-cases (c == 32)) [ inl e ↦ rw e refl | inr e ↦ rw e refl ]

pub strip-Decodes : Decodes tokenizer strip
strip-Decodes = record { reads = λ ts. refl; nothing = refl; continues = continues }
  where
    continues :
        (b w more : List ℕ)
        → text_len (strip b) < text_len (strip (b ++ w))
        → EndsWord tokenizer (strip (b ++ w))
        → (t : Text) × (strip (w ++ more) ≡ strip w ++ t)
          × (strip ((b ++ w) ++ more) ≡ strip (b ++ w) ++ t)
    continues b [] more less word =
        absurd (omega (arith, ap (λ x. text_len (strip x)) (append-nil b)))
    continues [] (c ∷ w) more less word = (more, strip-append c w more, strip-append c w more)
    continues (d ∷ b) (c ∷ w) more less word =
        (more, strip-append c w more, strip-append d (b ++ c ∷ w) more)

abbrev pub cfg : ChatCfg ℕ ℕ
cfg = record {
  seed = 0;
  temperature = 0;
  top_k = none;
  top_p = none;
  max_len = 4;
  repeat_penalty = 1;
  repeat_last_n = 128;
}

abbrev pub llama : LlamaModel (List ℕ)
llama = record { wte = some; ln_f = some; lm_head = some; eos_token_id = none }

stream-decode_rest_example :
    (outs : List Text) × (s : TokenOutputStream) × (o : Option Text) × (stream tokenizer
        (32 ∷ 104 ∷ 32 ∷ 105 ∷ [])
        TokenOutputStream.new
      ≡ done (some (outs, s)))
    × (decode_rest tokenizer s ≡ done (some o))
    × (flatten outs ++ flatten (pushed o []) ≡ strip (32 ∷ 104 ∷ 32 ∷ 105 ∷ []))
stream-decode_rest_example =
    stream-decode_rest tokenizer strip strip-Decodes (32 ∷ 104 ∷ 32 ∷ 105 ∷ [])

-- Layers that fail.
abbrev failing : LayersWorker (List ℕ) (List ℕ)
failing = record {
  start = λ session l. (true, session ∷ []);
  forward = λ session step x pos l. (none, l);
  finish = λ session l. [];
}

abbrev failed : Chat (List ℕ) (List Text) ℕ ℕ
failed = record {
  layers = 1 ∷ [];
  tx = [];
  stream = record { tokens = []; prev_index = 0; current_index = 0 };
  tokens = 1 ∷ 0 ∷ [];
  index_pos = 0;
  logits_processor = record { rng = 0; sampling = arg_max };
  token_generated = 0;
}

chat_fails :
    Llama.chat floats candle llama random tokenizer failing received 1 cfg (1 ∷ 0 ∷ []) [] []
    ≡ done (false, failed)
unfolding Llama.chat Llama.rounds Llama.round Llama.forward_ctxt Llama.on_answer Llama.embed
    Llama.pre_forward Llama.finish TokenOutputStream.new from_cfg sampling_of
chat_fails = refl

chat-Open_example : failed.layers ≡ 1 ∷ []
chat-Open_example =
    chat-Open floats candle llama random tokenizer failing received 1 cfg (λ l. l ≡ 1 ∷ [])
      (λ l. refl) (λ step pos x l h. h) (1 ∷ 0 ∷ []) [] [] chat_fails
