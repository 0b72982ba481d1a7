-- ===== src/Models/Phi3/Equivalence.antt =====
-- A chat with the Phi-3 model next to a generation of tokens without a cache.
use decentralized_llm_infere.Base.{ℕ, List, []}
use decentralized_llm_infere.Models.{Text, ChatCfg, Tokenizer, Floats, Candle, Random}
use decentralized_llm_infere.Models.Sampling.{from_cfg}
use decentralized_llm_infere.Models.TokenOutputStream as TokenOutputStream
use decentralized_llm_infere.Models.TokenOutputStream.{decode_rest}
use decentralized_llm_infere.Models.TokenOutputStream.Streaming.{Decodes}
use decentralized_llm_infere.Models.Chat.{Chat}
use decentralized_llm_infere.Models.Chat.Reference.{Serves}
use decentralized_llm_infere.Models.Phi3.{Phi3Model, embed, logits_of}
use decentralized_llm_infere.Worker.ModelService.{LayersWorker}

module _ {T F D L R : Type 0} (floats : Floats F D) (candle : Candle T F D) (model : Phi3Model T)
    (random : Random F R) (tokenizer : Tokenizer) (text : List ℕ → Text)
    (decodes : Decodes tokenizer text) (worker : LayersWorker T L) (session : ℕ) (cfg : ChatCfg F D)
    (computes : List ℕ → T) (Holds : List ℕ → L → Type 0)
    (serves : Serves worker session
      (embed floats candle model)
      (λ out seq_len. logits_of floats candle model out)
      computes
      Holds) where
  -- The state of a chat behind the start of the layers.
  abbrev begin : L → Chat L (List Text) D R
  begin layers = record {
    layers = layers;
    tx = [];
    stream = TokenOutputStream.new;
    tokens = [];
    index_pos = 0;
    logits_processor = from_cfg floats candle random cfg;
    token_generated = 0;
  }
