-- ===== src/Tests/Worker.antt =====
-- A chain of two nodes whose layers add to a number: the theorems on
-- crates/worker at concrete inputs.
use decentralized_llm_infere.Base.{
  ℕ, zero, suc, ◌+◌, ◌≡◌, refl, Option, none, some, List, [], ◌∷◌, arith, true, get, nat_key, done,
  HashMap, ℕ_discrete,
}
use decentralized_llm_infere.Tests.Packing.{pack, unpack, unpack-pack}
use decentralized_llm_infere.Router.{Range}
use decentralized_llm_infere.Protocol.Registry.{no_stats}
use decentralized_llm_infere.Usage.{passthrough}
use decentralized_llm_infere.TensorBuf.{
  TensorBuf, Candle, DtypeInner, f32, f32_inner, u8_inner, u32_inner, i64_inner, bf16_inner,
  f16_inner, f64_inner,
}
use decentralized_llm_infere.Worker.ModelService.{LayersWorker, SessionContainer, ModelService}
use decentralized_llm_infere.Worker.Requests.{Remote, virtual_forward}
use decentralized_llm_infere.Worker.Pipeline.{
  Services, chain, Computes, ends, goes_on, virtual_forward-Computes,
}

unfoldable tag : DtypeInner → ℕ
tag u8_inner = 0
tag u32_inner = 1
tag i64_inner = 2
tag bf16_inner = 3
tag f16_inner = 4
tag f32_inner = 5
tag f64_inner = 6

unfoldable of_tag : ℕ → DtypeInner
of_tag zero = u8_inner
of_tag (suc zero) = u32_inner
of_tag (suc (suc zero)) = i64_inner
of_tag (suc (suc (suc zero))) = bf16_inner
of_tag (suc (suc (suc (suc zero)))) = f16_inner
of_tag (suc (suc (suc (suc (suc zero))))) = f32_inner
of_tag _ = f64_inner

of_tag-tag : (d : DtypeInner) → of_tag (tag d) ≡ d
unfolding of_tag tag
of_tag-tag u8_inner = refl
of_tag-tag u32_inner = refl
of_tag-tag i64_inner = refl
of_tag-tag bf16_inner = refl
of_tag-tag f16_inner = refl
of_tag-tag f32_inner = refl
of_tag-tag f64_inner = refl

unfoldable write_buf : TensorBuf → List ℕ
write_buf b = tag b.dtype ∷ pack b.dims b.buf

unfoldable read_buf : List ℕ → Option TensorBuf
read_buf [] = none
read_buf (n ∷ bytes) = elim (unpack bytes) [
  | none ↦ none
  | some (dims, buf) ↦ some (record { dims = dims; buf = buf; dtype = of_tag n })
]

read-write_buf : (b : TensorBuf) → read_buf (write_buf b) ≡ some b
unfolding write_buf read_buf
read-write_buf b = rw (read_buf, unpack-pack b.dims b.buf, of_tag-tag b.dtype) refl

unfoldable first : List ℕ → Option ℕ
first [] = none
first (n ∷ bytes) = some n

-- A tensor is a number.
abbrev candle : Candle ℕ
candle = record {
  dims_of = λ t. 1 ∷ [];
  dtype_of = λ t. f32;
  write_bytes = λ t. t ∷ [];
  from_raw_buffer = λ buf dtype dims. first buf;
  serialize = write_buf;
  deserialize = read_buf;
}

raw : (t : ℕ) → first (t ∷ []) ≡ some t
unfolding first
raw t = refl

-- A node's layers add its own number.
abbrev adder : LayersWorker ℕ ℕ
adder = record {
  start = λ session l. (true, l);
  forward = λ session step input pos l. (some (input.0 + l, input.1), l);
  finish = λ session l. l;
}

abbrev node : (own : ℕ) → HashMap ℕ (SessionContainer ℕ) → ModelService ℕ Unit ℕ ℕ
node own sessions = record {
  layers = own;
  sessions = sessions;
  router = record { remote_layers = []; local_layers = record { start = 0; end = 1 } };
  usage_service = tt;
  stats = no_stats 0;
  last_updated_ms = 0;
  last_updated_stats = no_stats 0;
}

abbrev half : Range
half = record { start = 0; end = 1 }

-- The session is number 1 at the head, and number 2 at the node behind it.
abbrev head : ModelService ℕ Unit ℕ ℕ
head = node 10 ((1, record { chat_id = 1; local = some half; remote = some (7, 2) }) ∷ [])

abbrev behind : ModelService ℕ Unit ℕ ℕ
behind = node 100 ((2, record { chat_id = 1; local = some half; remote = none }) ∷ [])

abbrev network : Remote ℕ (Services ℕ ℕ ℕ)
network = record {
  start_rpc = λ dest req w. done (none, w);
  forward_rpc = chain adder candle 3;
  end_rpc = λ dest req w. done (none, w);
}

adds : Computes {Node = ℕ} adder 0 4 0 (head ∷ behind ∷ []) 1 5 115
unfolding get ℕ_discrete
adds = goes_on 1 (some half) 7 2 refl (4, 10, refl) (ends 1 (some half) refl (4, 100, refl))

virtual_forward-Computes_example :
    (s' : ModelService ℕ Unit ℕ ℕ) × (nodes' : Services ℕ ℕ ℕ) × (virtual_forward 2 network adder
        candle passthrough 1 0
        (5, 4)
        0
        head
        (behind ∷ [])
      ≡ done (some (115, 4), s', nodes'))
virtual_forward-Computes_example =
    virtual_forward-Computes adder candle read-write_buf raw 2 3 1 0 4 0 network head (behind ∷ [])
      5 115 refl (omega arith) adds
