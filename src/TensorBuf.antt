-- ===== src/TensorBuf.antt =====
-- TensorBuf of crates/models/src/remote/mod.rs: a tensor as bytes. Tensors themselves (candle) and
-- bincode are parameters.
use decentralized_llm_infere.Base.{ℕ, ◌≡◌, refl, Option, some, List, Outcome, done, expect, ◌>>=◌}

-- `DTypeInner`
pub data DtypeInner : Type 0 where
  u8_inner u32_inner i64_inner bf16_inner f16_inner f32_inner f64_inner : DtypeInner

-- `candle_core::DType`
pub data Dtype : Type 0 where
  u8 u32 i64 bf16 f16 f32 f64 : Dtype

-- `impl From<DType> for DTypeInner`
unfoldable pub to_inner : Dtype → DtypeInner
to_inner u8 = u8_inner
to_inner u32 = u32_inner
to_inner i64 = i64_inner
to_inner bf16 = bf16_inner
to_inner f16 = f16_inner
to_inner f32 = f32_inner
to_inner f64 = f64_inner

-- `impl From<DTypeInner> for DType`
unfoldable pub of_inner : DtypeInner → Dtype
of_inner u8_inner = u8
of_inner u32_inner = u32
of_inner i64_inner = i64
of_inner bf16_inner = bf16
of_inner f16_inner = f16
of_inner f32_inner = f32
of_inner f64_inner = f64

pub record TensorBuf : Type 0 where
  pub dims : List ℕ
  pub buf : List ℕ
  pub dtype : DtypeInner

-- What the code uses of candle and bincode. A device has no influence.
pub record Candle (T : Type 0) : Type 0 where
  pub dims_of : T → List ℕ
  pub dtype_of : T → Dtype
  pub write_bytes : T → List ℕ
  pub from_raw_buffer : List ℕ → Dtype → List ℕ → Option T
  pub serialize : TensorBuf → List ℕ
  pub deserialize : List ℕ → Option TensorBuf

module _ {T : Type 0} (candle : Candle T) where
  -- `impl From<Tensor> for TensorBuf`
  unfoldable pub from_tensor : T → TensorBuf
  from_tensor value = record {
    dims = candle.dims_of value;
    buf = candle.write_bytes value;
    dtype = to_inner (candle.dtype_of value);
  }

  unfoldable pub to_tensor : TensorBuf → Option T
  to_tensor b = candle.from_raw_buffer b.buf (of_inner b.dtype) b.dims

  unfoldable pub to_vec : TensorBuf → List ℕ
  to_vec b = candle.serialize b

  -- `TensorBuf::try_from(bytes).unwrap()`
  unfoldable pub try_from : List ℕ → Outcome TensorBuf
  try_from bytes = expect (candle.deserialize bytes)

of_inner-to_inner : (d : Dtype) → of_inner (to_inner d) ≡ d
unfolding of_inner to_inner
of_inner-to_inner u8 = refl
of_inner-to_inner u32 = refl
of_inner-to_inner i64 = refl
of_inner-to_inner bf16 = refl
of_inner-to_inner f16 = refl
of_inner-to_inner f32 = refl
of_inner-to_inner f64 = refl

module _ {T : Type 0} (candle : Candle T)
    (bincode : (b : TensorBuf) → candle.deserialize (candle.serialize b) ≡ some b)
    (raw : (t : T)
      → candle.from_raw_buffer (candle.write_bytes t) (candle.dtype_of t) (candle.dims_of t)
        ≡ some t) where
  pub try_from-to_vec : (b : TensorBuf) → try_from candle (to_vec candle b) ≡ done b
  unfolding try_from to_vec
  try_from-to_vec b = rw (bincode b) refl

  pub to_tensor-from_tensor : (t : T) → to_tensor candle (from_tensor candle t) ≡ some t
  unfolding from_tensor to_tensor
  to_tensor-from_tensor t = rw (to_tensor, of_inner-to_inner (candle.dtype_of t), raw t) refl

  -- A tensor that was turned into bytes comes back, where bincode and candle read back what they
  -- write.
  pub to_tensor-to_vec :
      (t : T)
      → (try_from candle (to_vec candle (from_tensor candle t)) >>= λ b.
          expect (to_tensor candle b))
        ≡ done t
  to_tensor-to_vec t = rw (try_from-to_vec (from_tensor candle t), to_tensor-from_tensor t) refl
