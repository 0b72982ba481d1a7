-- ===== src/Protocol.antt =====
-- crates/protocol/src/lib.rs: the route sync as the message that the workers exchange.
-- The generated protobuf types are records of the fields that crates/protocol/protobuf names.
pub mod Registry
pub mod Llm
pub mod OpenAi
use decentralized_llm_infere.Base.{
  ℕ, ◌≡◌, refl, Bool, true, false, Option, none, some, List, [], ◌∷◌, map, if◌then◌else◌,
}
use decentralized_llm_infere.Router.{LayerRemoteInfo, RouteSync}

-- `worker::event::sync_req::LayerRemoteInfo`
pub record SyncLayer : Type 0 where
  pub enable : Bool
  pub cost : ℕ
  pub last_updated : ℕ

-- `worker::event::SyncReq`
pub record SyncReq : Type 0 where
  pub layers : List SyncLayer

encode_layer : Option LayerRemoteInfo → SyncLayer
encode_layer (some l) = record { enable = true; cost = l.cost; last_updated = l.last_updated }
encode_layer none = record { enable = false; cost = 0; last_updated = 0 }

decode_layer : SyncLayer → Option LayerRemoteInfo
decode_layer l =
    if l.enable then some (record { cost = l.cost; last_updated = l.last_updated }) else none

-- `impl From<RouteSync> for SyncReq`
unfoldable pub encode_sync : RouteSync → SyncReq
unfolding encode_layer
encode_sync value = record { layers = map encode_layer value.layers }

-- `impl From<SyncReq> for RouteSync`
unfoldable pub decode_sync : SyncReq → RouteSync
unfolding decode_layer
decode_sync value = record { layers = map decode_layer value.layers }

decode_layer-encode_layer : (l : Option LayerRemoteInfo) → decode_layer (encode_layer l) ≡ l
unfolding decode_layer encode_layer
decode_layer-encode_layer none = refl
decode_layer-encode_layer (some l) = refl

decode-encode_layers :
    (ls : List (Option LayerRemoteInfo)) → map decode_layer (map encode_layer ls) ≡ ls
decode-encode_layers [] = refl
decode-encode_layers (l ∷ ls) = rw (decode_layer-encode_layer l, decode-encode_layers ls)

-- A route sync comes out of the message as it went in.
pub decode_sync-encode_sync : (s : RouteSync) → decode_sync (encode_sync s) ≡ s
unfolding decode_sync encode_sync
decode_sync-encode_sync s = λ i. record { layers = decode-encode_layers s.layers i }
