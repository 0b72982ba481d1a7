-- ===== src/Contract/Storage.antt =====
-- OnChainStorage of crates/contract/src/storage.rs: a count of tokens for each chat. A count is a
-- `u64`, kept with its wrap-around.
use decentralized_llm_infere.Base.{
  ℕ, ◌+◌, ◌≡◌, none, some, ite, HashMap, get, insert, remove, values, get-insert, get-remove,
  nat_key, u64, arith,
}
use mathlib.Core.List.{foldl}

-- `OnChainStorage.sessions`
abbrev pub OnChainStorage : Type 0
OnChainStorage = HashMap ℕ ℕ

-- `get`
unfoldable pub get_count : ℕ → OnChainStorage → ℕ
get_count chat_id s = elim (get chat_id s) [ none ↦ 0 | some count ↦ count ]

unfoldable pub increase : ℕ → ℕ → OnChainStorage → OnChainStorage
increase chat_id token_count s = insert chat_id (u64 (get_count chat_id s + token_count)) s

unfoldable pub finish : ℕ → OnChainStorage → ℕ × OnChainStorage
finish chat_id s = (get_count chat_id s, remove chat_id s)

unfoldable pub sum : OnChainStorage → ℕ
sum s = foldl (λ total count. u64 (total + count)) 0 (values s)

pub get_count-increase :
    (chat_id other n : ℕ) (s : OnChainStorage)
    → get_count other (increase chat_id n s)
      ≡ ite (nat_key.dec other chat_id) (u64 (get_count chat_id s + n)) (get_count other s)
unfolding get_count increase
get_count-increase chat_id other n s =
    ground (arith, get-insert chat_id other (u64 (get_count chat_id s + n)) s)

pub get_count-finish :
    (chat_id other : ℕ) (s : OnChainStorage)
    → get_count other (finish chat_id s).1 ≡ ite (nat_key.dec other chat_id) 0 (get_count other s)
unfolding get_count finish
get_count-finish chat_id other s = ground (arith, get-remove chat_id other s)
