-- ===== src/P2p/Buffer/Sizes.antt =====
-- The sizes of outgoing frames of crates/p2p-network/src/node/remote_conn.rs, added up.
use decentralized_llm_infere.Base.{
  ℕ, suc, ◌+◌, ◌≡◌, refl, none, some, [], ◌∷◌, ◌==◌, arith, HashMap, get, insert, remove, nat_key,
  Uniq, Bool-cases, inl, inr,
}
use mathlib.Core.Option.{some-injective}
use decentralized_llm_infere.Base.BTreeMap
use decentralized_llm_infere.Base.BTreeMap.{BTreeMap, SortedFrom}
use decentralized_llm_infere.P2p.Buffer.{OutgoingFrame}

-- The sizes of the chunks of a frame that wait for their acknowledgements, and those of all frames.
unfoldable pub total : BTreeMap ℕ → ℕ
total [] = 0
total ((k, size) ∷ m) = size + total m

unfoldable pub awaited : HashMap ℕ OutgoingFrame → ℕ
awaited [] = 0
awaited ((f, frame) ∷ m) = total frame.chunks + awaited m

pub total-insert :
    (k v : ℕ) (m : BTreeMap ℕ)
    → BTreeMap.get k m ≡ none
    → total (BTreeMap.insert k v m) ≡ total m + v
unfolding total BTreeMap.insert BTreeMap.get
total-insert k v [] h = omega arith
total-insert k v ((j, w) ∷ m) h = ground (arith, total-insert k v m)

total-remove_absent :
    (k low : ℕ) (m : BTreeMap ℕ) → BTreeMap.get k m ≡ none → total (BTreeMap.remove k m) ≡ total m
unfolding total BTreeMap.remove BTreeMap.get
total-remove_absent k low [] h = refl
total-remove_absent k low ((j, w) ∷ m) h = ground (arith, total-remove_absent k low m)

pub total-remove :
    (k v low : ℕ) (m : BTreeMap ℕ)
    → SortedFrom low m
    → BTreeMap.get k m ≡ some v
    → total (BTreeMap.remove k m) + v ≡ total m
unfolding total BTreeMap.remove BTreeMap.get
total-remove k v low [] s h = absurd (cc)
total-remove k v low ((j, w) ∷ m) s h = elim (Bool-cases (k == j)) [
  | inl e ↦
      let same : w ≡ v = some-injective w v (rw e at h) in
      let gone : BTreeMap.get k m ≡ none = BTreeMap.get_below k (suc j) m s.1 (ground (arith, e)) in
      rw e (omega (arith, total-remove_absent k (suc j) m gone, same))
  | inr e ↦ rw e (omega (arith, total-remove k v (suc j) m s.1 (rw e at h)))
]

pub awaited-insert_new :
    (f : ℕ) (frame : OutgoingFrame) (m : HashMap ℕ OutgoingFrame)
    → get f m ≡ none
    → awaited (insert f frame m) ≡ awaited m + total frame.chunks
unfolding awaited insert get
awaited-insert_new f frame [] h = omega arith
awaited-insert_new f frame ((j, w) ∷ m) h = ground (arith, awaited-insert_new f frame m)

pub awaited-insert :
    (f : ℕ) (frame old : OutgoingFrame) (m : HashMap ℕ OutgoingFrame)
    → get f m ≡ some old
    → awaited (insert f frame m) + total old.chunks ≡ awaited m + total frame.chunks
unfolding awaited insert get
awaited-insert f frame old [] h = absurd (cc)
awaited-insert f frame old ((j, w) ∷ m) h = ground (arith, awaited-insert f frame old m)

awaited-remove_absent :
    (f : ℕ) (m : HashMap ℕ OutgoingFrame) → get f m ≡ none → awaited (remove f m) ≡ awaited m
unfolding awaited remove get
awaited-remove_absent f [] h = refl
awaited-remove_absent f ((j, w) ∷ m) h = ground (arith, awaited-remove_absent f m)

pub awaited-remove :
    (f : ℕ) (old : OutgoingFrame) (m : HashMap ℕ OutgoingFrame)
    → Uniq m
    → get f m ≡ some old
    → awaited (remove f m) + total old.chunks ≡ awaited m
unfolding awaited remove get
awaited-remove f old [] u h = absurd (cc)
awaited-remove f old ((j, w) ∷ m) u h =
    ground (arith, awaited-remove f old m u.1, awaited-remove_absent f m)
