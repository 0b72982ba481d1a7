-- ===== src/P2p/SharedPort.antt =====
-- SharedUdpPort of crates/p2p-network/src/shared_port.rs: which connection a packet belongs to. A
-- task and a socket address are numbers. The parser of STUN messages (str0m) is a parameter: the
-- first half of the user name of a packet, if it is a STUN message with one.
pub mod Tables
pub mod Removal
use decentralized_llm_infere.Base.{
  ℕ, Bool, true, false, Option, none, some, List, [], ◌∷◌, ◌++◌, String, HashMap, get, insert,
  remove, nat_key, string_key,
}

pub record SharedUdpPort : Type 0 where
  pub task_remotes : HashMap ℕ ℕ
  pub task_remotes_map : HashMap ℕ (List ℕ)
  pub task_ufrags : HashMap String ℕ
  pub task_ufrags_reverse : HashMap ℕ String

-- `SharedUdpPort::default()`
unfoldable pub new : SharedUdpPort
new = record {
  task_remotes = [];
  task_remotes_map = [];
  task_ufrags = [];
  task_ufrags_reverse = [];
}

unfoldable pub add_ufrag : String → ℕ → SharedUdpPort → SharedUdpPort
add_ufrag ufrag task p = record p {
  task_ufrags = insert ufrag task p.task_ufrags;
  task_ufrags_reverse = insert task ufrag p.task_ufrags_reverse;
}

unfoldable pub remove_remotes : List ℕ → HashMap ℕ ℕ → HashMap ℕ ℕ
remove_remotes [] remotes = remotes
remove_remotes (r ∷ rs) remotes = remove_remotes rs (remove r remotes)

-- Each `?` returns with what has been removed so far; `true` stands for `Some(())`.
unfoldable pub remove_task : ℕ → SharedUdpPort → Bool × SharedUdpPort
remove_task task p = elim (get task p.task_ufrags_reverse) [
  | none ↦ (false, p)
  | some ufrag ↦
      let p1 = record p { task_ufrags_reverse = remove task p.task_ufrags_reverse } in
      elim (get ufrag p.task_ufrags) [
        | none ↦ (false, p1)
        | some _ ↦
            let p2 = record p1 { task_ufrags = remove ufrag p.task_ufrags } in
            elim (get task p.task_remotes_map) [
              | none ↦ (false, p2)
              | some remotes ↦ (
                true,
                record p2 {
                  task_remotes_map = remove task p.task_remotes_map;
                  task_remotes = remove_remotes remotes p.task_remotes;
                },
              )
            ]
      ]
]

-- `self.task_remotes_map.entry(task).or_default().push(remote)`
unfoldable pub push_remote : ℕ → ℕ → HashMap ℕ (List ℕ) → HashMap ℕ (List ℕ)
push_remote task remote m = elim (get task m) [
  | none ↦ insert task (remote ∷ []) m
  | some remotes ↦ insert task (remotes ++ remote ∷ []) m
]

module _ (stun_username : List ℕ → Option String) where
  unfoldable pub map_remote : ℕ → List ℕ → SharedUdpPort → Option ℕ × SharedUdpPort
  map_remote remote buf p = elim (get remote p.task_remotes) [
    | some task ↦ (some task, p)
    | none ↦ elim (stun_username buf) [
      | none ↦ (none, p)
      | some username ↦ elim (get username p.task_ufrags) [
        | none ↦ (none, p)
        | some task ↦ (
          some task,
          record p {
            task_remotes = insert remote task p.task_remotes;
            task_remotes_map = push_remote task remote p.task_remotes_map;
          },
        )
      ]
    ]
  ]
