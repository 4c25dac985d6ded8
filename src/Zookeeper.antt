-- ===== src/Zookeeper.antt =====
-- The ZooKeeper C client as the program calls it (zookeeper/zookeeper.h, not in the repository):
-- a parameter of the model, with its documented behaviour as named laws; and the state that one
-- process keeps, `World`, with one function for each kind of call.
pub mod Laws
pub mod Closed
pub mod Joining
use distributed_task_dispath.Prelude.{
  ℕ, Bool, true, false, List, ◌∷◌, ◌++◌, Option, none, some, length, drop, replicate, get_or, ◌-◌,
}
use distributed_task_dispath.Bytes.{Bytes}

-- The flags of `zoo_create`: 0, or ZOO_SEQUENCE | ZOO_EPHEMERAL.
pub data CreateMode : Type 0 where
  persistent ephemeral_sequence : CreateMode

-- A change answers with `true` for ZOK, and a read with `none` for any other code.
pub record Zookeeper : Type 1 where
  pub Store : Type 0
  -- The bytes that `zoo_get` copies into a buffer of the given size.
  pub get : Store → Bytes → ℕ → Option Bytes
  pub get_children : Store → Bytes → Option (List Bytes)
  pub has_node : Store → Bytes → Bool
  pub set : Store → Bytes → Bytes → Store × Bool
  pub create : Store → Bytes → Bytes → CreateMode → Store × Bool
  pub delete : Store → Bytes → Store × Bool
  -- What the other processes do while this one sleeps for some seconds.
  pub meanwhile : ℕ → Store → Store

-- A watch that a call asks for, by the path of its node.
pub data Watch : Type 0 where
  on_data : Bytes → Watch
  on_children : Bytes → Watch

-- `enum WORK_MODE`.
pub data WorkMode : Type 0 where
  mode_monitor mode_worker : WorkMode

-- What one process works on: the service, the watches it has asked for, and `g_mode`.
pub record World (zk : Zookeeper) : Type 0 where
  pub store : zk.Store
  pub watches : List Watch
  pub g_mode : WorkMode

-- A char array with the `int` beside it that `zoo_get` reads as the room and sets to the length.
pub record Buffer : Type 0 where
  pub bytes : Bytes
  pub len : ℕ

-- `char b[n] = {0}; int len = sizeof(b);`
abbrev pub zeroed : ℕ → Buffer
zeroed n = record { bytes = replicate n 0; len = n }

abbrev pub first : Bytes → ℕ
first s = get_or s 0 0

-- The data goes to the front of the array, and what was there stays behind it.
abbrev pub fill : Buffer → Option Bytes → Buffer
fill b none = b
fill b (some d) = record { bytes = d ++ drop (length d) b.bytes; len = length d }

-- A text in a char array of `n` zero bytes.
abbrev pub pad : ℕ → Bytes → Bytes
pad n s = s ++ replicate (n - length s) 0

abbrev pub is_ok {ℓ} : {A : Type ℓ} → Option A → Bool
is_ok none = false
is_ok (some a) = true

module _ (zk : Zookeeper) where
  abbrev pub asking : Bool → Watch → World zk → World zk
  asking false h w = w
  asking true h w = record w { watches = h ∷ w.watches }

  unfoldable pub zoo_get : Bool → Bytes → Buffer → World zk → Bool × Buffer × World zk
  zoo_get watch path b w =
      let reply = zk.get w.store path b.len in
      (is_ok reply, fill b reply, asking watch (on_data path) w)

  unfoldable pub zoo_get_children : Bool → Bytes → World zk → Option (List Bytes) × World zk
  zoo_get_children watch path w = (zk.get_children w.store path, asking watch (on_children path) w)

  unfoldable pub zoo_exists : Bool → Bytes → World zk → Bool × World zk
  zoo_exists watch path w = (zk.has_node w.store path, asking watch (on_data path) w)

  unfoldable pub zoo_set : Bytes → Bytes → World zk → World zk
  zoo_set path value w = record w { store = (zk.set w.store path value).0 }

  unfoldable pub zoo_create : Bytes → Bytes → CreateMode → World zk → World zk × Bool
  zoo_create path value flags w =
      let (s, ret) = zk.create w.store path value flags in (record w { store = s }, ret)

  unfoldable pub zoo_delete : Bytes → World zk → World zk × Bool
  zoo_delete path w = let (s, ret) = zk.delete w.store path in (record w { store = s }, ret)

  unfoldable pub sleep : ℕ → World zk → World zk
  sleep n w = record w { store = zk.meanwhile n w.store }
