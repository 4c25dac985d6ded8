-- ===== src/Cluster/Kept.antt =====
-- What none of the functions of _zk_server/clust_comm.cpp and work.cpp does to the files: no file's
-- node goes, and its status stays one of the three.
pub mod Dispatch
pub mod Handlers
pub mod Recover
use mathlib.Core.Option
use distributed_task_dispath.Prelude.{
  ℕ, Bool, true, false, ◌&&◌, List, [], ◌∷◌, ◌++◌, Option, none, some, ◌≡◌, ◌⊎◌, refl, ap, sym, ◌∙◌,
  inl, inr, arith, subst, take, length, if◌then◌else◌, ◌>>=◌, Bool-cases,
}
use distributed_task_dispath.Bytes.{Bytes, codes, bytes_eq}
use distributed_task_dispath.Zookeeper.{
  Zookeeper, World, WorkMode, mode_monitor, mode_worker, is_ok, persistent,
}
use distributed_task_dispath.Zookeeper.Laws.{Laws}
use distributed_task_dispath.Cluster.Paths.{g_path_files, child}

-- A status: r, y or g.
abbrev pub IsStatus : Bytes → Type 0
IsStatus d = (d ≡ codes "r") ⊎ ((d ≡ codes "y") ⊎ (d ≡ codes "g"))

abbrev pub Sound : Option Bytes → Type 0
Sound none = Unit
Sound (some d) = IsStatus d

module _ {zk : Zookeeper} (laws : Laws zk) where
  open laws use {node, node-set, node-delete, node-create}

  abbrev pub file : zk.Store → Bytes → Option Bytes
  file s f = node s (child g_path_files f)

  -- What holds of a change of the store: a file that is there stays, and a status that is one of
  -- the three stays one.
  pub record Keeps (s s' : zk.Store) : Type 0 where
    pub present : (f : Bytes) → is_ok (file s f) ≡ true → is_ok (file s' f) ≡ true
    pub sound : (f : Bytes) → Sound (file s f) → Sound (file s' f)

  pub keep_all : (s : zk.Store) → Keeps s s
  keep_all s = record { present = λ f h. h; sound = λ f h. h }

  pub both : {s t u : zk.Store} → Keeps s t → Keeps t u → Keeps s u
  both a b = record {
    present = λ f h. b.present f (a.present f h);
    sound = λ f h. b.sound f (a.sound f h);
  }

  -- A change that leaves the nodes of the files alone.
  pub same_files : (s s' : zk.Store) → ((f : Bytes) → file s' f ≡ file s f) → Keeps s s'
  same_files s s' e = record {
    present = λ f h. ap is_ok (e f) ∙ h;
    sound = λ f h. subst (λ o. Sound o) (sym (e f)) h;
  }

  -- A path that is no file's.
  abbrev pub NoFile : Bytes → Type 0
  NoFile p = (f : Bytes) → bytes_eq p (child g_path_files f) ≡ false

  pub set_other : (s : zk.Store) (p d : Bytes) → NoFile p → Keeps s (zk.set s p d).0
  set_other s p d h = same_files s _ (λ f. node-set s p d (child g_path_files f) ∙ rw (h f) refl)

  pub set_file :
      (s : zk.Store) (g d : Bytes) → IsStatus d → Keeps s (zk.set s (child g_path_files g) d).0
  set_file s g d ok = record {
    present = λ f h.
        ap is_ok (node-set s (child g_path_files g) d (child g_path_files f))
        ∙ there (bytes_eq (child g_path_files g) (child g_path_files f)) (file s f) h;
    sound = λ f h.
        subst (λ o. Sound o) (sym (node-set s (child g_path_files g) d (child g_path_files f)))
          (fine (bytes_eq (child g_path_files g) (child g_path_files f)) (file s f) h);
  }
    where
      there :
          (b : Bool) (o : Option Bytes)
          → is_ok o ≡ true
          → is_ok (if b then Option.map (λ _. d) o else o) ≡ true
      there true (some e) h = refl
      there true none h = h
      there false o h = h

      fine :
          (b : Bool) (o : Option Bytes) → Sound o → Sound (if b then Option.map (λ _. d) o else o)
      fine true (some e) h = ok
      fine true none h = tt
      fine false o h = h

  pub delete_other : (s : zk.Store) (p : Bytes) → NoFile p → Keeps s (zk.delete s p).0
  delete_other s p h = same_files s _ (λ f.
      node-delete s p (child g_path_files f)
      ∙ ap (λ b. if b then none else file s f) (both_false ((zk.delete s p).1) (h f)))
    where
      both_false : (b : Bool) {c : Bool} → c ≡ false → (b && c) ≡ false
      both_false true e = e
      both_false false e = refl

  pub create_other :
      (s : zk.Store) (p d : Bytes) → NoFile p → Keeps s (zk.create s p d persistent).0
  create_other s p d h = same_files s _ (λ f.
      node-create s p d (child g_path_files f)
      ∙ ap (λ b. if b then some d else file s f)
          (both_false ((zk.create s p d persistent).1) (h f)))
    where
      both_false : (b : Bool) {c : Bool} → c ≡ false → (b && c) ≡ false
      both_false true e = e
      both_false false e = refl

  pub create_file :
      (s : zk.Store) (g : Bytes)
      → Keeps s (zk.create s (child g_path_files g) (codes "r") persistent).0
  create_file s g = record {
    present = λ f h.
        ap is_ok (node-create s (child g_path_files g) (codes "r") (child g_path_files f))
        ∙ there _ (file s f) h;
    sound = λ f h.
        subst (λ o. Sound o)
          (sym (node-create s (child g_path_files g) (codes "r") (child g_path_files f)))
          (fine _ (file s f) h);
  }
    where
      there :
          (b : Bool) (o : Option Bytes)
          → is_ok o ≡ true
          → is_ok (if b then some (codes "r") else o) ≡ true
      there true o h = refl
      there false o h = h

      fine : (b : Bool) (o : Option Bytes) → Sound o → Sound (if b then some (codes "r") else o)
      fine true o h = inl refl
      fine false o h = h

  -- A run that does not go on, or that leaves a store with the files kept.
  abbrev pub Ends : {X : Type 0} → (X → zk.Store) → zk.Store → Option X → Type 0
  Ends store_of s none = Unit
  Ends store_of s (some x) = Keeps s (store_of x)

  -- The store that a process leaves.
  abbrev pub left : World zk → zk.Store
  left w = w.store

  pub if_Ends :
      {X : Type 0} (store_of : X → zk.Store) (s : zk.Store) (b : Bool) (x y : Option X)
      → Ends store_of s x
      → Ends store_of s y
      → Ends store_of s (if b then x else y)
  if_Ends store_of s true x y hx hy = hx
  if_Ends store_of s false x y hx hy = hy

  pub bind_Ends :
      {A X : Type 0} (store_of : X → zk.Store) (s : zk.Store) (o : Option A) (f : A → Option X)
      → ((a : A) → Ends store_of s (f a))
      → Ends store_of s (o >>= f)
  bind_Ends store_of s none f h = tt
  bind_Ends store_of s (some a) f h = h a

  pub later_Ends :
      {X : Type 0} (store_of : X → zk.Store) (s t : zk.Store) (o : Option X)
      → Keeps s t
      → Ends store_of t o
      → Ends store_of s o
  later_Ends store_of s t none k h = tt
  later_Ends store_of s t (some x) k h = both k h

  pub case_Ends :
      {X : Type 0} (store_of : X → zk.Store) (s : zk.Store) (b : Bool) (x y : Option X)
      → Ends store_of s x
      → Ends store_of s y
      → Ends store_of s (elim b [ false ↦ x | true ↦ y ])
  case_Ends store_of s true x y hx hy = hy
  case_Ends store_of s false x y hx hy = hx

  pub option_Ends :
      {A X : Type 0} (store_of : X → zk.Store) (s : zk.Store) (o : Option A) (f : A → Option X)
      → ((a : A) → Ends store_of s (f a))
      → Ends store_of s (elim o [ none ↦ none | some a ↦ f a ])
  option_Ends store_of s none f h = tt
  option_Ends store_of s (some a) f h = h a

  pub list_Ends :
      {A X : Type 0} (store_of : X → zk.Store) (s : zk.Store) (xs : List A) (x : Option X)
      (f : A → List A → Option X)
      → Ends store_of s x
      → ((a : A) (rest : List A) → Ends store_of s (f a rest))
      → Ends store_of s (elim xs [ [] ↦ x | a ∷ rest ↦ f a rest ])
  list_Ends store_of s [] x f hx h = hx
  list_Ends store_of s (a ∷ rest) x f hx h = h a rest

  pub if_Keeps :
      {X : Type 0} (store_of : X → zk.Store) (s : zk.Store) (b : Bool) (x y : X)
      → Keeps s (store_of x)
      → Keeps s (store_of y)
      → Keeps s (store_of (if b then x else y))
  if_Keeps store_of s true x y hx hy = hx
  if_Keeps store_of s false x y hx hy = hy

  pub mode_Ends :
      {X : Type 0} (store_of : X → zk.Store) (s : zk.Store) (m : WorkMode) (x y : Option X)
      → Ends store_of s x
      → Ends store_of s y
      → Ends store_of s (elim m [ mode_monitor ↦ x | mode_worker ↦ y ])
  mode_Ends store_of s mode_monitor x y hx hy = hx
  mode_Ends store_of s mode_worker x y hx hy = hy

  pub chain_Ends :
      {A X : Type 0} (store_a : A → zk.Store) (store_of : X → zk.Store) (s : zk.Store)
      (o : Option A) (f : A → Option X)
      → Ends store_a s o
      → ((a : A) → Ends store_of (store_a a) (f a))
      → Ends store_of s (o >>= f)
  chain_Ends store_a store_of s none f h g = tt
  chain_Ends store_a store_of s (some a) f h g = later_Ends store_of s (store_a a) (f a) h (g a)

  pub chain_option_Ends :
      {A X : Type 0} (store_a : A → zk.Store) (store_of : X → zk.Store) (s : zk.Store)
      (o : Option A) (f : A → Option X)
      → Ends store_a s o
      → ((a : A) → Ends store_of (store_a a) (f a))
      → Ends store_of s (elim o [ none ↦ none | some a ↦ f a ])
  chain_option_Ends store_a store_of s none f h g = tt
  chain_option_Ends store_a store_of s (some a) f h g =
      later_Ends store_of s (store_a a) (f a) h (g a)
