-- ===== src/Ring/Add.antt =====
-- `Add` keeps the ring well-formed.
use axis_chat_server.Prelude.{
  ℕ, zero, suc, ◌+◌, ◌*◌, ◌^◌, ◌<◌, ◌≡◌, refl, true, some, is_some, List, [], ◌∷◌, ◌++◌, arith,
  Text, length, length-append, elem, elem-append, lookup, lookup-insert, if◌then◌else◌, sym, ◌∙◌,
  ap,
}
use mathlib.Core.List.{append_assoc, append-nil}
use axis_chat_server.Ring.{
  Hash, HashBalance, virtual_node, add_virtual_node, add_replicas, add_all, add, sort,
}
use axis_chat_server.Ring.Keys.{IsSorted, sort-IsSorted, elem-sort, length-sort, InRange}

-- The hashes of a server's virtual nodes, from the number `i` on.
abbrev pub node_hashes : Hash → Text → ℕ → ℕ → List ℕ
node_hashes hash val i zero = []
node_hashes hash val i (suc left) = hash (virtual_node val i) ∷ node_hashes hash val (i + 1) left

-- The ring after `count` virtual nodes of one server, from the number `i` on.
pub record Replicated (val : Text) (i count : ℕ) (c c' : HashBalance) : Type 0 where
  pub hash : c'.hash ≡ c.hash
  pub replicas : c'.replicas ≡ c.replicas
  pub keys : c'.keys ≡ c.keys ++ node_hashes c.hash val i count
  pub owner :
      (x : ℕ)
      → lookup x c'.hash_map
        ≡ (if elem x (node_hashes c.hash val i count) then some val else lookup x c.hash_map)

pub add_replicas-Replicated :
    (val : Text) (i count : ℕ) (c : HashBalance)
    → Replicated val i count c (add_replicas val i count c)
unfolding add_replicas
add_replicas-Replicated val i zero c = record {
  hash = refl;
  replicas = refl;
  keys = sym (append-nil c.keys);
  owner = λ x. refl;
}
add_replicas-Replicated val i (suc count) c =
    let later = add_replicas-Replicated val (i + 1) count (add_virtual_node val i c) in
    record {
      hash = later.hash;
      replicas = later.replicas;
      keys =
          later.keys
          ∙ append_assoc c.keys (c.hash (virtual_node val i) ∷ [])
              (node_hashes c.hash val (i + 1) count);
      owner = λ x.
          ground
            (arith, later.owner x, lookup-insert (c.hash (virtual_node val i)) x val c.hash_map);
    }

-- A well-formed ring: the keys are sorted hashes, and each has a server.
pub record IsRing (c : HashBalance) : Type 0 where
  pub sorted : IsSorted c.keys
  pub hashes : (t : Text) → c.hash t < 2 ^ 32
  pub range : InRange c.keys
  pub mapped : (x : ℕ) → elem x c.keys ≡ true → is_some (lookup x c.hash_map) ≡ true

-- The same but for the order, in which the keys are while servers are added.
record IsDraft (c : HashBalance) : Type 0 where
  hashes : (t : Text) → c.hash t < 2 ^ 32
  range : InRange c.keys
  mapped : (x : ℕ) → elem x c.keys ≡ true → is_some (lookup x c.hash_map) ≡ true

node_hashes-InRange :
    (hash : Hash) (val : Text) (i count : ℕ)
    → ((t : Text) → hash t < 2 ^ 32)
    → InRange (node_hashes hash val i count)
node_hashes-InRange hash val i zero bound x h = ground arith
node_hashes-InRange hash val i (suc count) bound x h =
    ground (arith, bound (virtual_node val i), node_hashes-InRange hash val (i + 1) count bound x)

add_replicas-IsDraft :
    (val : Text) (i count : ℕ) (c : HashBalance) → IsDraft c → IsDraft (add_replicas val i count c)
add_replicas-IsDraft val i count c d =
    let r = add_replicas-Replicated val i count c in
    let range' = node_hashes-InRange c.hash val i count d.hashes in
    record {
      hashes = rw r.hash d.hashes;
      range = λ x h. ground (
        arith,
        ap (elem x) r.keys,
        elem-append x c.keys (node_hashes c.hash val i count),
        range' x,
        d.range x,
      );
      mapped = λ x h. ground (
        arith,
        ap (elem x) r.keys,
        elem-append x c.keys (node_hashes c.hash val i count),
        r.owner x,
        d.mapped x,
      );
    }

add_all-IsDraft : (vals : List Text) (c : HashBalance) → IsDraft c → IsDraft (add_all vals c)
unfolding add_all
add_all-IsDraft [] c d = d
add_all-IsDraft (val ∷ vals) c d =
    add_all-IsDraft vals (add_replicas val 0 c.replicas c)
      (add_replicas-IsDraft val 0 c.replicas c d)

length-node_hashes :
    (hash : Hash) (val : Text) (i count : ℕ) → length (node_hashes hash val i count) ≡ count
length-node_hashes hash val i zero = refl
length-node_hashes hash val i (suc count) = ap suc (length-node_hashes hash val (i + 1) count)

length-add_all :
    (vals : List Text) (c : HashBalance)
    → length (add_all vals c).keys ≡ length c.keys + length vals * c.replicas
unfolding add_all
length-add_all [] c = omega arith
length-add_all (val ∷ vals) c =
    let r = add_replicas-Replicated val 0 c.replicas c in
    let later = length-add_all vals (add_replicas val 0 c.replicas c) in
    let counted = ap length r.keys ∙ length-append c.keys (node_hashes c.hash val 0 c.replicas) in
    let new = length-node_hashes c.hash val 0 c.replicas in
    let same : length vals * (add_replicas val 0 c.replicas c).replicas ≡ length vals * c.replicas =
      ap (λ (n : ℕ). length vals * n) r.replicas in
    omega arith

sorted-IsRing : (c : HashBalance) → IsDraft c → IsRing (record c { keys = sort c.keys })
sorted-IsRing c d = record {
  sorted = sort-IsSorted c.keys;
  hashes = d.hashes;
  range = λ x h. d.range x (sym (elem-sort x c.keys) ∙ h);
  mapped = λ x h. d.mapped x (sym (elem-sort x c.keys) ∙ h);
}

-- `Add` with at least one server succeeds and keeps the ring well-formed, with `replicas` more
-- virtual nodes for each server.
pub add-IsRing :
    (val : Text) (vals : List Text) (c : HashBalance)
    → IsRing c
    → (c' : HashBalance) × (add (val ∷ vals) c ≡ some c')
      × IsRing c'
      × (length c'.keys ≡ length c.keys + length (val ∷ vals) * c.replicas)
unfolding add
add-IsRing val vals c ring =
    let all = add_all (val ∷ vals) c in
    let draft =
      add_all-IsDraft (val ∷ vals) c
        (record { hashes = ring.hashes; range = ring.range; mapped = ring.mapped }) in
    (
      record all { keys = sort all.keys },
      refl,
      sorted-IsRing all draft,
      length-sort all.keys ∙ length-add_all (val ∷ vals) c,
    )
