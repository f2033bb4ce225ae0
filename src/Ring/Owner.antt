-- ===== src/Ring/Owner.antt =====
-- Which server a key belongs to, and which keys move when a server is added.
use axis_chat_server.Prelude.{
  ℕ, ◌<◌, ◌≡◌, refl, ◌⊎◌, inl, inr, Bool-cases, ◌||◌, some, [], ◌∷◌, arith, Text, length, elem,
  elem-append, lookup, get_or, sym, ◌∙◌, ap, subst, if◌then◌else◌,
}
use axis_chat_server.Ring.{HashBalance, is_empty, add, add_replicas, get, ring_key, sort}
use axis_chat_server.Ring.Keys.{IsNext, ring_key-IsNext, IsNext-unique, elem-sort}
use axis_chat_server.Ring.Add.{IsRing, add-IsRing, node_hashes, add_replicas-Replicated}

-- The server of a ring's key.
abbrev pub owner : ℕ → HashBalance → Text
owner k c = get_or [] (lookup k c.hash_map)

get_lem :
    (key : Text) (c : HashBalance)
    → 0 < length c.keys
    → get key c ≡ some (owner (ring_key (c.hash key) c.keys) c)
unfolding get is_empty
get_lem key c some_key = ground arith

-- On a well-formed ring with a key, `Get` returns the server of the ring's key that comes first
-- clockwise from the key's hash.
pub get-IsNext :
    (key : Text) (c : HashBalance)
    → IsRing c
    → 0 < length c.keys
    → (m : ℕ) × IsNext (c.hash key) c.keys m × (get key c ≡ some (owner m c))
get-IsNext key c ring some_key = (
  ring_key (c.hash key) c.keys,
  ring_key-IsNext (c.hash key) c.keys ring.sorted ring.range some_key,
  get_lem key c some_key,
)

-- the ring after `Add` of one server
pub record Added (val : Text) (c c' : HashBalance) : Type 0 where
  pub hash : c'.hash ≡ c.hash
  pub replicas : c'.replicas ≡ c.replicas
  pub member :
      (x : ℕ) → elem x c'.keys ≡ (elem x c.keys || elem x (node_hashes c.hash val 0 c.replicas))
  pub owner :
      (x : ℕ)
      → lookup x c'.hash_map
        ≡ (if elem x (node_hashes c.hash val 0 c.replicas) then some val else lookup x c.hash_map)

pub add-Added :
    (val : Text) (c : HashBalance)
    → (c' : HashBalance) × (add (val ∷ []) c ≡ some c') × Added val c c'
unfolding add
add-Added val c =
    let r = add_replicas-Replicated val 0 c.replicas c in
    let all = add_replicas val 0 c.replicas c in
    (
      record all { keys = sort all.keys },
      refl,
      record {
        hash = r.hash;
        replicas = r.replicas;
        member = λ x.
            elem-sort x all.keys
            ∙ ap (elem x) r.keys
            ∙ elem-append x c.keys (node_hashes c.hash val 0 c.replicas);
        owner = r.owner;
      },
    )

module _ (key val : Text) (c c' : HashBalance) (ring : IsRing c) (a : Added val c c') where
  moved :
      (m m' : ℕ)
      → IsNext (c.hash key) c.keys m
      → IsNext (c.hash key) c'.keys m'
      → (owner m' c' ≡ owner m c) ⊎ (owner m' c' ≡ val)
  moved m m' old new = elim (Bool-cases (elem m' (node_hashes c.hash val 0 c.replicas))) [
    | inl own ↦
        let here : lookup m' c'.hash_map ≡ some val = ground (arith, a.owner m') in
        inr (ap (get_or []) here)
    | inr other ↦
        let still : IsNext (c.hash key) c.keys m' = record {
          member = ground (arith, a.member m', new.member);
          nearest = λ x i. new.nearest x (ground (arith, a.member x));
        } in
        let same = IsNext-unique (c.hash key) c.keys m' m (ring.hashes key) ring.range still old in
        let here : lookup m' c'.hash_map ≡ lookup m' c.hash_map = ground (arith, a.owner m') in
        inl (ap (get_or []) here ∙ ap (λ k. owner k c) same)
  ]

-- Consistency: when one server is added to a ring with a key, a key of the cache either stays with
-- its server or moves to the new one.
pub get-add :
    (key val : Text) (c : HashBalance)
    → IsRing c
    → 0 < length c.keys
    → (c' : HashBalance) × (add (val ∷ []) c ≡ some c')
      × ((get key c' ≡ get key c) ⊎ (get key c' ≡ some val))
get-add key val c ring some_key =
    let (c', added, a) = add-Added val c in
    let (c'', again, ring'', counted) = add-IsRing val [] c ring in
    let same : c'' ≡ c' = ap (get_or c) (sym again ∙ added) in
    let ring' = subst IsRing same ring'' in
    let some_key' : 0 < length c'.keys =
      subst (λ (k : HashBalance). 0 < length k.keys) same (omega arith) in
    let (m, next, got) = get-IsNext key c ring some_key in
    let (m', next', got') = get-IsNext key c' ring' some_key' in
    let next_c = subst (λ (f : Text → ℕ). IsNext (f key) c'.keys m') a.hash next' in
    (
      c',
      added,
      elim (moved key val c c' ring a m m' next next_c) [
        | inl stays ↦ inl (got' ∙ ap some stays ∙ sym got)
        | inr moves ↦ inr (got' ∙ ap some moves)
      ],
    )
