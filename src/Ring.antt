-- ===== src/Ring.antt =====
-- utils/consistent_hash.go: the ring of virtual nodes by which a key finds its redis server. The
-- lock is left out: each operation is one step.
pub mod Search
pub mod Keys
pub mod Add
pub mod Owner
pub mod Tests
use axis_chat_server.Prelude.{
  ℕ, zero, suc, ◌+◌, ◌/◌, ◌≤◌, ◌<◌, Bool, Option, none, some, List, [], ◌∷◌, ◌++◌, Text, length,
  get_elem?, get_or, lookup, insert, ltb, leb, ◌==◌, if◌then◌else◌,
}
use axis_chat_server.Prelude.Decimal.{decimal}

-- A 32-bit hash of a byte slice, as `crc32.ChecksumIEEE`.
abbrev pub Hash : Type 0
Hash = Text → ℕ

pub record HashBalance : Type 0 where
  pub hash : Hash
  pub replicas : ℕ
  pub keys : List ℕ
  pub hash_map : List (ℕ × Text)

-- `none` is Go's `nil`, for which the checksum of the standard library stands.
unfoldable pub new_hash_balance : Hash → ℕ → Option Hash → HashBalance
new_hash_balance checksum_ieee replies fn = record {
  hash = get_or checksum_ieee fn;
  replicas = replies;
  keys = [];
  hash_map = [];
}

unfoldable pub is_empty : HashBalance → Bool
is_empty c = length c.keys == 0

-- `sort.Sort` on a slice of `uint32`.
unfoldable pub place : ℕ → List ℕ → List ℕ
place x [] = x ∷ []
place x (y ∷ ys) = if leb x y then x ∷ y ∷ ys else y ∷ place x ys

unfoldable pub sort : List ℕ → List ℕ
sort [] = []
sort (x ∷ xs) = place x (sort xs)

-- fmt.Sprintf("%s#%d", val, i)
abbrev pub virtual_node : Text → ℕ → Text
virtual_node val i = val ++ b'#' ∷ decimal i

abbrev pub add_virtual_node : Text → ℕ → HashBalance → HashBalance
add_virtual_node val i c =
    let h = c.hash (virtual_node val i) in
    record c { keys = c.keys ++ h ∷ []; hash_map = insert h val c.hash_map }

-- `for i := 0; i < c.replicas; i++`, with the rounds that are left
unfoldable pub add_replicas : Text → ℕ → ℕ → HashBalance → HashBalance
add_replicas val i zero c = c
add_replicas val i (suc left) c = add_replicas val (i + 1) left (add_virtual_node val i c)

unfoldable pub add_all : List Text → HashBalance → HashBalance
add_all [] c = c
add_all (val ∷ rest) c = add_all rest (add_replicas val 0 c.replicas c)

-- `none` is the error "param len 1 at least".
unfoldable pub add : List Text → HashBalance → Option HashBalance
unfolding add_all add_replicas
add [] c = none
add (val ∷ rest) c = let c' = add_all (val ∷ rest) c in some (record c' { keys = sort c'.keys })

-- `sort.Search`: the least index below `n` at which `f` holds, or `n`.
unfoldable pub search_loop : ℕ → (ℕ → Bool) → ℕ → ℕ → ℕ
search_loop zero f i j = i
search_loop (suc fuel) f i j =
    let h = (i + j) / 2 in
    let left = search_loop fuel f i h in
    let right = search_loop fuel f (h + 1) j in if ltb i j then (if f h then left else right) else i

-- The interval shrinks in each round.
unfoldable pub search : ℕ → (ℕ → Bool) → ℕ
unfolding search_loop
search n f = search_loop n f 0 n

abbrev pub key_at : List ℕ → ℕ → ℕ
key_at keys i = get_or 0 (get_elem? keys i)

-- the key of the ring that a hash goes to
unfoldable pub ring_key : ℕ → List ℕ → ℕ
ring_key h keys =
    let idx = search (length keys) (λ i. leb h (key_at keys i)) in
    key_at keys (if idx == length keys then 0 else idx)

-- `none` is the error "node is empty"; a key of the ring that the map lacks reads as "".
unfoldable pub get : Text → HashBalance → Option Text
unfolding is_empty
get key c =
    if is_empty c then none else some (get_or [] (lookup (ring_key (c.hash key) c.keys) c.hash_map))
