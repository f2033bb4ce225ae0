-- ===== src/Ring/Tests.antt =====
-- A ring of two servers with one virtual node each, under a hash that is a text's length.
use axis_chat_server.Prelude.{ℕ, ◌%◌, ◌<◌, ◌≡◌, ◌⊎◌, some, [], ◌∷◌, arith, length}
use axis_chat_server.Ring.{HashBalance, add, get}
use axis_chat_server.Ring.Keys.{IsNext}
use axis_chat_server.Ring.Add.{IsRing}
use axis_chat_server.Ring.Owner.{owner, get-IsNext, get-add}
use native.Mathlib.Nat.{mod-lt}

abbrev pub ring : HashBalance
ring = record {
  hash = λ t. length t % 16;
  replicas = 1;
  keys = 3 ∷ 5 ∷ [];
  hash_map = (3, b'a' ∷ []) ∷ (5, b'b' ∷ []) ∷ [];
}

ring-IsRing : IsRing ring
ring-IsRing = record {
  sorted = ((omega arith, tt), (tt, tt));
  hashes =
      λ t. let low : length t % 16 < 16 = mod-lt (length t) (omega arith) in omega (arith, low);
  range = λ x h. ground arith;
  mapped = λ x h. ground arith;
}

get-IsNext_example :
    (m : ℕ) × IsNext (ring.hash (b'x' ∷ [])) ring.keys m
    × (get (b'x' ∷ []) ring ≡ some (owner m ring))
get-IsNext_example = get-IsNext (b'x' ∷ []) ring ring-IsRing (omega arith)

get-add_example :
    (c' : HashBalance) × (add ((b'c' ∷ []) ∷ []) ring ≡ some c')
    × ((get (b'x' ∷ []) c' ≡ get (b'x' ∷ []) ring) ⊎ (get (b'x' ∷ []) c' ≡ some (b'c' ∷ [])))
get-add_example = get-add (b'x' ∷ []) (b'c' ∷ []) ring ring-IsRing (omega arith)
