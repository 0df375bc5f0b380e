-- ===== src/Hashmap/Tests.antt =====
-- Runs of the hash map of src/globals.c, and the theorems on it at a concrete map.
use shecc.Prelude.{ℕ, ◌*◌, ◌≡◌, ◌≢◌, refl, arith, Option, some, [], ◌∷◌, ◌>>=◌}
use shecc.Hashmap.Key.{Str, same_str}
use shecc.Hashmap.{
  Map, fnv, hash_index, round_up_pow2, next_index, probe, find, insert, put_at, put, get_node,
  node_at, val_of, get, create, rehash, rehash_loop, rehash_entry, move_at, with_val,
}
use shecc.Hashmap.Valid.{IsValid}
use shecc.Hashmap.Insert.{Updates}
use shecc.Hashmap.Put.{put-Updates, get-put, get-rehash}
use shecc.Hashmap.Rehash.{empty-IsValid}

-- "int" and "if"
abbrev key_int : Str
key_int = 105 ∷ 110 ∷ 116 ∷ []

abbrev key_if : Str
key_if = 105 ∷ 102 ∷ []

-- The hash of "int" is negative as an `int`, and its opposite is taken.
hash_run : hash_index 16 key_int ≡ 2
unfolding hash_index fnv
hash_run = refl

capacity_run : round_up_pow2 100 ≡ 128
unfolding round_up_pow2
capacity_run = refl

-- The first entry of a map of a single slot, which grows for it.
abbrev small : Map ℕ
small = create 1

small-IsValid : IsValid small
unfolding create round_up_pow2
small-IsValid = empty-IsValid 1 (0, refl, omega arith, omega arith)

put-Updates_example :
    (map' : Map ℕ) × (put small key_int 7 ≡ some map') × IsValid map' × Updates small map' key_int 7
unfolding create round_up_pow2
put-Updates_example = put-Updates small key_int 7 small-IsValid (omega arith)

get-put_example :
    (map' : Map ℕ) × (put small key_int 7 ≡ some map')
    × (get map' key_int ≡ some 7)
    × ((k : Str) → k ≢ key_int → get map' k ≡ get small k)
unfolding create round_up_pow2
get-put_example = get-put small key_int 7 small-IsValid (omega arith)

get-rehash_example :
    (map' : Map ℕ) × (rehash small ≡ some map')
    × (map'.cap ≡ 2 * small.cap)
    × (map'.size ≡ small.size)
    × ((k : Str) → get map' k ≡ get small k)
unfolding create round_up_pow2
get-rehash_example = get-rehash small small-IsValid (omega arith)

abbrev twice : Option (Map ℕ)
twice = put small key_int 7 >>= λ map1. put map1 key_if 9

-- Both entries are found after the map has grown twice.
two_runs :
    ((twice >>= λ map. get map key_int) ≡ some 7) × ((twice >>= λ map. get map key_if) ≡ some 9)
unfolding create round_up_pow2 put get get_node node_at val_of find probe next_index insert put_at
    with_val rehash rehash_loop rehash_entry move_at hash_index fnv same_str
two_runs = (refl, refl)
