-- ===== src/Hashmap.antt =====
-- src/globals.c: `hashmap_t`, open addressing with linear probing.
pub mod Key
pub mod Probe
pub mod Search
pub mod Count
pub mod Valid
pub mod Write
pub mod Insert
pub mod Rehash
pub mod Put
mod Tests
use shecc.Prelude.{
  ℕ, zero, suc, ◌+◌, ◌-◌, ◌^◌, ◌≡◌, Bool, true, false, Option, none, some, List, [], ◌∷◌, bit_and,
  bit_or, bit_xor, add32, sub32, mul32, sar32, shl32, leb, ◌==◌, if◌then◌else◌, ◌>>=◌,
}
use Key.{Str, same_str}

-- `hash ^= c; hash *= 0x01000193;` for the characters of a key, each an `int`.
unfoldable pub fnv : ℕ → Str → ℕ
fnv hash [] = hash
fnv hash (c ∷ key) = fnv (mul32 (bit_xor hash c) 0x01000193) key

-- The index of a key in a table of `size` slots. A key is a string: the null key is left out.
unfoldable pub hash_index : ℕ → Str → ℕ
unfolding fnv
hash_index size key =
    let hash = fnv 0x811c9dc5 key in
    let mask = sar32 hash 31 in bit_and (sub32 (bit_xor hash mask) mask) (sub32 size 1)

unfoldable pub round_up_pow2 : ℕ → ℕ
round_up_pow2 v =
    let v0 = sub32 v 1 in
    let v1 = bit_or v0 (sar32 v0 1) in
    let v2 = bit_or v1 (sar32 v1 2) in
    let v3 = bit_or v2 (sar32 v2 4) in
    let v4 = bit_or v3 (sar32 v3 8) in let v5 = bit_or v4 (sar32 v4 16) in add32 v5 1

-- A slot is occupied by a key and its value, or not; an allocation never fails here.
pub record Map {ℓ} (V : Type ℓ) : Type ℓ where
  pub size : ℕ
  pub cap : ℕ
  pub table : ℕ → Option (Str × V)

-- Where a search ends: at a slot that is not occupied, at an entry, or back where it began.
pub data Place : Type 0 where
  free hit : ℕ → Place
  full : Place

-- `(index + 1) & (map->cap - 1)`
unfoldable pub next_index : ℕ → ℕ → ℕ
next_index cap index = bit_and (add32 index 1) (sub32 cap 1)

-- The index of the slot of an entry.
unfoldable pub node_at : Place → Option ℕ
node_at (hit i) = some i
node_at (free i) = none
node_at full = none

module _ {ℓ} {V : Type ℓ} where
  -- `table[i] = entry`
  abbrev pub set_slot : (ℕ → Option (Str × V)) → ℕ → Option (Str × V) → ℕ → Option (Str × V)
  set_slot table i entry j = if j == i then entry else table j

  -- `while (table[index].occupied) { ... }` with fuel; `is_key` is the test of an entry's key.
  unfoldable pub probe : (Str → Bool) → (ℕ → Option (Str × V)) → ℕ → ℕ → ℕ → ℕ → Place
  probe is_key table cap start zero index = full
  probe is_key table cap start (suc fuel) index =
      let index' = next_index cap index in
      let rest = probe is_key table cap start fuel index' in
      elim (table index) [
        | none ↦ free index
        | some (k, v) ↦ if is_key k then hit index else if index' == start then full else rest
      ]

  -- The search for a key; a round for every slot is enough.
  unfoldable pub find : (Str → Bool) → Map V → Str → Place
  unfolding probe
  find is_key map key =
      let start = hash_index map.cap key in probe is_key map.table map.cap start map.cap start

  -- A new entry.
  unfoldable pub insert : Map V → ℕ → Str → V → Map V
  insert map i key val = record map {
    size = map.size + 1;
    table = set_slot map.table i (some (key, val));
  }

  -- One entry of the old table, in the new one, where no key is looked at.
  unfoldable pub move_at : Map V → Str → V → Place → Option (Map V)
  unfolding insert
  move_at map key val (free i) = some (insert map i key val)
  move_at map key val (hit i) = none
  move_at map key val full = none

  unfoldable pub rehash_entry : Option (Str × V) → Map V → Option (Map V)
  unfolding find move_at
  rehash_entry none map = some map
  rehash_entry (some (key, val)) map = move_at map key val (find (λ k. false) map key)

  -- `for (int i = 0; i < old_cap; i++)`, up to `n`.
  unfoldable pub rehash_loop : (ℕ → Option (Str × V)) → ℕ → Map V → Option (Map V)
  unfolding rehash_entry
  rehash_loop old_table zero map = some map
  rehash_loop old_table (suc n) map = rehash_loop old_table n map >>= rehash_entry (old_table n)

  unfoldable pub rehash : Map V → Option (Map V)
  unfolding rehash_loop
  rehash map =
      rehash_loop map.table map.cap (record { size = 0; cap = shl32 map.cap 1; table = λ i. none })

  -- An entry keeps its key.
  unfoldable pub with_val : V → Option (Str × V) → Option (Str × V)
  with_val val none = none
  with_val val (some (k, v)) = some (k, val)

  -- The value is written where the search ends.
  unfoldable pub put_at : Map V → Str → V → Place → Option (Map V)
  unfolding insert with_val
  put_at map key val (hit i) =
      some (record map { table = set_slot map.table i (with_val val (map.table i)) })
  put_at map key val (free i) = some (insert map i key val)
  put_at map key val full = none

  -- `none` is a call of `abort`.
  unfoldable pub put : Map V → Str → V → Option (Map V)
  unfolding find rehash put_at
  put map key val = (if leb (sar32 map.cap 1) map.size then rehash map else some map) >>= λ map'.
      put_at map' key val (find (λ k. same_str k key) map' key)

  -- The index of the entry of a key.
  unfoldable pub get_node : Map V → Str → Option ℕ
  unfolding find node_at
  get_node map key = node_at (find (λ k. same_str k key) map key)

  unfoldable pub val_of : Option (Str × V) → Option V
  val_of none = none
  val_of (some (k, v)) = some v

  unfoldable pub get : Map V → Str → Option V
  unfolding get_node val_of
  get map key = get_node map key >>= λ i. val_of (map.table i)

  unfoldable pub contains : Map V → Str → Bool
  unfolding get_node
  contains map key = elim (get_node map key) [ none ↦ false | some i ↦ true ]

  unfoldable pub create : ℕ → Map V
  unfolding round_up_pow2
  create cap = record { size = 0; cap = round_up_pow2 cap; table = λ i. none }
