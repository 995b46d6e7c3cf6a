-- ===== src/Buddy.antt =====
-- The buddy allocator of benchmarks/gc_prototype.cpp, `memory::buddy::page`.
pub mod Xor
pub mod Tree
pub mod Moves
pub mod Free
pub mod Allocate
pub mod Pages
mod Tests
use prototype_bundle.Prelude.{
  ℕ, zero, suc, ◌+◌, ◌-◌, ◌*◌, ◌/◌, ◌%◌, ◌^◌, ◌==◌, ltb, Bool, true, false, ◌&&◌, if◌then◌else◌,
  List, [], ◌∷◌, Option, none, some,
}
use prototype_bundle.Binalloc.Word.{bit_length}
use Prim.Native.Nat.{bit_xor, bit_or}

-- `header`: its block is free or in use
pub record Header : Type 0 where
  pub free : Bool
  pub level : ℕ

-- `32U << level`, on 32 bits: `header::size`, and the digits that `find_buddy` turns around
pub size : ℕ → ℕ
size level = 32 * 2 ^ level % 2 ^ 32

-- `page`: the headers by their offsets in the buffer, and for each level the chain of its free blocks,
-- the first one first. A node of a chain, `user_data` of its header, is the offset of that header.
pub record Page : Type 0 where
  pub top_level : ℕ
  pub headers : ℕ → Header
  pub free_levels : ℕ → List ℕ

-- `node_chain::remove`
abbrev pub remove : ℕ → List ℕ → List ℕ
remove node [] = []
remove node (n ∷ chain) = let rest = remove node chain in if n == node then chain else n ∷ rest

abbrev pub with_header : ℕ → Header → (ℕ → Header) → ℕ → Header
with_header h header headers a = if a == h then header else headers a

abbrev pub with_chain : ℕ → List ℕ → (ℕ → List ℕ) → ℕ → List ℕ
with_chain level chain free_levels l = if l == level then chain else free_levels l

-- `register_as_used`
abbrev pub register_as_used : Page → ℕ → ℕ → Page
register_as_used p h level =
    let old = (p.headers h).level in
    record p {
      headers = with_header h (record { free = false; level = level }) p.headers;
      free_levels = with_chain old (remove h (p.free_levels old)) p.free_levels;
    }

-- `register_as_free`
abbrev pub register_as_free : Page → ℕ → ℕ → Page
register_as_free p h level = record p {
  headers = with_header h (record { free = true; level = level }) p.headers;
  free_levels = with_chain level (h ∷ p.free_levels level) p.free_levels;
}

-- `find_buddy`
pub find_buddy : ℕ → ℕ → ℕ
find_buddy h level = bit_xor h (size level)

-- `page`, the constructor, with the level of its capacity
abbrev pub make_page : ℕ → Page
make_page top_level =
    register_as_free
      (record {
        top_level = top_level;
        headers = λ a. record { free = false; level = 0 };
        free_levels = λ l. [];
      })
      0 top_level

abbrev pub unless_empty : List ℕ → ℕ → Option ℕ → Option ℕ
unless_empty [] level above = above
unless_empty (h ∷ chain) level above = some level

-- `while (_free_levels [level].empty ()) ++level`: the level that it ends at; on fuel, as many levels
-- as there are from the first one to the top. It throws when they run out.
pub fitting_level : (ℕ → List ℕ) → ℕ → ℕ → Option ℕ
fitting_level free_levels zero level = none
fitting_level free_levels (suc left) level =
    unless_empty (free_levels level) level (fitting_level free_levels left (suc level))

-- `while (level > expected_level)`, with the levels that it goes down
pub split_blocks : ℕ → ℕ → ℕ → Page → Page
split_blocks h expected_level zero p = p
split_blocks h expected_level (suc down) p =
    split_blocks h expected_level down
      (register_as_free p (find_buddy h (expected_level + down)) (expected_level + down))

-- What `allocate` comes to: a chain beyond the top level is read, it throws, or it returns a block.
pub data Allocated : Type 0 where
  out_of_range : Allocated
  out_of_memory : Allocated
  allocated : ℕ → Page → Allocated

-- `allocate` from the search on: at the head of the chain that is found
pub allocate_at : Page → ℕ → ℕ → List ℕ → Allocated
allocate_at p expected_level level [] = out_of_memory
allocate_at p expected_level level (h ∷ chain) =
    allocated h
      (split_blocks h expected_level (level - expected_level) (register_as_used p h expected_level))

pub allocate_found : Page → ℕ → Option ℕ → Allocated
allocate_found p expected_level none = out_of_memory
allocate_found p expected_level (some level) =
    allocate_at p expected_level level (p.free_levels level)

pub allocate_level : Page → ℕ → Allocated
allocate_level p expected_level =
    if ltb p.top_level expected_level
    then out_of_range
    else allocate_found p expected_level
        (fitting_level p.free_levels (suc p.top_level - expected_level) expected_level)

-- `next_pow_2`, on 64 bits
abbrev pub next_pow_2 : ℕ → ℕ
next_pow_2 v =
    let v1 = bit_or v (v / 2) in
    let v2 = bit_or v1 (v1 / 4) in
    let v4 = bit_or v2 (v2 / 16) in
    let v8 = bit_or v4 (v4 / 2 ^ 8) in
    let v16 = bit_or v8 (v8 / 2 ^ 16) in (bit_or v16 (v16 / 2 ^ 32) + 1) % 2 ^ 64

-- `level_of` a power of two, 32 at least
abbrev pub level_of : ℕ → ℕ
level_of length = bit_length 64 length - 1 - 5

-- `allocate`; a header has 16 bytes.
pub allocate : Page → ℕ → Allocated
allocate p len = allocate_level p (level_of (next_pow_2 ((len + 16) % 2 ^ 64)))

-- The loop of `free`: the level is below the top, and `left` levels are; the block and the level
-- that it ends at
pub merge : ℕ → ℕ → ℕ → Page → Page
merge zero h level p = register_as_free p h level
merge (suc left) h level p =
    let buddy = find_buddy h level in
    let merged =
      merge left (if ltb buddy h then buddy else h) (suc level) (register_as_used p buddy level) in
    if (p.headers buddy).free && ((p.headers buddy).level == level)
    then merged
    else register_as_free p h level

-- `free`
pub free : Page → ℕ → Page
free p h = let level = (p.headers h).level in merge (p.top_level - level) h level p
