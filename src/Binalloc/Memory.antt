-- ===== src/Binalloc/Memory.antt =====
-- The members of the objects of benchmarks/binalloc (`link`, `page_meta` of page.h, `cluster_meta` of
-- cluster.h), by the address of the object. `next` is the first member of all three.
use prototype_bundle.Prelude.{ℕ, ◌==◌, ◌&&◌, if◌then◌else◌}

pub data Field : Type 0 where
  link_next : Field
  page_prev : Field
  page_free_list : Field
  page_used : Field
  page_bin_index : Field
  page_is_tethered : Field
  cluster_free_list : Field
  cluster_used : Field
  cluster_state : Field

abbrev pub field_number : Field → ℕ
field_number link_next = 0
field_number page_prev = 1
field_number page_free_list = 2
field_number page_used = 3
field_number page_bin_index = 4
field_number page_is_tethered = 5
field_number cluster_free_list = 6
field_number cluster_used = 7
field_number cluster_state = 8

abbrev pub Memory : Type 0
Memory = Field → ℕ → ℕ

abbrev pub store : Memory → Field → ℕ → ℕ → Memory
store m field object value f at =
    if field_number f == field_number field && at == object then value else m f at

-- A memory with other `next` members
abbrev pub with_next : Memory → (ℕ → ℕ) → Memory
with_next m next f at = if field_number f == 0 then next at else m f at

-- `enum struct cluster_state : uint8_t`
abbrev pub unused : ℕ
unused = 0

abbrev pub in_use : ℕ
in_use = 1

abbrev pub untethered : ℕ
untethered = 2
