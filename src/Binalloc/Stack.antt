-- ===== src/Binalloc/Stack.antt =====
-- The intrusive stack of benchmarks/binalloc/stack.h: a head and the `next` members of the nodes, by
-- their addresses, where 0 is `nullptr`.
pub mod Chain
pub mod Laws
pub mod Format
use prototype_bundle.Prelude.{
  ℕ, zero, suc, ◌+◌, ◌-◌, ◌*◌, ◌/◌, Bool, true, false, ltb, ◌==◌, if◌then◌else◌,
}

abbrev pub nullptr : ℕ
nullptr = 0

-- The `next` member of the node at each address
abbrev pub NextFields : Type 0
NextFields = ℕ → ℕ

unfoldable pub write : NextFields → ℕ → ℕ → NextFields
write next node value at = if at == node then value else next at

pub record Stack : Type 0 where
  pub next : NextFields
  pub head : ℕ

-- `push`; `bin_cache`, `page_meta::free`, `cluster_meta::free` and `cluster_cache::push` do the same.
abbrev pub push : Stack → ℕ → Stack
push s node_ptr = record { next = write s.next node_ptr s.head; head = node_ptr }

abbrev pub insert_at_head : Stack → ℕ → ℕ → Stack
insert_at_head s first last = record { next = write s.next last s.head; head = first }

-- `pop`: the node and the stack after
unfoldable pub pop : Stack → ℕ × Stack
pop s =
    let old_head = s.head in
    (old_head, if old_head == nullptr then s else record { next = s.next; head = s.next old_head })

-- `compare_and_swap_strong` on the head of a stack
unfoldable pub compare_and_swap_strong : Stack → ℕ → ℕ → Bool × Stack
compare_and_swap_strong s expected desired =
    if s.head == expected then (true, record { next = s.next; head = desired }) else (false, s)

unfoldable pub atomic_pop_expected : Stack → ℕ → Bool × Stack
atomic_pop_expected s expected =
    if expected == nullptr then (false, s) else compare_and_swap_strong s expected (s.next expected)

-- `atomic_detach`
abbrev pub atomic_detach : Stack → ℕ × Stack
atomic_detach s = (s.head, record { next = s.next; head = nullptr })

-- The loop of `find_tail`, for as many rounds as `fuel`
unfoldable pub find_tail_loop : ℕ → NextFields → ℕ → ℕ → ℕ
find_tail_loop zero next tail head = tail
find_tail_loop (suc fuel) next tail head =
    let rest = find_tail_loop fuel next head (next head) in if head == nullptr then tail else rest

abbrev pub find_tail : ℕ → NextFields → ℕ → ℕ
find_tail fuel next head = find_tail_loop fuel next nullptr head

-- The loop of `format_stack`, from `cursor` to `last`. The `next` of each node is a cell of its own, as
-- in the source for a stride of the size of a node or more.
unfoldable pub format_loop : ℕ → NextFields → ℕ → ℕ → ℕ → NextFields
format_loop zero next cursor last stride = next
format_loop (suc fuel) next cursor last stride =
    let rest =
      format_loop fuel (write next cursor (cursor + stride)) (cursor + stride) last stride in
    if ltb cursor last then rest else next

-- `format_stack` of `size` bytes at `buffer`; `size` bounds the rounds of its loop.
unfoldable pub format_stack : NextFields → ℕ → ℕ → ℕ → Stack
format_stack next buffer size stride =
    let last = buffer + stride * (size / stride - 1) in
    if ltb size stride then record { next = next; head = nullptr } else record {
      next = write (format_loop size next buffer last stride) last nullptr;
      head = buffer;
    }
