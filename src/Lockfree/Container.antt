-- ===== src/Lockfree/Container.antt =====
-- `lf::stack` of lockfree_stack.h as one thread uses it: the list of nodes with values, the size, and
-- the collector of the nodes that have been popped.
pub mod Laws
pub mod Kept
use prototype_bundle.Prelude.{
  ℕ, zero, suc, ◌+◌, ◌-◌, ◌%◌, ◌^◌, Bool, not, ◌&&◌, ◌==◌, if◌then◌else◌, Option, none, some, List,
  [], ◌∷◌, ◌++◌,
}
use prototype_bundle.Binalloc.Stack.{nullptr, NextFields, write, find_tail}

pub record Container {ℓ} (A : Type ℓ) : Type ℓ where
  pub links : NextFields
  pub values : ℕ → Option A
  pub top_node : ℕ
  pub stack_size : ℕ
  pub collection_head : ℕ
  pub critical_clients : ℕ
  pub deleted : List ℕ

-- The loop of `try_collect`: the nodes it deletes, for as many rounds as `fuel`
unfoldable pub delete_nodes : ℕ → NextFields → ℕ → List ℕ
delete_nodes zero links collectable = []
delete_nodes (suc fuel) links collectable =
    let rest = delete_nodes fuel links (links collectable) in
    if collectable == nullptr then [] else collectable ∷ rest

module _ {ℓ} {A : Type ℓ} where
  abbrev pub with_value : (ℕ → Option A) → ℕ → Option A → ℕ → Option A
  with_value values node value at = if at == node then value else values at

  abbrev pub empty : Container A → Bool
  empty c = c.top_node == nullptr

  -- `push` and `emplace`, with the node that `allocate` gives
  abbrev pub push_value : Container A → ℕ → A → Container A
  push_value c new_node value = record {
    links = write c.links new_node c.top_node;
    values = with_value c.values new_node (some value);
    top_node = new_node;
    stack_size = (c.stack_size + 1) % 2 ^ 64;
    collection_head = c.collection_head;
    critical_clients = c.critical_clients;
    deleted = c.deleted;
  }

  -- `collector::guard`, and the end of its life
  abbrev pub with_clients : Container A → ℕ → Container A
  with_clients c clients = record {
    links = c.links;
    values = c.values;
    top_node = c.top_node;
    stack_size = c.stack_size;
    collection_head = c.collection_head;
    critical_clients = clients;
    deleted = c.deleted;
  }

  -- `collector::push` of a chain; a node alone is its own first and last.
  abbrev pub collect : Container A → ℕ → ℕ → Container A
  collect c rec_head rec_tail = record {
    links = write c.links rec_tail c.collection_head;
    values = c.values;
    top_node = c.top_node;
    stack_size = c.stack_size;
    collection_head = rec_head;
    critical_clients = c.critical_clients;
    deleted = c.deleted;
  }

  -- The compare and swap may fail for no reason.
  unfoldable pub try_collect : Bool → ℕ → Container A → Container A
  try_collect fails fuel c =
      if (c.critical_clients == 1) && not fails
      then record {
        links = c.links;
        values = c.values;
        top_node = c.top_node;
        stack_size = c.stack_size;
        collection_head = nullptr;
        critical_clients = c.critical_clients;
        deleted = c.deleted ++ delete_nodes fuel c.links c.collection_head;
      }
      else c

  -- `stack_impl::pop`: the size goes down first.
  unfoldable pub unhook : Container A → ℕ × Container A
  unhook c =
      let old_head = c.top_node in
      (
        old_head,
        record {
          links = c.links;
          values = c.values;
          top_node = if old_head == nullptr then nullptr else c.links old_head;
          stack_size = (c.stack_size + 2 ^ 64 - 1) % 2 ^ 64;
          collection_head = c.collection_head;
          critical_clients = c.critical_clients;
          deleted = c.deleted;
        },
      )

  -- The value moved out of a node, which goes to the collector with none
  abbrev pub move_out : ℕ → Container A → Option A × Container A
  move_out unhooked c = if unhooked == nullptr then (none, c) else (
    c.values unhooked,
    collect
        (record {
          links = c.links;
          values = with_value c.values unhooked none;
          top_node = c.top_node;
          stack_size = c.stack_size;
          collection_head = c.collection_head;
          critical_clients = c.critical_clients;
          deleted = c.deleted;
        })
        unhooked unhooked,
  )

  unfoldable pub pop_value : Bool → ℕ → Container A → Option A × Container A
  pop_value fails fuel c =
      let unhooked = unhook (with_clients c (c.critical_clients + 1)) in
      let moved = move_out unhooked.0 unhooked.1 in
      let collected = try_collect fails fuel moved.1 in
      (moved.0, with_clients collected (collected.critical_clients - 1))

  -- `clear`, which the destructor calls
  unfoldable pub clear : Bool → ℕ → Container A → Container A
  clear fails fuel c =
      let guarded = with_clients c (c.critical_clients + 1) in
      let detached_list = guarded.top_node in
      let detached : Container A = record {
        links = c.links;
        values = c.values;
        top_node = nullptr;
        stack_size = c.stack_size;
        collection_head = c.collection_head;
        critical_clients = c.critical_clients + 1;
        deleted = c.deleted;
      } in
      let pushed =
        if detached_list == nullptr
        then detached
        else collect detached detached_list (find_tail fuel c.links detached_list) in
      let collected = try_collect fails fuel pushed in
      with_clients collected (collected.critical_clients - 1)
