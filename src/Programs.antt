-- ===== src/Programs.antt =====
-- The small programs: lockfree_stack_run.cpp, console_input.cpp and static_initializer_list.cpp.
pub mod StackRun
pub mod Console
pub mod StaticList
mod Tests
