-- ===== src/Lessons.antt =====
-- The programs of the lessons: Linux_kernel/Lesson 6 (MyModule) and Linux_kernel/Lesson 12 (the others).
pub mod MyModule
pub mod Arrays
pub mod SortList
pub mod BsearchList
pub mod Objects
pub mod Examples
