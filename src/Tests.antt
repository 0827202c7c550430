-- ===== src/Tests.antt =====
-- Concrete inputs: each theorem at an input that meets its hypotheses, and runs of the code.
mod Block
mod Hash
mod Lists
mod Sched
mod Slob
mod Pages
mod Front
mod Roots
mod Registry
mod Tree
mod Profile
mod Main
